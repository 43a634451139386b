-- ===== src/Client/Agreement.antt =====
-- common/connectionmanager.cpp and server/zmqbroker.cpp: a client's handlers and the subscriptions
-- that the broker holds for it, with the control messages that are on their way between them.
use zmq_pubsub_testing.Base.{
  ℕ, ◌≡◌, ◌≢◌, refl, ap, ◌∙◌, sym, subst, Bytes, Bool, true, false, ◌||◌, List, [], ◌∷◌, ◌++◌,
  Option, is_some, if◌then◌else◌, arith, length, All, All-append,
}
use zmq_pubsub_testing.Base.Maps.{Map, find}
use zmq_pubsub_testing.Keys
use zmq_pubsub_testing.Registry.Refinement.{subscribed}
use zmq_pubsub_testing.Wire.{Envelope, Codec}
use zmq_pubsub_testing.Broker.{Broker, process_message, is_connected}
use zmq_pubsub_testing.Broker.Effects.{says, own-subscribed}
use zmq_pubsub_testing.Worker.{Worker}
use zmq_pubsub_testing.Client.{
  Manager, envelope_of, perform_registration, perform_unregistration, resubscribe_all,
}
use zmq_pubsub_testing.Client.Handlers.{
  has, Room, Room-le, announcements, frees, has-perform_registration, has-perform_unregistration,
  perform_registration-control, perform_unregistration-control, subscribe_each-control,
}

-- Whether a topic is subscribed once the envelopes have arrived, in order.
unfoldable pub arrived : List Envelope → Bytes → Bool → Bool
arrived [] t now = now
arrived (e ∷ es) t now = arrived es t (says e.header.handler_key e.header.topic t now)

arrived-append :
    (xs ys : List Envelope) (t : Bytes) (now : Bool)
    → arrived (xs ++ ys) t now ≡ arrived ys t (arrived xs t now)
unfolding arrived
arrived-append [] ys t now = refl
arrived-append (e ∷ xs) ys t now =
    arrived-append xs ys t (says e.header.handler_key e.header.topic t now)

pub arrived-announcements :
    {V : Type 0} (id : Bytes) (m : Map V) (t : Bytes) (now : Bool)
    → arrived (announcements id m) t now ≡ (is_some (find t m) || now)
unfolding arrived find
arrived-announcements id [] t now = refl
arrived-announcements id ((k, v) ∷ m) t now =
    arrived-announcements id m t (says Keys.subscribe k t now) ∙ ground arith

-- The connected client never sends DISCONNECT.
abbrev pub Stays : Envelope → Type 0
Stays e = e.header.handler_key ≢ Keys.disconnect

pub announcements-Stays : {V : Type 0} (id : Bytes) (m : Map V) → All Stays (announcements id m)
announcements-Stays id [] = tt
announcements-Stays id ((t, v) ∷ m) = (Keys.subscribe-ne-disconnect, announcements-Stays id m)

module _ {F : Type 0} where
  -- The client is connected, on both sides, and when its control messages have arrived, the broker
  -- holds exactly the topics that have handlers.
  pub record Agrees (c : Bytes) (b : Broker) (m : Manager F) (w : Worker) : Type 0 where
    pub online : m.connected ≡ true
    pub entered : is_connected b c ≡ true
    pub stays : All Stays w.control.items
    pub topics : (t : Bytes) → arrived w.control.items t (subscribed b.subscriptions c t) ≡ has m t

  connected-perform_registration :
      (m : Manager F) (w : Worker) (key : Bytes) (callback : Option F) (k : ℕ)
      → (perform_registration m w key callback k).0.connected ≡ m.connected
  unfolding perform_registration
  connected-perform_registration m w key callback k = refl

  pub registers-Agrees :
      (c : Bytes) (b : Broker) (m : Manager F) (w : Worker) (key : Bytes) (callback : Option F)
      (k : ℕ)
      → Room 1 w
      → Agrees c b m w
      → let r = perform_registration m w key callback k in Agrees c b r.0 r.1
  unfolding arrived
  registers-Agrees c b m w key callback k room a =
      let sent = (perform_registration-control 0 m w key callback k a.online room).0 in
      let env = envelope_of m.client_id Keys.subscribe key [] in
      record {
        online = connected-perform_registration m w key callback k ∙ a.online;
        entered = a.entered;
        stays = rw sent (
            All-append Stays w.control.items (env ∷ []) a.stays (Keys.subscribe-ne-disconnect, tt));
        topics = λ t. rw sent (
            arrived-append w.control.items (env ∷ []) t (subscribed b.subscriptions c t)
            ∙ ground (arith, a.topics t, has-perform_registration m w key callback k t));
      }

  connected-perform_unregistration :
      (m : Manager F) (w : Worker) (key : Bytes) (k : ℕ)
      → (perform_unregistration m w key k).0.connected ≡ m.connected
  unfolding perform_unregistration
  connected-perform_unregistration m w key k = ground arith

  -- A control queue that may have got one envelope.
  grown :
      (c : Bytes) (b : Broker) (m m' : Manager F) (w w' : Worker) (test : Bool) (env : Envelope)
      → Agrees c b m w
      → m'.connected ≡ m.connected
      → Stays env
      → w'.control.items ≡ (if test then w.control.items ++ env ∷ [] else w.control.items)
      → ((t : Bytes)
          → has m' t
            ≡ (if test then says env.header.handler_key env.header.topic t (has m t) else has m t))
      → Agrees c b m' w'
  unfolding arrived
  grown c b m m' w w' true env a on stay sent agree = record {
    online = on ∙ a.online;
    entered = a.entered;
    stays = rw sent (All-append Stays w.control.items (env ∷ []) a.stays (stay, tt));
    topics = λ t. rw sent (
        arrived-append w.control.items (env ∷ []) t (subscribed b.subscriptions c t)
        ∙ ap (says env.header.handler_key env.header.topic t) (a.topics t)
        ∙ sym (agree t));
  }
  grown c b m m' w w' false env a on stay sent agree = record {
    online = on ∙ a.online;
    entered = a.entered;
    stays = rw sent a.stays;
    topics = λ t. rw sent (a.topics t ∙ sym (agree t));
  }

  pub unregisters-Agrees :
      (c : Bytes) (b : Broker) (m : Manager F) (w : Worker) (key : Bytes) (k : ℕ)
      → Room 1 w
      → Agrees c b m w
      → let r = perform_unregistration m w key k in Agrees c b r.0 r.1
  unregisters-Agrees c b m w key k room a =
      grown c b m _ w _ (frees m key k) (envelope_of m.client_id Keys.unsubscribe key []) a
        (connected-perform_unregistration m w key k) Keys.unsubscribe-ne-disconnect
        (perform_unregistration-control 0 m w key k a.online room).0
        (λ t. ground (arith, has-perform_unregistration m w key k t, Keys.unsubscribe-ne-subscribe))

  pub resubscribes-Agrees :
      (c : Bytes) (b : Broker) (m : Manager F) (w : Worker)
      → Room (length m.msg_handlers) w
      → Agrees c b m w
      → Agrees c b m (resubscribe_all m w)
  unfolding resubscribe_all
  resubscribes-Agrees c b m w room a =
      let sent =
        (subscribe_each-control 0 m.client_id m.msg_handlers w (Room-le room (omega arith))).0 in
      record {
        online = a.online;
        entered = a.entered;
        stays = rw sent (
            All-append Stays w.control.items _ a.stays
              (announcements-Stays m.client_id m.msg_handlers));
        topics = λ t. rw sent (
            arrived-append w.control.items (announcements m.client_id m.msg_handlers) t
              (subscribed b.subscriptions c t)
            ∙ arrived-announcements m.client_id m.msg_handlers t _
            ∙ ground (arith, a.topics t));
      }

  -- The worker sends the front of its control queue, and the broker processes that.
  pub delivers-Agrees :
      (codec : Codec) (now : ℕ) (fresh c : Bytes) (b : Broker) (m : Manager F) (w : Worker)
      (e : Envelope) (es : List Envelope)
      → w.control.items ≡ e ∷ es
      → Agrees c b m w
      → Agrees c
          (process_message codec now fresh b e.header e.payload c false).0
          m
          (record w { control = record (w.control) { items = es } })
  unfolding arrived
  delivers-Agrees codec now fresh c b m w e es front a =
      let stays : All Stays (e ∷ es) = subst (All Stays) front a.stays in
      let own =
        λ (t : Bytes). own-subscribed codec now fresh b e.header e.payload c t a.entered stays.0 in
      record {
        online = a.online;
        entered = (own []).1;
        stays = stays.1;
        topics = λ t.
            ap (arrived es t) (own t).0
            ∙ ap (λ l. arrived l t (subscribed b.subscriptions c t)) (sym front)
            ∙ a.topics t;
      }
