-- ===== src/Client/Conversation.antt =====
-- common/connectionmanager.cpp, common/zmqworker.cpp and server/zmqbroker.cpp: a client and its
-- broker from the moment at which the client comes online, with everything else that the broker
-- hears in between.
use zmq_pubsub_testing.Base.{
  ℕ, suc, ◌≡◌, ◌≢◌, refl, ap, ◌∙◌, sym, Bytes, true, false, List, [], ◌∷◌, ◌++◌, Option, is_some,
  arith, length,
}
use zmq_pubsub_testing.Base.Maps.{find}
use zmq_pubsub_testing.Keys
use zmq_pubsub_testing.Keys.{is_control_message}
use zmq_pubsub_testing.Registry.Refinement.{subscribed}
use zmq_pubsub_testing.Wire.{Header, Envelope, Codec}
use zmq_pubsub_testing.Broker.{Broker, process_message, is_connected}
use zmq_pubsub_testing.Broker.Effects.{own-subscribed, other-subscribed, peer-tables}
use zmq_pubsub_testing.Worker.{Worker}
use zmq_pubsub_testing.Client.{
  Manager, control_envelope, send_raw_envelope, perform_registration, perform_unregistration,
  resubscribe_all, status_handler,
}
use zmq_pubsub_testing.Client.Handlers.{
  has, Room, Room-le, announcements, send_control, connect_control, subscribe_each-control,
}
use zmq_pubsub_testing.Client.Agreement.{
  arrived, arrived-announcements, announcements-Stays, Agrees, registers-Agrees, unregisters-Agrees,
  resubscribes-Agrees, delivers-Agrees,
}

pub record Conversation (F : Type 0) : Type 0 where
  pub broker : Broker
  pub manager : Manager F
  pub worker : Worker

-- The client registers and unregisters, answers a RESET, and its worker sends from the control
-- queue; it sends data; other clients and the peers send whatever they like.
pub data Step {F : Type 0} (c : Bytes) (s : Conversation F) : Conversation F → Type 0 where
  registers :
      (key : Bytes) (callback : Option F) (k : ℕ)
      → Room 1 s.worker
      → Step c s (record {
        broker = s.broker;
        manager = (perform_registration s.manager s.worker key callback k).0;
        worker = (perform_registration s.manager s.worker key callback k).1;
      })
  unregisters :
      (key : Bytes) (k : ℕ)
      → Room 1 s.worker
      → Step c s (record {
        broker = s.broker;
        manager = (perform_unregistration s.manager s.worker key k).0;
        worker = (perform_unregistration s.manager s.worker key k).1;
      })
  resubscribes :
      Room (length s.manager.msg_handlers) s.worker
      → Step c s (record s { worker = resubscribe_all s.manager s.worker })
  delivers :
      (codec : Codec) (now : ℕ) (fresh : Bytes) (e : Envelope) (es : List Envelope)
      → s.worker.control.items ≡ e ∷ es
      → Step c s (record s {
        broker = (process_message codec now fresh s.broker e.header e.payload c false).0;
        worker = record (s.worker) { control = record (s.worker.control) { items = es } };
      })
  speaks :
      (codec : Codec) (now : ℕ) (fresh : Bytes) (h : Header) (payload : Bytes)
      → is_control_message h.handler_key ≡ false
      → Step c s
          (record s { broker = (process_message codec now fresh s.broker h payload c false).0 })
  others :
      (codec : Codec) (now : ℕ) (fresh : Bytes) (h : Header) (payload sender : Bytes)
      → sender ≢ c
      → Step c s (record s {
        broker = (process_message codec now fresh s.broker h payload sender false).0;
      })
  peers :
      (codec : Codec) (now : ℕ) (fresh : Bytes) (h : Header) (payload sender : Bytes)
      → Step c s
          (record s { broker = (process_message codec now fresh s.broker h payload sender true).0 })

pub data Reach {F : Type 0} (c : Bytes) (s : Conversation F) : Conversation F → Type 0 where
  here : Reach c s s
  next : {t u : Conversation F} → Reach c s t → Step c t u → Reach c s u

-- The broker has just entered the client, and the client has sent nothing since.
pub record Fresh {F : Type 0} (c : Bytes) (s : Conversation F) : Type 0 where
  pub entered : is_connected s.broker c ≡ true
  pub none_yet : (t : Bytes) → subscribed s.broker.subscriptions c t ≡ false
  pub unsent : s.worker.control.items ≡ []
  pub room : Room (suc (length s.manager.msg_handlers)) s.worker

-- The client comes online.
abbrev pub comes_online : {F : Type 0} → Conversation F → Conversation F
comes_online s =
    let (m, w) = status_handler true s.manager s.worker in
    record { broker = s.broker; manager = m; worker = w }

speaks-same :
    (c : Bytes) (codec : Codec) (now : ℕ) (fresh : Bytes) (b : Broker) (h : Header)
    (payload t : Bytes)
    → is_connected b c ≡ true
    → is_control_message h.handler_key ≡ false
    → let b' = (process_message codec now fresh b h payload c false).0 in
      (subscribed b'.subscriptions c t ≡ subscribed b.subscriptions c t)
      × (is_connected b' c ≡ is_connected b c)
unfolding is_control_message
speaks-same c codec now fresh b h payload t entered plain =
    ground (arith, own-subscribed codec now fresh b h payload c t entered)

module _ {F : Type 0} (c : Bytes) where
  -- The broker hears a message that says nothing of the client's subscriptions.
  heard-Agrees :
      (b b' : Broker) (m : Manager F) (w : Worker)
      → ((t : Bytes)
          → (subscribed b'.subscriptions c t ≡ subscribed b.subscriptions c t)
            × (is_connected b' c ≡ is_connected b c))
      → Agrees c b m w
      → Agrees c b' m w
  heard-Agrees b b' m w same a = record {
    online = a.online;
    entered = (same []).1 ∙ a.entered;
    stays = a.stays;
    topics = λ t. ap (arrived w.control.items t) (same t).0 ∙ a.topics t;
  }

  Step-Agrees :
      {s t : Conversation F}
      → Step c s t
      → Agrees c s.broker s.manager s.worker
      → Agrees c t.broker t.manager t.worker
  Step-Agrees {s} (registers key callback k room) a =
      registers-Agrees c s.broker s.manager s.worker key callback k room a
  Step-Agrees {s} (unregisters key k room) a =
      unregisters-Agrees c s.broker s.manager s.worker key k room a
  Step-Agrees {s} (resubscribes room) a = resubscribes-Agrees c s.broker s.manager s.worker room a
  Step-Agrees {s} (delivers codec now fresh e es front) a =
      delivers-Agrees codec now fresh c s.broker s.manager s.worker e es front a
  Step-Agrees {s} (speaks codec now fresh h payload plain) a =
      heard-Agrees s.broker _ s.manager s.worker
        (λ t. speaks-same c codec now fresh s.broker h payload t a.entered plain) a
  Step-Agrees {s} (others codec now fresh h payload sender differ) a =
      heard-Agrees s.broker _ s.manager s.worker
        (λ t. other-subscribed codec now fresh s.broker h payload sender c t differ) a
  Step-Agrees {s} (peers codec now fresh h payload sender) a =
      let same = peer-tables codec now fresh s.broker h payload sender in
      heard-Agrees s.broker _ s.manager s.worker
        (λ t. (ap (λ r. subscribed r c t) same.0, ap (λ l. is_some (find c l)) same.1)) a

  comes_online-Agrees :
      (s : Conversation F)
      → Fresh c s
      → let t = comes_online s in Agrees c t.broker t.manager t.worker
  unfolding status_handler arrived
  comes_online-Agrees s f =
      let m = s.manager in
      let greeting = control_envelope m Keys.connect [] in
      let one = send_control (length m.msg_handlers) s.worker greeting connect_control f.room in
      let w1 = (send_raw_envelope s.worker greeting).0 in
      let rest =
        subscribe_each-control 0 m.client_id m.msg_handlers w1 (Room-le one.1 (omega arith)) in
      let sent =
        rest.0
        ∙ ap (λ l. l ++ announcements m.client_id m.msg_handlers)
            (one.0 ∙ ap (λ l. l ++ greeting ∷ []) f.unsent) in
      record {
        online = refl;
        entered = f.entered;
        stays =
            rw sent (Keys.connect-ne-disconnect, announcements-Stays m.client_id m.msg_handlers);
        topics = λ t. rw sent (
            arrived-announcements m.client_id m.msg_handlers t _
            ∙ ground (arith, f.none_yet t, Keys.subscribe-ne-connect, Keys.unsubscribe-ne-connect));
      }

  Reach-Agrees :
      {s t : Conversation F}
      → Fresh c s
      → Reach c (comes_online s) t
      → Agrees c t.broker t.manager t.worker
  Reach-Agrees {s} f here = comes_online-Agrees s f
  Reach-Agrees f (next r step) = Step-Agrees step (Reach-Agrees f r)

  -- A client comes online at a broker that has just entered it. Then it registers and unregisters
  -- callbacks and answers resets, each with room in its control queue, its worker sends the
  -- control queue message by message to the broker, and the client's data, other clients and
  -- peers come in between in any order. Whenever the control queue is empty, the broker holds a
  -- subscription of the client for exactly the topics that have a callback.
  pub subscribed-settled :
      {s t : Conversation F} (topic : Bytes)
      → Fresh c s
      → Reach c (comes_online s) t
      → t.worker.control.items ≡ []
      → subscribed t.broker.subscriptions c topic ≡ has t.manager topic
  unfolding arrived
  subscribed-settled {s} {t} topic f r settled =
      let a = Reach-Agrees f r in
      ap (λ l. arrived l topic (subscribed t.broker.subscriptions c topic)) (sym settled)
      ∙ a.topics topic
