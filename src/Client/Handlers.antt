-- ===== src/Client/Handlers.antt =====
-- common/connectionmanager.cpp: the table of handlers and the control queue under each operation.
use zmq_pubsub_testing.Base.{
  ℕ, suc, ◌+◌, ◌≤◌, ◌≡◌, refl, ap, ◌∙◌, sym, Bytes, Bool, true, false, not, ◌&&◌, ◌||◌, List, [],
  ◌∷◌, ◌++◌, Option, is_some, is_empty, Option-cases, inl, inr, text_eq, if◌then◌else◌, arith, ltb,
  length, length-append, append_assoc, append-nil,
}
use zmq_pubsub_testing.Base.Maps.{Map, find, find-assign, find-erase}
use zmq_pubsub_testing.Keys
use zmq_pubsub_testing.Keys.{is_control_message}
use zmq_pubsub_testing.SafeQueue.{push_for}
use zmq_pubsub_testing.Wire.{Envelope}
use zmq_pubsub_testing.Worker.{Worker, write_control}
use zmq_pubsub_testing.Client.{
  Manager, CallbackEntry, entries, control_envelope, envelope_of, send_raw_envelope,
  perform_registration, perform_unregistration, without_instance, keep_or_unsubscribe,
  subscribe_each,
}

-- Has a topic a handler?
abbrev pub has : {F : Type 0} → Manager F → Bytes → Bool
has m t = is_some (find t m.msg_handlers)

-- The control queue takes `n` more envelopes.
pub record Room (n : ℕ) (w : Worker) : Type 0 where
  pub free : length w.control.items + n ≤ w.control.max_size
  pub open_queue : w.control.stopped ≡ false

pub Room-le : {n k : ℕ} {w : Worker} → Room n w → k ≤ n → Room k w
Room-le r h = record { free = omega (arith, r.free, h); open_queue = r.open_queue }

pub send_control :
    (n : ℕ) (w : Worker) (env : Envelope)
    → is_control_message env.header.handler_key ≡ true
    → Room (suc n) w
    → ((send_raw_envelope w env).0.control.items ≡ w.control.items ++ env ∷ [])
      × Room n (send_raw_envelope w env).0
unfolding send_raw_envelope write_control push_for
send_control n w env c r =
    let e : ltb (length w.control.items) w.control.max_size ≡ true = ground (arith, r.free) in
    rw (send_raw_envelope, c, e, r.open_queue)
      (
        refl,
        record {
          free = omega (arith, r.free, length-append w.control.items (env ∷ []));
          open_queue = refl;
        },
      )

subscribe_control : is_control_message Keys.subscribe ≡ true
unfolding is_control_message
subscribe_control = ground arith

unsubscribe_control : is_control_message Keys.unsubscribe ≡ true
unfolding is_control_message
unsubscribe_control = ground arith

pub connect_control : is_control_message Keys.connect ≡ true
unfolding is_control_message
connect_control = ground arith

-- What the loops over the handlers send.
abbrev pub announcements : {V : Type 0} → Bytes → Map V → List Envelope
announcements client_id [] = []
announcements client_id ((topic, v) ∷ rest) =
    envelope_of client_id Keys.subscribe topic [] ∷ announcements client_id rest

module _ {F : Type 0} where
  pub has-perform_registration :
      (m : Manager F) (w : Worker) (key : Bytes) (callback : Option F) (k : ℕ) (t : Bytes)
      → has (perform_registration m w key callback k).0 t ≡ (text_eq key t || has m t)
  unfolding perform_registration
  has-perform_registration m w key callback k t =
      let entry : CallbackEntry F = record { instance_key = k; func = callback } in
      ground
        (arith, find-assign key t (entries (find key m.msg_handlers) ++ entry ∷ []) m.msg_handlers)

  -- Does unregistering take the topic away?
  abbrev pub frees : Manager F → Bytes → ℕ → Bool
  frees m key k = has m key && is_empty (without_instance k (entries (find key m.msg_handlers)))

  keep-has :
      (m : Manager F) (w : Worker) (key : Bytes) (l : List (CallbackEntry F)) (t : Bytes)
      → has m key ≡ true
      → has (keep_or_unsubscribe m w key l).0 t ≡ (not (is_empty l && text_eq key t) && has m t)
  keep-has m w key [] t h = ground (arith, find-erase key t m.msg_handlers)
  keep-has m w key (e ∷ l) t h = ground (arith, find-assign key t (e ∷ l) m.msg_handlers)

  pub has-perform_unregistration :
      (m : Manager F) (w : Worker) (key : Bytes) (k : ℕ) (t : Bytes)
      → has (perform_unregistration m w key k).0 t
        ≡ (not (frees m key k && text_eq key t) && has m t)
  unfolding perform_unregistration
  has-perform_unregistration m w key k t = elim (Option-cases (find key m.msg_handlers)) [
    | inl e ↦ rw (perform_unregistration, e) (ground arith)
    | inr (l, e) ↦
        rw (perform_unregistration, e)
          (keep-has m w key (without_instance k l) t (ground (arith, e)) ∙ ground (arith, e))
  ]

  pub perform_registration-control :
      (n : ℕ) (m : Manager F) (w : Worker) (key : Bytes) (callback : Option F) (k : ℕ)
      → m.connected ≡ true
      → Room (suc n) w
      → ((perform_registration m w key callback k).1.control.items
          ≡ w.control.items ++ envelope_of m.client_id Keys.subscribe key [] ∷ [])
        × Room n (perform_registration m w key callback k).1
  unfolding perform_registration
  perform_registration-control n m w key callback k on r =
      rw on (send_control n w (control_envelope m Keys.subscribe key) subscribe_control r)

  pub subscribe_each-control :
      (n : ℕ) (id : Bytes) (l : Map (List (CallbackEntry F))) (w : Worker)
      → Room (length l + n) w
      → ((subscribe_each id l w).control.items ≡ w.control.items ++ announcements id l)
        × Room n (subscribe_each id l w)
  unfolding subscribe_each
  subscribe_each-control n id [] w r = (sym (append-nil w.control.items), Room-le r (omega arith))
  subscribe_each-control n id ((topic, v) ∷ l) w r =
      let env = envelope_of id Keys.subscribe topic [] in
      let one = send_control (length l + n) w env subscribe_control (Room-le r (omega arith)) in
      let rest = subscribe_each-control n id l (send_raw_envelope w env).0 one.1 in
      (
        rest.0
            ∙ ap (λ x. x ++ announcements id l) one.0
            ∙ append_assoc w.control.items (env ∷ []) (announcements id l),
        rest.1,
      )

  keep-control :
      (n : ℕ) (m : Manager F) (w : Worker) (key : Bytes) (l : List (CallbackEntry F))
      → m.connected ≡ true
      → Room (suc n) w
      → ((keep_or_unsubscribe m w key l).1.control.items ≡ (
          if is_empty l
          then w.control.items ++ envelope_of m.client_id Keys.unsubscribe key [] ∷ []
          else w.control.items))
        × Room n (keep_or_unsubscribe m w key l).1
  keep-control n m w key [] on r =
      rw on (send_control n w (control_envelope m Keys.unsubscribe key) unsubscribe_control r)
  keep-control n m w key (e ∷ l) on r = (refl, Room-le r (omega arith))

  pub perform_unregistration-control :
      (n : ℕ) (m : Manager F) (w : Worker) (key : Bytes) (k : ℕ)
      → m.connected ≡ true
      → Room (suc n) w
      → ((perform_unregistration m w key k).1.control.items ≡ (
          if frees m key k
          then w.control.items ++ envelope_of m.client_id Keys.unsubscribe key [] ∷ []
          else w.control.items))
        × Room n (perform_unregistration m w key k).1
  unfolding perform_unregistration
  perform_unregistration-control n m w key k on r = elim (Option-cases (find key m.msg_handlers)) [
    | inl e ↦ rw (perform_unregistration, e) (refl, Room-le r (omega arith))
    | inr (l, e) ↦
        rw (perform_unregistration, e) (keep-control n m w key (without_instance k l) on r)
  ]
