-- ===== src/Client/Asking.antt =====
-- common/connectionmanager.cpp: `sendRequest` as a whole. While it waits for the future, the
-- processing thread handles messages; the wait ends with the first that fulfils the promise, or with
-- the timeout, when there are no more.
use zmq_pubsub_testing.Base.{
  ℕ, ◌≡◌, refl, ap, ◌∙◌, sym, Bytes, Bool, false, ◌&&◌, ◌||◌, not, List, [], ◌∷◌, Option, none,
  some, text_eq, if◌then◌else◌, ◌==◌, arith, Bool-cases, inl, inr,
}
use zmq_pubsub_testing.Base.Maps.{find, find-erase}
use zmq_pubsub_testing.Keys
use zmq_pubsub_testing.Wire.{Envelope}
use zmq_pubsub_testing.Worker.{Worker}
use zmq_pubsub_testing.Client.{
  Manager, CallbackEntry, entries, call_entry, call_each, handle_message, process_envelope,
  begin_request, end_request,
}
use zmq_pubsub_testing.Client.Early.{handlers_of}
use zmq_pubsub_testing.Client.Requests.{
  begin_request-Serves, find-begin_request, perform_unregistration-Serves,
}
use zmq_pubsub_testing.Client.Session.{Process}

module _ {F : Type 0} where
  -- Is there a callback with this key, such as the promise's address?
  unfoldable pub has_instance : ℕ → List (CallbackEntry F) → Bool
  has_instance k [] = false
  has_instance k (e ∷ es) = let rest = has_instance k es in e.instance_key == k || rest

  -- The message calls the promise's callback.
  unfoldable pub fulfils : ℕ → Manager F → Envelope → Bool
  fulfils k m env =
      not (text_eq env.header.handler_key Keys.reset)
      && has_instance k (entries (find env.header.topic m.msg_handlers))

module _ {F : Type 0} (user : F → Bytes → Manager F → Worker → Manager F × Worker) where
  -- `wait_for`, over the messages that are handled until it ends.
  unfoldable pub wait_for :
      ℕ → List Envelope → Manager F → Worker → (Manager F × Worker) × Option Bytes
  wait_for k [] m w = ((m, w), none)
  wait_for k (env ∷ envs) m w =
      let (m', w') = process_envelope user env m w in
      let later = wait_for k envs m' w' in
      if fulfils k m env then ((m', w'), some env.payload) else later

  unfoldable pub send_request :
      Process F → Bytes → Bytes → Bytes → F → ℕ → List Envelope → Process F × Option Bytes
  send_request s topic reply_topic payload set_value promise_key handled = elim (s.manager) [
    | none ↦ (s, none)
    | some (m, w) ↦
        let (m1, w1) = begin_request m w topic reply_topic payload set_value promise_key in
        let ((m2, w2), reply) = wait_for promise_key handled m1 w1 in
        (record s { manager = some (end_request m2 w2 reply_topic promise_key) }, reply)
  ]

  -- The payload of the first message of a topic that is no RESET.
  unfoldable pub first_reply : Bytes → List Envelope → Option Bytes
  first_reply topic [] = none
  first_reply topic (env ∷ envs) =
      let later = first_reply topic envs in
      if not (text_eq env.header.handler_key Keys.reset) && text_eq topic env.header.topic
      then some env.payload
      else later

  -- The user's callbacks register and unregister nothing.
  module _
      (keeps : (f : F) (raw : Bytes) (m : Manager F) (w : Worker)
        → (user f raw m w).0.msg_handlers ≡ m.msg_handlers) where
    call_entry-keeps :
        (o : Option F) (raw : Bytes) (m : Manager F) (w : Worker)
        → (call_entry user o raw m w).0.msg_handlers ≡ m.msg_handlers
    call_entry-keeps none raw m w = refl
    call_entry-keeps (some f) raw m w = keeps f raw m w

    call_each-keeps :
        (es : List (CallbackEntry F)) (raw : Bytes) (m : Manager F) (w : Worker)
        → (call_each user es raw m w).0.msg_handlers ≡ m.msg_handlers
    unfolding call_each
    call_each-keeps [] raw m w = refl
    call_each-keeps (e ∷ es) raw m w =
        let r = call_entry user e.func raw m w in
        call_each-keeps es raw r.0 r.1 ∙ call_entry-keeps e.func raw m w

    process_envelope-keeps :
        (env : Envelope) (m : Manager F) (w : Worker)
        → (process_envelope user env m w).0.msg_handlers ≡ m.msg_handlers
    unfolding process_envelope handle_message
    process_envelope-keeps env m w =
        let es = entries (find env.header.topic m.msg_handlers) in
        let called =
          call_each-keeps es env.payload (record m { reply_topic = env.header.reply_topic }) w in
        elim (Bool-cases (text_eq env.header.handler_key Keys.reset)) [
          | inl reset ↦ rw reset refl
          | inr plain ↦ rw plain called
        ]

    -- While it waits, the promise's callback is the only one with its key.
    module _ (k : ℕ) (reply_topic : Bytes) where
      abbrev Awaits : Manager F → Type 0
      Awaits m =
          (t : Bytes) → has_instance k (entries (find t m.msg_handlers)) ≡ text_eq reply_topic t

      wait_for-reply :
          (envs : List Envelope) (m : Manager F) (w : Worker)
          → Awaits m
          → (wait_for k envs m w).1 ≡ first_reply reply_topic envs
      unfolding wait_for first_reply fulfils
      wait_for-reply [] m w a = refl
      wait_for-reply (env ∷ envs) m w a =
          let r = process_envelope user env m w in
          let a' : Awaits r.0 = λ t.
            ap (λ h. has_instance k (entries (find t h))) (process_envelope-keeps env m w) ∙ a t in
          ground (arith, a env.header.topic, wait_for-reply envs r.0 r.1 a')

      wait_for-keeps :
          (envs : List Envelope) (m : Manager F) (w : Worker)
          → (wait_for k envs m w).0.0.msg_handlers ≡ m.msg_handlers
      unfolding wait_for
      wait_for-keeps [] m w = refl
      wait_for-keeps (env ∷ envs) m w =
          let r = process_envelope user env m w in
          ground (arith, process_envelope-keeps env m w, wait_for-keeps envs r.0 r.1)

    begun-Awaits :
        (m : Manager F) (w : Worker) (topic reply_topic payload : Bytes) (set_value : F) (k : ℕ)
        → find reply_topic m.msg_handlers ≡ none
        → ((t : Bytes) → has_instance k (entries (find t m.msg_handlers)) ≡ false)
        → Awaits k reply_topic (begin_request m w topic reply_topic payload set_value k).0
    unfolding has_instance
    begun-Awaits m w topic reply_topic payload set_value k fresh alone t =
        elim (Bool-cases (text_eq reply_topic t)) [
          | inl same ↦
              let served = begin_request-Serves m w topic reply_topic payload set_value k fresh in
              let agree : reply_topic ≡ t = ground (arith, same) in
              let asked = begin_request m w topic reply_topic payload set_value k in
              ap (λ u. has_instance k (entries (find u asked.0.msg_handlers))) (sym agree)
              ∙ ap (λ o. has_instance k (entries o)) served
              ∙ ground (arith, same)
          | inr other ↦
              ap (λ o. has_instance k (entries o))
                (find-begin_request m w topic reply_topic payload t set_value k other)
              ∙ alone t
              ∙ sym other
        ]

    -- If the user's callbacks register and unregister nothing, the process has a manager, the
    -- reply topic of a request has no handler and no callback has the promise's key, then
    -- sendRequest, over the messages that are handled while it waits, gives the payload of the
    -- first of them that has the reply topic and is no RESET, and nothing if there is none; and
    -- behind it each topic has the handlers that it had before.
    pub send_request_lem :
        (s : Process F) (m : Manager F) (w : Worker) (topic reply_topic payload t : Bytes)
        (set_value : F) (k : ℕ) (handled : List Envelope)
        → s.manager ≡ some (m, w)
        → find reply_topic m.msg_handlers ≡ none
        → ((t : Bytes) → has_instance k (entries (find t m.msg_handlers)) ≡ false)
        → let r = send_request s topic reply_topic payload set_value k handled in
          (r.1 ≡ first_reply reply_topic handled)
          × (handlers_of r.0 t ≡ entries (find t m.msg_handlers))
    unfolding send_request handlers_of end_request
    send_request_lem s m w topic reply_topic payload t set_value k handled here fresh alone =
        let asked = begin_request m w topic reply_topic payload set_value k in
        let waited = (wait_for k handled asked.0 asked.1).0 in
        let kept = wait_for-keeps k reply_topic handled asked.0 asked.1 in
        let served =
          ap (find reply_topic) kept
          ∙ begin_request-Serves m w topic reply_topic payload set_value k fresh in
        (
          rw (send_request, here)
              (wait_for-reply k reply_topic handled asked.0 asked.1
                (begun-Awaits m w topic reply_topic payload set_value k fresh alone)),
          rw (send_request, here)
              (ap (λ h. entries (find t h))
                  (perform_unregistration-Serves waited.0 waited.1 reply_topic set_value k served)
                ∙ ground (
                  arith,
                  fresh,
                  find-erase reply_topic t waited.0.msg_handlers,
                  ap (find t) kept,
                  find-begin_request m w topic reply_topic payload t set_value k,
                )),
        )
