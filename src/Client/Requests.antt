-- ===== src/Client/Requests.antt =====
-- common/connectionmanager.cpp: a request, its reply, and the table of handlers behind it.
use zmq_pubsub_testing.Base.{
  ℕ, ◌<◌, ◌≡◌, ◌≢◌, refl, ap, ◌∙◌, Bytes, true, false, [], ◌∷◌, ◌++◌, Option, none, some, is_empty,
  text_eq, arith, length, ltb, ◌==◌,
}
use zmq_pubsub_testing.Base.Maps.{find, erase, find-assign, find-erase}
use zmq_pubsub_testing.Keys
use zmq_pubsub_testing.Keys.{is_control_message}
use zmq_pubsub_testing.SafeQueue.{push_for}
use zmq_pubsub_testing.Wire.{Envelope}
use zmq_pubsub_testing.Worker.{Worker, write_message, write_control}
use zmq_pubsub_testing.Client.{
  Manager, CallbackEntry, entries, envelope_of, request_of, send_raw_envelope, perform_registration,
  perform_unregistration, without_instance, begin_request, end_request, send_reply_envelope,
  call_each, handle_message,
}

-- The outbound queue takes one more envelope.
pub record CanSend (w : Worker) : Type 0 where
  pub free : length w.outbound.items < w.outbound.max_size
  pub open_queue : w.outbound.stopped ≡ false

pub send_raw_envelope-outbound :
    (w : Worker) (env : Envelope)
    → is_control_message env.header.handler_key ≡ false
    → CanSend w
    → (send_raw_envelope w env).0.outbound.items ≡ w.outbound.items ++ env ∷ []
unfolding send_raw_envelope write_message push_for
send_raw_envelope-outbound w env plain r =
    let e : ltb (length w.outbound.items) w.outbound.max_size ≡ true = ground (arith, r.free) in
    rw (send_raw_envelope, plain, e, r.open_queue) refl

pub outbound-send_raw_envelope :
    (w : Worker) (env : Envelope)
    → is_control_message env.header.handler_key ≡ true
    → (send_raw_envelope w env).0.outbound ≡ w.outbound
unfolding send_raw_envelope write_control
outbound-send_raw_envelope w env c = rw (send_raw_envelope, c) refl

not_empty : (xs : Bytes) → xs ≢ [] → is_empty xs ≡ false
not_empty [] h = absurd (h refl)
not_empty (x ∷ xs) h = refl

same_key : (k : ℕ) → (k == k) ≡ true
same_key k = ground arith

subscribe_control : is_control_message Keys.subscribe ≡ true
unfolding is_control_message
subscribe_control = ground arith

module _ {F : Type 0} where
  -- The user's code of a responder: it answers each message by `replyToSender`.
  abbrev pub replies : (Bytes → Bytes) → F → Bytes → Manager F → Worker → Manager F × Worker
  replies answer f payload m w = (m, (send_reply_envelope m w (answer payload)).0)

  -- A topic has the one callback `f`.
  abbrev pub Serves : Manager F → Bytes → F → ℕ → Type 0
  Serves m topic f k =
      find topic m.msg_handlers ≡ some (record { instance_key = k; func = some f } ∷ [])

  -- One callback is called, with the reply topic of the message in force.
  handle_message-Serves :
      (user : F → Bytes → Manager F → Worker → Manager F × Worker) (env : Envelope) (m : Manager F)
      (w : Worker) (f : F) (k : ℕ)
      → Serves m env.header.topic f k
      → handle_message user env m w ≡ (
          let r = user f env.payload (record m { reply_topic = env.header.reply_topic }) w in
          (record (r.0) { reply_topic = [] }, r.1))
  unfolding handle_message call_each
  handle_message-Serves user env m w f k s = rw (handle_message, s) refl

  pub begin_request-Serves :
      (m : Manager F) (w : Worker) (topic reply_topic payload : Bytes) (set_value : F) (k : ℕ)
      → find reply_topic m.msg_handlers ≡ none
      → Serves (begin_request m w topic reply_topic payload set_value k).0 reply_topic set_value k
  unfolding begin_request perform_registration
  begin_request-Serves m w topic reply_topic payload set_value k fresh =
      let entry : CallbackEntry F = record { instance_key = k; func = some set_value } in
      find-assign reply_topic reply_topic (entries (find reply_topic m.msg_handlers) ++ entry ∷ [])
        m.msg_handlers
      ∙ ground (arith, fresh)

  perform_registration-outbound :
      (m : Manager F) (w : Worker) (key : Bytes) (callback : Option F) (k : ℕ)
      → (perform_registration m w key callback k).1.outbound ≡ w.outbound
  unfolding perform_registration
  perform_registration-outbound m w key callback k = ground (
    arith,
    outbound-send_raw_envelope w (envelope_of m.client_id Keys.subscribe key []) subscribe_control,
  )

  begin_request-outbound :
      (m : Manager F) (w : Worker) (topic reply_topic payload : Bytes) (set_value : F) (k : ℕ)
      → is_control_message topic ≡ false
      → CanSend w
      → (begin_request m w topic reply_topic payload set_value k).1.outbound.items
        ≡ w.outbound.items ++ request_of m topic reply_topic payload ∷ []
  unfolding begin_request
  begin_request-outbound m w topic reply_topic payload set_value k plain r =
      let w' = (perform_registration m w reply_topic (some set_value) k).1 in
      let same = perform_registration-outbound m w reply_topic (some set_value) k in
      let r' : CanSend w' = record { free = rw same r.free; open_queue = rw same r.open_queue } in
      send_raw_envelope-outbound w' (request_of m topic reply_topic payload) plain r'
      ∙ ap (λ q. q.items ++ request_of m topic reply_topic payload ∷ []) same

  send_reply_envelope-outbound :
      (m : Manager F) (w : Worker) (payload : Bytes)
      → m.reply_topic ≢ []
      → is_control_message m.reply_topic ≡ false
      → CanSend w
      → (send_reply_envelope m w payload).0.outbound.items
        ≡ w.outbound.items ++ envelope_of m.client_id m.reply_topic m.reply_topic payload ∷ []
  unfolding send_reply_envelope
  send_reply_envelope-outbound m w payload named plain r =
      rw (send_reply_envelope, not_empty m.reply_topic named)
        (send_raw_envelope-outbound w (envelope_of m.client_id m.reply_topic m.reply_topic payload)
          plain r)

  -- If the reply topic has no handler yet, the responder has one callback for the request's
  -- topic, which answers by replyToSender, both topics are ordinary, the reply topic is not
  -- empty, and both outbound queues have room, then sendRequest queues the request, the
  -- responder's handleMessage queues the answer under the reply topic, and the requester's
  -- handleMessage calls the request's callback once, with that answer.
  pub request-answered :
      (user : F → Bytes → Manager F → Worker → Manager F × Worker) (answer : Bytes → Bytes)
      (m r : Manager F) (w v : Worker) (topic reply_topic payload : Bytes) (set_value f : F)
      (k j : ℕ)
      → find reply_topic m.msg_handlers ≡ none
      → Serves r topic f j
      → is_control_message topic ≡ false
      → is_control_message reply_topic ≡ false
      → reply_topic ≢ []
      → CanSend w
      → CanSend v
      → let asked = begin_request m w topic reply_topic payload set_value k in
        let request = request_of m topic reply_topic payload in
        let reply = envelope_of r.client_id reply_topic reply_topic (answer payload) in
        let got = user set_value (answer payload) (record (asked.0) { reply_topic = [] }) asked.1 in
        (asked.1.outbound.items ≡ w.outbound.items ++ request ∷ [])
        × ((handle_message (replies answer) request r v).1.outbound.items
            ≡ v.outbound.items ++ reply ∷ [])
        × (handle_message user reply asked.0 asked.1 ≡ (record (got.0) { reply_topic = [] }, got.1))
  request-answered user answer m r w v topic reply_topic payload set_value f k j fresh serves plain
        reply_plain named room room' =
      let asked = begin_request m w topic reply_topic payload set_value k in
      let request = request_of m topic reply_topic payload in
      let reply = envelope_of r.client_id reply_topic reply_topic (answer payload) in
      (
        begin_request-outbound m w topic reply_topic payload set_value k plain room,
        ap (λ x. x.1.outbound.items) (handle_message-Serves (replies answer) request r v f j serves)
            ∙ send_reply_envelope-outbound (record r { reply_topic = reply_topic }) v
                (answer payload) named reply_plain room',
        handle_message-Serves user reply asked.0 asked.1 set_value k
            (begin_request-Serves m w topic reply_topic payload set_value k fresh),
      )

  -- Outside a request there is nothing to reply to, and after a message there is none in force.
  pub reply_topic-handle_message :
      (user : F → Bytes → Manager F → Worker → Manager F × Worker) (env : Envelope) (m : Manager F)
      (w v : Worker) (payload : Bytes)
      → send_reply_envelope (handle_message user env m w).0 v payload ≡ (v, false)
  unfolding handle_message send_reply_envelope
  reply_topic-handle_message user env m w v payload = refl

  pub perform_unregistration-Serves :
      (m : Manager F) (w : Worker) (key : Bytes) (f : F) (k : ℕ)
      → Serves m key f k
      → (perform_unregistration m w key k).0.msg_handlers ≡ erase key m.msg_handlers
  unfolding perform_unregistration without_instance
  perform_unregistration-Serves m w key f k s = rw (perform_unregistration, s, same_key k) refl

  pub find-begin_request :
      (m : Manager F) (w : Worker) (topic reply_topic payload t : Bytes) (set_value : F) (k : ℕ)
      → text_eq reply_topic t ≡ false
      → find t (begin_request m w topic reply_topic payload set_value k).0.msg_handlers
        ≡ find t m.msg_handlers
  unfolding begin_request perform_registration
  find-begin_request m w topic reply_topic payload t set_value k other =
      let entry : CallbackEntry F = record { instance_key = k; func = some set_value } in
      find-assign reply_topic t (entries (find reply_topic m.msg_handlers) ++ entry ∷ [])
        m.msg_handlers
      ∙ ground (arith, other)

  -- If the reply topic of a request has no handler before, then each topic has the handlers that
  -- it had before, once the request has ended.
  pub end_request-begin_request :
      (m : Manager F) (w v : Worker) (topic reply_topic payload t : Bytes) (set_value : F) (k : ℕ)
      → find reply_topic m.msg_handlers ≡ none
      → find t
          (end_request
            (begin_request m w topic reply_topic payload set_value k).0
            v
            reply_topic
            k).0.msg_handlers
        ≡ find t m.msg_handlers
  unfolding end_request
  end_request-begin_request m w v topic reply_topic payload t set_value k fresh =
      let asked = (begin_request m w topic reply_topic payload set_value k).0 in
      let served = begin_request-Serves m w topic reply_topic payload set_value k fresh in
      ap (find t) (perform_unregistration-Serves asked v reply_topic set_value k served)
      ∙ find-erase reply_topic t asked.msg_handlers
      ∙ ground (arith, fresh, find-begin_request m w topic reply_topic payload t set_value k)
