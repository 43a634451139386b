-- ===== src/Client/Typed.antt =====
-- common/connectionmanager.h: the templates of `ConnectionManager`, which encode what they send and
-- decode for the callback. `Room` of the outbound queue is `CanSend`.
use zmq_pubsub_testing.Base.{
  ◌≡◌, refl, ap, Bytes, Bool, true, false, List, [], ◌∷◌, ◌++◌, Option, none, some, length,
  Option-cases, inl, inr, ltb, arith,
}
use zmq_pubsub_testing.Base.Maps.{find}
use zmq_pubsub_testing.Keys.{is_control_message}
use zmq_pubsub_testing.SafeQueue.{push_for}
use zmq_pubsub_testing.Wire.{Envelope}
use zmq_pubsub_testing.Worker.{Worker, write_message}
use zmq_pubsub_testing.Client.{
  Manager, CallbackEntry, entries, envelope_of, send_raw_envelope, send_reply_envelope, call_each,
  handle_message,
}
use zmq_pubsub_testing.Client.Payload.{
  Encoding, Value, IsEncoding, encode_payload, decode_payload, decode_payload-encoded,
}
use zmq_pubsub_testing.Client.Requests.{CanSend, send_raw_envelope-outbound}
use zmq_pubsub_testing.Client.Session.{Process}

-- The second half of `sendRequest` of a message: what became of the reply.
unfoldable pub decode_reply : (e : Encoding) → Option Bytes → Option (Value e)
decode_reply e none = none
decode_reply e (some raw) = decode_payload e raw

module _ {F : Type 0} where
  -- `sendMessage` of a value.
  unfoldable pub send_value : Process F → Bytes → (e : Encoding) → Value e → Process F × Bool
  send_value s key e value = elim (s.manager) [
    | none ↦ (s, false)
    | some (m, w) ↦
        let (w', done) =
          send_raw_envelope w (envelope_of m.client_id key key (encode_payload e value)) in
        (record s { manager = some (m, w') }, done)
  ]

  -- `replyToSender` of a value.
  unfoldable pub reply_value : Process F → (e : Encoding) → Value e → Process F × Bool
  reply_value s e value = elim (s.manager) [
    | none ↦ (s, false)
    | some (m, w) ↦
        let (w', done) = send_reply_envelope m w (encode_payload e value) in
        (record s { manager = some (m, w') }, done)
  ]

  -- The closures that `registerCallback` makes, as they act on the manager: of a function of a value,
  -- of one that takes nothing, and of a `std::function` that may be empty.
  abbrev pub call_decoded :
      {T : Type 0}
      → (T → Manager F → Worker → Manager F × Worker)
      → Option T
      → Manager F
      → Worker
      → Manager F × Worker
  call_decoded func none m w = (m, w)
  call_decoded func (some value) m w = func value m w

  unfoldable pub typed_callback :
      (e : Encoding)
      → (Value e → Manager F → Worker → Manager F × Worker)
      → Bytes
      → Manager F
      → Worker
      → Manager F × Worker
  typed_callback e func raw m w = call_decoded func (decode_payload e raw) m w

module _ {F : Type 0} where
  unfoldable pub plain_callback :
      Option (Manager F → Worker → Manager F × Worker)
      → Bytes
      → Manager F
      → Worker
      → Manager F × Worker
  plain_callback none raw m w = (m, w)
  plain_callback (some func) raw m w = func m w

-- What waits in the outbound queue of a process.
abbrev pub outbox : {F : Type 0} → Option (Manager F × Worker) → List Envelope
outbox none = []
outbox (some (m, w)) = w.outbound.items

send_raw_envelope-done :
    (w : Worker) (env : Envelope)
    → is_control_message env.header.handler_key ≡ false
    → CanSend w
    → (send_raw_envelope w env).1 ≡ true
unfolding send_raw_envelope write_message push_for
send_raw_envelope-done w env plain r =
    let free : ltb (length w.outbound.items) w.outbound.max_size ≡ true = ground (arith, r.free) in
    rw (send_raw_envelope, plain, free, r.open_queue) refl

-- The reply topic is in force during the calls, and is cleared behind them.
abbrev pub replying : {F : Type 0} → Manager F → Bytes → Manager F
replying m topic = record m { reply_topic = topic }

abbrev pub settled : {F : Type 0} → Manager F × Worker → Manager F × Worker
settled r = (record (r.0) { reply_topic = [] }, r.1)

-- Calls one after the other, each on what the one before has left.
unfoldable pub call_all :
    {F : Type 0}
    → List (Manager F → Worker → Manager F × Worker)
    → Manager F × Worker
    → Manager F × Worker
call_all [] r = r
call_all (f ∷ fs) (m, w) = call_all fs (f m w)

-- The user's functions that a value reaches, of callbacks that all decode to its type.
module _ {F : Type 0} (e : Encoding)
    (func_of : F → Value e → Manager F → Worker → Manager F × Worker) where
  abbrev before :
      Option F
      → Value e
      → List (Manager F → Worker → Manager F × Worker)
      → List (Manager F → Worker → Manager F × Worker)
  before none value fs = fs
  before (some f) value fs = func_of f value ∷ fs

  unfoldable pub functions_for :
      List (CallbackEntry F) → Value e → List (Manager F → Worker → Manager F × Worker)
  functions_for [] value = []
  functions_for (c ∷ cs) value = before c.func value (functions_for cs value)

  abbrev pub typed_user : F → Bytes → Manager F → Worker → Manager F × Worker
  typed_user f = typed_callback e (func_of f)

  call_each-some :
      (cs : List (CallbackEntry F)) (raw : Bytes) (value : Value e) (m : Manager F) (w : Worker)
      → decode_payload e raw ≡ some value
      → call_each typed_user cs raw m w ≡ call_all (functions_for cs value) (m, w)
  unfolding call_each typed_callback call_all functions_for
  call_each-some [] raw value m w h = refl
  call_each-some (c ∷ cs) raw value m w h = elim (Option-cases c.func) [
    | inl empty ↦ rw (call_each, empty) (call_each-some cs raw value m w h)
    | inr (f, full) ↦
        let r = func_of f value m w in
        rw (call_each, full, h) (call_each-some cs raw value r.0 r.1 h)
  ]

  -- If the client has a manager whose outbound queue has room, the key is no control key, and
  -- reading and writing of the value's encoding agree, then sendMessage of a value returns true
  -- and queues one message at the end of the outbound queue, and a receiver's handleMessage of
  -- that message calls the functions of all callbacks for the key with that value, in the order
  -- of their registration, each on what the one before has left.
  pub send_value-received :
      (s : Process F) (m n : Manager F) (w v : Worker) (key : Bytes) (value : Value e)
      → s.manager ≡ some (m, w)
      → is_control_message key ≡ false
      → CanSend w
      → IsEncoding e
      → let sent = send_value s key e value in
        let message = envelope_of m.client_id key key (encode_payload e value) in
        let functions = functions_for (entries (find key n.msg_handlers)) value in
        (sent.1 ≡ true)
        × (outbox sent.0.manager ≡ w.outbound.items ++ message ∷ [])
        × (handle_message typed_user message n v ≡ settled (call_all functions (replying n [], v)))
  unfolding send_value handle_message
  send_value-received s m n w v key value here plain room law =
      let message = envelope_of m.client_id key key (encode_payload e value) in
      (
        rw (send_value, here) (send_raw_envelope-done w message plain room),
        rw (send_value, here) (send_raw_envelope-outbound w message plain room),
        ap settled (
            call_each-some (entries (find key n.msg_handlers)) (encode_payload e value) value
              (replying n []) v (decode_payload-encoded e value law)),
      )
