-- ===== src/Client/TypedTests.antt =====
-- Values that are sent and received, and callbacks that come and go, at concrete inputs.
use zmq_pubsub_testing.Base.{
  ◌≡◌, refl, ℕ, zero, suc, ◌++◌, Bytes, Bytes-discrete, ℕ_discrete, true, [], ◌∷◌, codes, some,
  arith,
}
use zmq_pubsub_testing.Base.Maps.{find, assign}
use zmq_pubsub_testing.Keys
use zmq_pubsub_testing.Keys.{is_control_message}
use zmq_pubsub_testing.SafeQueue.{make}
use zmq_pubsub_testing.Wire.{Envelope}
use zmq_pubsub_testing.Worker.{Worker, make_worker}
use zmq_pubsub_testing.Client.{
  Manager, CallbackEntry, make_manager, perform_registration, envelope_of, handle_message,
  call_each, entries,
}
use zmq_pubsub_testing.Client.Early.{handlers_of, early_unregister}
use zmq_pubsub_testing.Client.Payload.{
  Encoding, Object, text, copied, encode_payload, decode_payload,
}
use zmq_pubsub_testing.Client.Session.{
  Process, Pending, waiting, holding, register_internal, unregister_callback,
}
use zmq_pubsub_testing.Client.Session
use zmq_pubsub_testing.Client.Typed.{
  send_value, outbox, replying, settled, call_all, functions_for, typed_user, typed_callback,
  plain_callback, send_value-received,
}
use zmq_pubsub_testing.Client.Mixed.{
  Callable, takes, plain, invoke, user, all_reached, handle_message-all_reached,
}

program : Unit {0}
unfolding find assign Bytes-discrete ℕ_discrete make make_worker make_manager perform_registration
    Keys.connect Keys.disconnect Keys.reset Keys.heartbeat Keys.heartbeat_ack Keys.subscribe
    Keys.unsubscribe is_control_message
program = tt

-- A struct of two bytes.
abbrev pair : Encoding
pair = copied 2

abbrev three_four : Object 2
three_four = record { bytes = 3 ∷ 4 ∷ []; sized = refl }

abbrev news : Bytes
news = codes "news"

-- The user's function notes the pair in the client's name, which stands for its own state here.
abbrev note : ℕ → Object 2 → Manager ℕ → Worker → Manager ℕ × Worker
note f p m w = (record m { client_id = f ∷ (p.bytes ++ m.client_id) }, w)

abbrev sender : Manager ℕ × Worker
sender = (make_manager (codes "alice"), make_worker (codes "alice"))

-- A receiver with two callbacks for the news.
abbrev receiver : Manager ℕ × Worker
receiver =
    let one =
      perform_registration (make_manager (codes "bob")) (make_worker (codes "bob")) news (some 1)
        5 in
    perform_registration one.0 one.1 news (some 2) 6

send_value-received_example :
    let sent = send_value (holding sender []) news pair three_four in
    let message = envelope_of (codes "alice") news news (encode_payload pair three_four) in
    let functions =
      functions_for pair note (entries (find news receiver.0.msg_handlers)) three_four in
    (sent.1 ≡ true)
    × (outbox sent.0.manager ≡ message ∷ [])
    × (handle_message (typed_user pair note) message receiver.0 receiver.1
        ≡ settled (call_all functions (replying receiver.0 [], receiver.1)))
unfolding program
send_value-received_example =
    send_value-received pair note (holding sender []) sender.0 receiver.0 sender.1 receiver.1 news
      three_four refl refl (record { free = omega arith; open_queue = refl }) tt

-- Both callbacks have noted the pair, the first one first.
both_note :
    (handle_message
      (typed_user pair note)
      (envelope_of (codes "alice") news news (3 ∷ 4 ∷ []))
      receiver.0
      receiver.1).0.client_id
    ≡ 2 ∷ 3 ∷ 4 ∷ 1 ∷ 3 ∷ 4 ∷ codes "bob"
unfolding program handle_message call_each typed_callback decode_payload
both_note = refl

-- A topic with callbacks of four kinds: of a longer struct, of a string, of this struct, and without
-- an argument.
abbrev kinds : ℕ → Callable ℕ
kinds zero = takes (copied 3) (λ p m w. (record m { client_id = 99 ∷ m.client_id }, w))
kinds (suc zero) = takes text (λ raw m w. (record m { client_id = raw ++ m.client_id }, w))
kinds (suc (suc zero)) = takes (copied 2) (note 2)
kinds (suc (suc (suc n))) = plain (some (λ m w. (record m { client_id = 7 ∷ m.client_id }, w)))

abbrev entry : ℕ → CallbackEntry ℕ
entry f = record { instance_key = f; func = some f }

abbrev busy : Manager ℕ
busy = record (make_manager (codes "bob")) {
  msg_handlers = (news, entry 0 ∷ entry 1 ∷ entry 2 ∷ entry 3 ∷ []) ∷ [];
}

abbrev pair_message : Envelope
pair_message = envelope_of (codes "alice") news news (3 ∷ 4 ∷ [])

handle_message-all_reached_example :
    handle_message (user 2 three_four kinds) pair_message busy receiver.1
    ≡ settled (
        call_all
          (all_reached 2 three_four kinds (entries (find news busy.msg_handlers)))
          (replying busy [], receiver.1))
unfolding encode_payload program
handle_message-all_reached_example =
    handle_message-all_reached 2 three_four kinds pair_message busy receiver.1 refl
      (tt, (tt, (tt, (tt, tt))))

-- The string, the struct of two bytes and the function without an argument, in this order.
mixed_notes :
    (handle_message (user 2 three_four kinds) pair_message busy receiver.1).0.client_id
    ≡ 7 ∷ 2 ∷ 3 ∷ 4 ∷ 3 ∷ 4 ∷ codes "bob"
unfolding program handle_message call_each invoke typed_callback plain_callback decode_payload
mixed_notes = refl

abbrev first : Pending ℕ
first = record { key = news; callback = some 1; instance_key = 5 }

early_unregister_example :
    (handlers_of
        (Session.init
          (unregister_callback (register_internal (waiting []) first) news 5)
          (codes "bob"))
        news
      ≡ record { instance_key = 5; func = some 1 } ∷ [])
    × (handlers_of
          (unregister_callback
            (Session.init (register_internal (waiting []) first) (codes "bob"))
            news
            5)
          news
        ≡ [])
early_unregister_example = early_unregister (codes "bob") news 1 5
