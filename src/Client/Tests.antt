-- ===== src/Client/Tests.antt =====
-- The client at concrete inputs: one manager with its worker, and a broker.
use zmq_pubsub_testing.Base.{
  ◌≡◌, refl, ap, ℕ, Bytes, Bytes-discrete, ℕ_discrete, false, [], ◌∷◌, ◌++◌, codes, some, none,
  arith, count, contains, length, ltb, is_some, ◌==◌,
}
use zmq_pubsub_testing.Base.Maps.{find, assign, erase}
use zmq_pubsub_testing.Keys
use zmq_pubsub_testing.Keys.{is_control_message}
use zmq_pubsub_testing.Registry
use zmq_pubsub_testing.Registry.Sets.{place, remove, swap_remove}
use zmq_pubsub_testing.Registry.Refinement.{subscribed}
use zmq_pubsub_testing.SafeQueue.{make, push_for}
use zmq_pubsub_testing.Wire.{Envelope, Codec, protobuf, encode_header}
use zmq_pubsub_testing.Broker.{
  Broker, control, process_message, stamp, handle_local, handle_known, handle_peer, route,
  mark_seen, remove_client,
}
use zmq_pubsub_testing.Broker.Dedup.{is_duplicate}
use zmq_pubsub_testing.Broker.Peers.{starts_with}
use zmq_pubsub_testing.Broker.Reach.{init}
use zmq_pubsub_testing.Worker.{
  Worker, make_worker, write_control, write_message, receive, turn, heartbeat_of,
}
use zmq_pubsub_testing.Worker.Sends.{turn-sends}
use zmq_pubsub_testing.Client.{
  Manager, make_manager, perform_registration, send_raw_envelope, subscribe_each, status_handler,
  envelope_of, request_of, owner, begin_request, handle_message,
}
use zmq_pubsub_testing.Client.Handlers.{has}
use zmq_pubsub_testing.Client.Conversation.{
  Conversation, Reach, here, next, delivers, Fresh, comes_online, subscribed-settled,
}
use zmq_pubsub_testing.Client.Online.{Linked, is_overdue, turn-Linked}
use zmq_pubsub_testing.Client.Requests.{replies, request-answered}
use zmq_pubsub_testing.Client.Session.{
  Pending, waiting, register_each, holding, last_words, shutdown, init-register_each,
  shutdown-says_goodbye,
}
use zmq_pubsub_testing.Client.Session
use zmq_pubsub_testing.Client.Payload.{
  message, text, copied, Protocol, IsProtocol, encode_payload, decode_payload,
  decode_payload-encode_payload,
}

program : Unit {0}
unfolding find assign erase count contains Bytes-discrete ℕ_discrete place remove swap_remove
    Registry.subscribe Registry.unsubscribe Registry.drop_subscriber Registry.remove_client
    subscribed make push_for encode_header stamp handle_local handle_known handle_peer route
    mark_seen remove_client process_message is_duplicate init Keys.connect Keys.disconnect
    Keys.reset Keys.heartbeat Keys.heartbeat_ack Keys.subscribe Keys.unsubscribe is_control_message
    receive make_worker write_control write_message send_raw_envelope make_manager
    perform_registration subscribe_each status_handler
program = tt

abbrev codec : Codec
codec = record {
  format = protobuf;
  encode = λ h. h.message_uuid;
  decode = λ b. none;
  byte_size = λ h. 0;
}

abbrev alice : Bytes
alice = codes "alice"

abbrev news : Bytes
news = codes "news"

-- A client with a handler for the news, which has not been online yet.
abbrev client : Manager ℕ × Worker
client = perform_registration (make_manager alice) (make_worker alice) news (some 1) 0

-- A broker that has heard the client's heartbeat.
abbrev entered : Broker
entered =
    (process_message codec 0 (codes "u0") (init (codes "b")) (control Keys.heartbeat) [] alice
      false).0

abbrev meeting : Conversation ℕ
meeting = record { broker = entered; manager = client.0; worker = client.1 }

meeting-Fresh : Fresh alice meeting
unfolding program
meeting-Fresh = record {
  entered = refl;
  none_yet = λ t. refl;
  unsent = refl;
  room = record { free = omega arith; open_queue = refl };
}

abbrev greeting : Envelope
greeting = envelope_of alice Keys.connect [] []

abbrev announcement : Envelope
announcement = envelope_of alice Keys.subscribe news []

-- The two control messages arrive.
abbrev after_one : Conversation ℕ
after_one =
    let s = comes_online meeting in
    record s {
      broker =
          (process_message codec 1 (codes "u1") s.broker greeting.header greeting.payload alice
            false).0;
      worker = record (s.worker) {
        control = record (s.worker.control) { items = announcement ∷ [] };
      };
    }

abbrev after_two : Conversation ℕ
after_two =
    let s = after_one in
    record s {
      broker =
          (process_message codec 2 (codes "u2") s.broker announcement.header announcement.payload
            alice false).0;
      worker = record (s.worker) { control = record (s.worker.control) { items = [] } };
    }

two_steps : Reach alice (comes_online meeting) after_two
unfolding program
two_steps =
    next (next here (delivers codec 1 (codes "u1") greeting (announcement ∷ []) refl))
      (delivers codec 2 (codes "u2") announcement [] refl)

subscribed-settled_example :
    subscribed after_two.broker.subscriptions alice news ≡ has after_two.manager news
subscribed-settled_example = subscribed-settled alice news meeting-Fresh two_steps refl

turn-Linked_example :
    Linked (turn (owner ℕ) 5 6 none client.0 client.1).0
    × (is_overdue 6 (turn (owner ℕ) 5 6 none client.0 client.1).0.1 ≡ false)
unfolding program
turn-Linked_example = turn-Linked 5 6 none client.0 client.1 refl

turn-sends_example : (turn (owner ℕ) 5 6 none client.0 client.1).1 ≡ heartbeat_of client.1 ∷ []
unfolding program
turn-sends_example = turn-sends (owner ℕ) 5 6 none client.0 client.1

-- The user's code of a test: it counts its calls in the client's name.
abbrev noted : ℕ → Bytes → Manager ℕ → Worker → Manager ℕ × Worker
noted f payload m w = (record m { client_id = m.client_id ++ payload }, w)

abbrev echo : Bytes → Bytes
echo payload = b'!' ∷ payload

-- A responder with one handler for the topic "ask".
abbrev responder : Manager ℕ × Worker
responder =
    perform_registration (make_manager (codes "bob")) (make_worker (codes "bob")) (codes "ask")
      (some 4) 0

abbrev first_byte : Bytes → ℕ
first_byte [] = 0
first_byte (x ∷ xs) = x

request-answered_example :
    let asked = begin_request client.0 client.1 (codes "ask") (codes "ask-1") (codes "x") 7 9 in
    let request = request_of client.0 (codes "ask") (codes "ask-1") (codes "x") in
    let reply = envelope_of (codes "bob") (codes "ask-1") (codes "ask-1") (codes "!x") in
    let got = noted 7 (codes "!x") (record (asked.0) { reply_topic = [] }) asked.1 in
    (asked.1.outbound.items ≡ request ∷ [])
    × ((handle_message (replies echo) request responder.0 responder.1).1.outbound.items
        ≡ reply ∷ [])
    × (handle_message noted reply asked.0 asked.1 ≡ (record (got.0) { reply_topic = [] }, got.1))
unfolding program
request-answered_example =
    request-answered noted echo client.0 responder.0 client.1 responder.1 (codes "ask")
      (codes "ask-1") (codes "x") 7 4 9 0 refl refl refl refl (λ e. omega (arith, ap first_byte e))
      (record { free = omega arith; open_queue = refl })
      (record { free = omega arith; open_queue = refl })

abbrev early : Pending ℕ
early = record { key = news; callback = some 1; instance_key = 0 }

init-register_each_example :
    Session.init (register_each (waiting []) (early ∷ [])) alice
    ≡ register_each (Session.init (waiting []) alice) (early ∷ [])
init-register_each_example = init-register_each alice [] (early ∷ [])

-- Any messages that are numbers: their type is told by the first byte of their bytes.
abbrev numbers : Protocol ℕ
numbers = record {
  Any = Bytes;
  parse_any = λ b. some b;
  serialize_any = λ a. a;
  type_url = λ a. codes "type.googleapis.com/n";
  pack = λ n. n ∷ [];
  is_type = λ a. ltb (length a) 2;
  unpack = λ a. some (first_byte a);
  parse = λ b. some (first_byte b);
}

numbers-IsProtocol : IsProtocol numbers
unfolding starts_with
numbers-IsProtocol = record {
  parses = λ any. refl;
  prefixed = λ v. refl;
  typed = λ v. refl;
  unpacks = λ v. refl;
}

-- A number is read back, a string gets its Any's byte, a struct of two bytes refuses it.
decode_payload-encode_payload_example :
    (decode_payload (message ℕ numbers) (encode_payload (message ℕ numbers) 4) ≡ some 4)
    × (decode_payload text (encode_payload (message ℕ numbers) 4)
        ≡ some (encode_payload (message ℕ numbers) 4))
    × (is_some (decode_payload (copied 2) (encode_payload (message ℕ numbers) 4))
        ≡ (length (encode_payload (message ℕ numbers) 4) == 2))
decode_payload-encode_payload_example =
    decode_payload-encode_payload (message ℕ numbers) 4 2 numbers-IsProtocol
