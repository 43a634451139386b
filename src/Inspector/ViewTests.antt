-- ===== src/Inspector/ViewTests.antt =====
-- The inspector's tree, its rows, and what it sees of a broker, at concrete packets.
use zmq_pubsub_testing.Base.{
  ◌≡◌, refl, ℕ, Bytes, true, false, List, [], ◌∷◌, ◌++◌, codes, some, get_elem?, ap, arith,
}
use zmq_pubsub_testing.Broker.Copies.{Input, process_all}
use zmq_pubsub_testing.Broker.Reach.{init}
use zmq_pubsub_testing.Client.Payload.{any_prefix}
use zmq_pubsub_testing.Wire.{Header, no_header, encode_header, decode_frame}
use zmq_pubsub_testing.Wire.Sample.{codec, decode-encode}
use zmq_pubsub_testing.Inspector.{InspectorPacket, new_window}
use zmq_pubsub_testing.Inspector.Accepting.{row_passes, filter_accepts_row-run}
use zmq_pubsub_testing.Inspector.Filter.{Event, arrives, toggles, edits, run}
use zmq_pubsub_testing.Inspector.Table.{filter_accepts_row}
use zmq_pubsub_testing.Inspector.Tree.{
  Fields, end, absent, single_value, repeated_messages, repeated_values, no_more, one_more,
  populate, chomp, Reflection, draw_envelope_and_payload,
}
use zmq_pubsub_testing.Inspector.Tree.Drawing.{has_slash, told, told-draw}
use zmq_pubsub_testing.Inspector.Tree.Reading.{read, shown, chomped, read-populate}
use zmq_pubsub_testing.Inspector.Watching.{packets_of, seen, said, seen-process_all}

-- Statistics with one client, and a field that is not set.
abbrev stats : Fields
stats = single_value (codes "broker_id") (b'"' ∷ b'b' ∷ b'"' ∷ 10 ∷ []) (
    absent (codes "clients_count") (
      repeated_messages (codes "connected_clients")
        (one_more (repeated_values (codes "subscriptions") ((b'"' ∷ b'n' ∷ b'"' ∷ []) ∷ []) end)
          no_more)
        end))

read-populate_example : read (populate stats) ≡ shown stats
unfolding chomp
read-populate_example =
    read-populate stats ((refl, refl, refl), (((((refl, refl, refl), tt), tt), tt), tt))

-- The newline and the absent field have gone.
shown_stats :
    shown stats
    ≡ single_value (codes "broker_id") (b'"' ∷ b'b' ∷ b'"' ∷ []) (
        repeated_messages
          (codes "connected_clients")
          (one_more
            (repeated_values (codes "subscriptions") ((b'"' ∷ b'n' ∷ b'"' ∷ []) ∷ []) end)
            no_more)
          end)
unfolding shown chomped chomp
shown_stats = refl

-- A pool with one type; an Any is its bytes, and names that type.
abbrev type_name : Bytes
type_name = codes "broker.SystemStats"

abbrev pool : Reflection
pool = record {
  Any = Bytes;
  parse_any = λ b. some b;
  type_url = λ a. any_prefix ++ type_name;
  Descriptor = Unit {0};
  find_message_type = λ name. some tt;
  has_prototype = λ d. true;
  unpack_to = λ d a. some stats;
  type_name = λ d. type_name;
  print_string = λ s. s;
  print_int = λ n. codes "1";
}

head_or_zero : Bytes → ℕ
head_or_zero [] = 0
head_or_zero (b ∷ bs) = b

told-draw_example :
    told (draw_envelope_and_payload pool no_header (codes "x")) ≡ (type_name, [], shown stats)
unfolding chomp has_slash head_or_zero
told-draw_example =
    told-draw pool (codes "x") type_name tt stats refl refl refl refl refl no_header (codes "x")
      (λ e. omega (arith, ap head_or_zero e)) refl
      ((refl, refl, refl), (((((refl, refl, refl), tt), tt), tt), tt))

abbrev packet : Bytes → InspectorPacket
packet topic = record {
  timestamp = codes "12:00:00.000";
  sender_id = codes "alice";
  key = topic;
  topic = topic;
  size_bytes = 10;
  header = record no_header { sender_id = codes "alice" };
  payload = [];
}

abbrev same : Bytes → Bytes
same b = b

abbrev kilobytes : ℕ → Bytes
kilobytes n = codes "1.00"

abbrev news_off : List Event
news_off =
    arrives (packet (codes "news"))
    ∷ arrives (packet [])
    ∷ toggles (codes "news") false
    ∷ edits (codes "Empty")
    ∷ []

filter_accepts_row-run_example :
    let w = run same new_window news_off in
    filter_accepts_row kilobytes same w 1 ≡ row_passes same w (get_elem? w.packet_history 1)
filter_accepts_row-run_example = filter_accepts_row-run same kilobytes news_off 1 refl

abbrev connects : Input
connects = record {
  now = 5;
  fresh = codes "u1";
  header = record no_header { handler_key = codes "hello"; topic = codes "news" };
  payload = codes "x";
  sender = codes "alice";
  from_peer = false;
}

sample_lossless : (h : Header) → decode_frame codec (encode_header codec h) ≡ some h
unfolding decode_frame encode_header
sample_lossless h = decode-encode h

seen-process_all_example :
    seen (packets_of codec [] (process_all codec (init (codes "b")) (connects ∷ connects ∷ [])).1)
    ≡ said (connects ∷ connects ∷ [])
seen-process_all_example =
    seen-process_all codec [] sample_lossless (connects ∷ connects ∷ []) (init (codes "b"))
