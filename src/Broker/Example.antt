-- ===== src/Broker/Example.antt =====
-- A broker for the tests: two clients, one topic, one peer link.
use zmq_pubsub_testing.Base.{Bytes, false, [], codes, none}
use zmq_pubsub_testing.Keys
use zmq_pubsub_testing.Keys.{is_control_message}
use zmq_pubsub_testing.Wire.{Header, no_header, Codec, protobuf}
use zmq_pubsub_testing.Broker.{Broker, process_message}
use zmq_pubsub_testing.Broker.Loop.{Protobuf}
use zmq_pubsub_testing.Broker.Peers.{add_peer}
use zmq_pubsub_testing.Broker.Reach.{init, Reach, here, next, adds, Reach-IsValid}
use zmq_pubsub_testing.Broker.Valid.{IsValid, process_message-IsValid}

abbrev pub codec : Codec
codec = record {
  format = protobuf;
  encode = λ h. h.message_uuid;
  decode = λ b. none;
  byte_size = λ h. 0;
}

abbrev pub alice : Bytes
alice = codes "alice"

abbrev pub bob : Bytes
bob = codes "bob"

abbrev pub news : Bytes
news = codes "news"

abbrev pub control_message : Bytes → Bytes → Header
control_message key topic = record no_header {
  handler_key = key;
  topic = topic;
  message_uuid = codes "u0";
}

-- One message from a client at time 0.
abbrev pub hear : Broker → Header → Bytes → Broker
hear b h sender = (process_message codec 0 (codes "u1") b h [] sender false).0

-- Both clients connect; bob subscribes to the news, alice to everything; one peer is linked.
unfoldable pub meeting : Broker
meeting =
    hear
      (hear
        (hear
          (hear (add_peer (init (codes "broker-1")) (codes "p") (codes "tcp://p"))
            (control_message Keys.connect []) alice)
          (control_message Keys.connect []) bob)
        (control_message Keys.subscribe news) bob)
      (control_message Keys.subscribe []) alice

unfoldable pub proto : Protobuf
proto = record { codec = codec; pack_stats = λ s. s.broker_id }

abbrev pub hello : Header
hello = record no_header { handler_key = codes "hello"; topic = news; message_uuid = codes "u7" }

-- The broker before anyone has connected, with one peer link.
abbrev pub linked : Broker
linked = add_peer (init (codes "broker-1")) (codes "p") (codes "tcp://p")

pub linked-Reach : Reach (init (codes "broker-1")) linked
linked-Reach = next here (adds (codes "p") (codes "tcp://p"))

pub hear-IsValid :
    (b : Broker) (h : Header) (sender : Bytes) → IsValid b → IsValid (hear b h sender)
hear-IsValid b h sender v = process_message-IsValid codec 0 (codes "u1") b h [] sender false v

pub meeting-IsValid : IsValid meeting
unfolding meeting
meeting-IsValid = hear-IsValid _ _ _ (
    hear-IsValid _ _ _
      (hear-IsValid _ _ _ (hear-IsValid _ _ _ (Reach-IsValid (codes "broker-1") linked-Reach))))
