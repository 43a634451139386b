-- ===== src/Broker/CopyTests.antt =====
-- Copies of one message at concrete inputs: who gets it, and on which links it goes.
use zmq_pubsub_testing.Base.{
  ◌≡◌, ◌≢◌, ◌≤◌, refl, ap, ℕ, Bytes, Bytes-discrete, ℕ_discrete, true, false, List, [], ◌∷◌, codes,
  some, arith, count, contains, bytes_lt,
}
use zmq_pubsub_testing.Base.Maps.{find, assign, erase}
use zmq_pubsub_testing.Keys
use zmq_pubsub_testing.Keys.{is_control_message}
use zmq_pubsub_testing.Registry
use zmq_pubsub_testing.Registry.Sets.{place, remove, swap_remove}
use zmq_pubsub_testing.SafeQueue.{make}
use zmq_pubsub_testing.Wire.{Header, Codec, no_header, encode_header, decode_frame}
use zmq_pubsub_testing.Broker.{
  Broker, remove_client, stamp, deliver_each, not_in, deliver_local, flood, route, handle_known,
  mark_seen, handle_local, handle_peer, process_message,
}
use zmq_pubsub_testing.Broker.Carries.{carries}
use zmq_pubsub_testing.Broker.Copies.{Input, process_all, carries-process_all}
use zmq_pubsub_testing.Broker.Dedup.{is_duplicate}
use zmq_pubsub_testing.Broker.Gets.{frame_id, gets}
use zmq_pubsub_testing.Broker.Once.{gets-process_all}
use zmq_pubsub_testing.Broker.Peers.{add_peer}
use zmq_pubsub_testing.Broker.Reach.{init, init-IsValid}
use zmq_pubsub_testing.Broker.Relay.{Hop}
use zmq_pubsub_testing.Broker.Valid.{IsValid}
use zmq_pubsub_testing.Broker.Example.{
  codec, alice, bob, meeting, hello, meeting-IsValid, hear, hear-IsValid, control_message,
}

program : Unit {0}
unfolding find assign erase count contains bytes_lt Bytes-discrete ℕ_discrete place remove
    swap_remove Registry.subscribe Registry.unsubscribe Registry.drop_subscriber
    Registry.drop_topics Registry.remove_client make encode_header remove_client stamp deliver_each
    not_in deliver_local flood route handle_known mark_seen handle_local handle_peer process_message
    is_duplicate init add_peer Keys.connect Keys.disconnect Keys.reset Keys.heartbeat
    Keys.heartbeat_ack Keys.subscribe Keys.unsubscribe Keys.sys_stats is_control_message
program = tt

-- The same message comes from alice, from a peer and from bob.
abbrev copies : List Input
copies =
    record {
      now = 5;
      fresh = codes "u1";
      header = hello;
      payload = [];
      sender = alice;
      from_peer = false;
    }
    ∷ record {
      now = 6;
      fresh = codes "u1";
      header = hello;
      payload = [];
      sender = codes "PEER";
      from_peer = true;
    }
    ∷ record {
      now = 7;
      fresh = codes "u1";
      header = hello;
      payload = [];
      sender = bob;
      from_peer = false;
    }
    ∷ []

carries-process_all_example :
    carries (codes "u7") (codes "p") (process_all codec meeting copies).1 ≤ 1
unfolding program meeting
carries-process_all_example =
    carries-process_all codec (codes "u7") (codes "p") copies meeting meeting-IsValid.window
      (omega arith)

-- A codec that writes the id alone, and reads it.
abbrev ids : Codec
ids = record codec { decode = λ b. some (record no_header { message_uuid = b }) }

ids-keep : (h : Header) → frame_id ids (encode_header ids h) ≡ h.message_uuid
unfolding encode_header decode_frame
ids-keep h = refl

first_byte : Bytes → ℕ
first_byte [] = 0
first_byte (b ∷ bs) = b

u7-full : codes "u7" ≢ []
unfolding first_byte
u7-full e = omega (arith, ap first_byte e)

gets-process_all_example : gets ids (codes "u7") bob (process_all ids meeting copies).1 ≤ 1
unfolding program meeting
gets-process_all_example =
    gets-process_all ids (codes "u7") bob ids-keep u7-full copies meeting meeting-IsValid
      (omega arith)

-- Bob gets alice's message once, and not his own copy of it.
bob_hears : gets ids (codes "u7") bob (process_all ids meeting copies).1 ≡ 1
unfolding program meeting gets process_all decode_frame
bob_hears = refl

-- A chain of two: alice's message at the meeting, and a second broker that knows the first one's link.
abbrev second : Broker
second =
    hear
      (hear (init (codes "broker-2")) (control_message Keys.connect [])
        (codes "BrokerLink-broker-1"))
      (control_message Keys.connect []) bob

second-IsValid : IsValid second
second-IsValid = hear-IsValid _ _ _ (hear-IsValid _ _ _ (init-IsValid (codes "broker-2")))

abbrev chain : List Hop
chain =
    record { broker = meeting; sender = alice; link = codes "p"; time = 5 }
    ∷ record { broker = second; sender = codes "BrokerLink-broker-1"; link = []; time = 6 }
    ∷ []
