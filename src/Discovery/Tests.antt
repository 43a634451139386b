-- ===== src/Discovery/Tests.antt =====
-- Beacons and pairs of brokers at concrete inputs.
use zmq_pubsub_testing.Base.{
  List, count, is_some, true, ◌≡◌, refl, ap, ℕ, ◌+◌, Bytes, Bytes-discrete, ℕ_discrete, bytes_lt,
  [], ◌∷◌, codes, some, none, arith,
}
use zmq_pubsub_testing.Base.Decimal.{digits, to_string, read_digits, stoi}
use zmq_pubsub_testing.Base.Maps.{find, assign}
use zmq_pubsub_testing.Discovery.{Discovery, on_datagram, on_beacon, dial}
use zmq_pubsub_testing.Discovery.Beacon.{encode_beacon, decode_beacon, split_from}
use zmq_pubsub_testing.Discovery.Roundtrip.{decode_beacon-encode_beacon}
use zmq_pubsub_testing.Discovery.Pairing.{IsSound, dials, beacon_of, one_side_dials}
use zmq_pubsub_testing.Discovery.Loop.{Running}
use zmq_pubsub_testing.Discovery.Steady.{Round, run, drops, IsDialed, Steady, drops-run}

program : Unit {0}
unfolding digits to_string read_digits stoi split_from encode_beacon decode_beacon Bytes-discrete
    ℕ_discrete bytes_lt find assign on_datagram on_beacon dials
program = tt

beacon_text : encode_beacon (codes "lan") (codes "abc") 5555 ≡ codes "WISP|1|lan|abc|5555"
unfolding program
beacon_text = refl

-- A port may have a sign in front of it and other text behind it, and is at most 65535.
beacon_port_suffix :
    decode_beacon (codes "WISP|1|lan|abc|+80x")
    ≡ some (record { cluster = codes "lan"; uuid = codes "abc"; router_port = 80 })
unfolding program
beacon_port_suffix = refl

beacon_port_high : decode_beacon (codes "WISP|1|lan|abc|65536") ≡ none
unfolding program
beacon_port_high = refl

-- A bar in the cluster name makes a sixth field.
beacon_bar : decode_beacon (encode_beacon (codes "a|b") (codes "abc") 5555) ≡ none
unfolding program
beacon_bar = refl

decode_beacon-encode_beacon_example :
    decode_beacon (encode_beacon (codes "lan") (codes "abc") 5555)
    ≡ some (record { cluster = codes "lan"; uuid = codes "abc"; router_port = 5555 })
decode_beacon-encode_beacon_example =
    decode_beacon-encode_beacon (codes "lan") (codes "abc") 5555 (ground arith) (ground arith)
      (omega arith) (omega arith)

abbrev broker_a : Discovery
broker_a = record {
  cluster = codes "lan";
  self_uuid = codes "a1";
  router_port = 5555;
  discovery_port = 5670;
  dialed = [];
}

abbrev broker_b : Discovery
broker_b = record broker_a { self_uuid = codes "b2"; router_port = 5556 }

abbrev broker_c : Discovery
broker_c = record broker_a { cluster = codes "wan"; self_uuid = codes "c3" }

a-IsSound : IsSound broker_a
a-IsSound = record {
  cluster_free = ground arith;
  uuid_free = ground arith;
  port_low = omega arith;
  port_high = omega arith;
}

b-IsSound : IsSound broker_b
b-IsSound = record {
  cluster_free = ground arith;
  uuid_free = ground arith;
  port_low = omega arith;
  port_high = omega arith;
}

c-IsSound : IsSound broker_c
c-IsSound = record {
  cluster_free = ground arith;
  uuid_free = ground arith;
  port_low = omega arith;
  port_high = omega arith;
}

a_dials :
    (on_datagram broker_a (codes "10.0.0.2") (beacon_of broker_b) 0).1
    ≡ dial (codes "b2") (codes "tcp://10.0.0.2:5556") ∷ []
unfolding program
a_dials = refl

-- A byte in which the texts differ.
abbrev first_byte : Bytes → ℕ
first_byte [] = 0
first_byte (x ∷ xs) = x

one_side_dials_example :
    dials (codes "b2") (on_datagram broker_a (codes "10.0.0.2") (beacon_of broker_b) 0).1
      + dials (codes "a1") (on_datagram broker_b (codes "10.0.0.1") (beacon_of broker_a) 7).1
    ≡ 1
unfolding find
one_side_dials_example =
    one_side_dials broker_a broker_b (codes "10.0.0.1") (codes "10.0.0.2") 0 7 a-IsSound b-IsSound
      refl (λ e. omega (arith, ap first_byte e)) refl refl

-- Broker a dialed b at time 0; a beacon of b comes three seconds later, none after that.
abbrev linked_a : Running
linked_a = record {
  discovery = (on_datagram broker_a (codes "10.0.0.2") (beacon_of broker_b) 0).0;
  next_beacon = 0;
}

abbrev rounds : List Round
rounds =
    record {
      now = 2000000000;
      heard_now = 3000000000;
      polled = some (record { sender_ip = codes "10.0.0.2"; bytes = beacon_of broker_b });
    }
    ∷ record { now = 8000000000; heard_now = 8000000000; polled = none }
    ∷ []

linked_a-IsDialed : IsDialed broker_a (codes "b2") 0 linked_a
unfolding program count
linked_a-IsDialed = record { cluster = refl; self = refl; entry = refl; once = omega arith }

rounds-Steady : Steady broker_a (codes "b2") 0 rounds
unfolding program Steady
rounds-Steady = (omega arith, (omega arith, tt))

drops-run_example :
    (drops (codes "b2") (run linked_a rounds).1 ≡ 0)
    × (is_some (find (codes "b2") (run linked_a rounds).0.discovery.dialed) ≡ true)
drops-run_example =
    drops-run broker_a (codes "b2") rounds 0 linked_a linked_a-IsDialed rounds-Steady
