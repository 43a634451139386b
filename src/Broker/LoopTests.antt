-- ===== src/Broker/LoopTests.antt =====
-- The window, the timers, the links and long runs at concrete inputs.
use zmq_pubsub_testing.Base.{
  List, some, ◌≡◌, refl, ℕ, Bytes, Bytes-discrete, ℕ_discrete, true, false, [], ◌∷◌, codes, none,
  arith, count, contains, bytes_lt, length,
}
use zmq_pubsub_testing.Base.Maps.{find, assign, erase}
use zmq_pubsub_testing.Keys
use zmq_pubsub_testing.Keys.{is_control_message}
use zmq_pubsub_testing.Registry
use zmq_pubsub_testing.Registry.Sets.{place, remove, swap_remove}
use zmq_pubsub_testing.Registry.Refinement.{subscribed}
use zmq_pubsub_testing.SafeQueue.{make}
use zmq_pubsub_testing.Wire.{Header, Envelope, encode_header}
use zmq_pubsub_testing.Discovery.{Discovery}
use zmq_pubsub_testing.Broker.{
  Broker, remove_client, stamp, deliver_each, not_in, deliver_local, flood, route, handle_known,
  mark_seen, handle_local, handle_peer, process_message,
}
use zmq_pubsub_testing.Broker.Dedup.{
  no_history, is_duplicate, Windows, no_history-IsWindow, spec_duplicate, is_duplicate-Windows,
}
use zmq_pubsub_testing.Broker.Delivery.{delivered, forwarded}
use zmq_pubsub_testing.Broker.Loop.{
  arrived, single_part, cleanup, peer_sender, drain_peers, broadcast_stats,
}
use zmq_pubsub_testing.Broker.Mesh.{Mirrors, hears, expires_at, mesh_run, mesh_run-Mirrors}
use zmq_pubsub_testing.Base.Decimal.{stoi, read_digits}
use zmq_pubsub_testing.Broker.Peers.{
  add_peer, parse_tcp_port, tcp_port, starts_with, behind_colon, Node, start, enable_discovery,
  main_start, default_discovery_port,
}
use zmq_pubsub_testing.Broker.Reach.{init}
use zmq_pubsub_testing.Broker.Reports.{wildcard_misses_stats}
use zmq_pubsub_testing.Broker.Timers.{cleanup_lem}
use zmq_pubsub_testing.Broker.Totals.{Round, total, arrivals, run_rounds, total-run_rounds}
use zmq_pubsub_testing.Broker.Copies.{process_all}
use zmq_pubsub_testing.Broker.Drain.{
  drain_while, set_queue, as_inputs, seen_by_loop, drain_while-process_all,
}
use zmq_pubsub_testing.Broker.Example.{
  codec, alice, bob, news, meeting, proto, hello, meeting-IsValid,
}

program : Unit {0}
unfolding find assign erase count contains bytes_lt Bytes-discrete ℕ_discrete place remove
    swap_remove Registry.subscribe Registry.unsubscribe Registry.drop_subscriber
    Registry.drop_topics Registry.remove_client subscribed make encode_header remove_client stamp
    deliver_each not_in deliver_local flood route handle_known mark_seen handle_local handle_peer
    process_message is_duplicate init add_peer delivered forwarded Keys.connect Keys.disconnect
    Keys.reset Keys.heartbeat Keys.heartbeat_ack Keys.subscribe Keys.unsubscribe Keys.sys_stats
    is_control_message
program = tt

empty-Windows : Windows [] no_history
empty-Windows = record { window = no_history-IsWindow; recent = refl }

is_duplicate-Windows_example :
    ((is_duplicate no_history alice).1 ≡ (spec_duplicate [] alice).1)
    × Windows (spec_duplicate [] alice).0 (is_duplicate no_history alice).0
is_duplicate-Windows_example = is_duplicate-Windows [] no_history alice empty-Windows

-- Eleven seconds after everyone was heard last.
abbrev late : ℕ
late = 11000000000

cleanup_lem_example :
    (find bob (cleanup late meeting).clients ≡ none)
    × (subscribed (cleanup late meeting).subscriptions bob news ≡ false)
    × ((cleanup late meeting).last_cleanup ≡ late)
unfolding program meeting
cleanup_lem_example = cleanup_lem late bob news meeting meeting-IsValid (ground arith)

-- A message of the peer that waits in the queue.
abbrev waiting : Broker
waiting = record meeting {
  peer_inbound = record (meeting.peer_inbound) {
    items = record { header = hello; payload = [] } ∷ [];
  };
}

-- While the first message is processed, a link pushes one more.
abbrev pushes : List (List Envelope)
pushes = [] ∷ (record { header = hello; payload = codes "x" } ∷ []) ∷ []

abbrev next_id : ℕ → Bytes
next_id n = codes "u1"

drain_while-process_all_example :
    (drain_while 9 codec 5 next_id waiting pushes ≡ (
      set_queue
          (record (waiting.peer_inbound) { items = [] })
          (process_all codec waiting
            (as_inputs 5 next_id (seen_by_loop pushes waiting.peer_inbound.items))).0,
      (process_all codec waiting
          (as_inputs 5 next_id (seen_by_loop pushes waiting.peer_inbound.items))).1,
    ))
    × (drain_peers (length waiting.peer_inbound.items) codec 5 next_id waiting ≡ (
      set_queue
          (record (waiting.peer_inbound) { items = [] })
          (process_all codec waiting (as_inputs 5 next_id waiting.peer_inbound.items)).0,
      (process_all codec waiting (as_inputs 5 next_id waiting.peer_inbound.items)).1,
    ))
drain_while-process_all_example =
    drain_while-process_all 9 codec 5 next_id waiting pushes (omega arith)

-- A peer's message on the statistics' topic.
abbrev report_header : Header
report_header = record hello { handler_key = Keys.sys_stats; topic = Keys.sys_stats }

wildcard_misses_stats_example :
    (delivered alice
        (process_message codec late (codes "u1") meeting report_header [] peer_sender true).1
      ≡ 1)
    × (delivered alice (broadcast_stats proto late meeting) ≡ 0)
unfolding program meeting proto
wildcard_misses_stats_example =
    wildcard_misses_stats proto late (codes "u1") meeting report_header [] alice meeting-IsValid
      refl refl refl refl refl

no_port : tcp_port (codes "ipc:///tmp/broker.sock") ≡ none
unfolding tcp_port starts_with
no_port = ground arith

abbrev finder : Discovery
finder = record {
  cluster = codes "lan";
  self_uuid = codes "a1";
  router_port = 5555;
  discovery_port = 5670;
  dialed = [];
}

abbrev beacon : Bytes
beacon = codes "WISP|1|lan|b2|5556"

alone-Mirrors : Mirrors finder (init (codes "a1"))
unfolding init find count
alone-Mirrors = record { linked = λ u. refl; once = λ u. omega arith }

mesh_run-Mirrors_example :
    let r =
      mesh_run finder
        (init (codes "a1"))
        (hears (codes "10.0.0.2") beacon 0 ∷ expires_at late ∷ []) in
    Mirrors r.0 r.1
mesh_run-Mirrors_example =
    mesh_run-Mirrors (hears (codes "10.0.0.2") beacon 0 ∷ expires_at late ∷ []) finder
      (init (codes "a1")) alone-Mirrors

-- A broker that `main` starts with no variables set announces port 5555 to the default cluster.
abbrev node : Node
node = record {
  broker = init (codes "b1");
  discovery_enabled = false;
  cluster_name = [];
  discovery_port = 0;
  discovery = none;
}

main_announces :
    (main_start false none 7 node).discovery
    ≡ some (record {
      cluster = codes "default";
      self_uuid = codes "b1";
      router_port = 5555;
      discovery_port = default_discovery_port;
      dialed = [];
    })
unfolding program main_start start enable_discovery parse_tcp_port tcp_port starts_with behind_colon
    stoi read_digits
main_announces = refl

-- Two rounds: alice's message arrives, then a message of a single part.
abbrev two_rounds : List Round
two_rounds =
    record {
      clock = record { processing = 5; timers = 6; statistics = 7 };
      fresh = λ n. codes "u1";
      polled = arrived alice (some (record { header = hello; payload = [] }));
    }
    ∷ record {
      clock = record { processing = 8; timers = 8; statistics = 8 };
      fresh = λ n. codes "u2";
      polled = single_part;
    }
    ∷ []

total-run_rounds_example : total (run_rounds proto two_rounds meeting).0 ≡ 1
unfolding program meeting arrivals
total-run_rounds_example = total-run_rounds proto two_rounds meeting (omega arith)
