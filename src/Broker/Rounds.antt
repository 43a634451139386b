-- ===== src/Broker/Rounds.antt =====
-- server/zmqbroker.cpp: a round of the loop in `run`, and its loop over the inbound queue.
use zmq_pubsub_testing.Base.{
  if_both, ℕ, zero, suc, ◌-◌, Bytes, true, false, List, Option, none, some, ltb, length,
}
use zmq_pubsub_testing.SafeQueue.{try_pop}
use zmq_pubsub_testing.Wire.{Envelope, Codec}
use zmq_pubsub_testing.Broker.{Broker, Output}
use zmq_pubsub_testing.Broker.Loop.{
  seconds, Protobuf, Clock, Polled, idle, single_part, arrived, receive, count_message, drain_next,
  drain_peers, report, finish_turn, turn, peer_sender,
}
use zmq_pubsub_testing.Broker.Valid.{IsValid, same_tables, process_message-IsValid}
use zmq_pubsub_testing.Broker.Timers.{cleanup-IsValid}

drain_next-IsValid :
    (codec : Codec) (now : ℕ) (fresh : ℕ → Bytes) (b : Broker) (env : Option Envelope)
    (next : Broker → Broker × List Output)
    → ((c : Broker) → IsValid c → IsValid (next c).0)
    → IsValid b
    → IsValid (drain_next codec now fresh b env next).0
drain_next-IsValid codec now fresh b none next keep v = v
drain_next-IsValid codec now fresh b (some env) next keep v =
    keep _ (process_message-IsValid codec now (fresh 0) b env.header env.payload peer_sender true v)

drain_peers-IsValid :
    (fuel : ℕ) (codec : Codec) (now : ℕ) (fresh : ℕ → Bytes) (b : Broker)
    → IsValid b
    → IsValid (drain_peers fuel codec now fresh b).0
unfolding drain_peers
drain_peers-IsValid zero codec now fresh b v = v
drain_peers-IsValid (suc fuel) codec now fresh b v =
    let queue = (try_pop b.peer_inbound).0 in
    drain_next-IsValid codec now fresh (record b { peer_inbound = queue })
      (try_pop b.peer_inbound).1 (drain_peers fuel codec now (λ n. fresh (suc n)))
      (λ c w. drain_peers-IsValid fuel codec now (λ n. fresh (suc n)) c w)
      (same_tables v b.running b.peers queue b.start_time b.last_stats_time b.last_cleanup b.stats)

receive-IsValid :
    (codec : Codec) (now : ℕ) (fresh : Bytes) (b : Broker) (polled : Polled)
    → IsValid b
    → IsValid (receive codec now fresh b polled).0
unfolding receive count_message
receive-IsValid codec now fresh b idle v = v
receive-IsValid codec now fresh b single_part v = v
receive-IsValid codec now fresh b (arrived identity none) v = v
receive-IsValid codec now fresh b (arrived identity (some env)) v =
    process_message-IsValid codec now fresh (count_message codec b env) env.header env.payload
      identity false
      (same_tables v b.running b.peers b.peer_inbound b.start_time b.last_stats_time b.last_cleanup
        (count_message codec b env).stats)

report-IsValid :
    (proto : Protobuf) (now stats_now : ℕ) (b : Broker)
    → IsValid b
    → IsValid (report proto now stats_now b).0
unfolding report
report-IsValid proto now stats_now b v =
    if_both (λ (r : Broker × List Output). IsValid r.0) (ltb (seconds 1) (now - b.last_stats_time))
      _ _
      (same_tables v b.running b.peers b.peer_inbound b.start_time now b.last_cleanup
        (record (b.stats) { msgs_interval = 0; bytes_interval = 0 }))
      v

finish_turn-IsValid :
    (proto : Protobuf) (clock : Clock) (fresh : ℕ → Bytes) (b : Broker)
    → IsValid b
    → IsValid (finish_turn proto clock fresh b).0
unfolding finish_turn
finish_turn-IsValid proto clock fresh b v = report-IsValid proto clock.timers clock.statistics _ (
    cleanup-IsValid clock.timers _
      (drain_peers-IsValid (length b.peer_inbound.items) proto.codec clock.processing fresh b v))

-- A round of the loop keeps the invariant.
pub turn-IsValid :
    (proto : Protobuf) (clock : Clock) (fresh : ℕ → Bytes) (b : Broker) (polled : Polled)
    → IsValid b
    → IsValid (turn proto clock fresh b polled).0
unfolding turn
turn-IsValid proto clock fresh b single_part v = v
turn-IsValid proto clock fresh b idle v =
    finish_turn-IsValid proto clock (λ n. fresh (suc n)) _
      (receive-IsValid proto.codec clock.processing (fresh 0) b idle v)
turn-IsValid proto clock fresh b (arrived identity env) v =
    finish_turn-IsValid proto clock (λ n. fresh (suc n)) _
      (receive-IsValid proto.codec clock.processing (fresh 0) b (arrived identity env) v)
