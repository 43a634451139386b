-- ===== src/Broker/Totals.antt =====
-- server/zmqbroker.cpp: the rounds of `run` one after the other, and the count of all messages.
use zmq_pubsub_testing.Base.{
  ℕ, zero, suc, ◌+◌, ◌^◌, ◌≡◌, refl, ap, ◌∙◌, Bytes, Bool, true, false, List, [], ◌∷◌, ◌++◌, Option,
  none, some, length, if◌then◌else◌, arith, ◌==◌, ◌<◌,
}
use zmq_pubsub_testing.Base.Maps.{Map}
use zmq_pubsub_testing.SafeQueue.{try_pop}
use zmq_pubsub_testing.Wire.{Header, Envelope, Codec, encode_header}
use zmq_pubsub_testing.Broker.{
  Broker, ClientState, Output, route, stamp, mark_seen, remove_client, handle_known, handle_local,
  handle_peer, process_message,
}
use zmq_pubsub_testing.Broker.Loop.{
  Protobuf, Clock, Polled, idle, single_part, arrived, receive, count_message, wrap64, drain_peers,
  drain_next, cleanup, cleanup_clients, report, finish_turn, turn,
}

abbrev pub total : Broker → ℕ
total b = b.stats.total_messages

-- What a round reads: the clock, fresh ids, and what the poll gives.
pub record Round : Type 0 where
  pub clock : Clock
  pub fresh : ℕ → Bytes
  pub polled : Polled

-- `while (m_running)`, as many rounds as there are.
unfoldable pub run_rounds : Protobuf → List Round → Broker → Broker × List Output
run_rounds proto [] b = (b, [])
run_rounds proto (r ∷ rs) b =
    let (b1, out1) = turn proto r.clock r.fresh b r.polled in
    let (b2, out2) = run_rounds proto rs b1 in (b2, out1 ++ out2)

route-stats :
    (b : Broker) (h : Header) (bytes payload sender : Bytes) (from_peer : Bool)
    → (route b h bytes payload sender from_peer).0.stats ≡ b.stats
unfolding route
route-stats b h bytes payload sender from_peer = ground arith

handle_known-stats :
    (codec : Codec) (b : Broker) (h : Header) (bytes payload sender : Bytes)
    → (handle_known codec b h bytes payload sender).0.stats ≡ b.stats
unfolding handle_known
handle_known-stats codec b h bytes payload sender =
    ground (arith, route-stats b h bytes payload sender false)

process_message-stats :
    (codec : Codec) (now : ℕ) (fresh : Bytes) (b : Broker) (h : Header) (payload sender : Bytes)
    (from_peer : Bool)
    → (process_message codec now fresh b h payload sender from_peer).0.stats ≡ b.stats
unfolding process_message handle_local handle_peer mark_seen remove_client
process_message-stats codec now fresh b h payload sender true =
    let h' = stamp b fresh h in
    ground (arith, route-stats b h' (encode_header codec h') payload sender true)
process_message-stats codec now fresh b h payload sender false =
    let h' = stamp b fresh h in
    ground (
      arith,
      handle_known-stats codec (mark_seen b sender now) h' (encode_header codec h') payload sender,
    )

drain_next-stats :
    (codec : Codec) (now : ℕ) (fresh : ℕ → Bytes) (b : Broker) (env : Option Envelope)
    (next : Broker → Broker × List Output)
    → ((b' : Broker) → (next b').0.stats ≡ b'.stats)
    → (drain_next codec now fresh b env next).0.stats ≡ b.stats
drain_next-stats codec now fresh b none next keeps = refl
drain_next-stats codec now fresh b (some env) next keeps =
    keeps _ ∙ process_message-stats codec now (fresh 0) b env.header env.payload _ true

drain_peers-stats :
    (fuel : ℕ) (codec : Codec) (now : ℕ) (fresh : ℕ → Bytes) (b : Broker)
    → (drain_peers fuel codec now fresh b).0.stats ≡ b.stats
unfolding drain_peers
drain_peers-stats zero codec now fresh b = refl
drain_peers-stats (suc fuel) codec now fresh b =
    drain_next-stats codec now fresh (record b { peer_inbound = (try_pop b.peer_inbound).0 })
      (try_pop b.peer_inbound).1 (drain_peers fuel codec now (λ n. fresh (suc n)))
      (drain_peers-stats fuel codec now (λ n. fresh (suc n)))

cleanup_clients-stats :
    (now : ℕ) (clients : Map ClientState) (b : Broker)
    → (cleanup_clients now clients b).stats ≡ b.stats
unfolding cleanup_clients remove_client
cleanup_clients-stats now [] b = refl
cleanup_clients-stats now ((id, client) ∷ rest) b = cleanup_clients-stats now rest _ ∙ ground arith

cleanup-stats : (now : ℕ) (b : Broker) → (cleanup now b).stats ≡ b.stats
unfolding cleanup
cleanup-stats now b = ground (arith, cleanup_clients-stats now b.clients b)

total-report :
    (proto : Protobuf) (now stats_now : ℕ) (b : Broker)
    → total (report proto now stats_now b).0 ≡ total b
unfolding report
total-report proto now stats_now b = ground arith

total-finish_turn :
    (proto : Protobuf) (clock : Clock) (fresh : ℕ → Bytes) (b : Broker)
    → total (finish_turn proto clock fresh b).0 ≡ total b
unfolding finish_turn
total-finish_turn proto clock fresh b =
    let b1 = (drain_peers (length b.peer_inbound.items) proto.codec clock.processing fresh b).0 in
    total-report proto clock.timers clock.statistics (cleanup clock.timers b1)
    ∙ ap (λ s. s.total_messages) (cleanup-stats clock.timers b1)
    ∙ ap (λ s. s.total_messages)
        (drain_peers-stats (length b.peer_inbound.items) proto.codec clock.processing fresh b)

-- The messages of clients whose header decodes.
abbrev pub counted : Polled → ℕ
counted idle = 0
counted single_part = 0
counted (arrived id none) = 0
counted (arrived id (some env)) = 1

unfoldable pub arrivals : List Round → ℕ
arrivals [] = 0
arrivals (r ∷ rs) = counted r.polled + arrivals rs

total-count_message :
    (codec : Codec) (b : Broker) (env : Envelope)
    → total (count_message codec b env) ≡ wrap64 (total b + 1)
unfolding count_message
total-count_message codec b env = refl

total-turn :
    (proto : Protobuf) (clock : Clock) (fresh : ℕ → Bytes) (b : Broker) (polled : Polled)
    → total (turn proto clock fresh b polled).0
      ≡ (if counted polled == 0 then total b else wrap64 (total b + 1))
unfolding turn receive
total-turn proto clock fresh b single_part = refl
total-turn proto clock fresh b idle = total-finish_turn proto clock (λ n. fresh (suc n)) b
total-turn proto clock fresh b (arrived id none) =
    total-finish_turn proto clock (λ n. fresh (suc n)) b
total-turn proto clock fresh b (arrived id (some env)) =
    let counted_b = count_message proto.codec b env in
    let r =
      process_message proto.codec clock.processing (fresh 0) counted_b env.header env.payload id
        false in
    total-finish_turn proto clock (λ n. fresh (suc n)) r.0
    ∙ ap (λ s. s.total_messages)
        (process_message-stats proto.codec clock.processing (fresh 0) counted_b env.header
          env.payload id false)
    ∙ total-count_message proto.codec b env

total-turn_lem :
    (proto : Protobuf) (clock : Clock) (fresh : ℕ → Bytes) (b : Broker) (polled : Polled)
    → total b < 2 ^ 64
    → total (turn proto clock fresh b polled).0 ≡ wrap64 (total b + counted polled)
total-turn_lem proto clock fresh b single_part small =
    omega (arith, total-turn proto clock fresh b single_part)
total-turn_lem proto clock fresh b idle small = omega (arith, total-turn proto clock fresh b idle)
total-turn_lem proto clock fresh b (arrived id none) small =
    omega (arith, total-turn proto clock fresh b (arrived id none))
total-turn_lem proto clock fresh b (arrived id (some env)) small =
    omega (arith, total-turn proto clock fresh b (arrived id (some env)))

-- From a total below 2 ^ 64, the total of messages after any rounds of the broker's loop is the
-- total before plus the number of messages that came in from clients with a header that decodes,
-- modulo 2 ^ 64.
pub total-run_rounds :
    (proto : Protobuf) (rs : List Round) (b : Broker)
    → total b < 2 ^ 64
    → total (run_rounds proto rs b).0 ≡ wrap64 (total b + arrivals rs)
unfolding run_rounds arrivals
total-run_rounds proto [] b small = omega arith
total-run_rounds proto (r ∷ rs) b small =
    let next = (turn proto r.clock r.fresh b r.polled).0 in
    let one = total-turn_lem proto r.clock r.fresh b r.polled small in
    total-run_rounds proto rs next (omega (arith, one)) ∙ omega (arith, one, small)
