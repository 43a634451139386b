-- ===== src/Broker/Loop.antt =====
-- server/zmqbroker.cpp: one round of the loop in `run`, with its cleanup and its statistics.
use zmq_pubsub_testing.Base.{
  ℕ, zero, suc, ◌+◌, ◌-◌, ◌*◌, ◌/◌, ◌%◌, ◌^◌, Bytes, true, false, List, [], ◌∷◌, ◌++◌, Option, none,
  some, codes, ltb, length, if◌then◌else◌,
}
use zmq_pubsub_testing.Base.Maps.{Map}
use zmq_pubsub_testing.Keys
use zmq_pubsub_testing.Registry
use zmq_pubsub_testing.SafeQueue.{try_pop}
use zmq_pubsub_testing.Wire.{Header, no_header, Envelope, Codec, encode_header}
use zmq_pubsub_testing.Broker.{
  Broker, ClientState, Output, tap, deliver, remove_client, process_message, exact_subs,
}

abbrev pub seconds : ℕ → ℕ
seconds n = n * 1000000000

abbrev pub client_timeout : ℕ
client_timeout = seconds 10

-- A `uint64_t` counter.
abbrev pub wrap64 : ℕ → ℕ
wrap64 n = n % 2 ^ 64

-- The loop over `m_clients`; `now - last_seen` stops at 0 where the source's is negative, and
-- neither is above the timeout.
unfoldable pub cleanup_clients : ℕ → Map ClientState → Broker → Broker
cleanup_clients now [] b = b
cleanup_clients now ((id, client) ∷ rest) b =
    cleanup_clients now rest
      (if ltb client_timeout (now - client.last_seen) then remove_client b id else b)

unfoldable pub cleanup : ℕ → Broker → Broker
cleanup now b =
    if ltb (seconds 2) (now - b.last_cleanup)
    then record (cleanup_clients now b.clients b) { last_cleanup = now }
    else b

-- `broker::SystemStats`. Counts are the bit patterns of the fields that they are put into, and
-- `kb_per_sec` is the number of bytes that the source divides by 1024.0.
pub record SystemStats : Type 0 where
  pub broker_id : Bytes
  pub clients_count : ℕ
  pub peers_count : ℕ
  pub msgs_per_sec : ℕ
  pub kb_per_sec : ℕ
  pub total_msgs : ℕ
  pub uptime_sec : ℕ
  pub connected_clients : List (Bytes × List Bytes)

unfoldable pub client_infos : Broker → Map ClientState → List (Bytes × List Bytes)
client_infos b [] = []
client_infos b ((id, client) ∷ rest) =
    (id, Registry.or_empty (Registry.subscriptions_of b.subscriptions id)) ∷ client_infos b rest

unfoldable pub system_stats : ℕ → Broker → SystemStats
unfolding client_infos
system_stats now b = record {
  broker_id = b.broker_id;
  clients_count = length b.clients % 2 ^ 32;
  peers_count = length b.peers % 2 ^ 32;
  msgs_per_sec = b.stats.msgs_interval % 2 ^ 32;
  kb_per_sec = b.stats.bytes_interval;
  total_msgs = b.stats.total_messages;
  uptime_sec = (now - b.start_time) / seconds 1;
  connected_clients = client_infos b b.clients;
}

abbrev pub stats_header : Header
stats_header = record no_header {
  handler_key = Keys.sys_stats;
  topic = Keys.sys_stats;
  sender_id = codes "BROKER_SYSTEM";
}

unfoldable pub deliver_all : Bytes → Bytes → List Bytes → List Output
deliver_all header_bytes payload [] = []
deliver_all header_bytes payload (id ∷ ids) =
    deliver id header_bytes payload ∷ deliver_all header_bytes payload ids

-- What the program uses of protobuf: the codec of the headers, and a packed `SystemStats`.
pub record Protobuf : Type 0 where
  pub codec : Codec
  pub pack_stats : SystemStats → Bytes

unfoldable pub broadcast_stats : Protobuf → ℕ → Broker → List Output
broadcast_stats proto now b =
    let payload = proto.pack_stats (system_stats now b) in
    let header_bytes = encode_header proto.codec stats_header in
    tap header_bytes payload ∷ deliver_all header_bytes payload (exact_subs b Keys.sys_stats)

unfoldable pub report : Protobuf → ℕ → ℕ → Broker → Broker × List Output
report proto now stats_now b =
    if ltb (seconds 1) (now - b.last_stats_time)
    then (
      record b {
        last_stats_time = now;
        stats = record (b.stats) { msgs_interval = 0; bytes_interval = 0 };
      },
      broadcast_stats proto stats_now b,
    )
    else (b, [])

-- The counters, before a message of a local client is processed.
unfoldable pub count_message : Codec → Broker → Envelope → Broker
count_message codec b env =
    let wire_bytes = codec.byte_size env.header + length env.payload in
    record b {
      stats = record {
        total_messages = wrap64 (b.stats.total_messages + 1);
        total_bytes = wrap64 (b.stats.total_bytes + wire_bytes);
        msgs_interval = wrap64 (b.stats.msgs_interval + 1);
        bytes_interval = wrap64 (b.stats.bytes_interval + wire_bytes);
      };
    }

-- What a poll of the ROUTER socket gives: nothing, a message of a single part, or an identity
-- with what `wire::recv` makes of the other frames.
pub data Polled : Type 0 where
  idle single_part : Polled
  arrived : Bytes → Option Envelope → Polled

unfoldable pub receive : Codec → ℕ → Bytes → Broker → Polled → Broker × List Output
receive codec now fresh b idle = (b, [])
receive codec now fresh b single_part = (b, [])
receive codec now fresh b (arrived identity none) = (b, [])
receive codec now fresh b (arrived identity (some env)) =
    process_message codec now fresh (count_message codec b env) env.header env.payload identity
      false

-- The sender name that stands for a peer.
abbrev pub peer_sender : Bytes
peer_sender = codes "PEER"

abbrev pub drain_next :
    Codec
    → ℕ
    → (ℕ → Bytes)
    → Broker
    → Option Envelope
    → (Broker → Broker × List Output)
    → Broker × List Output
drain_next codec now fresh b none next = (b, [])
drain_next codec now fresh b (some env) next =
    let (b1, out1) =
      process_message codec now (fresh 0) b env.header env.payload peer_sender true in
    let (b2, out2) = next b1 in (b2, out1 ++ out2)

-- `while (m_peerInboundQueue.try_pop(peerEnv))`, in at most the given number of rounds.
unfoldable pub drain_peers : ℕ → Codec → ℕ → (ℕ → Bytes) → Broker → Broker × List Output
drain_peers zero codec now fresh b = (b, [])
drain_peers (suc fuel) codec now fresh b =
    let (queue, env) = try_pop b.peer_inbound in
    let next = drain_peers fuel codec now (λ n. fresh (suc n)) in
    drain_next codec now fresh (record b { peer_inbound = queue }) env next

-- The clock as the round reads it: in `processMessage`, for the timers, in `broadcastStats`.
pub record Clock : Type 0 where
  pub processing : ℕ
  pub timers : ℕ
  pub statistics : ℕ

-- The rest of a round, behind the poll.
unfoldable pub finish_turn : Protobuf → Clock → (ℕ → Bytes) → Broker → Broker × List Output
finish_turn proto clock fresh b =
    let (b1, peer_out) =
      drain_peers (length b.peer_inbound.items) proto.codec clock.processing fresh b in
    let (b2, stats_out) = report proto clock.timers clock.statistics (cleanup clock.timers b1) in
    (b2, peer_out ++ stats_out)

-- One round. A message of a single part ends it at once.
unfoldable pub turn : Protobuf → Clock → (ℕ → Bytes) → Broker → Polled → Broker × List Output
turn proto clock fresh b single_part = (b, [])
turn proto clock fresh b polled =
    let (b1, out1) = receive proto.codec clock.processing (fresh 0) b polled in
    let (b2, out2) = finish_turn proto clock (λ n. fresh (suc n)) b1 in (b2, out1 ++ out2)
