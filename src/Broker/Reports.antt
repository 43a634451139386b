-- ===== src/Broker/Reports.antt =====
-- server/zmqbroker.cpp, `broadcastStats`: who gets the statistics.
use zmq_pubsub_testing.Base.{
  ℕ, ◌≡◌, refl, ap, ◌∙◌, Bytes, true, false, List, [], ◌∷◌, if◌then◌else◌, arith, count, contains,
}
use zmq_pubsub_testing.Keys
use zmq_pubsub_testing.Keys.{is_control_message, sys_stats_ordinary}
use zmq_pubsub_testing.Registry.Refinement.{subscribed}
use zmq_pubsub_testing.Wire.{Header}
use zmq_pubsub_testing.Broker.{Broker, exact_subs, stamp, process_message}
use zmq_pubsub_testing.Broker.Publish.{publish-peer}
use zmq_pubsub_testing.Broker.Loop.{peer_sender, Protobuf, deliver_all, broadcast_stats}
use zmq_pubsub_testing.Broker.Valid.{IsValid}
use zmq_pubsub_testing.Broker.Delivery.{delivered, wants, count-exact_subs}

delivered-deliver_all :
    (c bytes payload : Bytes) (ids : List Bytes)
    → delivered c (deliver_all bytes payload ids) ≡ count c ids
unfolding delivered deliver_all count
delivered-deliver_all c bytes payload [] = refl
delivered-deliver_all c bytes payload (id ∷ ids) =
    ground (arith, delivered-deliver_all c bytes payload ids)

-- In a valid state, the statistics are delivered once to each client that subscribes to their own
-- topic, and to no other.
pub delivered-broadcast_stats :
    (proto : Protobuf) (now : ℕ) (b : Broker) (c : Bytes)
    → IsValid b
    → delivered c (broadcast_stats proto now b)
      ≡ (if subscribed b.subscriptions c Keys.sys_stats then 1 else 0)
unfolding broadcast_stats delivered
delivered-broadcast_stats proto now b c v =
    delivered-deliver_all c _ _ (exact_subs b Keys.sys_stats)
    ∙ count-exact_subs b c Keys.sys_stats v

-- In a valid state, a client that subscribes to every topic by the wildcard but not to the
-- statistics' own topic is delivered once a peer's message with the key and the topic of the
-- statistics, whose id is not in the window, and is never delivered the statistics that the
-- broker itself broadcasts.
pub wildcard_misses_stats :
    (proto : Protobuf) (now : ℕ) (fresh : Bytes) (b : Broker) (h : Header) (payload c : Bytes)
    → IsValid b
    → subscribed b.subscriptions c [] ≡ true
    → subscribed b.subscriptions c Keys.sys_stats ≡ false
    → h.topic ≡ Keys.sys_stats
    → h.handler_key ≡ Keys.sys_stats
    → contains (stamp b fresh h).message_uuid b.history.seen ≡ false
    → (delivered c (process_message proto.codec now fresh b h payload peer_sender true).1 ≡ 1)
      × (delivered c (broadcast_stats proto now b) ≡ 0)
wildcard_misses_stats proto now fresh b h payload c v wild plain topic key new =
    let ordinary = ap is_control_message key ∙ sys_stats_ordinary in
    let sent =
      (publish-peer proto.codec now fresh b h payload peer_sender c c v ordinary new).0
      ∙ ap (λ t. if wants b c t then 1 else 0) topic in
    (ground (arith, sent, wild), ground (arith, delivered-broadcast_stats proto now b c v))
