-- ===== src/Broker/Reach.antt =====
-- Everything that changes the broker's state, from any thread, in any order.
use zmq_pubsub_testing.Base.{if_both, ℕ, ◌≡◌, Bytes, Bool, false, [], contains, count, arith}
use zmq_pubsub_testing.Base.Maps.{find, assign, erase}
use zmq_pubsub_testing.Registry
use zmq_pubsub_testing.Registry.Consistent.{empty-IsConsistent}
use zmq_pubsub_testing.Registry.Refinement.{subscribed}
use zmq_pubsub_testing.SafeQueue.{Queue, returns, make, push, stop}
use zmq_pubsub_testing.Wire.{Envelope}
use zmq_pubsub_testing.Broker.Dedup.{no_history, no_history-IsWindow}
use zmq_pubsub_testing.Broker.{Broker}
use zmq_pubsub_testing.Broker.Loop.{Protobuf, Clock, Polled, turn}
use zmq_pubsub_testing.Broker.Peers.{add_peer, remove_peer, stop_broker, link_id}
use zmq_pubsub_testing.Broker.Valid.{IsValid, same_tables}
use zmq_pubsub_testing.Broker.Rounds.{turn-IsValid}

-- The constructor: the queue has the default limit of `SafeQueue`.
unfoldable pub init : Bytes → Broker
unfolding make
init id = record {
  running = false;
  broker_id = id;
  clients = [];
  subscriptions = Registry.empty;
  peers = [];
  peer_inbound = make 5000;
  history = no_history;
  start_time = 0;
  last_stats_time = 0;
  last_cleanup = 0;
  stats = record { total_messages = 0; total_bytes = 0; msgs_interval = 0; bytes_interval = 0 };
}

-- A round of the broker thread, a push by the thread of a peer link, a link that another thread
-- adds or removes, and `stop`.
pub data Step (b : Broker) : Broker → Type 0 where
  round :
      (proto : Protobuf) (clock : Clock) (fresh : ℕ → Bytes) (polled : Polled)
      → Step b (turn proto clock fresh b polled).0
  link_pushes :
      (env : Envelope) (q : Queue Envelope) (done : Bool)
      → push b.peer_inbound env ≡ returns (q, done)
      → Step b (record b { peer_inbound = q })
  adds : (key address : Bytes) → Step b (add_peer b key address)
  removes : (key : Bytes) → Step b (remove_peer b key)
  stops : Step b (stop_broker b).0

pub data Reach (b : Broker) : Broker → Type 0 where
  here : Reach b b
  next : {c d : Broker} → Reach b c → Step c d → Reach b d

pub init-IsValid : (id : Bytes) → IsValid (init id)
unfolding init subscribed contains count find
init-IsValid id = record {
  registry = empty-IsConsistent;
  window = no_history-IsWindow;
  known = λ c t h. cc;
  once = λ c. omega arith;
}

add_peer-IsValid : (b : Broker) (key address : Bytes) → IsValid b → IsValid (add_peer b key address)
unfolding add_peer
add_peer-IsValid b key address v = if_both IsValid _ _ _ v (
    same_tables v b.running
      (assign key (record { address = address; client_id = link_id b }) b.peers) b.peer_inbound
      b.start_time b.last_stats_time b.last_cleanup b.stats)

remove_peer-IsValid : (b : Broker) (key : Bytes) → IsValid b → IsValid (remove_peer b key)
unfolding remove_peer
remove_peer-IsValid b key v =
    if_both IsValid _ _ _
      (same_tables v b.running (erase key b.peers) b.peer_inbound b.start_time b.last_stats_time
        b.last_cleanup b.stats)
      v

Step-IsValid : {b c : Broker} → Step b c → IsValid b → IsValid c
unfolding stop_broker
Step-IsValid {b} (round proto clock fresh polled) v = turn-IsValid proto clock fresh b polled v
Step-IsValid {b} (link_pushes env q done e) v =
    same_tables v b.running b.peers q b.start_time b.last_stats_time b.last_cleanup b.stats
Step-IsValid {b} (adds key address) v = add_peer-IsValid b key address v
Step-IsValid {b} (removes key) v = remove_peer-IsValid b key v
Step-IsValid {b} stops v =
    same_tables v false [] (stop b.peer_inbound) b.start_time b.last_stats_time b.last_cleanup
      b.stats

-- In every state that a new broker reaches by rounds of its loop, pushes of its peer links, links
-- that come and go, and stop, the invariant holds: the registry is consistent in both directions,
-- the window of message ids is sound, only connected clients have subscriptions, and no client
-- stands twice in the table.
pub Reach-IsValid : (id : Bytes) {b : Broker} → Reach (init id) b → IsValid b
Reach-IsValid id here = init-IsValid id
Reach-IsValid id (next r s) = Step-IsValid s (Reach-IsValid id r)
