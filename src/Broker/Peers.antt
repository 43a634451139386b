-- ===== src/Broker/Peers.antt =====
-- server/zmqbroker.cpp: the peer links, their message callback, `start` and `stop`.
use zmq_pubsub_testing.Base.{
  ℕ, zero, suc, Bytes, Bool, true, false, ◌&&◌, List, [], ◌∷◌, ◌++◌, Option, none, some, codes,
  ◌==◌, leb, text_eq, is_some, if◌then◌else◌,
}
use zmq_pubsub_testing.Base.Decimal.{ℤ, pos, negsuc, stoi}
use zmq_pubsub_testing.Base.Maps.{Map, find, assign, erase}
use zmq_pubsub_testing.Discovery.{Discovery, Event, dial, drop}
use zmq_pubsub_testing.Keys
use zmq_pubsub_testing.SafeQueue.{Queue, Outcome, push, stop}
use zmq_pubsub_testing.Wire.{no_header, Envelope}
use zmq_pubsub_testing.Broker.{Broker, Link}

abbrev pub take_bytes : ℕ → Bytes → Bytes
take_bytes zero xs = []
take_bytes (suc n) [] = []
take_bytes (suc n) (x ∷ xs) = x ∷ take_bytes n xs

unfoldable pub link_id : Broker → Bytes
link_id b = codes "BrokerLink-" ++ take_bytes 8 b.broker_id

-- `addPeer`: a second link under the same key is discarded unstarted.
unfoldable pub add_peer : Broker → Bytes → Bytes → Broker
add_peer b key address = if is_some (find key b.peers) then b else record b {
  peers = assign key (record { address = address; client_id = link_id b }) b.peers;
}

unfoldable pub remove_peer : Broker → Bytes → Broker
remove_peer b key = if is_some (find key b.peers) then record b { peers = erase key b.peers } else b

-- `connectToPeer`: manual links are keyed by their address.
unfoldable pub connect_to_peer : Broker → Bytes → Broker
unfolding add_peer
connect_to_peer b address = add_peer b address address

-- The callbacks that `start` gives to the discovery.
unfoldable pub on_event : Broker → Event → Broker
on_event b (dial uuid address) = add_peer b uuid address
on_event b (drop uuid) = remove_peer b uuid

unfoldable pub on_events : Broker → List Event → Broker
unfolding on_event
on_events b [] = b
on_events b (e ∷ es) = on_events (on_event b e) es

-- What a link's message callback does: a RESET is answered by the wildcard subscription on the
-- link's control queue, all else goes to the broker's inbound queue.
pub data Reaction : Type 0 where
  resubscribe : Envelope → Reaction
  enqueue : Outcome (Queue Envelope × Bool) → Reaction

-- The subscription that answers a RESET.
abbrev pub wildcard : Link → Envelope
wildcard link = record {
  header = record no_header {
    handler_key = Keys.subscribe;
    sender_id = link.client_id;
    topic = [];
  };
  payload = [];
}

unfoldable pub on_link_message : Broker → Link → Envelope → Reaction
on_link_message b link env =
    if text_eq env.header.handler_key Keys.reset
    then resubscribe (wildcard link)
    else enqueue (push b.peer_inbound env)

-- The text behind the last colon, `none` if there is no colon.
abbrev pub later : Option Bytes → Option Bytes → Option Bytes
later (some text) first = some text
later none first = first

unfoldable pub behind_colon : Bytes → Option Bytes
behind_colon [] = none
behind_colon (c ∷ cs) = later (behind_colon cs) (if c == b':' then some cs else none)

unfoldable pub starts_with : Bytes → Bytes → Bool
starts_with [] text = true
starts_with (p ∷ ps) [] = false
starts_with (p ∷ ps) (c ∷ cs) = (p == c) && starts_with ps cs

abbrev pub valid_port : Option ℤ → Option ℕ
valid_port (some (pos n)) = if leb 1 n && leb n 65535 then some n else none
valid_port (some (negsuc n)) = none
valid_port none = none

abbrev pub port_behind : Option Bytes → Option ℕ
port_behind none = none
port_behind (some text) = valid_port (stoi text)

-- The port of one bind address, `none` where the loop goes on.
unfoldable pub tcp_port : Bytes → Option ℕ
tcp_port address =
    if starts_with (codes "tcp://") address then port_behind (behind_colon address) else none

abbrev pub or_else : Option ℕ → ℕ → ℕ
or_else (some port) rest = port
or_else none rest = rest

unfoldable pub parse_tcp_port : List Bytes → ℕ
parse_tcp_port [] = 0
parse_tcp_port (address ∷ addresses) = or_else (tcp_port address) (parse_tcp_port addresses)

-- `BrokerDiscovery::kDefaultPort`.
abbrev pub default_discovery_port : ℕ
default_discovery_port = 5670

-- The broker with its optional discovery.
pub record Node : Type 0 where
  pub broker : Broker
  pub discovery_enabled : Bool
  pub cluster_name : Bytes
  pub discovery_port : ℕ
  pub discovery : Option Discovery

unfoldable pub enable_discovery : Node → Bytes → ℕ → Node
enable_discovery n cluster port = record n {
  discovery_enabled = true;
  cluster_name = cluster;
  discovery_port = port;
}

unfoldable pub start : Node → ℕ → List Bytes → Node
start n now addresses =
    let started = record (n.broker) { running = true; start_time = now; last_stats_time = now } in
    let router_port = parse_tcp_port addresses in
    if n.discovery_enabled
    then (if router_port == 0 then record n { broker = started } else record n {
      broker = started;
      discovery = some (record {
        cluster = n.cluster_name;
        self_uuid = n.broker.broker_id;
        router_port = router_port;
        discovery_port = n.discovery_port;
        dialed = [];
      });
    })
    else record n { broker = started }

-- The links are taken out before they are stopped; the inbound queue wakes their threads first.
unfoldable pub stop_broker : Broker → Broker × Map Link
stop_broker b =
    (record b { running = false; peer_inbound = stop b.peer_inbound; peers = [] }, b.peers)

-- server/main.cpp: the addresses, and whether `WISP_NO_DISCOVERY` and what `WISP_CLUSTER` are set to.
abbrev pub bindings : List Bytes
bindings = codes "tcp://*:5555" ∷ codes "ipc:///tmp/broker.sock" ∷ []

abbrev pub cluster_or_default : Option Bytes → Bytes
cluster_or_default none = codes "default"
cluster_or_default (some cluster) = cluster

unfoldable pub main_start : Bool → Option Bytes → ℕ → Node → Node
main_start no_discovery cluster now n =
    let configured =
      (if no_discovery
        then n
        else enable_discovery n (cluster_or_default cluster) default_discovery_port) in
    start configured now bindings
