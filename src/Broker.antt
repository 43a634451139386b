-- ===== src/Broker.antt =====
-- server/zmqbroker.h and server/zmqbroker.cpp: the broker's state and `processMessage`. A handler
-- returns the new state and what it puts out, in order; the transport of Wire carries that.
pub mod Dedup
pub mod Loop
pub mod Peers
pub mod Mesh
pub mod Valid
pub mod Delivery
pub mod Verbatim
pub mod Timers
pub mod Rounds
pub mod Reach
pub mod Reports
pub mod Ports
mod Example
mod Tests
mod LoopTests
mod CopyTests
mod NetworkTests
pub mod Publish
pub mod Effects
pub mod Carries
pub mod Flood
pub mod Copies
pub mod Gets
pub mod Once
pub mod Relay
pub mod Totals
pub mod Drain
pub mod Network
use zmq_pubsub_testing.Base.{
  ℕ, ◌+◌, Bytes, Bool, true, false, ◌&&◌, ◌||◌, not, List, [], ◌∷◌, ◌++◌, Option, none, some, codes,
  text_eq, contains, is_empty, is_some, if◌then◌else◌,
}
use zmq_pubsub_testing.Base.Maps.{Map, find, assign, erase, keys}
use zmq_pubsub_testing.Keys
use zmq_pubsub_testing.Registry
use zmq_pubsub_testing.Registry.{Registry}
use zmq_pubsub_testing.SafeQueue.{Queue}
use zmq_pubsub_testing.Wire.{Header, no_header, Envelope, Codec, encode_header}
use Dedup.{History, is_duplicate}

-- Times are ticks of the steady clock, a nanosecond each.
pub record ClientState : Type 0 where
  pub identity : Bytes
  pub last_seen : ℕ

-- A peer link: the worker that `addPeer` makes.
pub record Link : Type 0 where
  pub address : Bytes
  pub client_id : Bytes

pub record Stats : Type 0 where
  pub total_messages : ℕ
  pub total_bytes : ℕ
  pub msgs_interval : ℕ
  pub bytes_interval : ℕ

pub record Broker : Type 0 where
  pub running : Bool
  pub broker_id : Bytes
  pub clients : Map ClientState
  pub subscriptions : Registry
  pub peers : Map Link
  pub peer_inbound : Queue Envelope
  pub history : History
  pub start_time : ℕ
  pub last_stats_time : ℕ
  pub last_cleanup : ℕ
  pub stats : Stats

-- Frames for the inspector, for a local client, an envelope for a peer link.
pub data Output : Type 0 where
  tap : Bytes → Bytes → Output
  deliver : Bytes → Bytes → Bytes → Output
  forward : Bytes → Envelope → Output

abbrev pub is_connected : Broker → Bytes → Bool
is_connected b id = is_some (find id b.clients)

unfoldable pub remove_client : Broker → Bytes → Broker
remove_client b id = record b {
  subscriptions = Registry.remove_client b.subscriptions id;
  clients = erase id b.clients;
}

abbrev pub control : Bytes → Header
control key = record no_header { handler_key = key }

-- A fresh message gets an id and its origin; a forwarded one keeps them.
unfoldable pub stamp : Broker → Bytes → Header → Header
stamp b fresh header =
    if is_empty header.message_uuid
    then record header { message_uuid = fresh; origin_broker_id = b.broker_id }
    else header

-- The lambda `deliver`: not to the sender, if that is a local client, nor to one that has gone.
unfoldable pub deliver_each : Broker → Bool → Bytes → Bytes → Bytes → List Bytes → List Output
deliver_each b from_peer sender header_bytes payload [] = []
deliver_each b from_peer sender header_bytes payload (id ∷ ids) =
    (if (not from_peer && text_eq id sender) || not (is_connected b id)
      then []
      else deliver id header_bytes payload ∷ [])
    ++ deliver_each b from_peer sender header_bytes payload ids

-- The subscribers that the loop over `wildcardSubs` does not skip.
unfoldable pub not_in : List Bytes → List Bytes → List Bytes
not_in exact [] = []
not_in exact (id ∷ ids) = (if contains id exact then [] else id ∷ []) ++ not_in exact ids

abbrev pub exact_subs : Broker → Bytes → List Bytes
exact_subs b topic = Registry.or_empty (Registry.subscribers_of b.subscriptions topic)

-- An empty-topic subscription is a wildcard.
abbrev pub wildcard_subs : Broker → Bytes → List Bytes
wildcard_subs b topic =
    if is_empty topic then [] else Registry.or_empty (Registry.subscribers_of b.subscriptions [])

unfoldable pub deliver_local : Broker → Header → Bytes → Bytes → Bytes → Bool → List Output
deliver_local b header header_bytes payload sender from_peer =
    let exact = exact_subs b header.topic in
    deliver_each b from_peer sender header_bytes payload exact
    ++ deliver_each b from_peer sender header_bytes payload
        (not_in exact (wildcard_subs b header.topic))

unfoldable pub flood : List Bytes → Envelope → List Output
flood [] env = []
flood (key ∷ links) env = forward key env ∷ flood links env

-- `processMessage` from the loop protection on.
unfoldable pub route : Broker → Header → Bytes → Bytes → Bytes → Bool → Broker × List Output
route b header header_bytes payload sender from_peer =
    let (history, seen_before) = is_duplicate b.history header.message_uuid in
    let b' = record b { history = history } in
    if seen_before then (b', []) else (
      b',
      deliver_local b' header header_bytes payload sender from_peer
          ++ flood (keys b'.peers) (record { header = header; payload = payload }),
    )

-- A message of a client that is known, and now marked as seen.
unfoldable pub handle_known : Codec → Broker → Header → Bytes → Bytes → Bytes → Broker × List Output
handle_known codec b header header_bytes payload sender =
    let key = header.handler_key in
    if text_eq key Keys.connect || text_eq key Keys.heartbeat
    then (
      b,
      if text_eq key Keys.heartbeat
          then deliver sender (encode_header codec (control Keys.heartbeat_ack)) [] ∷ []
          else [],
    )
    else if text_eq key Keys.subscribe
    then (
      record b { subscriptions = (Registry.subscribe b.subscriptions sender header.topic).0 },
      [],
    )
    else if text_eq key Keys.unsubscribe
    then (
      record b { subscriptions = (Registry.unsubscribe b.subscriptions sender header.topic).0 },
      [],
    )
    else route b header header_bytes payload sender false

unfoldable pub mark_seen : Broker → Bytes → ℕ → Broker
mark_seen b sender now = record b {
  clients = assign sender (record { identity = sender; last_seen = now }) b.clients;
}

unfoldable pub handle_local :
    Codec → ℕ → Broker → Header → Bytes → Bytes → Bytes → Broker × List Output
handle_local codec now b header header_bytes payload sender =
    if text_eq header.handler_key Keys.disconnect
    then (remove_client b sender, [])
    else if is_connected b sender
    then handle_known codec (mark_seen b sender now) header header_bytes payload sender
    else (mark_seen b sender now, deliver sender (encode_header codec (control Keys.reset)) [] ∷ [])

unfoldable pub handle_peer : Broker → Header → Bytes → Bytes → Bytes → Broker × List Output
handle_peer b header header_bytes payload sender =
    let key = header.handler_key in
    if text_eq key Keys.reset || text_eq key Keys.heartbeat_ack || text_eq key Keys.heartbeat
    then (b, [])
    else route b header header_bytes payload sender true

-- What `generateUUID` would return and the clock are arguments.
unfoldable pub process_message :
    Codec → ℕ → Bytes → Broker → Header → Bytes → Bytes → Bool → Broker × List Output
process_message codec now fresh b header payload sender from_peer =
    let header' = stamp b fresh header in
    let header_bytes = encode_header codec header' in
    let (b', outputs) =
      (if from_peer
        then handle_peer b header' header_bytes payload sender
        else handle_local codec now b header' header_bytes payload sender) in
    (b', tap header_bytes payload ∷ outputs)
