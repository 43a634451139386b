-- ===== src/Discovery.antt =====
-- server/discovery.h and server/discovery.cpp: beacons, and the peers that this broker dials.
pub mod Beacon
pub mod Roundtrip
pub mod Pairing
pub mod Loop
pub mod Run
pub mod Steady
mod Tests
use zmq_pubsub_testing.Base.{
  ℕ, ◌-◌, ◌*◌, ◌++◌, Bytes, Bool, true, false, List, [], ◌∷◌, Option, none, some, codes, text_eq,
  bytes_lt, ltb, if◌then◌else◌,
}
use zmq_pubsub_testing.Base.Decimal.{to_string}
use zmq_pubsub_testing.Base.Maps.{Map, find, assign, erase}
use Beacon.{Heard, decode_beacon}

pub record PeerEntry : Type 0 where
  pub address : Bytes
  pub last_seen : ℕ

pub record Discovery : Type 0 where
  pub cluster : Bytes
  pub self_uuid : Bytes
  pub router_port : ℕ
  pub discovery_port : ℕ
  pub dialed : Map PeerEntry

-- The calls of `m_dial` and `m_drop`.
pub data Event : Type 0 where
  dial : Bytes → Bytes → Event
  drop : Bytes → Event

abbrev pub peer_timeout : ℕ
peer_timeout = 5 * 1000000000

abbrev pub address_of : Bytes → ℕ → Bytes
address_of sender_ip port = codes "tcp://" ++ (sender_ip ++ (codes ":" ++ to_string port))

-- A beacon of a peer that this broker has to dial: it is remembered, and dialed if it is new.
abbrev pub remember : Discovery → Bytes → Bytes → ℕ → Option PeerEntry → Discovery × List Event
remember d uuid address now none = (
  record d { dialed = assign uuid (record { address = address; last_seen = now }) d.dialed },
  dial uuid address ∷ [],
)
remember d uuid address now (some entry) =
    (record d { dialed = assign uuid (record { address = address; last_seen = now }) d.dialed }, [])

-- `onDatagram` behind the decoding: another mesh, our own beacon, or the other side dials.
unfoldable pub on_beacon : Discovery → Bytes → Heard → ℕ → Discovery × List Event
on_beacon d sender_ip beacon now =
    if text_eq beacon.cluster d.cluster
    then (if text_eq beacon.uuid d.self_uuid
        then (d, [])
        else if bytes_lt d.self_uuid beacon.uuid
        then remember d beacon.uuid (address_of sender_ip beacon.router_port) now
            (find beacon.uuid d.dialed)
        else (d, []))
    else (d, [])

unfoldable pub on_datagram : Discovery → Bytes → Bytes → ℕ → Discovery × List Event
on_datagram d sender_ip bytes now = elim (decode_beacon bytes) [
  | none ↦ (d, [])
  | some beacon ↦ on_beacon d sender_ip beacon now
]

abbrev pub is_stale : ℕ → PeerEntry → Bool
is_stale now entry = ltb peer_timeout (now - entry.last_seen)

-- The loop of `expireStale`: the entries that stay, and the ids of those that go.
unfoldable pub keep_fresh : ℕ → Map PeerEntry → Map PeerEntry
keep_fresh now [] = []
keep_fresh now ((uuid, entry) ∷ rest) =
    (if is_stale now entry then [] else (uuid, entry) ∷ []) ++ keep_fresh now rest

unfoldable pub lost : ℕ → Map PeerEntry → List Event
lost now [] = []
lost now ((uuid, entry) ∷ rest) =
    (if is_stale now entry then drop uuid ∷ [] else []) ++ lost now rest

unfoldable pub expire_stale : Discovery → ℕ → Discovery × List Event
unfolding keep_fresh lost
expire_stale d now = (record d { dialed = keep_fresh now d.dialed }, lost now d.dialed)
