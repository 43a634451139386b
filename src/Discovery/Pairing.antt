-- ===== src/Discovery/Pairing.antt =====
-- server/discovery.cpp: two brokers that hear each other's beacons.
use zmq_pubsub_testing.Base.{
  ℕ, ◌+◌, ◌≤◌, ◌≡◌, ◌≢◌, ◌⊎◌, inl, inr, refl, Bytes, bytes_lt, not, List, [], ◌∷◌, none,
  if◌then◌else◌, arith, text_eq,
}
use zmq_pubsub_testing.Base.Maps.{find}
use zmq_pubsub_testing.Discovery.Beacon.{encode_beacon}
use zmq_pubsub_testing.Discovery.Roundtrip.{BarFree, decode_beacon-encode_beacon}
use zmq_pubsub_testing.Discovery.{Discovery, Event, dial, drop, on_beacon, on_datagram}

-- `operator<` is a strict total order.
bytes_lt-total : (a b : Bytes) → (a ≡ b) ⊎ (bytes_lt a b ≡ not (bytes_lt b a))
unfolding bytes_lt
bytes_lt-total [] [] = inl refl
bytes_lt-total [] (y ∷ ys) = inr refl
bytes_lt-total (x ∷ xs) [] = inr refl
bytes_lt-total (x ∷ xs) (y ∷ ys) = ground (arith, bytes_lt-total xs ys)

-- How many times `uuid` is dialed.
unfoldable pub dials : Bytes → List Event → ℕ
dials uuid [] = 0
dials uuid (dial u address ∷ es) = (if text_eq u uuid then 1 else 0) + dials uuid es
dials uuid (drop u ∷ es) = dials uuid es

-- The beacon that a broker sends, as `run` encodes it.
abbrev pub beacon_of : Discovery → Bytes
beacon_of d = encode_beacon d.cluster d.self_uuid d.router_port

pub record IsSound (d : Discovery) : Type 0 where
  pub cluster_free : BarFree d.cluster
  pub uuid_free : BarFree d.self_uuid
  pub port_low : 1 ≤ d.router_port
  pub port_high : d.router_port ≤ 65535

on_datagram-beacon :
    (d e : Discovery) (ip : Bytes) (now : ℕ)
    → IsSound e
    → on_datagram d ip (beacon_of e) now
      ≡ on_beacon d ip
          (record { cluster = e.cluster; uuid = e.self_uuid; router_port = e.router_port })
          now
unfolding on_datagram
on_datagram-beacon d e ip now s = rw (
  on_datagram,
  decode_beacon-encode_beacon e.cluster e.self_uuid e.router_port s.cluster_free s.uuid_free
      s.port_low s.port_high,
)

module _ (a b : Discovery) where
  -- When two brokers of one cluster with different uuids, sound beacon fields and no earlier link
  -- to each other hear each other's beacons, exactly one of the two dials the other, and only
  -- once.
  pub one_side_dials :
      (ip_a ip_b : Bytes) (now later : ℕ)
      → IsSound a
      → IsSound b
      → a.cluster ≡ b.cluster
      → a.self_uuid ≢ b.self_uuid
      → find b.self_uuid a.dialed ≡ none
      → find a.self_uuid b.dialed ≡ none
      → dials b.self_uuid (on_datagram a ip_b (beacon_of b) now).1
          + dials a.self_uuid (on_datagram b ip_a (beacon_of a) later).1
        ≡ 1
  unfolding on_beacon dials
  one_side_dials ip_a ip_b now later sa sb same differ new_b new_a =
      rw (on_datagram-beacon a b ip_b now sb, on_datagram-beacon b a ip_a later sa)
        (ground (arith, bytes_lt-total a.self_uuid b.self_uuid))

  pub other_cluster_ignored :
      (ip : Bytes) (now : ℕ)
      → IsSound b
      → a.cluster ≢ b.cluster
      → on_datagram a ip (beacon_of b) now ≡ (a, [])
  unfolding on_beacon
  other_cluster_ignored ip now sb differ = rw (on_datagram-beacon a b ip now sb) (ground arith)
