-- ===== src/Discovery/Loop.antt =====
-- server/discovery.cpp: a round of the loop in `run`, with its beacon and its datagram.
use zmq_pubsub_testing.Base.{
  ℕ, ◌+◌, Bytes, List, [], ◌∷◌, ◌++◌, Option, none, some, is_empty, leb, if◌then◌else◌,
}
use zmq_pubsub_testing.Discovery.{Discovery, Event, on_datagram, expire_stale}
use zmq_pubsub_testing.Discovery.Pairing.{beacon_of}

abbrev pub beacon_interval : ℕ
beacon_interval = 1000000000

-- The loop's own state: the discovery's, and `nextBeacon`.
pub record Running : Type 0 where
  pub discovery : Discovery
  pub next_beacon : ℕ

-- A datagram that `recvfrom` gave, with the sender's address as `inet_ntop` prints it.
pub record Datagram : Type 0 where
  pub sender_ip : Bytes
  pub bytes : Bytes

-- What a round puts out: a broadcast, and the calls of the callbacks.
pub data Output : Type 0 where
  broadcasts : Bytes → Output
  calls : Event → Output

unfoldable pub all_calls : List Event → List Output
all_calls [] = []
all_calls (e ∷ es) = calls e ∷ all_calls es

unfoldable pub send_beacon : ℕ → Running → Running × List Output
send_beacon now r =
    if leb r.next_beacon now
    then (let (d, events) = expire_stale r.discovery now in
        (
          record { discovery = d; next_beacon = now + beacon_interval },
          broadcasts (beacon_of r.discovery) ∷ all_calls events,
        ))
    else (r, [])

-- Datagrams of no bytes are ignored.
unfoldable pub hear_datagram : ℕ → Option Datagram → Running → Running × List Output
hear_datagram now none r = (r, [])
hear_datagram now (some g) r =
    let (d, events) = on_datagram r.discovery g.sender_ip g.bytes now in
    if is_empty g.bytes then (r, []) else (record r { discovery = d }, all_calls events)

-- The clock is read at the head of the round and again for a datagram.
unfoldable pub turn : ℕ → ℕ → Option Datagram → Running → Running × List Output
turn now heard_now polled r =
    let (r1, out1) = send_beacon now r in
    let (r2, out2) = hear_datagram heard_now polled r1 in (r2, out1 ++ out2)
