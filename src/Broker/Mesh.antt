-- ===== src/Broker/Mesh.antt =====
-- server/zmqbroker.cpp and server/discovery.cpp: the broker's links and the discovery's table.
use zmq_pubsub_testing.Base.{
  ℕ, ◌≤◌, ◌≡◌, refl, ◌∙◌, Bytes, Bool, true, false, not, ◌&&◌, List, [], ◌∷◌, Option, none, some,
  is_some, if◌then◌else◌, arith, text_eq, count, Bool-cases, Option-cases, inl, inr,
}
use zmq_pubsub_testing.Base.Maps.{
  Map, find, keys, find-assign, find-erase, count-keys, count-keys-assign,
}
use zmq_pubsub_testing.Discovery.Beacon.{Heard, decode_beacon}
use zmq_pubsub_testing.Discovery.{
  Discovery, PeerEntry, Event, is_stale, on_beacon, on_datagram, keep_fresh, lost, expire_stale,
  address_of,
}
use zmq_pubsub_testing.Broker.Peers.{add_peer, remove_peer, on_events, link_id}
use zmq_pubsub_testing.Broker.{Broker}

is_some-add_peer :
    (b : Broker) (key address u : Bytes)
    → is_some (find u (add_peer b key address).peers)
      ≡ (if text_eq key u then true else is_some (find u b.peers))
unfolding add_peer
is_some-add_peer b key address u =
    ground (arith, find-assign key u (record { address = address; client_id = link_id b }) b.peers)

is_some-remove_peer :
    (b : Broker) (key u : Bytes)
    → is_some (find u (remove_peer b key).peers)
      ≡ (if text_eq key u then false else is_some (find u b.peers))
unfolding remove_peer
is_some-remove_peer b key u = ground (arith, find-erase key u b.peers)

-- Does `expireStale` drop the entry?
abbrev pub expires : ℕ → Option PeerEntry → Bool
expires now none = false
expires now (some entry) = is_stale now entry

find-keep_fresh :
    (now : ℕ) (u : Bytes) (m : Map PeerEntry)
    → count u (keys m) ≤ 1
    → is_some (find u (keep_fresh now m)) ≡ (is_some (find u m) && not (expires now (find u m)))
unfolding find keep_fresh count
find-keep_fresh now u [] h = refl
find-keep_fresh now u ((k, e) ∷ m) h =
    ground (arith, find-keep_fresh now u m, count-keys u m, count-keys u (keep_fresh now m))

count-keep_fresh :
    (now : ℕ) (u : Bytes) (m : Map PeerEntry) → count u (keys (keep_fresh now m)) ≤ count u (keys m)
unfolding keep_fresh count
count-keep_fresh now u [] = omega arith
count-keep_fresh now u ((k, e) ∷ m) = ground (arith, count-keep_fresh now u m)

on_events-lost :
    (now : ℕ) (u : Bytes) (m : Map PeerEntry) (b : Broker)
    → count u (keys m) ≤ 1
    → is_some (find u (on_events b (lost now m)).peers)
      ≡ (is_some (find u b.peers) && not (expires now (find u m)))
unfolding on_events lost find count
on_events-lost now u [] b h = ground arith
on_events-lost now u ((k, e) ∷ m) b h = elim (Bool-cases (is_stale now e)) [
  | inl stale ↦ rw stale (
      on_events-lost now u m (remove_peer b k) (ground arith)
      ∙ ground (arith, is_some-remove_peer b k u, count-keys u m))
  | inr fresh ↦ rw fresh (on_events-lost now u m b (ground arith) ∙ ground (arith, count-keys u m))
]

pub record Mirrors (d : Discovery) (b : Broker) : Type 0 where
  pub linked : (u : Bytes) → is_some (find u b.peers) ≡ is_some (find u d.dialed)
  pub once : (u : Bytes) → count u (keys d.dialed) ≤ 1

-- What the discovery thread does: it hears a datagram, or drops the silent peers.
pub data Input : Type 0 where
  hears : Bytes → Bytes → ℕ → Input
  expires_at : ℕ → Input

unfoldable pub discover : Discovery → Input → Discovery × List Event
discover d (hears ip bytes now) = on_datagram d ip bytes now
discover d (expires_at now) = expire_stale d now

unfoldable pub mesh_run : Discovery → Broker → List Input → Discovery × Broker
mesh_run d b [] = (d, b)
mesh_run d b (i ∷ is) = let (d', events) = discover d i in mesh_run d' (on_events b events) is

on_beacon-Mirrors :
    (d : Discovery) (b : Broker) (ip : Bytes) (beacon : Heard) (now : ℕ)
    → Mirrors d b
    → Mirrors (on_beacon d ip beacon now).0 (on_events b (on_beacon d ip beacon now).1)
unfolding on_beacon on_events
on_beacon-Mirrors d b ip beacon now m =
    let address = address_of ip beacon.router_port in
    let entry : PeerEntry = record { address = address; last_seen = now } in
    record {
      linked = λ u. ground (
        arith,
        m.linked u,
        find-assign beacon.uuid u entry d.dialed,
        is_some-add_peer b beacon.uuid address u,
      );
      once = λ u. ground (
        arith,
        m.once u,
        count-keys-assign beacon.uuid u entry d.dialed,
        count-keys beacon.uuid d.dialed,
      );
    }

discover-Mirrors :
    (d : Discovery) (b : Broker) (i : Input)
    → Mirrors d b
    → Mirrors (discover d i).0 (on_events b (discover d i).1)
unfolding discover
discover-Mirrors d b (hears ip bytes now) m = elim (Option-cases (decode_beacon bytes)) [
  | inl e ↦ unfold on_datagram on_events in rw (on_datagram, e) m
  | inr (beacon, e) ↦
      unfold on_datagram in rw (on_datagram, e) (on_beacon-Mirrors d b ip beacon now m)
]
discover-Mirrors d b (expires_at now) m =
    unfold expire_stale in
    record {
      linked = λ u.
          on_events-lost now u d.dialed b (m.once u)
          ∙ ground (arith, m.linked u, find-keep_fresh now u d.dialed (m.once u));
      once = λ u. omega (arith, m.once u, count-keep_fresh now u d.dialed);
    }

-- If the broker's links are those of the peers in the discovery's table, each in it once, then
-- they are so again after any sequence of datagrams heard and expiries, with the dial and drop
-- callbacks applied to the broker.
pub mesh_run-Mirrors :
    (is : List Input) (d : Discovery) (b : Broker)
    → Mirrors d b
    → Mirrors (mesh_run d b is).0 (mesh_run d b is).1
unfolding mesh_run
mesh_run-Mirrors [] d b m = m
mesh_run-Mirrors (i ∷ is) d b m =
    mesh_run-Mirrors is (discover d i).0 (on_events b (discover d i).1) (discover-Mirrors d b i m)
