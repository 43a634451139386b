-- ===== src/Discovery/Steady.antt =====
-- server/discovery.cpp: many rounds of the loop, seen from one peer that is dialed.
use zmq_pubsub_testing.Base.{
  ℕ, ◌+◌, ◌≤◌, ◌≡◌, refl, Bytes, Bool, true, false, not, ◌&&◌, List, [], ◌∷◌, ◌++◌, Option, none,
  some, is_some, is_empty, leb, text_eq, bytes_lt, if◌then◌else◌, arith, count, Bool-cases,
  Option-cases, inl, inr,
}
use zmq_pubsub_testing.Base.Maps.{Map, find, keys, find-assign, count-keys, count-keys-assign}
use zmq_pubsub_testing.Discovery.Beacon.{Heard, decode_beacon}
use zmq_pubsub_testing.Discovery.{
  Discovery, PeerEntry, dial, drop, on_beacon, on_datagram, keep_fresh, lost, expire_stale,
  peer_timeout, address_of,
}
use zmq_pubsub_testing.Discovery.Loop.{
  Running, Datagram, Output, broadcasts, calls, all_calls, send_beacon, hear_datagram, turn,
}

-- How often the peer is dropped.
unfoldable pub drops : Bytes → List Output → ℕ
drops u [] = 0
drops u (broadcasts b ∷ outs) = drops u outs
drops u (calls (dial v address) ∷ outs) = drops u outs
drops u (calls (drop v) ∷ outs) = (if text_eq v u then 1 else 0) + drops u outs

-- Is it a beacon of the peer that this broker has to dial?
abbrev pub is_beacon_of : Discovery → Bytes → Option Heard → Bool
is_beacon_of d u none = false
is_beacon_of d u (some beacon) =
    text_eq beacon.cluster d.cluster
    && not (text_eq beacon.uuid d.self_uuid)
    && bytes_lt d.self_uuid beacon.uuid
    && text_eq beacon.uuid u

abbrev pub hears_peer : Discovery → Bytes → Option Datagram → Bool
hears_peer d u none = false
hears_peer d u (some g) = not (is_empty g.bytes) && is_beacon_of d u (decode_beacon g.bytes)

pub record Round : Type 0 where
  pub now : ℕ
  pub heard_now : ℕ
  pub polled : Option Datagram

unfoldable pub run : Running → List Round → Running × List Output
run r [] = (r, [])
run r (x ∷ xs) =
    let (r1, out1) = turn x.now x.heard_now x.polled r in
    let (r2, out2) = run r1 xs in (r2, out1 ++ out2)

-- Each round comes within the timeout of the peer's last beacon; `seen` is the time of that.
unfoldable pub Steady : Discovery → Bytes → ℕ → List Round → Type 0
Steady d u seen [] = Unit
Steady d u seen (x ∷ xs) =
    (x.now ≤ seen + peer_timeout)
    × Steady d u (if hears_peer d u x.polled then x.heard_now else seen) xs

drops-append : (u : Bytes) (xs ys : List Output) → drops u (xs ++ ys) ≡ drops u xs + drops u ys
unfolding drops
drops-append u [] ys = omega arith
drops-append u (broadcasts b ∷ xs) ys = drops-append u xs ys
drops-append u (calls (dial v a) ∷ xs) ys = drops-append u xs ys
drops-append u (calls (drop v) ∷ xs) ys = omega (arith, drops-append u xs ys)

-- The time in an entry.
abbrev pub seen_at : Option PeerEntry → Option ℕ
seen_at none = none
seen_at (some e) = some e.last_seen

absent-drops :
    (now : ℕ) (u : Bytes) (m : Map PeerEntry)
    → count u (keys m) ≡ 0
    → drops u (all_calls (lost now m)) ≡ 0
unfolding lost drops all_calls count
absent-drops now u [] h = refl
absent-drops now u ((k, x) ∷ m) h = ground (arith, absent-drops now u m)

count-keep_fresh :
    (now : ℕ) (u : Bytes) (m : Map PeerEntry) → count u (keys (keep_fresh now m)) ≤ count u (keys m)
unfolding keep_fresh count
count-keep_fresh now u [] = omega arith
count-keep_fresh now u ((k, e) ∷ m) = ground (arith, count-keep_fresh now u m)

seen-keep_fresh :
    (now : ℕ) (u : Bytes) (m : Map PeerEntry) (seen : ℕ)
    → count u (keys m) ≤ 1
    → now ≤ seen + peer_timeout
    → seen_at (find u m) ≡ some seen
    → (seen_at (find u (keep_fresh now m)) ≡ some seen) × (drops u (all_calls (lost now m)) ≡ 0)
unfolding find keep_fresh lost drops all_calls count
seen-keep_fresh now u [] seen h fresh e = cc
seen-keep_fresh now u ((k, x) ∷ m) seen h fresh e =
    ground (arith, seen-keep_fresh now u m seen, absent-drops now u m)

-- The peer is in the table once, last seen at the given time.
pub record IsDialed (d : Discovery) (u : Bytes) (seen : ℕ) (r : Running) : Type 0 where
  pub cluster : r.discovery.cluster ≡ d.cluster
  pub self : r.discovery.self_uuid ≡ d.self_uuid
  pub entry : seen_at (find u r.discovery.dialed) ≡ some seen
  pub once : count u (keys r.discovery.dialed) ≤ 1

module _ (d : Discovery) (u : Bytes) where
  send_beacon-IsDialed :
      (now seen : ℕ) (r : Running)
      → now ≤ seen + peer_timeout
      → IsDialed d u seen r
      → IsDialed d u seen (send_beacon now r).0 × (drops u (send_beacon now r).1 ≡ 0)
  unfolding send_beacon expire_stale drops
  send_beacon-IsDialed now seen r fresh i =
      let kept = seen-keep_fresh now u r.discovery.dialed seen i.once fresh i.entry in
      elim (Bool-cases (leb r.next_beacon now)) [
        | inl due ↦
            rw (due, send_beacon)
              (
                record {
                  cluster = i.cluster;
                  self = i.self;
                  entry = kept.0;
                  once = omega (arith, i.once, count-keep_fresh now u r.discovery.dialed);
                },
                kept.1,
              )
        | inr early ↦ rw (early, send_beacon) (i, refl)
      ]

  on_beacon-IsDialed :
      (ip : Bytes) (beacon : Heard) (now seen : ℕ) (r : Running)
      → IsDialed d u seen r
      → let s = on_beacon r.discovery ip beacon now in
        IsDialed d u
          (if is_beacon_of d u (some beacon) then now else seen)
          (record r { discovery = s.0 })
        × (drops u (all_calls s.1) ≡ 0)
  unfolding on_beacon drops all_calls
  on_beacon-IsDialed ip beacon now seen r i =
      let new : PeerEntry = record {
        address = address_of ip beacon.router_port;
        last_seen = now;
      } in
      let found = find-assign beacon.uuid u new r.discovery.dialed in
      let counted = count-keys-assign beacon.uuid u new r.discovery.dialed in
      (
        record {
          cluster = ground (arith, i.cluster);
          self = ground (arith, i.self);
          entry = ground (arith, i.cluster, i.self, i.entry, found);
          once = ground (arith, i.once, counted, count-keys beacon.uuid r.discovery.dialed);
        },
        ground arith,
      )

  hear_datagram-IsDialed :
      (now seen : ℕ) (polled : Option Datagram) (r : Running)
      → IsDialed d u seen r
      → IsDialed d u (if hears_peer d u polled then now else seen) (hear_datagram now polled r).0
        × (drops u (hear_datagram now polled r).1 ≡ 0)
  unfolding hear_datagram on_datagram drops all_calls
  hear_datagram-IsDialed now seen none r i = (i, refl)
  hear_datagram-IsDialed now seen (some g) r i = elim (Bool-cases (is_empty g.bytes)) [
    | inl nothing ↦ rw (nothing, hear_datagram) (i, refl)
    | inr bytes ↦
        rw (bytes, hear_datagram)
          (elim (Option-cases (decode_beacon g.bytes)) [
            | inl bad ↦ rw (bad, on_datagram) (i, refl)
            | inr (beacon, good) ↦
                rw (good, on_datagram) (on_beacon-IsDialed g.sender_ip beacon now seen r i)
          ])
  ]

  -- If a dialed peer's entry stands in the table once, and each round of the discovery's loop
  -- comes within five seconds of the last beacon of that peer, as the entry and the rounds before
  -- tell it, then the peer is never dropped during those rounds and is still in the table behind
  -- them.
  pub drops-run :
      (xs : List Round) (seen : ℕ) (r : Running)
      → IsDialed d u seen r
      → Steady d u seen xs
      → (drops u (run r xs).1 ≡ 0) × (is_some (find u (run r xs).0.discovery.dialed) ≡ true)
  unfolding run turn Steady drops
  drops-run [] seen r i s = (refl, ground (arith, i.entry))
  drops-run (x ∷ xs) seen r i s =
      let sent = send_beacon-IsDialed x.now seen r s.0 i in
      let r1 = (send_beacon x.now r).0 in
      let heard = hear_datagram-IsDialed x.heard_now seen x.polled r1 sent.0 in
      let r2 = (hear_datagram x.heard_now x.polled r1).0 in
      let rest =
        drops-run xs (if hears_peer d u x.polled then x.heard_now else seen) r2 heard.0 s.1 in
      (
        omega (
          arith,
          drops-append u ((send_beacon x.now r).1 ++ (hear_datagram x.heard_now x.polled r1).1)
              (run r2 xs).1,
          drops-append u (send_beacon x.now r).1 (hear_datagram x.heard_now x.polled r1).1,
          sent.1,
          heard.1,
          rest.0,
        ),
        rest.1,
      )
