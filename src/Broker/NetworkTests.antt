-- ===== src/Broker/NetworkTests.antt =====
-- Three brokers whose links make a ring, at concrete inputs.
use zmq_pubsub_testing.Base.{
  ◌≡◌, refl, subst, ℕ, zero, suc, Bytes, Bytes-discrete, ℕ_discrete, true, false, List, [], ◌∷◌,
  codes, Option, none, some, arith, count, contains, bytes_lt, text_eq, if◌then◌else◌,
}
use zmq_pubsub_testing.Base.Maps.{find, assign, erase}
use zmq_pubsub_testing.Keys
use zmq_pubsub_testing.Keys.{is_control_message}
use zmq_pubsub_testing.Registry
use zmq_pubsub_testing.Registry.Refinement.{subscribed}
use zmq_pubsub_testing.Registry.Sets.{place, remove, swap_remove}
use zmq_pubsub_testing.SafeQueue.{make}
use zmq_pubsub_testing.Wire.{Header, encode_header, decode_frame}
use zmq_pubsub_testing.Wire.Sample
use zmq_pubsub_testing.Broker.{
  Broker, Link, remove_client, stamp, deliver_each, not_in, deliver_local, flood, route,
  handle_known, mark_seen, handle_local, handle_peer, process_message,
}
use zmq_pubsub_testing.Broker.Delivery.{delivered}
use zmq_pubsub_testing.Broker.Dedup.{is_duplicate}
use zmq_pubsub_testing.Broker.Peers.{add_peer}
use zmq_pubsub_testing.Broker.Reach.{init, here, next, Reach-IsValid}
use zmq_pubsub_testing.Broker.Valid.{IsValid}
use zmq_pubsub_testing.Broker.Example.{
  alice, news, hello, hear, hear-IsValid, control_message, linked, linked-Reach,
}
use zmq_pubsub_testing.Broker.Network.Arrivals.{IsWired}
use zmq_pubsub_testing.Broker.Network.Pools.{copy}
use zmq_pubsub_testing.Broker.Network.Exactly.{gets_over-network_run}
use zmq_pubsub_testing.Broker.Network.Gives.{gets_over}
use zmq_pubsub_testing.Broker.Network.Links.{routed, over, Connects, here, next}
use zmq_pubsub_testing.Broker.Network.Places.{AreValid}
use zmq_pubsub_testing.Broker.Network.Quiet.{IsFlood, pool-network_run}
use zmq_pubsub_testing.Broker.Network.Spread.{IsConsistent}
use zmq_pubsub_testing.Broker.Network.{
  Wiring, Network, connected_at, network_run, network_step, arrive, work_at, transfers,
}

program : Unit {0}
unfolding find assign erase count contains bytes_lt Bytes-discrete ℕ_discrete place remove
    swap_remove Registry.subscribe Registry.unsubscribe Registry.drop_subscriber
    Registry.drop_topics Registry.remove_client make encode_header remove_client stamp deliver_each
    not_in deliver_local flood route handle_known mark_seen handle_local handle_peer process_message
    is_duplicate init add_peer Keys.connect Keys.disconnect Keys.reset Keys.heartbeat
    Keys.heartbeat_ack Keys.subscribe Keys.unsubscribe Keys.sys_stats is_control_message
program = tt

abbrev worker : Bytes
worker = codes "BrokerLink-broker-1"

-- Alice hears the news, and the link's worker everything.
abbrev node : Broker
node =
    hear
      (hear
        (hear (hear linked (control_message Keys.connect []) alice)
          (control_message Keys.connect []) worker)
        (control_message Keys.subscribe []) worker)
      (control_message Keys.subscribe news) alice

node-IsValid : IsValid node
node-IsValid = hear-IsValid _ _ _ (
    hear-IsValid _ _ _
      (hear-IsValid _ _ _ (hear-IsValid _ _ _ (Reach-IsValid (codes "broker-1") linked-Reach))))

abbrev ring : List Broker
ring = node ∷ node ∷ node ∷ []

ring-AreValid : AreValid ring
ring-AreValid = (node-IsValid, (node-IsValid, (node-IsValid, tt)))

-- Every broker has dialed the next one.
abbrev ring_end : ℕ → Bytes → Option (ℕ × Bytes)
ring_end zero k = some (1, worker)
ring_end (suc zero) k = some (2, worker)
ring_end (suc (suc zero)) k = some (0, worker)
ring_end (suc (suc (suc i))) k = none

abbrev ring_link : Link
ring_link = record { address = codes "tcp://p"; client_id = worker }

abbrev ring_before : ℕ → Option (ℕ × Link)
ring_before zero = some (2, ring_link)
ring_before (suc zero) = some (0, ring_link)
ring_before (suc (suc zero)) = some (1, ring_link)
ring_before (suc (suc (suc i))) = none

abbrev ring_of : ℕ → Bytes → Option (ℕ × Link)
ring_of i c = if text_eq c worker then ring_before i else none

abbrev ring_wiring : Wiring
ring_wiring = record {
  codec = Sample.codec;
  now = 5;
  fresh = [];
  link_end = ring_end;
  link_of = ring_of;
}

same_end :
    (i j : ℕ) (c d : Bytes)
    → ◌≡◌ {A = Option (ℕ × Bytes)} (some (i, c)) (some (j, d))
    → (i ≡ j) × (c ≡ d)
same_end i j c d e = (cc, cc)

no_end : (x : ℕ × Bytes) → ◌≡◌ {A = Option (ℕ × Bytes)} none (some x) → ⊥
no_end x e = cc

ring-IsWired : IsWired ring_wiring hello [] ring
unfolding program
ring-IsWired zero j k id e =
    let s = same_end 1 j worker id e in
    subst (λ x. connected_at x id ring ≡ true) s.0
      (subst (λ x. connected_at 1 x ring ≡ true) s.1 refl)
ring-IsWired (suc zero) j k id e =
    let s = same_end 2 j worker id e in
    subst (λ x. connected_at x id ring ≡ true) s.0
      (subst (λ x. connected_at 2 x ring ≡ true) s.1 refl)
ring-IsWired (suc (suc zero)) j k id e =
    let s = same_end 0 j worker id e in
    subst (λ x. connected_at x id ring ≡ true) s.0
      (subst (λ x. connected_at 0 x ring ≡ true) s.1 refl)
ring-IsWired (suc (suc (suc i))) j k id e = absurd (no_end (j, id) e)

-- Who is before the next one.
ring_back :
    (i n j : ℕ) (c : Bytes)
    → ◌≡◌ {A = Option (ℕ × Bytes)} (some (n, worker)) (some (j, c))
    → ring_of n worker ≡ some (i, ring_link)
    → (link : Link) × (ring_of j c ≡ some (i, link))
ring_back i n j c e before =
    let s = same_end n j worker c e in
    (
      ring_link,
      subst (λ x. ring_of x c ≡ some (i, ring_link)) s.0
          (subst (λ x. ring_of n x ≡ some (i, ring_link)) s.1 before),
    )

ring-IsConsistent : IsConsistent ring_wiring hello []
unfolding program
ring-IsConsistent zero j k c e = ring_back 0 1 j c e refl
ring-IsConsistent (suc zero) j k c e = ring_back 1 2 j c e refl
ring-IsConsistent (suc (suc zero)) j k c e = ring_back 2 0 j c e refl
ring-IsConsistent (suc (suc (suc i))) j k c e = absurd (no_end (j, c) e)

ring_new : (i : ℕ) → routed (codes "u7") i ring ≡ false
unfolding program
ring_new zero = refl
ring_new (suc zero) = refl
ring_new (suc (suc zero)) = refl
ring_new (suc (suc (suc i))) = refl

ring_lossless : (g : Header) → decode_frame Sample.codec (encode_header Sample.codec g) ≡ some g
unfolding decode_frame encode_header
ring_lossless g = Sample.decode-encode g

-- The newest copy first.
abbrev order : List ℕ
order = 0 ∷ 1 ∷ 2 ∷ 3 ∷ 0 ∷ 0 ∷ 5 ∷ 0 ∷ 1 ∷ 0 ∷ []

abbrev asked : Network
asked = record { brokers = ring; pool = copy ring_wiring hello [] 0 alice false ∷ [] }

ring_path : Connects ring_end ring_of news ring 0 2
unfolding program
ring_path =
    next (over (codes "p") worker refl refl refl)
      (next (over (codes "p") worker refl refl refl) here)

zero_not_two : (n : ℕ) → n ≡ 0 → n ≡ 2 → ⊥
zero_not_two n e f = omega (arith, e, f)

gets_over-network_run_example : gets_over ring_wiring hello [] 2 alice order asked ≡ 1
unfolding program subscribed
gets_over-network_run_example =
    gets_over-network_run ring_wiring hello [] 2 alice refl refl ring_lossless ring-IsConsistent
      refl order ring 0 alice ring-AreValid ring-IsWired refl refl ring_new (omega arith) ring_path
      (λ e. absurd (zero_not_two 0 refl e))

-- A copy from alice and one from a peer are on their way.
abbrev busy : Network
busy = record {
  brokers = ring;
  pool =
      copy ring_wiring hello [] 0 alice false
      ∷ copy ring_wiring hello [] 1 (codes "PEER") true
      ∷ [];
}

busy-IsFlood : IsFlood ring_wiring hello [] busy
unfolding program
busy-IsFlood = record {
  windows = (node-IsValid.window, (node-IsValid.window, (node-IsValid.window, tt)));
  wired = ring-IsWired;
  copies = (
    record { same_header = refl; same_payload = refl; known_there = refl },
    (record { same_header = refl; same_payload = refl; known_there = tt }, tt),
  );
}

pool-network_run_example : (network_run ring_wiring (0 ∷ order) busy).pool ≡ []
unfolding program
pool-network_run_example =
    pool-network_run ring_wiring hello [] ring_lossless refl refl (0 ∷ order) busy busy-IsFlood
      (omega arith)

-- The run itself.
ring_runs : gets_over ring_wiring hello [] 1 alice order asked ≡ 1
unfolding program gets_over network_run network_step arrive work_at transfers decode_frame
    Sample.decode Sample.encode delivered
ring_runs = refl
