-- ===== src/Broker/Network/Reached.antt =====
-- server/zmqbroker.cpp: a message that one broker of a network gets, in whatever order its copies
-- arrive.
use zmq_pubsub_testing.Base.{
  ℕ, zero, suc, ◌+◌, ◌≤◌, ◌≡◌, refl, ap, ◌∙◌, sym, subst, Bytes, Bool, true, false, List, [], ◌∷◌,
  Option, none, some, arith, length, if◌then◌else◌, ◌==◌, is_empty, inl, inr,
}
use zmq_pubsub_testing.Keys.{is_control_message}
use zmq_pubsub_testing.Wire.{Header, encode_header, decode_frame}
use zmq_pubsub_testing.Broker.{Broker, Link}
use zmq_pubsub_testing.Broker.Network.Arrivals.{IsCopy, AreWindows, IsWired}
use zmq_pubsub_testing.Broker.Network.Everywhere.{IsClosed, arrive-After}
use zmq_pubsub_testing.Broker.Network.Links.{
  routed, Same, Same_trans, Linked, over, returns, Connects, here, next, exists_at,
}
use zmq_pubsub_testing.Broker.Network.Places.{AreValid, bound_for, bound_for-pick}
use zmq_pubsub_testing.Broker.Network.Quiet.{IsFlood, left, step_plain, idle, pool-network_run}
use zmq_pubsub_testing.Broker.Network.Spread.{IsBack, AreBacks, Reached, IsConsistent}
use zmq_pubsub_testing.Broker.Network.Pools.{asked, All-pick}
use zmq_pubsub_testing.Broker.Network.{
  Wiring, Arrival, Network, connected_at, pick, network_step, network_run,
}

no_link : (o : Option (ℕ × Link)) (x : ℕ × Link) → o ≡ none → o ≡ some x → ⊥
no_link o x missing found = cc

both_bools : (b : Bool) → b ≡ true → b ≡ false → ⊥
both_bools b yes_b no_b = cc

connected_exists :
    (i : ℕ) (id : Bytes) (bs : List Broker) → connected_at i id bs ≡ true → exists_at i bs ≡ true
connected_exists i id [] e = cc
connected_exists zero id (b ∷ bs) e = refl
connected_exists (suc i) id (b ∷ bs) e = connected_exists i id bs e

valid_windows : (bs : List Broker) → AreValid bs → AreWindows bs
valid_windows [] v = tt
valid_windows (b ∷ bs) v = (v.0.window, valid_windows bs v.1)

module _ (wiring : Wiring) (h : Header) (payload : Bytes) where
  abbrev u : Bytes
  u = h.message_uuid

  -- The links are those of the brokers `bs0`, and wherever the message was routed, each broker behind
  -- a link has routed it too or will get it.
  pub record IsSpread (n0 : ℕ) (bs0 : List Broker) (net : Network) : Type 0 where
    pub one_message : IsFlood wiring h payload net
    pub valid : AreValid net.brokers
    pub same : Same h.topic bs0 net.brokers
    pub backs : AreBacks wiring h payload net.brokers net.pool
    pub closed : IsClosed wiring h payload bs0 net.brokers (λ j. bound_for j net.pool)
    pub there : exists_at n0 bs0 ≡ true
    pub started : Reached wiring h payload net.brokers n0 (bound_for n0 net.pool)

  Linked-same :
      (bs bs' : List Broker) (i j : ℕ)
      → Same h.topic bs bs'
      → Linked wiring.link_end wiring.link_of h.topic bs i j
      → Linked wiring.link_end wiring.link_of h.topic bs' i j
  Linked-same bs bs' i j s (over k c has e x) = over k c (s.links k i ∙ has) e (s.brokers j ∙ x)
  Linked-same bs bs' i j s (returns c link has e x) =
      returns c link (s.clients c i ∙ has) e (s.brokers j ∙ x)

  Same_sym : (bs bs' : List Broker) → Same h.topic bs bs' → Same h.topic bs' bs
  Same_sym bs bs' s = record {
    brokers = λ i. sym (s.brokers i);
    links = λ k i. sym (s.links k i);
    clients = λ c i. sym (s.clients c i);
  }

  module _
      (lossless : (g : Header) → decode_frame wiring.codec (encode_header wiring.codec g) ≡ some g)
      (id : is_empty h.message_uuid ≡ false) (plain : is_control_message h.handler_key ≡ false)
      (consistent : IsConsistent wiring h payload) where
    pub step-IsSpread :
        (n n0 : ℕ) (bs0 bs : List Broker) (x : Arrival) (xs : List Arrival)
        → let net : Network = record { brokers = bs; pool = x ∷ xs } in
          IsSpread n0 bs0 net → IsSpread n0 bs0 (network_step wiring n net)
    unfolding network_step
    step-IsSpread n n0 bs0 bs x xs s =
        let picked = pick n x xs in
        let c = All-pick (IsCopy wiring h payload bs) n x xs s.one_message.copies in
        let k = All-pick (IsBack wiring h payload bs) n x xs s.backs in
        let closed_now : IsClosed wiring h payload bs bs
            (λ j. (if picked.0.at == j then 1 else 0) + bound_for j picked.1) =
          λ i j l before.
            subst (Reached wiring h payload bs j) (bound_for-pick j n x xs)
              (s.closed i j (Linked-same bs bs0 i j (Same_sym bs0 bs s.same) l) before) in
        let a =
          arrive-After wiring h payload lossless id plain consistent picked.0 bs picked.1 c.0
            s.valid k.0 k.1 closed_now in
        record {
          one_message = (step_plain wiring h payload lossless id plain n bs x xs s.one_message).0;
          valid = a.valid;
          same = Same_trans h.topic bs0 bs _ s.same a.same;
          backs = a.backs;
          closed = λ i j l. a.closed i j (Linked-same bs0 bs i j s.same l);
          there = s.there;
          started =
              a.kept n0 (s.same.brokers n0 ∙ s.there)
                (subst (Reached wiring h payload bs n0) (bound_for-pick n0 n x xs) s.started);
        }

    pub run-IsSpread :
        (ns : List ℕ) (n0 : ℕ) (bs0 bs : List Broker) (pool : List Arrival)
        → let net : Network = record { brokers = bs; pool = pool } in
          IsSpread n0 bs0 net → IsSpread n0 bs0 (network_run wiring ns net)
    unfolding network_run
    run-IsSpread ns n0 bs0 bs [] s =
        subst (IsSpread n0 bs0) (sym (idle wiring h payload lossless id plain ns bs)) s
    run-IsSpread [] n0 bs0 bs (x ∷ xs) s = s
    run-IsSpread (n ∷ ns) n0 bs0 bs (x ∷ xs) s =
        let net = network_step wiring n (record { brokers = bs; pool = x ∷ xs }) in
        run-IsSpread ns n0 bs0 net.brokers net.pool (step-IsSpread n n0 bs0 bs x xs s)

    Reached-routed :
        (bs : List Broker) (j : ℕ) → Reached wiring h payload bs j 0 → routed u j bs ≡ true
    Reached-routed bs j (inl done) = done
    Reached-routed bs j (inr pending) = absurd (omega (arith, pending))

    all_routed :
        (bs0 bs : List Broker) (i j : ℕ)
        → IsClosed wiring h payload bs0 bs (λ l. 0)
        → Connects wiring.link_end wiring.link_of h.topic bs0 i j
        → routed u i bs ≡ true
        → routed u j bs ≡ true
    all_routed bs0 bs i _ closed here done = done
    all_routed bs0 bs i j closed (next {j = m} l rest) done =
        all_routed bs0 bs m j closed rest (Reached-routed bs m (closed i m l done))

    pub one-IsSpread :
        (bs : List Broker) (n : ℕ) (sender : Bytes)
        → AreValid bs
        → IsWired wiring h payload bs
        → connected_at n sender bs ≡ true
        → wiring.link_of n sender ≡ none
        → ((i : ℕ) → routed u i bs ≡ false)
        → IsSpread n bs (asked wiring h payload bs n sender)
    one-IsSpread bs n sender v wired known client new = record {
      one_message = record {
        windows = valid_windows bs v;
        wired = wired;
        copies = (record { same_header = refl; same_payload = refl; known_there = known }, tt);
      };
      valid = v;
      same = record { brokers = λ i. refl; links = λ k i. refl; clients = λ c i. refl };
      backs = (λ local l link e. absurd (no_link (wiring.link_of n sender) (l, link) client e), tt);
      closed = λ i j l done. absurd (both_bools (routed u i bs) done (new i));
      there = connected_exists n sender bs known;
      started = inr (ground arith);
    }

    -- Brokers in a valid state are connected by peer links in any shape, cycles included; where a link
    -- ends, its worker is a client, known as the worker of the broker that has dialed it. The codec
    -- loses nothing. A client that is no link's worker sends its
    -- broker a message that is no control message, with an id that no broker has in its window. Then in
    -- whatever order the copies arrive, after one arrival and, for each broker, as many more as it has
    -- subscribers of the topic, subscribers of every topic and links, no copy is on its way, and every
    -- broker that links lead to from the first has routed the message.
    pub routed-network_run :
        (ns : List ℕ) (bs : List Broker) (n j : ℕ) (sender : Bytes)
        → AreValid bs
        → IsWired wiring h payload bs
        → connected_at n sender bs ≡ true
        → wiring.link_of n sender ≡ none
        → ((i : ℕ) → routed u i bs ≡ false)
        → left wiring h payload (asked wiring h payload bs n sender) ≤ length ns
        → Connects wiring.link_end wiring.link_of h.topic bs n j
        → let net = network_run wiring ns (asked wiring h payload bs n sender) in
          (net.pool ≡ []) × (routed u j net.brokers ≡ true)
    routed-network_run ns bs n j sender v wired known client new enough path =
        let net = asked wiring h payload bs n sender in
        let s = one-IsSpread bs n sender v wired known client new in
        let net' = network_run wiring ns net in
        let done = run-IsSpread ns n bs bs net.pool s in
        let quiet =
          pool-network_run wiring h payload lossless id plain ns net s.one_message enough in
        let none_left : (l : ℕ) → bound_for l net'.pool ≡ 0 = λ l. ap (bound_for l) quiet in
        let at_rest : (l : ℕ)
            → Reached wiring h payload net'.brokers l (bound_for l net'.pool)
            → Reached wiring h payload net'.brokers l 0 =
          λ l. subst (Reached wiring h payload net'.brokers l) (none_left l) in
        (
          quiet,
          all_routed bs net'.brokers n j
              (λ i l link before. at_rest l (done.closed i l link before)) path
              (Reached-routed net'.brokers n (at_rest n done.started)),
        )
