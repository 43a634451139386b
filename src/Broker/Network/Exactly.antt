-- ===== src/Broker/Network/Exactly.antt =====
-- server/zmqbroker.cpp: how often a client of one of the brokers gets a message.
use zmq_pubsub_testing.Base.{
  ℕ, ◌+◌, ◌≤◌, ◌≡◌, ◌≢◌, subst, Bytes, true, false, List, [], ◌∷◌, Option, none, some, arith,
  length, if◌then◌else◌, is_empty,
}
use zmq_pubsub_testing.Keys.{is_control_message}
use zmq_pubsub_testing.Wire.{Header, encode_header, decode_frame}
use zmq_pubsub_testing.Broker.{Broker, Link}
use zmq_pubsub_testing.Broker.Network.Arrivals.{IsCopy, IsWired, AreWindows, arrival-Worked}
use zmq_pubsub_testing.Broker.Network.Gives.{gets_over, got, IsOther, arrive_gives}
use zmq_pubsub_testing.Broker.Network.Links.{routed, wants_at, Connects}
use zmq_pubsub_testing.Broker.Network.Places.{AreValid}
use zmq_pubsub_testing.Broker.Network.Pools.{All, All-append, All-pick, asked, transfers-All}
use zmq_pubsub_testing.Broker.Network.Quiet.{left}
use zmq_pubsub_testing.Broker.Network.Reached.{
  IsSpread, step-IsSpread, run-IsSpread, one-IsSpread, routed-network_run,
}
use zmq_pubsub_testing.Broker.Network.Spread.{IsConsistent}
use zmq_pubsub_testing.Broker.Network.{
  Wiring, Arrival, Network, work_at, connected_at, pick, transfers, work, arrive, network_step,
  network_run,
}

module _ (wiring : Wiring) (h : Header) (payload : Bytes) (j : ℕ) (c : Bytes) where
  abbrev u : Bytes
  u = h.message_uuid

  module _ (id : is_empty h.message_uuid ≡ false) (plain : is_control_message h.handler_key ≡ false)
      (lossless : (g : Header) → decode_frame wiring.codec (encode_header wiring.codec g) ≡ some g)
      (consistent : IsConsistent wiring h payload) (client : wiring.link_of j c ≡ none) where
    worker_not : (o : Option (ℕ × Link)) (x : ℕ × Link) → o ≡ none → o ≡ some x → ⊥
    worker_not o x missing found = cc

    arrive_others :
        (a : Arrival) (bs : List Broker) (rest : List Arrival)
        → AreWindows bs
        → IsCopy wiring h payload bs a
        → All (IsOther wiring h payload j c) rest
        → All (IsOther wiring h payload j c) (arrive wiring a bs rest).pool
    unfolding arrive
    arrive_others a bs rest w k others =
        let r = work_at a.at (work wiring a) bs in
        let d = arrival-Worked wiring h payload id plain a bs w k in
        All-append (IsOther wiring h payload j c) rest (transfers wiring a.at r.1) others (
          rw d.same_transfers (
            transfers-All wiring h payload lossless plain (IsOther wiring h payload j c)
              (λ l local. cc) a.at d.outs
              (λ k l e found local at_j from_c.
                let owner = consistent a.at l k e found in
                worker_not (wiring.link_of j c) (a.at, owner.0) client
                  (subst (λ x. wiring.link_of x c ≡ some (a.at, owner.0)) at_j
                    (subst (λ x. wiring.link_of l x ≡ some (a.at, owner.0)) from_c owner.1)))
              d.carry))

    run_gives :
        (ns : List ℕ) (n0 : ℕ) (bs0 bs : List Broker) (pool : List Arrival)
        → let net : Network = record { brokers = bs; pool = pool } in
          IsSpread wiring h payload n0 bs0 net
          → All (IsOther wiring h payload j c) pool
          → gets_over wiring h payload j c ns net + got wiring h payload j c bs
            ≡ got wiring h payload j c (network_run wiring ns net).brokers
    unfolding network_run gets_over network_step
    run_gives [] n0 bs0 bs pool s others = omega arith
    run_gives (n ∷ ns) n0 bs0 bs [] s others = omega (arith, run_gives ns n0 bs0 bs [] s tt)
    run_gives (n ∷ ns) n0 bs0 bs (x ∷ xs) s others =
        let picked = pick n x xs in
        let k = All-pick (IsCopy wiring h payload bs) n x xs s.one_message.copies in
        let o = All-pick (IsOther wiring h payload j c) n x xs others in
        let net = arrive wiring picked.0 bs picked.1 in
        omega (
          arith,
          arrive_gives wiring h payload j c id plain picked.0 bs picked.1 s.valid k.0 o.0,
          run_gives ns n0 bs0 net.brokers net.pool
              (unfold network_step in
                step-IsSpread wiring h payload lossless id plain consistent n n0 bs0 bs x xs s)
              (arrive_others picked.0 bs picked.1 s.one_message.windows k.0 o.1),
        )

    -- Brokers in a valid state are connected by peer links in any shape, cycles included; where a
    -- link ends, its worker is a client, known as the worker of the broker that has dialed it.
    -- The codec loses nothing, and no copy is lost on its way. A client that is no link's worker
    -- sends its broker a message that is no control message, with an id that is not empty and
    -- that no broker has in its window. Then in whatever order the copies arrive, during at least
    -- one arrival and, for each broker, as many more as it has subscribers of the topic,
    -- subscribers of every topic and links, each client other than the sender and the links'
    -- workers, at every broker that links lead to from the first, is delivered the message
    -- exactly once if it subscribes to the topic or to every topic, and else never.
    pub gets_over-network_run :
        (ns : List ℕ) (bs : List Broker) (n : ℕ) (sender : Bytes)
        → AreValid bs
        → IsWired wiring h payload bs
        → connected_at n sender bs ≡ true
        → wiring.link_of n sender ≡ none
        → ((i : ℕ) → routed u i bs ≡ false)
        → left wiring h payload (asked wiring h payload bs n sender) ≤ length ns
        → Connects wiring.link_end wiring.link_of h.topic bs n j
        → (n ≡ j → sender ≢ c)
        → gets_over wiring h payload j c ns (asked wiring h payload bs n sender)
          ≡ (if wants_at h.topic c j bs then 1 else 0)
    gets_over-network_run ns bs n sender v wired known local new enough path other =
        let net = asked wiring h payload bs n sender in
        let s =
          one-IsSpread wiring h payload lossless id plain consistent bs n sender v wired known local
            new in
        let end =
          run-IsSpread wiring h payload lossless id plain consistent ns n bs bs net.pool s in
        let all =
          routed-network_run wiring h payload lossless id plain consistent ns bs n j sender v wired
            known local new enough path in
        ground (
          arith,
          run_gives ns n bs bs net.pool s (λ from at_j. other at_j, tt),
          new j,
          all.1,
          end.same.clients c j,
        )
