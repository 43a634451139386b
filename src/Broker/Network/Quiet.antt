-- ===== src/Broker/Network/Quiet.antt =====
-- server/zmqbroker.cpp, the loop protection: the copies of one message in a network of brokers come
-- to an end, whatever cycles the links make.
use zmq_pubsub_testing.Base.{
  ℕ, suc, ◌+◌, ◌≤◌, ◌≡◌, refl, ap, Bytes, false, List, [], ◌∷◌, some, arith, length, length-append,
  is_empty,
}
use zmq_pubsub_testing.Keys.{is_control_message}
use zmq_pubsub_testing.Wire.{Header, encode_header, decode_frame}
use zmq_pubsub_testing.Broker.{Broker}
use zmq_pubsub_testing.Broker.Network.Arrivals.{
  total_due, AreWindows, IsCopy, AreCopies, IsWired, Worked, arrival-Worked, length-pick,
  AreCopies_stay, transfers-AreCopies, length-transfers,
}
use zmq_pubsub_testing.Broker.Network.Pools.{All-append, All-pick}
use zmq_pubsub_testing.Broker.Network.{
  Wiring, Arrival, Network, work_at, pick, transfers, work, arrive, network_step, network_run,
}

module _ (wiring : Wiring) (h : Header) (payload : Bytes) where
  -- All that is on its way are copies of the message, and the links are as the wiring says.
  pub record IsFlood (net : Network) : Type 0 where
    pub windows : AreWindows net.brokers
    pub wired : IsWired wiring h payload net.brokers
    pub copies : AreCopies wiring h payload net.brokers net.pool

  -- How many arrivals there can still be.
  abbrev pub left : Network → ℕ
  left net = length net.pool + total_due h.message_uuid h.topic net.brokers

  module _
      (lossless : (g : Header) → decode_frame wiring.codec (encode_header wiring.codec g) ≡ some g)
      (id : is_empty h.message_uuid ≡ false)
      (plain : is_control_message h.handler_key ≡ false) where
    arrive_plain :
        (a : Arrival) (bs : List Broker) (rest : List Arrival)
        → AreWindows bs
        → IsWired wiring h payload bs
        → IsCopy wiring h payload bs a
        → AreCopies wiring h payload bs rest
        → IsFlood (arrive wiring a bs rest)
          × (suc (left (arrive wiring a bs rest))
              ≤ suc (length rest) + total_due h.message_uuid h.topic bs)
    unfolding arrive
    arrive_plain a bs rest w wired c copies =
        let r = work_at a.at (work wiring a) bs in
        let d : Worked wiring h payload a.at bs r =
          arrival-Worked wiring h payload id plain a bs w c in
        let sent = transfers wiring a.at r.1 in
        let wired' : IsWired wiring h payload r.0 = λ i j k c e. d.stay j c (wired i j k c e) in
        (
          record {
            windows = d.windows;
            wired = wired';
            copies =
                All-append (IsCopy wiring h payload r.0) rest sent
                  (AreCopies_stay wiring h payload bs r.0 rest d.stay copies)
                  (rw d.same_transfers (
                    transfers-AreCopies wiring h payload lossless plain r.0 a.at d.outs wired'
                      d.carry));
          },
          omega (
            arith,
            length-append rest sent,
            ap length d.same_transfers,
            length-transfers wiring h payload a.at d.outs,
            d.few,
          ),
        )

    pub step_plain :
        (n : ℕ) (bs : List Broker) (x : Arrival) (xs : List Arrival)
        → let net : Network = record { brokers = bs; pool = x ∷ xs } in
          IsFlood net
          → IsFlood (network_step wiring n net)
            × (suc (left (network_step wiring n net)) ≤ left net)
    unfolding network_step
    step_plain n bs x xs f =
        let picked = pick n x xs in
        let c = All-pick (IsCopy wiring h payload bs) n x xs f.copies in
        let r = arrive_plain picked.0 bs picked.1 f.windows f.wired c.0 c.1 in
        (r.0, omega (arith, r.1, length-pick n x xs))

    pub idle :
        (ns : List ℕ) (bs : List Broker)
        → let net : Network = record { brokers = bs; pool = [] } in network_run wiring ns net ≡ net
    unfolding network_step network_run
    idle [] bs = refl
    idle (n ∷ ns) bs = idle ns bs

    run_plain :
        (ns : List ℕ) (bs : List Broker) (pool : List Arrival)
        → let net : Network = record { brokers = bs; pool = pool } in
          IsFlood net → left net ≤ length ns → (network_run wiring ns net).pool ≡ []
    unfolding network_run
    run_plain ns bs [] f enough = ap (λ net. net.pool) (idle ns bs)
    run_plain [] bs (x ∷ xs) f enough = absurd (omega (arith, enough))
    run_plain (n ∷ ns) bs (x ∷ xs) f enough =
        let net' = network_step wiring n (record { brokers = bs; pool = x ∷ xs }) in
        let r = step_plain n bs x xs f in
        run_plain ns net'.brokers net'.pool r.0 (omega (arith, r.1, enough))

    -- Brokers are connected by peer links in any shape, cycles included, each window is sound,
    -- and each link's worker is a client where the link ends. If the codec loses nothing and all
    -- that is on its way are copies of one message that is no control message and has an id that
    -- is not empty, each from a peer or from a client that its broker knows, then in whatever
    -- order the copies arrive, none is left after as many arrivals as there are copies on their
    -- way plus, for each broker that has yet to route the id, its subscribers of the topic and of
    -- every topic and its links.
    pub pool-network_run :
        (ns : List ℕ) (net : Network)
        → IsFlood net
        → left net ≤ length ns
        → (network_run wiring ns net).pool ≡ []
    pool-network_run ns net f enough = run_plain ns net.brokers net.pool f enough
