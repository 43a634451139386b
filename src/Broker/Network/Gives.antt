-- ===== src/Broker/Network/Gives.antt =====
-- server/zmqbroker.cpp: what a client of one of the brokers gets from one arrival.
use zmq_pubsub_testing.Base.{
  ℕ, ◌+◌, ◌≡◌, ◌≢◌, refl, ap, ◌∙◌, sym, Bytes, Bool, true, false, ◌&&◌, not, List, [], ◌∷◌, some,
  arith, contains, length, if◌then◌else◌, ◌==◌, text_eq, is_empty, Bool-cases, inl, inr, ℕ_discrete,
}
use zmq_pubsub_testing.Keys.{is_control_message}
use zmq_pubsub_testing.Wire.{Header}
use zmq_pubsub_testing.Broker.Delivery.{delivered, wants}
use zmq_pubsub_testing.Broker.{Broker, Output, process_message}
use zmq_pubsub_testing.Broker.Network.Arrivals.{IsCopy, HeardAt}
use zmq_pubsub_testing.Broker.Network.Carry.{Copied, process_message-Copied}
use zmq_pubsub_testing.Broker.Network.Everywhere.{HeardAt-nth, nth_cases}
use zmq_pubsub_testing.Broker.Network.Links.{routed, wants_at, put-Same}
use zmq_pubsub_testing.Broker.Network.Places.{
  nth, put, holds_at-nth, holds_at_here, holds_at_other, work_at-nth, work_at-none, AreValid,
  AreValid-nth,
}
use zmq_pubsub_testing.Broker.Network.Pools.{copy}
use zmq_pubsub_testing.Broker.Network.Sends.{process_message_sends}
use zmq_pubsub_testing.Broker.Network.{
  Wiring, Arrival, Network, work_at, pick, work, arrive, network_step,
}

delivered_empty : (c : Bytes) (outs : List Output) → length outs ≡ 0 → delivered c outs ≡ 0
unfolding delivered
delivered_empty c [] e = refl
delivered_empty c (o ∷ outs) e = absurd (omega (arith, e))

not_sender :
    (from_peer : Bool) (sender c : Bytes)
    → (from_peer ≡ false → sender ≢ c)
    → (not from_peer && text_eq c sender) ≡ false
not_sender true sender c other = refl
not_sender false sender c other = let differ = other refl in ground (arith, differ)

module _ (wiring : Wiring) (h : Header) (payload : Bytes) (j : ℕ) (c : Bytes) where
  abbrev u : Bytes
  u = h.message_uuid

  -- How often broker number `j` delivers to `c` when a message arrives, and in a whole run.
  abbrev pub arrival_gives : Arrival → List Broker → ℕ
  arrival_gives a bs = if a.at == j then delivered c (work_at a.at (work wiring a) bs).1 else 0

  abbrev pub step_gives : ℕ → List Arrival → List Broker → ℕ
  step_gives n [] bs = 0
  step_gives n (x ∷ xs) bs = arrival_gives (pick n x xs).0 bs

  unfoldable pub gets_over : List ℕ → Network → ℕ
  gets_over [] net = 0
  gets_over (n ∷ ns) net =
      step_gives n net.pool net.brokers + gets_over ns (network_step wiring n net)

  -- What `c` has got once broker `j` has routed the message.
  abbrev pub got : List Broker → ℕ
  got bs = if routed u j bs then (if wants_at h.topic c j bs then 1 else 0) else 0

  -- No copy comes from `c` itself.
  abbrev pub IsOther : Arrival → Type 0
  IsOther a = a.from_peer ≡ false → a.at ≡ j → a.sender ≢ c

  module _ (id : is_empty h.message_uuid ≡ false)
      (plain : is_control_message h.handler_key ≡ false) where
    place_silent :
        (b : Broker) (r : Broker × List Output)
        → Copied wiring.codec wiring.now wiring.fresh h payload b r
        → contains u b.history.seen ≡ true
        → delivered c r.1 ≡ 0
    unfolding delivered
    place_silent b r d old =
        rw d.split (delivered_empty c d.outs (ground (arith, d.spreads.few, old)))

    place_gives :
        (bs : List Broker) (n : ℕ) (sender : Bytes) (from_peer : Bool) (b : Broker)
        → nth n bs ≡ some b
        → AreValid bs
        → HeardAt n sender from_peer bs
        → IsOther (copy wiring h payload n sender from_peer)
        → let r =
            process_message wiring.codec wiring.now wiring.fresh b h payload sender from_peer in
          (if n == j then delivered c r.1 else 0) + got bs ≡ got (put n r.0 bs)
    unfolding delivered
    place_gives bs n sender from_peer b place v heard other =
        let r = process_message wiring.codec wiring.now wiring.fresh b h payload sender from_peer in
        let vb = AreValid-nth n b bs v place in
        let heard_b = HeardAt-nth n sender from_peer b bs place heard in
        let d =
          process_message-Copied wiring.codec wiring.now wiring.fresh h payload b sender from_peer
            id plain vb.window heard_b in
        let same = put-Same h.topic n b r.0 bs place d.spreads.same_peers d.spreads.same_subs in
        elim (ℕ_discrete n j) [
          | no differ ↦ ground (
            arith,
            differ,
            same.clients c j,
            holds_at_other (λ x. contains u x.history.seen) n j r.0 bs (λ e. differ (sym e)),
          )
          | yes here ↦
              let before : routed u j bs ≡ contains u b.history.seen =
                ap (λ x. routed u x bs) (sym here)
                ∙ holds_at-nth (λ x. contains u x.history.seen) n b bs place in
              let after : routed u j (put n r.0 bs) ≡ true =
                ap (λ x. routed u x (put n r.0 bs)) (sym here)
                ∙ holds_at_here (λ x. contains u x.history.seen) n b r.0 bs place d.spreads.seen in
              let wanted : wants_at h.topic c j bs ≡ wants b c h.topic =
                ap (λ x. wants_at h.topic c x bs) (sym here)
                ∙ holds_at-nth (λ x. wants x c h.topic) n b bs place in
              elim (Bool-cases (contains u b.history.seen)) [
                | inl old ↦ ground (
                  arith,
                  here,
                  before,
                  after,
                  wanted,
                  old,
                  same.clients c j,
                  place_silent b r d old,
                )
                | inr new ↦
                    let sends =
                      process_message_sends wiring h payload b sender from_peer id plain vb heard_b
                        new c c in
                    ground (
                      arith,
                      here,
                      before,
                      after,
                      wanted,
                      new,
                      same.clients c j,
                      sends.0,
                      not_sender from_peer sender c (λ local. other local here),
                    )
              ]
        ]

    pub arrive_gives :
        (a : Arrival) (bs : List Broker) (rest : List Arrival)
        → AreValid bs
        → IsCopy wiring h payload bs a
        → IsOther a
        → arrival_gives a bs + got bs ≡ got (arrive wiring a bs rest).brokers
    unfolding arrive delivered
    arrive_gives a bs rest v k other =
        let f = work wiring a in
        elim (nth_cases (nth a.at bs)) [
          | inl missing ↦ rw (work_at-none a.at f bs missing) (ground arith)
          | inr (b, place) ↦
              rw (work_at-nth a.at f b bs place, k.same_header, k.same_payload)
                (place_gives bs a.at a.sender a.from_peer b place v k.known_there other)
        ]
