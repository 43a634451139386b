-- ===== src/Broker/Network/Everywhere.antt =====
-- server/zmqbroker.cpp: one message reaches every broker of a network that links lead to.
use zmq_pubsub_testing.Base.{
  ℕ, zero, suc, ◌+◌, ◌≡◌, refl, ap, ◌∙◌, sym, subst, Bytes, Bool, true, false, List, [], ◌∷◌, ◌++◌,
  Option, none, some, arith, contains, if◌then◌else◌, ◌==◌, is_empty, Bool-cases, inl, inr, ◌⊎◌,
  ℕ_discrete,
}
use zmq_pubsub_testing.Keys.{is_control_message}
use zmq_pubsub_testing.Wire.{Header, encode_header, decode_frame}
use zmq_pubsub_testing.Broker.Valid.{process_message-IsValid}
use zmq_pubsub_testing.Broker.{Broker, process_message}
use zmq_pubsub_testing.Broker.Network.Arrivals.{HeardAt, IsCopy}
use zmq_pubsub_testing.Broker.Network.Carry.{process_message-Copied}
use zmq_pubsub_testing.Broker.Network.Copy.{IsHeard}
use zmq_pubsub_testing.Broker.Network.Links.{
  routed, Same, Linked, Linked-exists, put-Same, exists_at,
}
use zmq_pubsub_testing.Broker.Network.Places.{
  nth, put, holds_at-nth, holds_at-none, holds_at_other, holds_at_here, work_at-nth, work_at-none,
  AreValid, AreValid-nth, AreValid-put, bound_for, bound_for-append,
}
use zmq_pubsub_testing.Broker.Network.Spread.{
  IsBack, AreBacks, Reached, Stepped, keep-Reached, routed_mono, AreBacks-mono, IsConsistent,
  transfers-AreBacks, fresh_sends,
}
use zmq_pubsub_testing.Broker.Network.Pools.{copy, All-append}
use zmq_pubsub_testing.Broker.Network.{Wiring, Arrival, Network, transfers, work, arrive}

pub HeardAt-nth :
    (n : ℕ) (sender : Bytes) (from_peer : Bool) (b : Broker) (bs : List Broker)
    → nth n bs ≡ some b
    → HeardAt n sender from_peer bs
    → IsHeard b sender from_peer
HeardAt-nth n sender true b bs e heard = tt
HeardAt-nth n sender false b [] e heard = cc
HeardAt-nth zero sender false b (c ∷ bs) e heard = cc
HeardAt-nth (suc n) sender false b (c ∷ bs) e heard = HeardAt-nth n sender false b bs e heard

pub nth_cases : (o : Option Broker) → (o ≡ none) ⊎ ((b : Broker) × (o ≡ some b))
nth_cases none = inl refl
nth_cases (some b) = inr (b, refl)

module _ (wiring : Wiring) (h : Header) (payload : Bytes) where
  abbrev u : Bytes
  u = h.message_uuid

  -- Where the message was routed, each broker behind a link has routed it too or will get it.
  abbrev pub IsClosed : List Broker → List Broker → (ℕ → ℕ) → Type 0
  IsClosed bs0 bs pending =
      (i j : ℕ)
      → Linked wiring.link_end wiring.link_of h.topic bs0 i j
      → routed u i bs ≡ true
      → Reached wiring h payload bs j (pending j)

  pub record After (bs : List Broker) (pending : ℕ → ℕ) (net : Network) : Type 0 where
    pub valid : AreValid net.brokers
    pub same : Same h.topic bs net.brokers
    pub backs : AreBacks wiring h payload net.brokers net.pool
    pub closed : IsClosed bs net.brokers (λ j. bound_for j net.pool)
    pub kept :
        (j : ℕ)
        → exists_at j bs ≡ true
        → Reached wiring h payload bs j (pending j)
        → Reached wiring h payload net.brokers j (bound_for j net.pool)

  module _
      (lossless : (g : Header) → decode_frame wiring.codec (encode_header wiring.codec g) ≡ some g)
      (id : is_empty h.message_uuid ≡ false) (plain : is_control_message h.handler_key ≡ false)
      (consistent : IsConsistent wiring h payload) where
    place-After :
        (bs : List Broker) (rest : List Arrival) (n : ℕ) (sender : Bytes) (from_peer : Bool)
        (b : Broker)
        → nth n bs ≡ some b
        → AreValid bs
        → HeardAt n sender from_peer bs
        → IsBack wiring h payload bs (copy wiring h payload n sender from_peer)
        → AreBacks wiring h payload bs rest
        → IsClosed bs bs (λ j. (if n == j then 1 else 0) + bound_for j rest)
        → let r =
            process_message wiring.codec wiring.now wiring.fresh b h payload sender from_peer in
          After bs
            (λ j. (if n == j then 1 else 0) + bound_for j rest)
            (record { brokers = put n r.0 bs; pool = rest ++ transfers wiring n r.1 })
    place-After bs rest n sender from_peer b place v heard k ks closed =
        let r = process_message wiring.codec wiring.now wiring.fresh b h payload sender from_peer in
        let vb = AreValid-nth n b bs v place in
        let heard_b = HeardAt-nth n sender from_peer b bs place heard in
        let c =
          process_message-Copied wiring.codec wiring.now wiring.fresh h payload b sender from_peer
            id plain vb.window heard_b in
        let s : Stepped wiring h payload bs n b r.0 = record {
          at_place = place;
          now_seen = c.spreads.seen;
        } in
        let sent = transfers wiring n r.1 in
        let after = put n r.0 bs in
        let done : routed u n after ≡ true =
          holds_at_here (λ x. contains u x.history.seen) n b r.0 bs place c.spreads.seen in
        let reach = Reached wiring h payload in
        let keep : (j : ℕ)
            → reach bs j ((if n == j then 1 else 0) + bound_for j rest)
            → reach after j (bound_for j (rest ++ sent)) =
          λ j before. rw (bound_for-append j rest sent) (
            keep-Reached wiring h payload bs n j (bound_for j rest) (bound_for j sent) b r.0 s
              before) in
        record {
          valid = AreValid-put n r.0 bs v (
              process_message-IsValid wiring.codec wiring.now wiring.fresh b h payload sender
                from_peer vb);
          same = put-Same h.topic n b r.0 bs place c.spreads.same_peers c.spreads.same_subs;
          backs =
              All-append (IsBack wiring h payload after) rest sent
                (AreBacks-mono wiring h payload bs n b r.0 rest s ks)
                (transfers-AreBacks wiring h payload lossless plain consistent after n r.1 done
                  (rw c.split c.carry));
          closed = λ i j l routed_i. elim (ℕ_discrete i n) [
            | no differ ↦ keep j (
                closed i j l (
                  sym (holds_at_other (λ x. contains u x.history.seen) n i r.0 bs differ)
                  ∙ routed_i))
            | yes same ↦ elim (Bool-cases (contains u b.history.seen)) [
              | inl old ↦ keep j (
                  closed i j l
                    (rw same (holds_at-nth (λ x. contains u x.history.seen) n b bs place ∙ old)))
              | inr new ↦
                  elim (fresh_sends wiring h payload lossless plain consistent id bs n j b sender
                    from_peer place vb heard_b new k
                    (subst (λ x. Linked wiring.link_end wiring.link_of h.topic bs x j) same l)) [
                      | inl before ↦ inl (routed_mono wiring h payload bs n j b r.0 s before)
                      | inr pending ↦ inr (omega (arith, pending, bound_for-append j rest sent))
                    ]
            ]
          ];
          kept = λ j there before. keep j before;
        }

    both_bools : true ≡ false → ⊥
    both_bools e = cc

    -- A copy for a broker that is not there is lost.
    none-After :
        (bs : List Broker) (rest : List Arrival) (n : ℕ)
        → nth n bs ≡ none
        → AreValid bs
        → AreBacks wiring h payload bs rest
        → IsClosed bs bs (λ j. (if n == j then 1 else 0) + bound_for j rest)
        → After bs
            (λ j. (if n == j then 1 else 0) + bound_for j rest)
            (record { brokers = bs; pool = rest ++ [] })
    none-After bs rest n missing v ks closed = record {
      valid = v;
      same = record { brokers = λ i. refl; links = λ k i. refl; clients = λ c i. refl };
      backs = All-append (IsBack wiring h payload bs) rest [] ks tt;
      closed = λ i j l before.
          elsewhere j (Linked-exists wiring.link_end wiring.link_of h.topic bs l)
            (closed i j l before);
      kept = elsewhere;
    }
      where
        elsewhere :
            (j : ℕ)
            → exists_at j bs ≡ true
            → Reached wiring h payload bs j ((if n == j then 1 else 0) + bound_for j rest)
            → Reached wiring h payload bs j (bound_for j (rest ++ []))
        elsewhere j there (inl done) = inl done
        elsewhere j there (inr pending) =
            let absent = holds_at-none (λ b. true) n bs missing in
            inr (elim (ℕ_discrete n j) [
              | yes same ↦
                  absurd (both_bools (sym there ∙ ap (λ x. exists_at x bs) (sym same) ∙ absent))
              | no differ ↦ ground (arith, pending, differ, bound_for-append j rest [])
            ])

    pub arrive-After :
        (a : Arrival) (bs : List Broker) (rest : List Arrival)
        → IsCopy wiring h payload bs a
        → AreValid bs
        → IsBack wiring h payload bs a
        → AreBacks wiring h payload bs rest
        → IsClosed bs bs (λ j. (if a.at == j then 1 else 0) + bound_for j rest)
        → After bs (λ j. (if a.at == j then 1 else 0) + bound_for j rest) (arrive wiring a bs rest)
    unfolding arrive transfers
    arrive-After a bs rest c v k ks closed =
        let f = work wiring a in
        elim (nth_cases (nth a.at bs)) [
          | inl missing ↦
              rw (work_at-none a.at f bs missing) (none-After bs rest a.at missing v ks closed)
          | inr (b, place) ↦
              rw (work_at-nth a.at f b bs place, c.same_header, c.same_payload)
                (place-After bs rest a.at a.sender a.from_peer b place v c.known_there k ks closed)
        ]
