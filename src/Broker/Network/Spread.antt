-- ===== src/Broker/Network/Spread.antt =====
-- server/zmqbroker.cpp: how the copies of one message spread over a network of brokers.
use zmq_pubsub_testing.Base.{
  ℕ, ◌+◌, ◌<◌, ◌≡◌, ap, ◌∙◌, sym, subst, Bytes, Bool, true, false, ◌&&◌, not, List, Option, some,
  arith, contains, if◌then◌else◌, ◌==◌, text_eq, is_empty, Bool-cases, inl, inr, ◌⊎◌, ℕ_discrete,
}
use zmq_pubsub_testing.Base.Maps.{keys}
use zmq_pubsub_testing.Keys.{is_control_message}
use zmq_pubsub_testing.Wire.{Header, encode_header, decode_frame}
use zmq_pubsub_testing.Broker.Delivery.{wants}
use zmq_pubsub_testing.Broker.Valid.{IsValid}
use zmq_pubsub_testing.Broker.{Broker, Link, Output, process_message}
use zmq_pubsub_testing.Broker.Network.Carry.{Carry, process_message-Copied}
use zmq_pubsub_testing.Broker.Network.Copy.{IsHeard}
use zmq_pubsub_testing.Broker.Network.Places.{
  nth, put, holds_at-nth, holds_at_here, holds_at_stays, bound_for,
}
use zmq_pubsub_testing.Broker.Network.Links.{routed, Linked, over, returns}
use zmq_pubsub_testing.Broker.Network.Sends.{
  process_message_sends, transfers-forwarded, transfers-delivered,
}
use zmq_pubsub_testing.Broker.Network.Pools.{All, All-map, transfers-All}
use zmq_pubsub_testing.Broker.Network.{Wiring, Arrival, transfers}

module _ (wiring : Wiring) (h : Header) (payload : Bytes) where
  abbrev pub u : Bytes
  u = h.message_uuid

  -- A copy that came over a link came from a broker that has routed the message.
  abbrev pub IsBack : List Broker → Arrival → Type 0
  IsBack bs a =
      a.from_peer ≡ false
      → (l : ℕ) (link : Link) → wiring.link_of a.at a.sender ≡ some (l, link)
      → routed u l bs ≡ true

  abbrev pub AreBacks : List Broker → List Arrival → Type 0
  AreBacks bs pool = All (IsBack bs) pool

  -- One of the two: routed there, or on its way.
  abbrev pub Reached : List Broker → ℕ → ℕ → Type 0
  Reached bs j n = (routed u j bs ≡ true) ⊎ (0 < n)

  -- The brokers after broker `n`, which was `b`, has processed a copy.
  pub record Stepped (bs : List Broker) (n : ℕ) (b b' : Broker) : Type 0 where
    pub at_place : nth n bs ≡ some b
    pub now_seen : contains u b'.history.seen ≡ true

  pub routed_mono :
      (bs : List Broker) (n j : ℕ) (b b' : Broker)
      → Stepped bs n b b'
      → routed u j bs ≡ true
      → routed u j (put n b' bs) ≡ true
  routed_mono bs n j b b' s before =
      holds_at_stays (λ x. contains u x.history.seen) n j b' bs s.now_seen before

  pub AreBacks-mono :
      (bs : List Broker) (n : ℕ) (b b' : Broker) (pool : List Arrival)
      → Stepped bs n b b'
      → AreBacks bs pool
      → AreBacks (put n b' bs) pool
  AreBacks-mono bs n b b' pool s k =
      All-map (IsBack bs) (IsBack (put n b' bs)) pool
        (λ a before local l link e. routed_mono bs n l b b' s (before local l link e)) k

  -- What was reached before is reached after.
  pub keep-Reached :
      (bs : List Broker) (n j m k : ℕ) (b b' : Broker)
      → Stepped bs n b b'
      → Reached bs j ((if n == j then 1 else 0) + m)
      → Reached (put n b' bs) j (m + k)
  keep-Reached bs n j m k b b' s (inl before) = inl (routed_mono bs n j b b' s before)
  keep-Reached bs n j m k b b' s (inr pending) = elim (ℕ_discrete n j) [
    | yes same ↦ inl (
        subst (λ x. routed u x (put n b' bs) ≡ true) same
          (holds_at_here (λ x. contains u x.history.seen) n b b' bs s.at_place s.now_seen))
    | no differ ↦ inr (ground (arith, pending, differ))
  ]

  -- Where a link ends, the client there is the worker of the broker that has dialed it.
  abbrev pub IsConsistent : Type 0
  IsConsistent =
      (i j : ℕ) (k c : Bytes)
      → wiring.link_end i k ≡ some (j, c)
      → (link : Link) × (wiring.link_of j c ≡ some (i, link))

  same_owner : (o : Option (ℕ × Link)) (x y : ℕ × Link) → o ≡ some x → o ≡ some y → x.0 ≡ y.0
  same_owner o x y e e' = cc

  module _
      (lossless : (g : Header) → decode_frame wiring.codec (encode_header wiring.codec g) ≡ some g)
      (plain : is_control_message h.handler_key ≡ false) (consistent : IsConsistent) where
    pub transfers-AreBacks :
        (bs : List Broker) (i : ℕ) (outs : List Output)
        → routed u i bs ≡ true
        → Carry wiring.codec wiring.now wiring.fresh h payload outs
        → AreBacks bs (transfers wiring i outs)
    transfers-AreBacks bs i outs done c =
        transfers-All wiring h payload lossless plain (IsBack bs) (λ j local. cc) i outs
          (λ k j id e local l link e'.
            let owner = consistent i j k id e in
            subst (λ x. routed u x bs ≡ true)
              (same_owner (wiring.link_of j id) (i, owner.0) (l, link) owner.1 e') done)
          c

    module _ (id : is_empty h.message_uuid ≡ false) where
      -- A broker that has just routed the message has sent it over each of its links.
      pub fresh_sends :
          (bs : List Broker) (n j : ℕ) (b : Broker) (sender : Bytes) (from_peer : Bool)
          → nth n bs ≡ some b
          → IsValid b
          → IsHeard b sender from_peer
          → contains u b.history.seen ≡ false
          → (from_peer ≡ false
              → (l : ℕ) (link : Link) → wiring.link_of n sender ≡ some (l, link)
              → routed u l bs ≡ true)
          → Linked wiring.link_end wiring.link_of h.topic bs n j
          → Reached bs j (
              bound_for j (
                transfers wiring n
                  (process_message wiring.codec wiring.now wiring.fresh b h payload sender
                    from_peer).1))
      unfolding contains
      fresh_sends bs n j b sender from_peer place v heard new k (over key c has e x) =
          let sent =
            process_message_sends wiring h payload b sender from_peer id plain v heard new c key in
          let linked = sym (holds_at-nth (λ y. contains key (keys y.peers)) n b bs place) ∙ has in
          inr (transfers-forwarded wiring h payload n j key c _ e (ground (arith, sent.1, linked)))
      fresh_sends bs n j b sender from_peer place v heard new k (returns c link has e x) =
          let sent =
            process_message_sends wiring h payload b sender from_peer id plain v heard new c c in
          let wanted = sym (holds_at-nth (λ y. wants y c h.topic) n b bs place) ∙ has in
          let copied =
            process_message-Copied wiring.codec wiring.now wiring.fresh h payload b sender from_peer
              id plain v.window heard in
          elim (Bool-cases (not from_peer && text_eq c sender)) [
            | inl from_there ↦ inl (
                k (ground (arith, from_there)) j link
                  (ap (wiring.link_of n) (ground (arith, from_there)) ∙ e))
            | inr other ↦ inr (
                transfers-delivered wiring h payload lossless plain n j c link _ e
                  (rw copied.split copied.carry) (ground (arith, sent.0, wanted, other)))
          ]
