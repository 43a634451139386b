-- ===== src/Broker/Network/Sends.antt =====
-- server/zmqbroker.cpp: to which brokers a copy goes from one that has not yet routed the message.
use zmq_pubsub_testing.Base.{
  ℕ, ◌<◌, ◌≡◌, ap, ◌∙◌, Bytes, Bool, true, false, List, [], ◌∷◌, Option, some, arith, contains,
  count, if◌then◌else◌, text_eq, is_empty, Bool-cases, inl, inr,
}
use zmq_pubsub_testing.Base.Maps.{keys}
use zmq_pubsub_testing.Keys
use zmq_pubsub_testing.Keys.{is_control_message}
use zmq_pubsub_testing.Wire.{Header, Envelope, encode_header, decode_frame}
use zmq_pubsub_testing.Broker.Delivery.{delivered, forwarded, receives}
use zmq_pubsub_testing.Broker.Publish.{publish-local, publish-peer}
use zmq_pubsub_testing.Broker.Valid.{IsValid}
use zmq_pubsub_testing.Broker.{Broker, Link, Output, tap, deliver, forward, process_message}
use zmq_pubsub_testing.Broker.Network.Carry.{Carry}
use zmq_pubsub_testing.Broker.Network.Copy.{IsHeard, stamp_kept}
use zmq_pubsub_testing.Broker.Network.Places.{bound_for, bound_for-append}
use zmq_pubsub_testing.Broker.Network.{Wiring, over_link, to_worker, transfers}

same_text : (a b : Bytes) → text_eq a b ≡ true → a ≡ b
same_text a b e = ground arith

module _ (wiring : Wiring) (h : Header) (payload : Bytes) where
  -- Each link gets the message, and each client who wants it but its sender.
  pub process_message_sends :
      (b : Broker) (sender : Bytes) (from_peer : Bool)
      → is_empty h.message_uuid ≡ false
      → is_control_message h.handler_key ≡ false
      → IsValid b
      → IsHeard b sender from_peer
      → contains h.message_uuid b.history.seen ≡ false
      → (c k : Bytes)
      → let outs =
          (process_message wiring.codec wiring.now wiring.fresh b h payload sender from_peer).1 in
        (delivered c outs ≡ (if receives b from_peer sender h.topic c then 1 else 0))
        × (forwarded k outs ≡ count k (keys b.peers))
  process_message_sends b sender true id plain v heard new c k =
      let r =
        publish-peer wiring.codec wiring.now wiring.fresh b h payload sender c k v plain (
          ap (λ g. contains g.message_uuid b.history.seen) (stamp_kept b wiring.fresh h id)
          ∙ new) in
      (ground (arith, r.0), r.1)
  process_message_sends b sender false id plain v heard new c k =
      publish-local wiring.codec wiring.now wiring.fresh b h payload sender c k v heard plain
        (ap (λ g. contains g.message_uuid b.history.seen) (stamp_kept b wiring.fresh h id) ∙ new)

  module _ where
    over_link-bound_for :
        (j : ℕ) (id : Bytes) (o : Option (ℕ × Bytes)) (env : Envelope)
        → o ≡ some (j, id)
        → 0 < bound_for j (over_link o env)
    over_link-bound_for j id o env e = rw e (ground arith)

    -- What is forwarded on a link is on its way to the link's end.
    pub transfers-forwarded :
        (i j : ℕ) (k id : Bytes) (outs : List Output)
        → wiring.link_end i k ≡ some (j, id)
        → 0 < forwarded k outs
        → 0 < bound_for j (transfers wiring i outs)
    unfolding transfers forwarded
    transfers-forwarded i j k id [] e some_sent = absurd (omega (arith, some_sent))
    transfers-forwarded i j k id (tap f p ∷ outs) e some_sent =
        transfers-forwarded i j k id outs e some_sent
    transfers-forwarded i j k id (deliver c f p ∷ outs) e some_sent =
        let here = to_worker i c (wiring.link_of i c) (decode_frame wiring.codec f) p in
        let rest = transfers wiring i outs in
        omega (arith, bound_for-append j here rest, transfers-forwarded i j k id outs e some_sent)
    transfers-forwarded i j k id (forward l env ∷ outs) e some_sent =
        let here = over_link (wiring.link_end i l) env in
        let rest = transfers wiring i outs in
        elim (Bool-cases (text_eq l k)) [
          | inl same ↦ omega (
            arith,
            bound_for-append j here rest,
            over_link-bound_for j id (wiring.link_end i l) env
                (ap (wiring.link_end i) (same_text l k same) ∙ e),
          )
          | inr differ ↦ omega (
            arith,
            bound_for-append j here rest,
            transfers-forwarded i j k id outs e (ground (arith, some_sent, differ)),
          )
        ]

    module _
        (lossless : (g : Header)
          → decode_frame wiring.codec (encode_header wiring.codec g) ≡ some g)
        (plain : is_control_message h.handler_key ≡ false) where
      to_worker-bound_for :
          (i j : ℕ) (c : Bytes) (link : Link) (owner : Option (ℕ × Link))
          → owner ≡ some (j, link)
          → 0 < bound_for j (to_worker i c owner (some h) payload)
      unfolding is_control_message
      to_worker-bound_for i j c link owner e =
          let not_reset : text_eq h.handler_key Keys.reset ≡ false = ground (arith, plain) in
          rw (e, not_reset) (ground arith)

      -- What is delivered to a link's worker is on its way to the broker whose link it is.
      pub transfers-delivered :
          (i j : ℕ) (c : Bytes) (link : Link) (outs : List Output)
          → wiring.link_of i c ≡ some (j, link)
          → Carry wiring.codec wiring.now wiring.fresh h payload outs
          → 0 < delivered c outs
          → 0 < bound_for j (transfers wiring i outs)
      unfolding transfers delivered
      transfers-delivered i j c link [] e carry some_sent = absurd (omega (arith, some_sent))
      transfers-delivered i j c link (tap f p ∷ outs) e carry some_sent =
          transfers-delivered i j c link outs e carry some_sent
      transfers-delivered i j c link (forward k env ∷ outs) e carry some_sent =
          let here = over_link (wiring.link_end i k) env in
          let rest = transfers wiring i outs in
          omega (
            arith,
            bound_for-append j here rest,
            transfers-delivered i j c link outs e carry.1 some_sent,
          )
      transfers-delivered i j c link (deliver d f p ∷ outs) e carry some_sent =
          let here = to_worker i d (wiring.link_of i d) (some h) payload in
          let rest = transfers wiring i outs in
          rw (carry.0, carry.1, lossless h)
            (elim (Bool-cases (text_eq d c)) [
              | inl same ↦ omega (
                arith,
                bound_for-append j here rest,
                to_worker-bound_for i j d link (wiring.link_of i d)
                    (ap (wiring.link_of i) (same_text d c same) ∙ e),
              )
              | inr differ ↦ omega (
                arith,
                bound_for-append j here rest,
                transfers-delivered i j c link outs e carry.2 (ground (arith, some_sent, differ)),
              )
            ])
