-- ===== src/Broker/Network/Carry.antt =====
-- server/zmqbroker.cpp: the outputs for one copy of a message all carry that message.
use zmq_pubsub_testing.Base.{
  ℕ, ◌≡◌, refl, ◌∙◌, Bytes, Bool, true, false, ◌||◌, ◌&&◌, not, if_both, text_eq, List, [], ◌∷◌,
  ◌++◌, if◌then◌else◌, arith, Bool-cases, inl, inr, is_empty,
}
use zmq_pubsub_testing.Base.Maps.{keys, find-assign}
use zmq_pubsub_testing.Keys.{is_control_message}
use zmq_pubsub_testing.Wire.{Header, Codec, encode_header}
use zmq_pubsub_testing.Broker.Dedup.{is_duplicate, IsWindow}
use zmq_pubsub_testing.Broker.{
  Broker, Output, tap, deliver, forward, deliver_each, not_in, exact_subs, wildcard_subs,
  deliver_local, flood, route, mark_seen, process_message, is_connected,
}
use zmq_pubsub_testing.Broker.Network.Copy.{
  routing, IsHeard, process_message_routes, Spreads, route-Spreads,
}

module _ (codec : Codec) (now : ℕ) (fresh : Bytes) (h : Header) (payload : Bytes) where
  -- The outputs but for the inspector's carry the message.
  abbrev pub Carry : List Output → Type 0
  Carry [] = Unit {0}
  Carry (tap bytes p ∷ outs) = Carry outs
  Carry (deliver id bytes p ∷ outs) = (bytes ≡ encode_header codec h) × (p ≡ payload) × Carry outs
  Carry (forward k env ∷ outs) = (env ≡ record { header = h; payload = payload }) × Carry outs

  Carry-append : (xs ys : List Output) → Carry xs → Carry ys → Carry (xs ++ ys)
  Carry-append [] ys p q = q
  Carry-append (tap b x ∷ xs) ys p q = Carry-append xs ys p q
  Carry-append (deliver id b x ∷ xs) ys p q = (p.0, p.1, Carry-append xs ys p.2 q)
  Carry-append (forward k e ∷ xs) ys p q = (p.0, Carry-append xs ys p.1 q)

  deliver_each-Carry :
      (b : Broker) (from_peer : Bool) (sender : Bytes) (ids : List Bytes)
      → Carry (deliver_each b from_peer sender (encode_header codec h) payload ids)
  unfolding deliver_each
  deliver_each-Carry b from_peer sender [] = tt
  deliver_each-Carry b from_peer sender (id ∷ ids) =
      let bytes = encode_header codec h in
      Carry-append
        (if (not from_peer && text_eq id sender) || not (is_connected b id)
          then []
          else deliver id bytes payload ∷ [])
        (deliver_each b from_peer sender bytes payload ids)
        (if_both Carry ((not from_peer && text_eq id sender) || not (is_connected b id)) []
          (deliver id bytes payload ∷ []) tt (refl, refl, tt))
        (deliver_each-Carry b from_peer sender ids)

  flood-Carry :
      (links : List Bytes) → Carry (flood links (record { header = h; payload = payload }))
  unfolding flood
  flood-Carry [] = tt
  flood-Carry (k ∷ links) = (refl, flood-Carry links)

  pub route-Carry :
      (b : Broker) (sender : Bytes) (from_peer : Bool)
      → Carry (route b h (encode_header codec h) payload sender from_peer).1
  unfolding route deliver_local
  route-Carry b sender from_peer = elim (Bool-cases (is_duplicate b.history h.message_uuid).1) [
    | inl old ↦ rw (route, old) tt
    | inr new ↦
        let b' = record b { history = (is_duplicate b.history h.message_uuid).0 } in
        let bytes = encode_header codec h in
        let exact = exact_subs b h.topic in
        let wild = not_in exact (wildcard_subs b h.topic) in
        let first = deliver_each b' from_peer sender bytes payload exact in
        let second = deliver_each b' from_peer sender bytes payload wild in
        rw (route, new)
          (Carry-append (first ++ second)
            (flood (keys b.peers) (record { header = h; payload = payload }))
            (Carry-append first second (deliver_each-Carry b' from_peer sender exact)
              (deliver_each-Carry b' from_peer sender wild))
            (flood-Carry (keys b.peers)))
  ]

  -- `Spreads` and `Carry` for a message whose sender is heard; the inspector gets it first.
  pub record Copied (b : Broker) (r : Broker × List Output) : Type 0 where
    pub outs : List Output
    pub split : r.1 ≡ tap (encode_header codec h) payload ∷ outs
    pub spreads : Spreads h.message_uuid h.topic b (r.0, outs)
    pub carry : Carry outs

  routing-Spreads :
      (b : Broker) (sender : Bytes) (from_peer : Bool)
      → IsWindow b.history
      → IsHeard b sender from_peer
      → Spreads h.message_uuid h.topic b (
          route (routing now b sender from_peer) h (encode_header codec h) payload sender from_peer)
  unfolding mark_seen
  routing-Spreads b sender true w heard =
      route-Spreads b h (encode_header codec h) payload sender true w
  routing-Spreads b sender false w heard =
      let s =
        route-Spreads (mark_seen b sender now) h (encode_header codec h) payload sender false w in
      record {
        seen = s.seen;
        window = s.window;
        same_clients = λ id.
            s.same_clients id
            ∙ ground (
              arith,
              heard,
              find-assign sender id (record { identity = sender; last_seen = now }) b.clients,
            );
        same_peers = s.same_peers;
        same_subs = s.same_subs;
        few = s.few;
      }

  pub process_message-Copied :
      (b : Broker) (sender : Bytes) (from_peer : Bool)
      → is_empty h.message_uuid ≡ false
      → is_control_message h.handler_key ≡ false
      → IsWindow b.history
      → IsHeard b sender from_peer
      → Copied b (process_message codec now fresh b h payload sender from_peer)
  process_message-Copied b sender from_peer id plain w heard =
      rw (process_message_routes codec now fresh b h payload sender from_peer id plain heard)
        (record {
          outs =
              (route (routing now b sender from_peer) h (encode_header codec h) payload sender
                from_peer).1;
          split = refl;
          spreads = routing-Spreads b sender from_peer w heard;
          carry = route-Carry (routing now b sender from_peer) sender from_peer;
        })
