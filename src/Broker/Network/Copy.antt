-- ===== src/Broker/Network/Copy.antt =====
-- server/zmqbroker.cpp: what a broker does with one copy of a message that is on its way.
use zmq_pubsub_testing.Base.{
  ℕ, ◌+◌, ◌≤◌, ◌≡◌, refl, ap, sym, ◌∙◌, Bytes, Bool, true, false, List, [], ◌∷◌, if◌then◌else◌,
  arith, contains, length, length-append, Bool-cases, inl, inr, is_empty,
}
use zmq_pubsub_testing.Base.Maps.{keys}
use zmq_pubsub_testing.Keys.{is_control_message}
use zmq_pubsub_testing.Wire.{Header, Envelope, Codec, encode_header}
use zmq_pubsub_testing.Broker.Dedup.{
  is_duplicate, is_duplicate-contains, is_duplicate-twice, is_duplicate-IsWindow, IsWindow,
}
use zmq_pubsub_testing.Broker.Publish.{handle_local-route, handle_peer-route}
use zmq_pubsub_testing.Broker.{
  Broker, Output, tap, deliver_each, not_in, exact_subs, wildcard_subs, deliver_local, flood, route,
  stamp, mark_seen, process_message, is_connected,
}

-- At most so many messages go out for one on the topic.
abbrev pub fan : Bytes → Broker → ℕ
fan topic b = length (exact_subs b topic) + length (wildcard_subs b topic) + length (keys b.peers)

length-deliver_each :
    (b : Broker) (from_peer : Bool) (sender bytes payload : Bytes) (ids : List Bytes)
    → length (deliver_each b from_peer sender bytes payload ids) ≤ length ids
unfolding deliver_each
length-deliver_each b from_peer sender bytes payload [] = omega arith
length-deliver_each b from_peer sender bytes payload (id ∷ ids) =
    ground (arith, length-deliver_each b from_peer sender bytes payload ids)

length-not_in : (exact ids : List Bytes) → length (not_in exact ids) ≤ length ids
unfolding not_in
length-not_in exact [] = omega arith
length-not_in exact (id ∷ ids) = ground (arith, length-not_in exact ids)

length-flood : (links : List Bytes) (env : Envelope) → length (flood links env) ≡ length links
unfolding flood
length-flood [] env = refl
length-flood (k ∷ links) env = ground (arith, length-flood links env)

-- The broker as it routes the message of `sender`.
abbrev pub routing : ℕ → Broker → Bytes → Bool → Broker
routing now b sender true = b
routing now b sender false = mark_seen b sender now

abbrev pub IsHeard : Broker → Bytes → Bool → Type 0
IsHeard b sender true = Unit {0}
IsHeard b sender false = is_connected b sender ≡ true

pub stamp_kept :
    (b : Broker) (fresh : Bytes) (h : Header)
    → is_empty h.message_uuid ≡ false
    → stamp b fresh h ≡ h
unfolding stamp
stamp_kept b fresh h id = rw id

pub process_message_routes :
    (codec : Codec) (now : ℕ) (fresh : Bytes) (b : Broker) (h : Header) (payload sender : Bytes)
    (from_peer : Bool)
    → is_empty h.message_uuid ≡ false
    → is_control_message h.handler_key ≡ false
    → IsHeard b sender from_peer
    → let r =
        route (routing now b sender from_peer) h (encode_header codec h) payload sender from_peer in
      process_message codec now fresh b h payload sender from_peer
      ≡ (r.0, tap (encode_header codec h) payload ∷ r.1)
unfolding process_message
process_message_routes codec now fresh b h payload sender true id plain heard =
    rw (stamp_kept b fresh h id) (
      ap (λ r. (r.0, tap (encode_header codec h) payload ∷ r.1))
        (handle_peer-route b h (encode_header codec h) payload sender plain))
process_message_routes codec now fresh b h payload sender false id plain heard =
    rw (stamp_kept b fresh h id) (
      ap (λ r. (r.0, tap (encode_header codec h) payload ∷ r.1))
        (handle_local-route codec now b h (encode_header codec h) payload sender plain heard))

-- The room that a broker takes up which has yet to route the message `u`.
abbrev pub due : Bytes → Bytes → Broker → ℕ
due u topic b = if contains u b.history.seen then 0 else fan topic b

-- What a copy leaves as it was, and what it may put out.
pub record Spreads (u topic : Bytes) (b : Broker) (r : Broker × List Output) : Type 0 where
  pub seen : contains u r.0.history.seen ≡ true
  pub window : IsWindow r.0.history
  pub same_clients : (id : Bytes) → is_connected r.0 id ≡ is_connected b id
  pub same_peers : r.0.peers ≡ b.peers
  pub same_subs : r.0.subscriptions ≡ b.subscriptions
  pub few : length r.1 + due u topic r.0 ≤ due u topic b

length-deliver_local :
    (b : Broker) (h : Header) (bytes payload sender : Bytes) (from_peer : Bool)
    → length (deliver_local b h bytes payload sender from_peer)
      ≤ length (exact_subs b h.topic) + length (wildcard_subs b h.topic)
unfolding deliver_local
length-deliver_local b h bytes payload sender from_peer =
    let exact = exact_subs b h.topic in
    let wild = wildcard_subs b h.topic in
    let first = deliver_each b from_peer sender bytes payload exact in
    let second = deliver_each b from_peer sender bytes payload (not_in exact wild) in
    omega (
      arith,
      length-append first second,
      length-deliver_each b from_peer sender bytes payload exact,
      length-deliver_each b from_peer sender bytes payload (not_in exact wild),
      length-not_in exact wild,
    )

pub route-Spreads :
    (b : Broker) (h : Header) (bytes payload sender : Bytes) (from_peer : Bool)
    → IsWindow b.history
    → Spreads h.message_uuid h.topic b (route b h bytes payload sender from_peer)
unfolding route
route-Spreads b h bytes payload sender from_peer w =
    let u = h.message_uuid in
    let g = (is_duplicate b.history u).0 in
    let moved = is_duplicate-IsWindow b.history u w in
    let known = sym (is_duplicate-contains g u) ∙ is_duplicate-twice b.history u w in
    elim (Bool-cases (is_duplicate b.history u).1) [
      | inl old ↦
          rw (route, old)
            (record {
              seen = known;
              window = moved;
              same_clients = λ id. refl;
              same_peers = refl;
              same_subs = refl;
              few = ground (arith, known);
            })
      | inr new ↦
          let b' = record b { history = g } in
          let env : Envelope = record { header = h; payload = payload } in
          let local = deliver_local b' h bytes payload sender from_peer in
          rw (route, new)
            (record {
              seen = known;
              window = moved;
              same_clients = λ id. refl;
              same_peers = refl;
              same_subs = refl;
              few = ground (
                arith,
                known,
                sym (is_duplicate-contains b.history u) ∙ new,
                length-append local (flood (keys b.peers) env),
                length-deliver_local b' h bytes payload sender from_peer,
                length-flood (keys b.peers) env,
              );
            })
    ]
