-- ===== src/Broker/Relay.antt =====
-- server/zmqbroker.cpp: a message on its way over a chain of brokers. Each broker of the chain has a
-- peer link to the next, whose worker is a client there (`addPeer`); what is forwarded on the link
-- arrives as a message of that client.
use zmq_pubsub_testing.Base.{
  ℕ, ◌≡◌, ◌≢◌, refl, ap, ◌∙◌, sym, subst, Bytes, Bool, true, false, List, [], ◌∷◌, ◌++◌, Option,
  none, some, if◌then◌else◌, arith, count, contains, is_empty, text_eq,
}
use zmq_pubsub_testing.Base.Maps.{keys}
use zmq_pubsub_testing.Keys.{is_control_message}
use zmq_pubsub_testing.Wire.{Header, Envelope, Codec, encode_header}
use zmq_pubsub_testing.Broker.Dedup.{is_duplicate, is_duplicate-contains}
use zmq_pubsub_testing.Broker.Delivery.{delivered, receives}
use zmq_pubsub_testing.Broker.Publish.{handle_local-route, topic-stamp, key-stamp, publish-local}
use zmq_pubsub_testing.Broker.Valid.{IsValid}
use zmq_pubsub_testing.Broker.{
  Broker, Output, tap, deliver, forward, deliver_each, not_in, exact_subs, wildcard_subs,
  deliver_local, flood, route, stamp, mark_seen, process_message, is_connected,
}

-- A broker of the chain: under which name the message's sender is its client, the key of its link to
-- the next one, and when the message comes. Only the first one stamps it, by `fresh`.
pub record Hop : Type 0 where
  pub broker : Broker
  pub sender : Bytes
  pub link : Bytes
  pub time : ℕ

-- What goes out on a link first.
abbrev take_forward : Bytes → Bytes → Envelope → Option Envelope → Option Envelope
take_forward k key e rest = if text_eq key k then some e else rest

unfoldable pub sent_on : Bytes → List Output → Option Envelope
sent_on k [] = none
sent_on k (tap h p ∷ outs) = sent_on k outs
sent_on k (deliver id h p ∷ outs) = sent_on k outs
sent_on k (forward key e ∷ outs) = take_forward k key e (sent_on k outs)

sent_on-append :
    (k : Bytes) (xs ys : List Output) → sent_on k xs ≡ none → sent_on k (xs ++ ys) ≡ sent_on k ys
unfolding sent_on
sent_on-append k [] ys h = refl
sent_on-append k (tap f p ∷ xs) ys h = sent_on-append k xs ys h
sent_on-append k (deliver id f p ∷ xs) ys h = sent_on-append k xs ys h
sent_on-append k (forward key e ∷ xs) ys h = ground (arith, sent_on-append k xs ys)

sent_on-deliver_each :
    (k : Bytes) (b : Broker) (from_peer : Bool) (sender bytes payload : Bytes) (ids : List Bytes)
    → sent_on k (deliver_each b from_peer sender bytes payload ids) ≡ none
unfolding sent_on deliver_each
sent_on-deliver_each k b from_peer sender bytes payload [] = refl
sent_on-deliver_each k b from_peer sender bytes payload (id ∷ ids) =
    ground (arith, sent_on-deliver_each k b from_peer sender bytes payload ids)

sent_on-flood :
    (k : Bytes) (links : List Bytes) (env : Envelope)
    → contains k links ≡ true
    → sent_on k (flood links env) ≡ some env
unfolding sent_on flood contains count
sent_on-flood k [] env h = cc
sent_on-flood k (j ∷ links) env h = ground (arith, sent_on-flood k links env)

sent_on-route :
    (k : Bytes) (b : Broker) (h : Header) (bytes payload sender : Bytes)
    → contains h.message_uuid b.history.seen ≡ false
    → contains k (keys b.peers) ≡ true
    → sent_on k (route b h bytes payload sender false).1
      ≡ some (record { header = h; payload = payload })
unfolding route deliver_local
sent_on-route k b h bytes payload sender new linked =
    let b' = record b { history = (is_duplicate b.history h.message_uuid).0 } in
    let exact = exact_subs b h.topic in
    let wild = not_in exact (wildcard_subs b h.topic) in
    let first = deliver_each b' false sender bytes payload exact in
    let second = deliver_each b' false sender bytes payload wild in
    let links = flood (keys b.peers) (record { header = h; payload = payload }) in
    rw (route, is_duplicate-contains b.history h.message_uuid ∙ new)
      (sent_on-append k (first ++ second) links (
          sent_on-append k first second (sent_on-deliver_each k b' false sender bytes payload exact)
          ∙ sent_on-deliver_each k b' false sender bytes payload wild)
        ∙ sent_on-flood k (keys b.peers) (record { header = h; payload = payload }) linked)

module _ (codec : Codec) (fresh : Bytes) where
  abbrev pub hop_result : Header → Bytes → Hop → Broker × List Output
  hop_result h payload x = process_message codec x.time fresh x.broker h payload x.sender false

  -- The outputs of the brokers, one after the other; nothing behind one that does not forward.
  abbrev pass_on : Option Envelope → (Header → Bytes → List (List Output)) → List (List Output)
  pass_on none rest = []
  pass_on (some env) rest = rest env.header env.payload

  unfoldable pub relay : List Hop → Header → Bytes → List (List Output)
  relay [] h payload = []
  relay (x ∷ xs) h payload =
      let out = (hop_result h payload x).1 in out ∷ pass_on (sent_on x.link out) (relay xs)

  -- The id that a message has once a broker has stamped it.
  abbrev pub stamped_id : Header → Bytes
  stamped_id h = if is_empty h.message_uuid then fresh else h.message_uuid

  -- A broker that takes the message `u` from its sender, and has not seen it.
  pub record IsReady (u : Bytes) (x : Hop) : Type 0 where
    pub valid : IsValid x.broker
    pub here : is_connected x.broker x.sender ≡ true
    pub new : contains u x.broker.history.seen ≡ false

  -- All are ready, and each but the last has its link.
  abbrev pub AreReady : Bytes → List Hop → Type 0
  AreReady u [] = Unit {0}
  AreReady u (x ∷ []) = IsReady u x
  AreReady u (x ∷ y ∷ ys) =
      IsReady u x × (contains x.link (keys x.broker.peers) ≡ true) × AreReady u (y ∷ ys)

  -- Each broker has delivered to `c` what the client gets of the topic.
  abbrev pub EachDelivers : Bytes → Bytes → List Hop → List (List Output) → Type 0
  EachDelivers c topic [] [] = Unit {0}
  EachDelivers c topic (x ∷ xs) (out ∷ outs) =
      (delivered c out ≡ (if receives x.broker false x.sender topic c then 1 else 0))
      × EachDelivers c topic xs outs
  EachDelivers c topic [] (out ∷ outs) = ⊥
  EachDelivers c topic (x ∷ xs) [] = ⊥

  id-stamp : (b : Broker) (h : Header) → (stamp b fresh h).message_uuid ≡ stamped_id h
  unfolding stamp
  id-stamp b h = ground arith

  sent_on-hop :
      (x : Hop) (h : Header) (payload u : Bytes)
      → IsReady u x
      → stamped_id h ≡ u
      → is_control_message h.handler_key ≡ false
      → contains x.link (keys x.broker.peers) ≡ true
      → sent_on x.link (hop_result h payload x).1
        ≡ some (record { header = stamp x.broker fresh h; payload = payload })
  unfolding process_message sent_on mark_seen
  sent_on-hop x h payload u r id plain linked =
      let h' = stamp x.broker fresh h in
      let bytes = encode_header codec h' in
      let b' = mark_seen x.broker x.sender x.time in
      ap (λ q. sent_on x.link q.1)
        (handle_local-route codec x.time x.broker h' bytes payload x.sender
          (rw (key-stamp x.broker fresh h) plain) r.here)
      ∙ sent_on-route x.link b' h' bytes payload x.sender
          (ap (λ v. contains v x.broker.history.seen) (id-stamp x.broker h ∙ id) ∙ r.new) linked

  deliver-hop :
      (x : Hop) (h : Header) (payload u c : Bytes)
      → IsReady u x
      → stamped_id h ≡ u
      → is_control_message h.handler_key ≡ false
      → delivered c (hop_result h payload x).1
        ≡ (if receives x.broker false x.sender h.topic c then 1 else 0)
  deliver-hop x h payload u c r id plain =
      (publish-local codec x.time fresh x.broker h payload x.sender c c r.valid r.here plain
        (ap (λ v. contains v x.broker.history.seen) (id-stamp x.broker h ∙ id) ∙ r.new)).0

  kept : (v u : Bytes) → u ≢ [] → v ≡ u → (if is_empty v then fresh else v) ≡ u
  kept [] u real e = absurd (real (sym e))
  kept (b ∷ bs) u real e = e

  stamped_id-stamp :
      (b : Broker) (h : Header) (u : Bytes)
      → u ≢ []
      → stamped_id h ≡ u
      → stamped_id (stamp b fresh h) ≡ u
  stamped_id-stamp b h u real id = kept (stamp b fresh h).message_uuid u real (id-stamp b h ∙ id)

  nothing_behind : (o : Option Envelope) → pass_on o (relay []) ≡ []
  unfolding relay
  nothing_behind none = refl
  nothing_behind (some env) = refl

  -- A message that is no control message passes over a chain of brokers: each broker but the last
  -- has a link to the next, and what it forwards there comes in as a message of a client that the
  -- next one knows. If the id that the message has or gets is not empty, each state is valid, and
  -- no window has the id, then every broker of the chain delivers the message once to each client
  -- that subscribes to its topic or to every topic, except to the client that it came from, and
  -- to no other.
  pub relay-EachDelivers :
      (xs : List Hop) (h : Header) (payload u c : Bytes)
      → u ≢ []
      → stamped_id h ≡ u
      → is_control_message h.handler_key ≡ false
      → AreReady u xs
      → EachDelivers c h.topic xs (relay xs h payload)
  unfolding relay
  relay-EachDelivers [] h payload u c real id plain ready = tt
  relay-EachDelivers (x ∷ []) h payload u c real id plain ready = (
    deliver-hop x h payload u c ready id plain,
    subst (EachDelivers c h.topic [])
        (sym (nothing_behind (sent_on x.link (hop_result h payload x).1))) tt,
  )
  relay-EachDelivers (x ∷ y ∷ ys) h payload u c real id plain ready =
      let h' = stamp x.broker fresh h in
      let rest =
        relay-EachDelivers (y ∷ ys) h' payload u c real (stamped_id-stamp x.broker h u real id)
          (ap is_control_message (key-stamp x.broker fresh h) ∙ plain) ready.2 in
      (
        deliver-hop x h payload u c ready.0 id plain,
        subst (λ o. EachDelivers c h.topic (y ∷ ys) (pass_on o (relay (y ∷ ys))))
            (sym (sent_on-hop x h payload u ready.0 id plain ready.1))
            (subst (λ t. EachDelivers c t (y ∷ ys) (relay (y ∷ ys) h' payload))
              (topic-stamp x.broker fresh h) rest),
      )
