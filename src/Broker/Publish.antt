-- ===== src/Broker/Publish.antt =====
-- `processMessage` as a whole, by the kind of message and by what the broker knows of its sender.
use zmq_pubsub_testing.Base.{
  ℕ, ◌≡◌, ◌≢◌, ◌∙◌, ap, Bytes, true, false, ◌&&◌, ◌||◌, not, [], ◌∷◌, if◌then◌else◌, arith, count,
  contains, text_eq,
}
use zmq_pubsub_testing.Base.Maps.{keys, find-erase}
use zmq_pubsub_testing.Keys
use zmq_pubsub_testing.Keys.{is_control_message}
use zmq_pubsub_testing.Registry.Refinement.{subscribed}
use zmq_pubsub_testing.Broker.Valid.{
  IsValid, mark_seen-IsValid, subscribed-remove_client, subscribed-subscribe,
  subscribed-unsubscribe,
}
use zmq_pubsub_testing.Broker.Delivery.{
  delivered, forwarded, receives, wants, route-delivers, route-drops,
}
use zmq_pubsub_testing.Wire.{Header, Codec, encode_header}
use zmq_pubsub_testing.Broker.{
  Broker, tap, deliver, control, route, stamp, mark_seen, remove_client, handle_known, handle_local,
  handle_peer, process_message, is_connected,
}

pub topic-stamp : (b : Broker) (fresh : Bytes) (h : Header) → (stamp b fresh h).topic ≡ h.topic
unfolding stamp
topic-stamp b fresh h = ground arith

pub key-stamp :
    (b : Broker) (fresh : Bytes) (h : Header) → (stamp b fresh h).handler_key ≡ h.handler_key
unfolding stamp
key-stamp b fresh h = ground arith

handle_known-route :
    (codec : Codec) (b : Broker) (h : Header) (bytes payload sender : Bytes)
    → is_control_message h.handler_key ≡ false
    → handle_known codec b h bytes payload sender ≡ route b h bytes payload sender false
unfolding handle_known is_control_message
handle_known-route codec b h bytes payload sender plain = ground arith

pub handle_local-route :
    (codec : Codec) (now : ℕ) (b : Broker) (h : Header) (bytes payload sender : Bytes)
    → is_control_message h.handler_key ≡ false
    → is_connected b sender ≡ true
    → handle_local codec now b h bytes payload sender
      ≡ route (mark_seen b sender now) h bytes payload sender false
unfolding handle_local is_control_message
handle_local-route codec now b h bytes payload sender plain here =
    ground (arith, handle_known-route codec (mark_seen b sender now) h bytes payload sender)

pub handle_peer-route :
    (b : Broker) (h : Header) (bytes payload sender : Bytes)
    → is_control_message h.handler_key ≡ false
    → handle_peer b h bytes payload sender ≡ route b h bytes payload sender true
unfolding handle_peer is_control_message
handle_peer-route b h bytes payload sender plain = ground arith

module _ (codec : Codec) (now : ℕ) (fresh : Bytes) (b : Broker) (h : Header)
    (payload sender : Bytes) where
  -- The message as it is routed, and its header frame.
  abbrev pub stamped : Header
  stamped = stamp b fresh h

  abbrev pub frame : Bytes
  frame = encode_header codec stamped

  -- In a valid state, a message of a connected local client that is no control message and whose
  -- id is not in the window is delivered once to each client that subscribes to its topic or to
  -- every topic, the sender excepted, and to no other, and it is forwarded once on each peer
  -- link.
  pub publish-local :
      (c k : Bytes)
      → IsValid b
      → is_connected b sender ≡ true
      → is_control_message h.handler_key ≡ false
      → contains stamped.message_uuid b.history.seen ≡ false
      → (delivered c (process_message codec now fresh b h payload sender false).1
          ≡ (if receives b false sender h.topic c then 1 else 0))
        × (forwarded k (process_message codec now fresh b h payload sender false).1
            ≡ count k (keys b.peers))
  unfolding process_message delivered forwarded mark_seen
  publish-local c k v here plain new =
      let routed =
        handle_local-route codec now b stamped frame payload sender (rw (key-stamp b fresh h) plain)
          here in
      let sent =
        route-delivers (mark_seen b sender now) stamped frame payload sender c k false
          (mark_seen-IsValid b sender now v) new in
      ground (arith, routed, sent, topic-stamp b fresh h)

  -- In a valid state, a message from a peer that is no control message and whose id is not in the
  -- window is delivered once to each client that subscribes to its topic or to every topic, and
  -- to no other, and it is forwarded once on each peer link.
  pub publish-peer :
      (c k : Bytes)
      → IsValid b
      → is_control_message h.handler_key ≡ false
      → contains stamped.message_uuid b.history.seen ≡ false
      → (delivered c (process_message codec now fresh b h payload sender true).1
          ≡ (if wants b c h.topic then 1 else 0))
        × (forwarded k (process_message codec now fresh b h payload sender true).1
            ≡ count k (keys b.peers))
  unfolding process_message delivered forwarded
  publish-peer c k v plain new =
      let routed =
        handle_peer-route b stamped frame payload sender (rw (key-stamp b fresh h) plain) in
      let sent = route-delivers b stamped frame payload sender c k true v new in
      ground (arith, routed, sent, topic-stamp b fresh h)

  -- A message of a connected local client that is no control message and whose id is in the
  -- window is put out to the inspector only, and changes nothing but the time at which the client
  -- was seen.
  pub duplicate-local :
      is_connected b sender ≡ true
      → is_control_message h.handler_key ≡ false
      → contains stamped.message_uuid b.history.seen ≡ true
      → process_message codec now fresh b h payload sender false
        ≡ (mark_seen b sender now, tap frame payload ∷ [])
  unfolding process_message mark_seen
  duplicate-local here plain old =
      let routed =
        handle_local-route codec now b stamped frame payload sender (rw (key-stamp b fresh h) plain)
          here in
      let dropped = route-drops (mark_seen b sender now) stamped frame payload sender false old in
      ap (λ r. (r.0, tap frame payload ∷ r.1)) (routed ∙ dropped)

  -- A message from a peer that is no control message and whose id is in the window is put out to
  -- the inspector only, and changes nothing.
  pub duplicate-peer :
      is_control_message h.handler_key ≡ false
      → contains stamped.message_uuid b.history.seen ≡ true
      → process_message codec now fresh b h payload sender true ≡ (b, tap frame payload ∷ [])
  unfolding process_message
  duplicate-peer plain old =
      let routed =
        handle_peer-route b stamped frame payload sender (rw (key-stamp b fresh h) plain) in
      ap (λ r. (r.0, tap frame payload ∷ r.1))
        (routed ∙ route-drops b stamped frame payload sender true old)

  -- The first message of a client that is not in the table, other than DISCONNECT, enters the
  -- client and is answered with a RESET; it is shown to the inspector and not processed any
  -- further.
  pub first_contact :
      is_connected b sender ≡ false
      → h.handler_key ≢ Keys.disconnect
      → process_message codec now fresh b h payload sender false ≡ (
        mark_seen b sender now,
        tap frame payload ∷ deliver sender (encode_header codec (control Keys.reset)) [] ∷ [],
      )
  unfolding process_message handle_local mark_seen
  first_contact unknown key = ground (arith, key-stamp b fresh h)

  -- A DISCONNECT from a local client leaves exactly the other clients connected and exactly the
  -- others' subscriptions in the registry.
  pub disconnects :
      (c t : Bytes)
      → h.handler_key ≡ Keys.disconnect
      → let b' = (process_message codec now fresh b h payload sender false).0 in
        (is_connected b' c ≡ (not (text_eq sender c) && is_connected b c))
        × (subscribed b'.subscriptions c t
            ≡ (not (text_eq sender c) && subscribed b.subscriptions c t))
  unfolding process_message handle_local remove_client
  disconnects c t key = ground (
    arith,
    key-stamp b fresh h,
    find-erase sender c b.clients,
    subscribed-remove_client b.subscriptions sender c t,
  )

  -- A SUBSCRIBE of a connected local client adds the one pair of client and topic to the
  -- subscriptions, changes no other, and is put out to the inspector only.
  pub subscribes :
      (c t : Bytes)
      → is_connected b sender ≡ true
      → h.handler_key ≡ Keys.subscribe
      → let r = process_message codec now fresh b h payload sender false in
        (subscribed r.0.subscriptions c t
          ≡ ((text_eq sender c && text_eq h.topic t) || subscribed b.subscriptions c t))
        × (r.1 ≡ tap frame payload ∷ [])
  unfolding process_message handle_local handle_known mark_seen
  subscribes c t here key = ground (
    arith,
    key-stamp b fresh h,
    topic-stamp b fresh h,
    Keys.subscribe-ne-disconnect,
    Keys.subscribe-ne-connect,
    Keys.subscribe-ne-heartbeat,
    subscribed-subscribe b.subscriptions sender h.topic c t,
  )

  -- An UNSUBSCRIBE of a connected local client takes the one pair of client and topic out of the
  -- subscriptions, changes no other, and is put out to the inspector only.
  pub unsubscribes :
      (c t : Bytes)
      → is_connected b sender ≡ true
      → h.handler_key ≡ Keys.unsubscribe
      → let r = process_message codec now fresh b h payload sender false in
        (subscribed r.0.subscriptions c t
          ≡ (not (text_eq sender c && text_eq h.topic t) && subscribed b.subscriptions c t))
        × (r.1 ≡ tap frame payload ∷ [])
  unfolding process_message handle_local handle_known mark_seen
  unsubscribes c t here key = ground (
    arith,
    key-stamp b fresh h,
    topic-stamp b fresh h,
    Keys.unsubscribe-ne-disconnect,
    Keys.unsubscribe-ne-connect,
    Keys.unsubscribe-ne-heartbeat,
    Keys.unsubscribe-ne-subscribe,
    subscribed-unsubscribe b.subscriptions sender h.topic c t,
  )
