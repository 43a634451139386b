-- ===== src/Inspector/Watching.antt =====
-- inspector/inspectorworker.cpp and server/zmqbroker.cpp: what an inspector that gets every frame
-- of the broker's inspector socket shows.
use zmq_pubsub_testing.Base.{
  ℕ, ◌≡◌, refl, ap, ◌∙◌, sym, Bytes, Bool, true, false, ◌||◌, List, [], ◌∷◌, ◌++◌, Option, none,
  some, if◌then◌else◌, if_both, append_assoc, arith, text_eq, Bool-cases, inl, inr,
}
use zmq_pubsub_testing.Base.Maps.{keys}
use zmq_pubsub_testing.Keys
use zmq_pubsub_testing.Registry
use zmq_pubsub_testing.Wire.{Header, Envelope, Codec, encode_header, decode_frame}
use zmq_pubsub_testing.Broker.{
  Broker, Output, tap, deliver, forward, deliver_each, not_in, exact_subs, wildcard_subs,
  deliver_local, flood, route, stamp, mark_seen, remove_client, handle_known, handle_local,
  handle_peer, process_message, control, is_connected,
}
use zmq_pubsub_testing.Broker.Copies.{Input, process_all}
use zmq_pubsub_testing.Broker.Dedup.{is_duplicate}
use zmq_pubsub_testing.Inspector.{InspectorPacket, packet_of}

-- What is seen of a packet, and of a message before the broker stamps it.
abbrev pub Sight : Type 0
Sight = Bytes × Bytes × Bytes × Bytes

unfoldable pub seen : List InspectorPacket → List Sight
seen [] = []
seen (p ∷ ps) = (p.key, p.topic, p.sender_id, p.payload) ∷ seen ps

unfoldable pub said : List Input → List Sight
said [] = []
said (i ∷ is) = (i.header.handler_key, i.header.topic, i.header.sender_id, i.payload) ∷ said is

module _ (codec : Codec) (timestamp : Bytes) where
  abbrev packet_or_none : Option Header → Bytes → List InspectorPacket
  packet_or_none none payload = []
  packet_or_none (some h) payload =
      packet_of codec timestamp (record { header = h; payload = payload }) ∷ []

  -- The rounds of `InspectorWorker::run` over the frames that the broker puts out, each with the time
  -- of its arrival; frames whose header does not decode are passed over.
  unfoldable pub packets_of : List Output → List InspectorPacket
  packets_of [] = []
  packets_of (tap h p ∷ outs) = packet_or_none (decode_frame codec h) p ++ packets_of outs
  packets_of (deliver id h p ∷ outs) = packets_of outs
  packets_of (forward k e ∷ outs) = packets_of outs

  packets_of-append : (xs ys : List Output) → packets_of (xs ++ ys) ≡ packets_of xs ++ packets_of ys
  unfolding packets_of
  packets_of-append [] ys = refl
  packets_of-append (tap h p ∷ xs) ys =
      ap (λ l. packet_or_none (decode_frame codec h) p ++ l) (packets_of-append xs ys)
      ∙ sym (append_assoc (packet_or_none (decode_frame codec h) p) (packets_of xs) (packets_of ys))
  packets_of-append (deliver id h p ∷ xs) ys = packets_of-append xs ys
  packets_of-append (forward k e ∷ xs) ys = packets_of-append xs ys

  deliver_each-quiet :
      (b : Broker) (from_peer : Bool) (sender bytes payload : Bytes) (ids : List Bytes)
      → packets_of (deliver_each b from_peer sender bytes payload ids) ≡ []
  unfolding packets_of deliver_each
  deliver_each-quiet b from_peer sender bytes payload [] = refl
  deliver_each-quiet b from_peer sender bytes payload (id ∷ ids) =
      ground (arith, deliver_each-quiet b from_peer sender bytes payload ids)

  flood-quiet : (links : List Bytes) (env : Envelope) → packets_of (flood links env) ≡ []
  unfolding packets_of flood
  flood-quiet [] env = refl
  flood-quiet (k ∷ links) env = flood-quiet links env

  append-quiet :
      (xs ys : List Output) → packets_of xs ≡ [] → packets_of ys ≡ [] → packets_of (xs ++ ys) ≡ []
  append-quiet xs ys p q = rw (packets_of-append xs ys, p, q) refl

  -- The inspector sees nothing of what the handlers put out.
  record IsQuiet (r : Broker × List Output) : Type 0 where
    quiet : packets_of r.1 ≡ []

  route-IsQuiet :
      (b : Broker) (h : Header) (bytes payload sender : Bytes) (from_peer : Bool)
      → IsQuiet (route b h bytes payload sender from_peer)
  unfolding route deliver_local packets_of
  route-IsQuiet b h bytes payload sender from_peer =
      let b' = record b { history = (is_duplicate b.history h.message_uuid).0 } in
      let exact = exact_subs b h.topic in
      let wild = not_in exact (wildcard_subs b h.topic) in
      let first = deliver_each b' from_peer sender bytes payload exact in
      let second = deliver_each b' from_peer sender bytes payload wild in
      let env : Envelope = record { header = h; payload = payload } in
      elim (Bool-cases (is_duplicate b.history h.message_uuid).1) [
        | inl old ↦ rw (route, old) (record { quiet = refl })
        | inr new ↦
            rw (route, new)
              (record {
                quiet =
                    append-quiet (first ++ second) (flood (keys b.peers) env)
                      (append-quiet first second
                        (deliver_each-quiet b' from_peer sender bytes payload exact)
                        (deliver_each-quiet b' from_peer sender bytes payload wild))
                      (flood-quiet (keys b.peers) env);
              })
      ]

  still-IsQuiet : (b : Broker) (outs : List Output) → packets_of outs ≡ [] → IsQuiet (b, outs)
  still-IsQuiet b outs h = record { quiet = h }

  handle_known-IsQuiet :
      (b : Broker) (h : Header) (bytes payload sender : Bytes)
      → IsQuiet (handle_known codec b h bytes payload sender)
  unfolding handle_known packets_of
  handle_known-IsQuiet b h bytes payload sender =
      let key = h.handler_key in
      let ack =
        (if text_eq key Keys.heartbeat
          then deliver sender (encode_header codec (control Keys.heartbeat_ack)) [] ∷ []
          else []) in
      let more = record b {
        subscriptions = (Registry.subscribe b.subscriptions sender h.topic).0;
      } in
      let less = record b {
        subscriptions = (Registry.unsubscribe b.subscriptions sender h.topic).0;
      } in
      if_both IsQuiet (text_eq key Keys.connect || text_eq key Keys.heartbeat) (b, ack) _
        (still-IsQuiet b ack (ground arith))
        (if_both IsQuiet (text_eq key Keys.subscribe) (more, []) _ (still-IsQuiet more [] refl)
          (if_both IsQuiet (text_eq key Keys.unsubscribe) (less, []) _ (still-IsQuiet less [] refl)
            (route-IsQuiet b h bytes payload sender false)))

  handle_local-IsQuiet :
      (now : ℕ) (b : Broker) (h : Header) (bytes payload sender : Bytes)
      → IsQuiet (handle_local codec now b h bytes payload sender)
  unfolding handle_local packets_of
  handle_local-IsQuiet now b h bytes payload sender =
      let marked_b = mark_seen b sender now in
      let hello = deliver sender (encode_header codec (control Keys.reset)) [] ∷ [] in
      if_both IsQuiet (text_eq h.handler_key Keys.disconnect) (remove_client b sender, []) _
        (still-IsQuiet (remove_client b sender) [] refl)
        (if_both IsQuiet (is_connected b sender) _ (marked_b, hello)
          (handle_known-IsQuiet marked_b h bytes payload sender)
          (still-IsQuiet marked_b hello refl))

  handle_peer-IsQuiet :
      (b : Broker) (h : Header) (bytes payload sender : Bytes)
      → IsQuiet (handle_peer b h bytes payload sender)
  unfolding handle_peer packets_of
  handle_peer-IsQuiet b h bytes payload sender =
      if_both IsQuiet _ _ _ (still-IsQuiet b [] refl) (route-IsQuiet b h bytes payload sender true)

  sight_stamped :
      (b : Broker) (fresh : Bytes) (h : Header) (payload : Bytes) (more : List InspectorPacket)
      → seen (
          packet_of codec timestamp (record { header = stamp b fresh h; payload = payload }) ∷ more)
        ≡ (h.handler_key, h.topic, h.sender_id, payload) ∷ seen more
  unfolding seen packet_of stamp
  sight_stamped b fresh h payload more = ground arith

  module _ (lossless : (h : Header) → decode_frame codec (encode_header codec h) ≡ some h) where
    process_message-seen :
        (now : ℕ) (fresh : Bytes) (b : Broker) (h : Header) (payload sender : Bytes)
        (from_peer : Bool) (more : List InspectorPacket)
        → seen (packets_of (process_message codec now fresh b h payload sender from_peer).1 ++ more)
          ≡ (h.handler_key, h.topic, h.sender_id, payload) ∷ seen more
    unfolding process_message packets_of seen packet_of
    process_message-seen now fresh b h payload sender true more =
        let bytes = encode_header codec (stamp b fresh h) in
        rw
          (
            lossless (stamp b fresh h),
            (handle_peer-IsQuiet b (stamp b fresh h) bytes payload sender).quiet,
          )
          (sight_stamped b fresh h payload more)
    process_message-seen now fresh b h payload sender false more =
        let bytes = encode_header codec (stamp b fresh h) in
        rw
          (
            lossless (stamp b fresh h),
            (handle_local-IsQuiet now b (stamp b fresh h) bytes payload sender).quiet,
          )
          (sight_stamped b fresh h payload more)

    -- If the codec loses nothing of a header, then an inspector that gets every frame of the
    -- inspector socket makes one packet of each message that the broker processes, control
    -- messages and duplicates included, in order, with the message's key, topic, sender and
    -- payload.
    pub seen-process_all :
        (is : List Input) (b : Broker) → seen (packets_of (process_all codec b is).1) ≡ said is
    unfolding process_all packets_of seen said
    seen-process_all [] b = refl
    seen-process_all (i ∷ is) b =
        let r = process_message codec i.now i.fresh b i.header i.payload i.sender i.from_peer in
        ap seen (packets_of-append r.1 (process_all codec r.0 is).1)
        ∙ process_message-seen i.now i.fresh b i.header i.payload i.sender i.from_peer _
        ∙ ap (λ l. (i.header.handler_key, i.header.topic, i.header.sender_id, i.payload) ∷ l)
            (seen-process_all is r.0)
