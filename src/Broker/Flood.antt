-- ===== src/Broker/Flood.antt =====
-- server/zmqbroker.cpp: how often a message id is forwarded on a link, over many messages from any
-- side. In a mesh of links with loops, this is what bounds the flood.
use zmq_pubsub_testing.Base.{
  ℕ, suc, ◌+◌, ◌≤◌, ◌<◌, ◌≡◌, refl, ap, ◌∙◌, sym, Bytes, Bool, true, false, ◌||◌, List, [], ◌∷◌,
  if◌then◌else◌, if_both, arith, count, contains, text_eq, length, Bool-cases, inl, inr,
}
use zmq_pubsub_testing.Base.Maps.{keys}
use zmq_pubsub_testing.Keys
use zmq_pubsub_testing.Registry
use zmq_pubsub_testing.Wire.{Header, Envelope, Codec, encode_header}
use zmq_pubsub_testing.Broker.Dedup.{
  History, IsWindow, is_duplicate, is_duplicate-IsWindow, is_duplicate-contains, max_history_size,
}
use zmq_pubsub_testing.Broker.{
  Broker, Output, deliver, deliver_local, flood, route, stamp, mark_seen, remove_client,
  handle_known, handle_local, handle_peer, process_message, control, is_connected,
}
use zmq_pubsub_testing.Broker.Carries.{
  carries, carries-append, carries-flood, carries-deliver_local, is_duplicate-longer,
  is_duplicate-room, other_id, marked,
}

module _ (u k : Bytes) where
  -- What one message does, seen from the links `ls` and the history `g`.
  pub record Floods (ls : List Bytes) (g : History) (r : Broker × List Output) : Type 0 where
    pub links : keys r.0.peers ≡ ls
    pub window : IsWindow r.0.history
    pub longer : length r.0.history.order ≤ suc (length g.order)
    pub quiet :
        contains u g.seen ≡ true
        → length g.order < max_history_size
        → (carries u k r.1 ≡ 0) × (contains u r.0.history.seen ≡ true)
    pub once : carries u k r.1 ≤ count k ls
    pub marks : 0 < carries u k r.1 → contains u r.0.history.seen ≡ true

  -- No message is forwarded.
  still-Floods :
      (b : Broker) (outs : List Output)
      → IsWindow b.history
      → carries u k outs ≡ 0
      → Floods (keys b.peers) b.history (b, outs)
  still-Floods b outs w none_sent = record {
    links = refl;
    window = w;
    longer = omega arith;
    quiet = λ old room. (none_sent, old);
    once = omega (arith, none_sent);
    marks = λ some_sent. absurd (omega (arith, none_sent, some_sent));
  }

  route-Floods :
      (b : Broker) (h : Header) (bytes payload sender : Bytes) (from_peer : Bool)
      → IsWindow b.history
      → Floods (keys b.peers) b.history (route b h bytes payload sender from_peer)
  unfolding route carries
  route-Floods b h bytes payload sender from_peer w =
      let g = (is_duplicate b.history h.message_uuid).0 in
      let moved = is_duplicate-IsWindow b.history h.message_uuid w in
      elim (Bool-cases (is_duplicate b.history h.message_uuid).1) [
        | inl old ↦
            rw (route, old)
              (record {
                links = refl;
                window = moved;
                longer = is_duplicate-longer b.history h.message_uuid;
                quiet = λ seen room. (refl, is_duplicate-room b.history h.message_uuid u room seen);
                once = omega arith;
                marks = λ some_sent. absurd (omega (arith, some_sent));
              })
        | inr new ↦
            let b' = record b { history = g } in
            let env : Envelope = record { header = h; payload = payload } in
            let local = deliver_local b' h bytes payload sender from_peer in
            let sent =
              carries-append u k local (flood (keys b.peers) env)
              ∙ ap (λ n. n + carries u k (flood (keys b.peers) env))
                  (carries-deliver_local u k b' h bytes payload sender from_peer) in
            let flooded = carries-flood u k (keys b.peers) env in
            let fresh = sym (is_duplicate-contains b.history h.message_uuid) ∙ new in
            rw (route, new)
              (record {
                links = refl;
                window = moved;
                longer = is_duplicate-longer b.history h.message_uuid;
                quiet = λ seen room. (
                  ground
                      (arith, sent, flooded, other_id b.history.seen u h.message_uuid seen fresh),
                  is_duplicate-room b.history h.message_uuid u room seen,
                );
                once = ground (arith, sent, flooded);
                marks = λ some_sent.
                    marked b.history u h.message_uuid (ground (arith, sent, flooded, some_sent)) w;
              })
      ]

  -- A message of any kind.
  handle_peer-Floods :
      (b : Broker) (h : Header) (bytes payload sender : Bytes)
      → IsWindow b.history
      → Floods (keys b.peers) b.history (handle_peer b h bytes payload sender)
  unfolding handle_peer carries
  handle_peer-Floods b h bytes payload sender w =
      if_both (Floods (keys b.peers) b.history) _ _ _ (still-Floods b [] w refl)
        (route-Floods b h bytes payload sender true w)

  handle_known-Floods :
      (codec : Codec) (b : Broker) (h : Header) (bytes payload sender : Bytes)
      → IsWindow b.history
      → Floods (keys b.peers) b.history (handle_known codec b h bytes payload sender)
  unfolding handle_known carries
  handle_known-Floods codec b h bytes payload sender w =
      let P = Floods (keys b.peers) b.history in
      let key = h.handler_key in
      let ack =
        (if text_eq key Keys.heartbeat
          then deliver sender (encode_header codec (control Keys.heartbeat_ack)) [] ∷ []
          else []) in
      let more = record b {
        subscriptions = (Registry.subscribe b.subscriptions sender h.topic).0;
      } in
      let less = record b {
        subscriptions = (Registry.unsubscribe b.subscriptions sender h.topic).0;
      } in
      if_both P (text_eq key Keys.connect || text_eq key Keys.heartbeat) (b, ack) _
        (still-Floods b ack w (ground arith))
        (if_both P (text_eq key Keys.subscribe) (more, []) _ (still-Floods more [] w refl)
          (if_both P (text_eq key Keys.unsubscribe) (less, []) _ (still-Floods less [] w refl)
            (route-Floods b h bytes payload sender false w)))

  handle_local-Floods :
      (codec : Codec) (now : ℕ) (b : Broker) (h : Header) (bytes payload sender : Bytes)
      → IsWindow b.history
      → Floods (keys b.peers) b.history (handle_local codec now b h bytes payload sender)
  unfolding handle_local remove_client mark_seen carries
  handle_local-Floods codec now b h bytes payload sender w =
      let P = Floods (keys b.peers) b.history in
      let marked_b = mark_seen b sender now in
      let hello = deliver sender (encode_header codec (control Keys.reset)) [] ∷ [] in
      if_both P (text_eq h.handler_key Keys.disconnect) (remove_client b sender, []) _
        (still-Floods (remove_client b sender) [] w refl)
        (if_both P (is_connected b sender) _ (marked_b, hello)
          (handle_known-Floods codec marked_b h bytes payload sender w)
          (still-Floods marked_b hello w refl))

  pub process_message-Floods :
      (codec : Codec) (now : ℕ) (fresh : Bytes) (b : Broker) (h : Header) (payload sender : Bytes)
      (from_peer : Bool)
      → IsWindow b.history
      → Floods
          (keys b.peers)
          b.history
          (process_message codec now fresh b h payload sender from_peer)
  unfolding process_message carries
  process_message-Floods codec now fresh b h payload sender true w =
      let f =
        handle_peer-Floods b (stamp b fresh h) (encode_header codec (stamp b fresh h)) payload
          sender w in
      record {
        links = f.links;
        window = f.window;
        longer = f.longer;
        quiet = f.quiet;
        once = f.once;
        marks = f.marks;
      }
  process_message-Floods codec now fresh b h payload sender false w =
      let f =
        handle_local-Floods codec now b (stamp b fresh h) (encode_header codec (stamp b fresh h))
          payload sender w in
      record {
        links = f.links;
        window = f.window;
        longer = f.longer;
        quiet = f.quiet;
        once = f.once;
        marks = f.marks;
      }
