-- ===== src/Broker/Once.antt =====
-- server/zmqbroker.cpp: how often a client gets a message with one id, over a run of messages from
-- any side. The id is read from the header frame, the way that a client reads it.
use zmq_pubsub_testing.Base.{
  ℕ, ◌+◌, ◌≤◌, ◌<◌, ◌≡◌, ◌≢◌, refl, ◌∙◌, Bytes, Bool, true, false, not, ◌&&◌, ◌||◌, List, [], ◌∷◌,
  ◌++◌, if◌then◌else◌, if_both, arith, contains, text_eq, length, Bool-cases, inl, inr,
}
use zmq_pubsub_testing.Base.Maps.{keys}
use zmq_pubsub_testing.Keys
use zmq_pubsub_testing.Registry
use zmq_pubsub_testing.Wire.{Header, Codec, encode_header}
use zmq_pubsub_testing.Broker.Carries.{marked}
use zmq_pubsub_testing.Broker.Copies.{Input, process_all}
use zmq_pubsub_testing.Broker.Dedup.{History, is_duplicate, is_duplicate-contains, max_history_size}
use zmq_pubsub_testing.Broker.Delivery.{route-delivers}
use zmq_pubsub_testing.Broker.Flood.{process_message-Floods}
use zmq_pubsub_testing.Broker.Valid.{IsValid, mark_seen-IsValid, process_message-IsValid}
use zmq_pubsub_testing.Broker.{
  Broker, Output, deliver, deliver_each, not_in, exact_subs, wildcard_subs, deliver_local, flood,
  route, stamp, mark_seen, remove_client, handle_known, handle_local, handle_peer, process_message,
  control, is_connected,
}
use zmq_pubsub_testing.Broker.Gets.{
  frame_id, gets-append, gets-le-delivered, gets-deliver_each, gets-flood, gets,
}

module _ (codec : Codec) (u c : Bytes) where
  -- What one message does, seen from the history `g`.
  record Hears (g : History) (r : Broker × List Output) : Type 0 where
    most : gets codec u c r.1 ≤ (if contains u g.seen then 0 else 1)
    marks : 0 < gets codec u c r.1 → contains u r.0.history.seen ≡ true

  still-Hears :
      (g : History) (b : Broker) (outs : List Output) → gets codec u c outs ≡ 0 → Hears g (b, outs)
  still-Hears g b outs none_sent = record {
    most = omega (arith, none_sent);
    marks = λ sent. absurd (omega (arith, none_sent, sent));
  }

  gets-route-other :
      (b : Broker) (h : Header) (bytes payload sender : Bytes) (from_peer : Bool)
      → text_eq (frame_id codec bytes) u ≡ false
      → gets codec u c (route b h bytes payload sender from_peer).1 ≡ 0
  unfolding route deliver_local gets
  gets-route-other b h bytes payload sender from_peer other =
      let b' = record b { history = (is_duplicate b.history h.message_uuid).0 } in
      let exact = exact_subs b h.topic in
      let wild = not_in exact (wildcard_subs b h.topic) in
      let first = deliver_each b' from_peer sender bytes payload exact in
      let second = deliver_each b' from_peer sender bytes payload wild in
      let links = flood (keys b.peers) (record { header = h; payload = payload }) in
      elim (Bool-cases (is_duplicate b.history h.message_uuid).1) [
        | inl old ↦ rw (route, old) refl
        | inr new ↦
            rw (route, new)
              (omega (
                arith,
                gets-append codec u c (first ++ second) links,
                gets-append codec u c first second,
                gets-deliver_each codec u c b' from_peer sender bytes payload exact other,
                gets-deliver_each codec u c b' from_peer sender bytes payload wild other,
                gets-flood codec u c (keys b.peers) (record { header = h; payload = payload }),
              ))
      ]

  -- A codec that gives back the id that it encoded, and an id that is not empty.
  module _ (keeps_id : (h : Header) → frame_id codec (encode_header codec h) ≡ h.message_uuid)
      (real : u ≢ []) where
    history-route :
        (b : Broker) (h : Header) (bytes payload sender : Bytes) (from_peer : Bool)
        → (route b h bytes payload sender from_peer).0.history
          ≡ (is_duplicate b.history h.message_uuid).0
    unfolding route
    history-route b h bytes payload sender from_peer = ground arith

    gets-route-old :
        (b : Broker) (h : Header) (bytes payload sender : Bytes) (from_peer : Bool)
        → contains h.message_uuid b.history.seen ≡ true
        → gets codec u c (route b h bytes payload sender from_peer).1 ≡ 0
    unfolding route gets
    gets-route-old b h bytes payload sender from_peer old =
        rw (route, is_duplicate-contains b.history h.message_uuid ∙ old) refl

    gets-route :
        (b : Broker) (h : Header) (payload sender : Bytes) (from_peer : Bool)
        → IsValid b
        → gets codec u c (route b h (encode_header codec h) payload sender from_peer).1
          ≤ (if text_eq h.message_uuid u && not (contains u b.history.seen) then 1 else 0)
    gets-route b h payload sender from_peer v =
        let bytes = encode_header codec h in
        elim (Bool-cases (text_eq h.message_uuid u)) [
          | inr other ↦
              omega
                (arith, gets-route-other b h bytes payload sender from_peer (rw (keeps_id h) other))
          | inl same ↦ elim (Bool-cases (contains h.message_uuid b.history.seen)) [
            | inl old ↦ omega (arith, gets-route-old b h bytes payload sender from_peer old)
            | inr new ↦ ground (
              arith,
              gets-le-delivered codec u c (route b h bytes payload sender from_peer).1,
              route-delivers b h bytes payload sender c c from_peer v new,
            )
          ]
        ]

    route-Hears :
        (b : Broker) (h : Header) (payload sender : Bytes) (from_peer : Bool)
        → IsValid b
        → Hears b.history (route b h (encode_header codec h) payload sender from_peer)
    route-Hears b h payload sender from_peer v =
        let bytes = encode_header codec h in
        let few = gets-route b h payload sender from_peer v in
        record {
          most = ground (arith, few);
          marks = λ sent. ground (
            arith,
            few,
            sent,
            history-route b h bytes payload sender from_peer,
            marked b.history u h.message_uuid,
            v.window,
          );
        }

    unnamed : (key : Bytes) → text_eq (frame_id codec (encode_header codec (control key))) u ≡ false
    unnamed key = ground (arith, keeps_id (control key), real)

    handle_known-Hears :
        (b : Broker) (h : Header) (payload sender : Bytes)
        → IsValid b
        → Hears b.history (handle_known codec b h (encode_header codec h) payload sender)
    unfolding handle_known gets
    handle_known-Hears b h payload sender v =
        let P = Hears b.history in
        let key = h.handler_key in
        let ack =
          (if text_eq key Keys.heartbeat
            then deliver sender (encode_header codec (control Keys.heartbeat_ack)) [] ∷ []
            else []) in
        let more = record b {
          subscriptions = (Registry.subscribe b.subscriptions sender h.topic).0;
        } in
        let less = record b {
          subscriptions = (Registry.unsubscribe b.subscriptions sender h.topic).0;
        } in
        if_both P (text_eq key Keys.connect || text_eq key Keys.heartbeat) (b, ack) _
          (still-Hears b.history b ack (ground (arith, unnamed Keys.heartbeat_ack)))
          (if_both P (text_eq key Keys.subscribe) (more, []) _ (still-Hears b.history more [] refl)
            (if_both P (text_eq key Keys.unsubscribe) (less, []) _
              (still-Hears b.history less [] refl) (route-Hears b h payload sender false v)))

    handle_local-Hears :
        (now : ℕ) (b : Broker) (h : Header) (payload sender : Bytes)
        → IsValid b
        → Hears b.history (handle_local codec now b h (encode_header codec h) payload sender)
    unfolding handle_local remove_client mark_seen gets
    handle_local-Hears now b h payload sender v =
        let P = Hears b.history in
        let marked_b = mark_seen b sender now in
        let hello = deliver sender (encode_header codec (control Keys.reset)) [] ∷ [] in
        if_both P (text_eq h.handler_key Keys.disconnect) (remove_client b sender, []) _
          (still-Hears b.history (remove_client b sender) [] refl)
          (if_both P (is_connected b sender) _ (marked_b, hello)
            (handle_known-Hears marked_b h payload sender (mark_seen-IsValid b sender now v))
            (still-Hears b.history marked_b hello (ground (arith, unnamed Keys.reset))))

    handle_peer-Hears :
        (b : Broker) (h : Header) (payload sender : Bytes)
        → IsValid b
        → Hears b.history (handle_peer b h (encode_header codec h) payload sender)
    unfolding handle_peer gets
    handle_peer-Hears b h payload sender v =
        if_both (Hears b.history) _ _ _ (still-Hears b.history b [] refl)
          (route-Hears b h payload sender true v)

    process_message-Hears :
        (now : ℕ) (fresh : Bytes) (b : Broker) (h : Header) (payload sender : Bytes)
        (from_peer : Bool)
        → IsValid b
        → Hears b.history (process_message codec now fresh b h payload sender from_peer)
    unfolding process_message gets
    process_message-Hears now fresh b h payload sender true v =
        let r = handle_peer-Hears b (stamp b fresh h) payload sender v in
        record { most = r.most; marks = r.marks }
    process_message-Hears now fresh b h payload sender false v =
        let r = handle_local-Hears now b (stamp b fresh h) payload sender v in
        record { most = r.most; marks = r.marks }

    -- If the header frame of a message gives back its id, the id is not empty, and the broker's
    -- state is valid with room in its window for the ids of a run of messages, of any kind and
    -- from any side, then the run sends a client at most one message with that id, and none if
    -- the id is in the window before.
    pub gets-process_all :
        (is : List Input) (b : Broker)
        → IsValid b
        → length b.history.order + length is ≤ max_history_size
        → gets codec u c (process_all codec b is).1 ≤ (if contains u b.history.seen then 0 else 1)
    unfolding process_all gets
    gets-process_all [] b v room = ground arith
    gets-process_all (i ∷ is) b v room =
        let r = process_message codec i.now i.fresh b i.header i.payload i.sender i.from_peer in
        let f =
          process_message-Floods u c codec i.now i.fresh b i.header i.payload i.sender i.from_peer
            v.window in
        let heard =
          process_message-Hears i.now i.fresh b i.header i.payload i.sender i.from_peer v in
        let v' =
          process_message-IsValid codec i.now i.fresh b i.header i.payload i.sender i.from_peer v in
        let room' : length r.0.history.order + length is ≤ max_history_size =
          omega (arith, f.longer, room) in
        let here : length b.history.order < max_history_size = omega (arith, room) in
        ground (
          arith,
          gets-append codec u c r.1 (process_all codec r.0 is).1,
          heard.most,
          heard.marks,
          f.quiet,
          here,
          gets-process_all is r.0 v' room',
        )
