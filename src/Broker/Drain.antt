-- ===== src/Broker/Drain.antt =====
-- server/zmqbroker.cpp: the loop over the inbound queue in `run`, while the links' threads push.
use zmq_pubsub_testing.Base.{
  ℕ, zero, suc, ◌+◌, ◌≤◌, ◌<◌, ◌≡◌, refl, ap, ◌∙◌, sym, Bytes, Bool, true, List, [], ◌∷◌, ◌++◌,
  length, append-nil, length-append, arith, Bool-cases, inl, inr,
}
use zmq_pubsub_testing.SafeQueue.{Queue, try_pop}
use zmq_pubsub_testing.Wire.{Header, Envelope, Codec, encode_header}
use zmq_pubsub_testing.Broker.Copies.{Input, process_all}
use zmq_pubsub_testing.Broker.Dedup.{is_duplicate}
use zmq_pubsub_testing.Broker.Loop.{drain_next, drain_peers, peer_sender}
use zmq_pubsub_testing.Broker.{
  Broker, Output, deliver_each, not_in, exact_subs, wildcard_subs, deliver_local, route, stamp,
  handle_peer, process_message,
}

-- The broker with another queue, or with other messages in it.
abbrev pub set_queue : Queue Envelope → Broker → Broker
set_queue q b = record b { peer_inbound = q }

abbrev pub set_items : List Envelope → Broker → Broker
set_items xs b = set_queue (record (b.peer_inbound) { items = xs }) b

-- What the links push before a turn of the loop, and for the turns behind it.
abbrev pub first_pushes : List (List Envelope) → List Envelope
first_pushes [] = []
first_pushes (p ∷ ps) = p

abbrev pub later_pushes : List (List Envelope) → List (List Envelope)
later_pushes [] = []
later_pushes (p ∷ ps) = ps

-- `while (m_peerInboundQueue.try_pop(peerEnv))`, in at most the given number of turns. Each push that
-- returns true has put its message at the end.
unfoldable pub drain_while :
    ℕ → Codec → ℕ → (ℕ → Bytes) → Broker → List (List Envelope) → Broker × List Output
drain_while zero codec now fresh b pushes = (b, [])
drain_while (suc fuel) codec now fresh b pushes =
    let pushed = set_items (b.peer_inbound.items ++ first_pushes pushes) b in
    let (queue, env) = try_pop pushed.peer_inbound in
    drain_next codec now fresh (set_queue queue pushed) env
      (λ c. drain_while fuel codec now (λ n. fresh (suc n)) c (later_pushes pushes))

-- All that is pushed.
abbrev pub total_pushed : List (List Envelope) → ℕ
total_pushed [] = 0
total_pushed (p ∷ ps) = length p + total_pushed ps

-- The messages that the loop sees: it ends at the first turn that finds none.
abbrev before_end : List Envelope → (List Envelope → List Envelope) → List Envelope
before_end [] rest = []
before_end (x ∷ xs) rest = x ∷ rest xs

abbrev pub seen_by_loop : List (List Envelope) → List Envelope → List Envelope
seen_by_loop [] l = l
seen_by_loop (p ∷ ps) l = before_end (l ++ p) (seen_by_loop ps)

-- They are processed as messages of a peer.
abbrev pub as_inputs : ℕ → (ℕ → Bytes) → List Envelope → List Input
as_inputs now fresh [] = []
as_inputs now fresh (x ∷ xs) =
    record {
      now = now;
      fresh = fresh 0;
      header = x.header;
      payload = x.payload;
      sender = peer_sender;
      from_peer = true;
    }
    ∷ as_inputs now (λ n. fresh (suc n)) xs

seen_by_loop-turn :
    (pushes : List (List Envelope)) (l : List Envelope)
    → seen_by_loop pushes l
      ≡ before_end (l ++ first_pushes pushes) (seen_by_loop (later_pushes pushes))
seen_by_loop-turn [] [] = refl
seen_by_loop-turn [] (x ∷ l) = ap (λ xs. x ∷ xs) (sym (append-nil l))
seen_by_loop-turn (p ∷ ps) l = refl

-- No handler looks at the queue.
deliver_each-set_queue :
    (q : Queue Envelope) (b : Broker) (from_peer : Bool) (sender bytes payload : Bytes)
    (ids : List Bytes)
    → deliver_each (set_queue q b) from_peer sender bytes payload ids
      ≡ deliver_each b from_peer sender bytes payload ids
unfolding deliver_each
deliver_each-set_queue q b from_peer sender bytes payload [] = refl
deliver_each-set_queue q b from_peer sender bytes payload (id ∷ ids) =
    rw (deliver_each-set_queue q b from_peer sender bytes payload ids) refl

abbrev with_queue : Queue Envelope → Broker × List Output → Broker × List Output
with_queue q r = (set_queue q r.0, r.1)

route-set_queue :
    (q : Queue Envelope) (b : Broker) (h : Header) (bytes payload sender : Bytes) (from_peer : Bool)
    → route (set_queue q b) h bytes payload sender from_peer
      ≡ with_queue q (route b h bytes payload sender from_peer)
unfolding route deliver_local
route-set_queue q b h bytes payload sender from_peer =
    elim (Bool-cases (is_duplicate b.history h.message_uuid).1) [
      | inl old ↦ rw (route, old) refl
      | inr new ↦
          let b' = record b { history = (is_duplicate b.history h.message_uuid).0 } in
          let exact = exact_subs b h.topic in
          let wild = not_in exact (wildcard_subs b h.topic) in
          rw
            (
              route,
              new,
              deliver_each-set_queue q b' from_peer sender bytes payload exact,
              deliver_each-set_queue q b' from_peer sender bytes payload wild,
            )
            refl
    ]

process_message-set_queue :
    (q : Queue Envelope) (codec : Codec) (now : ℕ) (fresh : Bytes) (b : Broker) (h : Header)
    (payload sender : Bytes)
    → process_message codec now fresh (set_queue q b) h payload sender true
      ≡ with_queue q (process_message codec now fresh b h payload sender true)
unfolding process_message handle_peer stamp
process_message-set_queue q codec now fresh b h payload sender =
    let h' = stamp b fresh h in
    ground (arith, route-set_queue q b h' (encode_header codec h') payload sender true)

process_all-set_queue :
    (q : Queue Envelope) (codec : Codec) (now : ℕ) (l : List Envelope) (fresh : ℕ → Bytes)
    (b : Broker)
    → process_all codec (set_queue q b) (as_inputs now fresh l)
      ≡ with_queue q (process_all codec b (as_inputs now fresh l))
unfolding process_all
process_all-set_queue q codec now [] fresh b = refl
process_all-set_queue q codec now (x ∷ l) fresh b =
    let later : ℕ → Bytes = λ n. fresh (suc n) in
    let r = process_message codec now (fresh 0) b x.header x.payload peer_sender true in
    rw
      (
        process_message-set_queue q codec now (fresh 0) b x.header x.payload peer_sender,
        process_all-set_queue q codec now l later r.0,
      )
      refl

total_first :
    (ps : List (List Envelope))
    → length (first_pushes ps) + total_pushed (later_pushes ps) ≡ total_pushed ps
total_first [] = omega arith
total_first (p ∷ ps) = refl

drain_turns :
    (fuel : ℕ) (codec : Codec) (now : ℕ) (fresh : ℕ → Bytes) (b : Broker)
    (pushes : List (List Envelope)) (l : List Envelope)
    → b.peer_inbound.items ++ first_pushes pushes ≡ l
    → length l + total_pushed (later_pushes pushes) < fuel
    → let seen = before_end l (seen_by_loop (later_pushes pushes)) in
      drain_while fuel codec now fresh b pushes
      ≡ with_queue
          (record (b.peer_inbound) { items = [] })
          (process_all codec b (as_inputs now fresh seen))
unfolding drain_while process_all try_pop
drain_turns zero codec now fresh b pushes l e room = absurd (omega (arith, room))
drain_turns (suc fuel) codec now fresh b pushes [] e room = rw (drain_while, e) refl
drain_turns (suc fuel) codec now fresh b pushes (x ∷ l) e room =
    let later : ℕ → Bytes = λ n. fresh (suc n) in
    let ps = later_pushes pushes in
    let q = record (b.peer_inbound) { items = l } in
    let r = process_message codec now (fresh 0) b x.header x.payload peer_sender true in
    let rest =
      drain_turns fuel codec now later (set_queue q r.0) ps (l ++ first_pushes ps) refl
        (omega (arith, room, length-append l (first_pushes ps), total_first ps))
      ∙ ap
          (λ seen.
            with_queue (record q { items = [] })
              (process_all codec (set_queue q r.0) (as_inputs now later seen)))
          (sym (seen_by_loop-turn ps l))
      ∙ ap (with_queue (record q { items = [] }))
          (process_all-set_queue q codec now (seen_by_loop ps l) later r.0) in
    rw
      (
        drain_while,
        e,
        process_message-set_queue q codec now (fresh 0) b x.header x.payload peer_sender,
        rest,
      )
      refl

drain_peers_turns :
    (l : List Envelope) (fuel : ℕ) (codec : Codec) (now : ℕ) (fresh : ℕ → Bytes) (b : Broker)
    → length l ≤ fuel
    → drain_peers fuel codec now fresh (set_items l b)
      ≡ with_queue
          (record (b.peer_inbound) { items = [] })
          (process_all codec b (as_inputs now fresh l))
unfolding drain_peers process_all try_pop
drain_peers_turns [] zero codec now fresh b h = refl
drain_peers_turns [] (suc fuel) codec now fresh b h = refl
drain_peers_turns (x ∷ l) zero codec now fresh b h = absurd (omega (arith, h))
drain_peers_turns (x ∷ l) (suc fuel) codec now fresh b h =
    let later : ℕ → Bytes = λ n. fresh (suc n) in
    let q = record (b.peer_inbound) { items = l } in
    let r = process_message codec now (fresh 0) b x.header x.payload peer_sender true in
    let rest =
      drain_peers_turns l fuel codec now later (set_queue q r.0) (omega (arith, h))
      ∙ ap (with_queue (record q { items = [] })) (process_all-set_queue q codec now l later r.0) in
    rw (process_message-set_queue q codec now (fresh 0) b x.header x.payload peer_sender, rest) refl

-- While the loop over the inbound queue runs, the links' threads push messages between its turns.
-- If it may make more turns than there are messages in the queue and pushed in all, then it ends
-- with the queue empty, and with the state and the outputs of processing, one after the other and
-- as messages of a peer, exactly the messages in the queue and those pushed before the first turn
-- that finds none, in their order. The loop of a round without such pushes, in as many turns as
-- the queue has messages, likewise processes exactly these.
pub drain_while-process_all :
    (fuel : ℕ) (codec : Codec) (now : ℕ) (fresh : ℕ → Bytes) (b : Broker)
    (pushes : List (List Envelope))
    → length b.peer_inbound.items + total_pushed pushes < fuel
    → let l = b.peer_inbound.items in
      let emptied = record (b.peer_inbound) { items = [] } in
      (drain_while fuel codec now fresh b pushes
        ≡ with_queue emptied (process_all codec b (as_inputs now fresh (seen_by_loop pushes l))))
      × (drain_peers (length l) codec now fresh b
          ≡ with_queue emptied (process_all codec b (as_inputs now fresh l)))
drain_while-process_all fuel codec now fresh b pushes room =
    let l = b.peer_inbound.items in
    (
      drain_turns fuel codec now fresh b pushes (l ++ first_pushes pushes) refl
            (omega (arith, room, length-append l (first_pushes pushes), total_first pushes))
          ∙ ap
              (λ seen.
                with_queue (record (b.peer_inbound) { items = [] })
                  (process_all codec b (as_inputs now fresh seen)))
              (sym (seen_by_loop-turn pushes l)),
      drain_peers_turns l (length l) codec now fresh b (omega arith),
    )
