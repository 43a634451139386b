-- ===== src/Broker/Copies.antt =====
-- server/zmqbroker.cpp: a run of messages of any kind, from clients and peers in any order.
use zmq_pubsub_testing.Base.{
  ℕ, ◌+◌, ◌≤◌, ◌<◌, ◌≡◌, refl, ap, Bytes, Bool, true, List, [], ◌∷◌, ◌++◌, arith, count, contains,
  length, ◌⊎◌, inl, inr,
}
use zmq_pubsub_testing.Base.Maps.{keys}
use zmq_pubsub_testing.Wire.{Header, Codec}
use zmq_pubsub_testing.Broker.Dedup.{IsWindow, max_history_size}
use zmq_pubsub_testing.Broker.{Broker, Output, process_message}
use zmq_pubsub_testing.Broker.Carries.{carries, carries-append}
use zmq_pubsub_testing.Broker.Flood.{process_message-Floods}

-- A message that the broker processes, with what the clock and `generateUUID` give for it.
pub record Input : Type 0 where
  pub now : ℕ
  pub fresh : Bytes
  pub header : Header
  pub payload : Bytes
  pub sender : Bytes
  pub from_peer : Bool

unfoldable pub process_all : Codec → Broker → List Input → Broker × List Output
process_all codec b [] = (b, [])
process_all codec b (i ∷ is) =
    let (b1, out1) =
      process_message codec i.now i.fresh b i.header i.payload i.sender i.from_peer in
    let (b2, out2) = process_all codec b1 is in (b2, out1 ++ out2)

some_or_none : (n : ℕ) → (n ≡ 0) ⊎ (0 < n)
some_or_none n = ground arith

module _ (codec : Codec) (u k : Bytes) where
  -- Nothing more once the id is known.
  silent :
      (is : List Input) (b : Broker)
      → IsWindow b.history
      → length b.history.order + length is ≤ max_history_size
      → contains u b.history.seen ≡ true
      → carries u k (process_all codec b is).1 ≡ 0
  unfolding process_all carries
  silent [] b w room old = refl
  silent (i ∷ is) b w room old =
      let r = process_message codec i.now i.fresh b i.header i.payload i.sender i.from_peer in
      let f =
        process_message-Floods u k codec i.now i.fresh b i.header i.payload i.sender i.from_peer
          w in
      let q = f.quiet old (omega (arith, room)) in
      omega (
        arith,
        carries-append u k r.1 (process_all codec r.0 is).1,
        q.0,
        silent is r.0 f.window (omega (arith, f.longer, room)) q.1,
      )

  -- A broker whose window is sound and has room for the ids of a run of messages, of any kind and
  -- from any side, forwards messages with one given id at most once on each peer link during the
  -- whole run, however often they come in.
  pub carries-process_all :
      (is : List Input) (b : Broker)
      → IsWindow b.history
      → length b.history.order + length is ≤ max_history_size
      → carries u k (process_all codec b is).1 ≤ count k (keys b.peers)
  unfolding process_all carries
  carries-process_all [] b w room = omega arith
  carries-process_all (i ∷ is) b w room =
      let r = process_message codec i.now i.fresh b i.header i.payload i.sender i.from_peer in
      let f =
        process_message-Floods u k codec i.now i.fresh b i.header i.payload i.sender i.from_peer
          w in
      let room' : length r.0.history.order + length is ≤ max_history_size =
        omega (arith, f.longer, room) in
      let joined = carries-append u k r.1 (process_all codec r.0 is).1 in
      let rest = carries-process_all is r.0 f.window room' in
      elim (some_or_none (carries u k r.1)) [
        | inl none_sent ↦ omega (arith, joined, none_sent, rest, ap (count k) f.links)
        | inr some_sent ↦
            omega (arith, joined, f.once, silent is r.0 f.window room' (f.marks some_sent))
      ]
