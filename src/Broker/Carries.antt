-- ===== src/Broker/Carries.antt =====
-- server/zmqbroker.cpp: how often outputs carry a message id to a link.
use zmq_pubsub_testing.Base.{
  ℕ, suc, ◌+◌, ◌≤◌, ◌<◌, ◌≡◌, refl, Bytes, Bool, true, false, ◌&&◌, List, [], ◌∷◌, ◌++◌,
  if◌then◌else◌, arith, count, contains, text_eq, length, length-append,
}
use zmq_pubsub_testing.Wire.{Header, Envelope}
use zmq_pubsub_testing.Broker.Dedup.{
  History, IsWindow, is_duplicate, is_duplicate-contains, is_duplicate-twice, drop_front,
  max_history_size,
}
use zmq_pubsub_testing.Broker.{
  Broker, Output, tap, deliver, forward, deliver_each, not_in, exact_subs, wildcard_subs,
  deliver_local, flood,
}

-- How many messages with the id `u` go to the link `k`.
unfoldable pub carries : Bytes → Bytes → List Output → ℕ
carries u k [] = 0
carries u k (tap h p ∷ outs) = carries u k outs
carries u k (deliver id h p ∷ outs) = carries u k outs
carries u k (forward key e ∷ outs) =
    (if text_eq key k && text_eq e.header.message_uuid u then 1 else 0) + carries u k outs

pub is_duplicate-longer :
    (h : History) (u : Bytes) → length (is_duplicate h u).0.order ≤ suc (length h.order)
unfolding is_duplicate
is_duplicate-longer h u =
    ground (arith, length-append h.order (u ∷ []), length-drop (u ∷ h.seen) (h.order ++ u ∷ []))
  where
    length-drop : (seen order : List Bytes) → length (drop_front seen order).order ≤ length order
    length-drop seen [] = omega arith
    length-drop seen (x ∷ order) = omega arith

-- While the window has room, a new id is added and none is forgotten.
pub is_duplicate-room :
    (h : History) (u v : Bytes)
    → length h.order < max_history_size
    → contains v h.seen ≡ true
    → contains v (is_duplicate h u).0.seen ≡ true
unfolding is_duplicate contains count
is_duplicate-room h u v room old = ground (arith, length-append h.order (u ∷ []))

pub other_id :
    (g : List Bytes) (u v : Bytes)
    → contains u g ≡ true
    → contains v g ≡ false
    → text_eq v u ≡ false
other_id g u v seen fresh = ground (arith, seen, fresh)

pub marked :
    (g : History) (u v : Bytes)
    → text_eq v u ≡ true
    → IsWindow g
    → contains u (is_duplicate g v).0.seen ≡ true
marked g u v same w =
    ground (arith, is_duplicate-twice g v w, is_duplicate-contains (is_duplicate g v).0 v, same)

module _ (u k : Bytes) where
  pub carries-append :
      (xs ys : List Output) → carries u k (xs ++ ys) ≡ carries u k xs + carries u k ys
  unfolding carries
  carries-append [] ys = omega arith
  carries-append (tap h p ∷ xs) ys = carries-append xs ys
  carries-append (deliver id h p ∷ xs) ys = carries-append xs ys
  carries-append (forward key e ∷ xs) ys = omega (arith, carries-append xs ys)

  pub carries-deliver_each :
      (b : Broker) (from_peer : Bool) (sender bytes payload : Bytes) (ids : List Bytes)
      → carries u k (deliver_each b from_peer sender bytes payload ids) ≡ 0
  unfolding carries deliver_each
  carries-deliver_each b from_peer sender bytes payload [] = refl
  carries-deliver_each b from_peer sender bytes payload (id ∷ ids) =
      ground (arith, carries-deliver_each b from_peer sender bytes payload ids)

  pub carries-flood :
      (links : List Bytes) (env : Envelope)
      → carries u k (flood links env)
        ≡ (if text_eq env.header.message_uuid u then count k links else 0)
  unfolding carries flood count
  carries-flood [] env = ground arith
  carries-flood (key ∷ links) env = ground (arith, carries-flood links env)

  pub carries-deliver_local :
      (b : Broker) (h : Header) (bytes payload sender : Bytes) (from_peer : Bool)
      → carries u k (deliver_local b h bytes payload sender from_peer) ≡ 0
  unfolding deliver_local
  carries-deliver_local b h bytes payload sender from_peer =
      let exact = exact_subs b h.topic in
      let wild = not_in exact (wildcard_subs b h.topic) in
      omega (
        arith,
        carries-append (deliver_each b from_peer sender bytes payload exact)
            (deliver_each b from_peer sender bytes payload wild),
        carries-deliver_each b from_peer sender bytes payload exact,
        carries-deliver_each b from_peer sender bytes payload wild,
      )
