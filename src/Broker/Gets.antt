-- ===== src/Broker/Gets.antt =====
-- server/zmqbroker.cpp: how many messages with one id go to a client.
use zmq_pubsub_testing.Base.{
  ℕ, ◌+◌, ◌≤◌, ◌≡◌, refl, Bytes, Bool, false, ◌&&◌, List, [], ◌∷◌, ◌++◌, Option, none, some,
  if◌then◌else◌, arith, text_eq,
}
use zmq_pubsub_testing.Wire.{Header, Envelope, Codec, decode_frame}
use zmq_pubsub_testing.Broker.Delivery.{delivered}
use zmq_pubsub_testing.Broker.{Broker, Output, tap, deliver, forward, deliver_each, flood}

-- The id in a header frame.
abbrev pub id_of : Option Header → Bytes
id_of none = []
id_of (some h) = h.message_uuid

abbrev pub frame_id : Codec → Bytes → Bytes
frame_id codec bytes = id_of (decode_frame codec bytes)

module _ (codec : Codec) (u c : Bytes) where
  -- How many messages with the id `u` go to the client `c`.
  unfoldable pub gets : List Output → ℕ
  gets [] = 0
  gets (tap h p ∷ outs) = gets outs
  gets (deliver id h p ∷ outs) =
      (if text_eq id c && text_eq (frame_id codec h) u then 1 else 0) + gets outs
  gets (forward k e ∷ outs) = gets outs

  pub gets-append : (xs ys : List Output) → gets (xs ++ ys) ≡ gets xs + gets ys
  unfolding gets
  gets-append [] ys = omega arith
  gets-append (tap h p ∷ xs) ys = gets-append xs ys
  gets-append (deliver id h p ∷ xs) ys = omega (arith, gets-append xs ys)
  gets-append (forward k e ∷ xs) ys = gets-append xs ys

  pub gets-le-delivered : (outs : List Output) → gets outs ≤ delivered c outs
  unfolding gets delivered
  gets-le-delivered [] = omega arith
  gets-le-delivered (tap h p ∷ outs) = gets-le-delivered outs
  gets-le-delivered (deliver id h p ∷ outs) = ground (arith, gets-le-delivered outs)
  gets-le-delivered (forward k e ∷ outs) = gets-le-delivered outs

  -- A frame with another id.
  pub gets-deliver_each :
      (b : Broker) (from_peer : Bool) (sender bytes payload : Bytes) (ids : List Bytes)
      → text_eq (frame_id codec bytes) u ≡ false
      → gets (deliver_each b from_peer sender bytes payload ids) ≡ 0
  unfolding gets deliver_each
  gets-deliver_each b from_peer sender bytes payload [] other = refl
  gets-deliver_each b from_peer sender bytes payload (id ∷ ids) other =
      ground (arith, gets-deliver_each b from_peer sender bytes payload ids other)

  pub gets-flood : (links : List Bytes) (env : Envelope) → gets (flood links env) ≡ 0
  unfolding gets flood
  gets-flood [] env = refl
  gets-flood (k ∷ links) env = gets-flood links env
