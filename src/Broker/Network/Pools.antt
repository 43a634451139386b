-- ===== src/Broker/Network/Pools.antt =====
-- server/zmqbroker.cpp: what holds of every message that is on its way.
use zmq_pubsub_testing.Base.{
  ℕ, zero, suc, ◌≡◌, refl, Bytes, Bool, true, false, List, [], ◌∷◌, ◌++◌, Option, none, some, arith,
  text_eq,
}
use zmq_pubsub_testing.Keys
use zmq_pubsub_testing.Keys.{is_control_message}
use zmq_pubsub_testing.Wire.{Header, encode_header, decode_frame}
use zmq_pubsub_testing.Broker.{Broker, Link, Output, tap, deliver, forward}
use zmq_pubsub_testing.Broker.Loop.{peer_sender}
use zmq_pubsub_testing.Broker.Network.Carry.{Carry}
use zmq_pubsub_testing.Broker.Network.{
  Wiring, Arrival, Network, pick, over_link, to_worker, transfers,
}

abbrev pub All : (Arrival → Type 0) → List Arrival → Type 0
All P [] = Unit {0}
All P (a ∷ pool) = P a × All P pool

pub All-append :
    (P : Arrival → Type 0) (xs ys : List Arrival) → All P xs → All P ys → All P (xs ++ ys)
All-append P [] ys p q = q
All-append P (x ∷ xs) ys p q = (p.0, All-append P xs ys p.1 q)

pub All-map :
    (P Q : Arrival → Type 0) (xs : List Arrival) → ((a : Arrival) → P a → Q a) → All P xs → All Q xs
All-map P Q [] f p = tt
All-map P Q (x ∷ xs) f p = (f x p.0, All-map P Q xs f p.1)

pub All-pick :
    (P : Arrival → Type 0) (n : ℕ) (x : Arrival) (xs : List Arrival)
    → All P (x ∷ xs)
    → P (pick n x xs).0 × All P (pick n x xs).1
All-pick P n x [] p = p
All-pick P zero x (y ∷ xs) p = p
All-pick P (suc n) x (y ∷ xs) p = let r = All-pick P n y xs p.1 in (r.0, (p.0, r.1))

module _ (wiring : Wiring) (h : Header) (payload : Bytes) where
  -- One copy of the message.
  abbrev pub copy : ℕ → Bytes → Bool → Arrival
  copy n sender from_peer = record {
    at = n;
    header = h;
    payload = payload;
    sender = sender;
    from_peer = from_peer;
  }

  -- A network in which a client has just sent the message to its broker.
  abbrev pub asked : List Broker → ℕ → Bytes → Network
  asked bs n sender = record { brokers = bs; pool = copy n sender false ∷ [] }

  module _
      (lossless : (g : Header) → decode_frame wiring.codec (encode_header wiring.codec g) ≡ some g)
      (plain : is_control_message h.handler_key ≡ false) (P : Arrival → Type 0)
      (from_peer : (j : ℕ) → P (copy j peer_sender true)) where
    to_worker-All :
        (i : ℕ) (c : Bytes) (owner : Option (ℕ × Link))
        → All P (to_worker i c owner (some h) payload)
    unfolding is_control_message
    to_worker-All i c none = tt
    to_worker-All i c (some (j, link)) =
        let not_reset : text_eq h.handler_key Keys.reset ≡ false = ground (arith, plain) in
        rw not_reset (from_peer j, tt)

    over_link-All :
        (i : ℕ) (k : Bytes) (o : Option (ℕ × Bytes))
        → ((j : ℕ) (c : Bytes) → wiring.link_end i k ≡ some (j, c) → P (copy j c false))
        → wiring.link_end i k ≡ o
        → All P (over_link o (record { header = h; payload = payload }))
    over_link-All i k none sent e = tt
    over_link-All i k (some (j, c)) sent e = (sent j c e, tt)

    -- What one broker's copies have in common.
    pub transfers-All :
        (i : ℕ) (outs : List Output)
        → ((k : Bytes) (j : ℕ) (c : Bytes) → wiring.link_end i k ≡ some (j, c) → P (copy j c false))
        → Carry wiring.codec wiring.now wiring.fresh h payload outs
        → All P (transfers wiring i outs)
    unfolding transfers
    transfers-All i [] sent c = tt
    transfers-All i (tap f p ∷ outs) sent c = transfers-All i outs sent c
    transfers-All i (deliver id f p ∷ outs) sent c =
        rw (c.0, c.1, lossless h)
          (All-append P (to_worker i id (wiring.link_of i id) (some h) payload)
            (transfers wiring i outs) (to_worker-All i id (wiring.link_of i id))
            (transfers-All i outs sent c.2))
    transfers-All i (forward k env ∷ outs) sent c = rw c.0 (
        All-append P (over_link (wiring.link_end i k) (record { header = h; payload = payload }))
          (transfers wiring i outs) (over_link-All i k (wiring.link_end i k) (sent k) refl)
          (transfers-All i outs sent c.1))
