-- ===== src/Broker/Network/Arrivals.antt =====
-- server/zmqbroker.cpp: what the arrival of one copy of a message does to a network of brokers.
use zmq_pubsub_testing.Base.{
  ℕ, zero, suc, ◌+◌, ◌≤◌, ◌≡◌, refl, ap, ◌∙◌, Bytes, Bool, true, false, List, [], ◌∷◌, Option, none,
  some, arith, length, length-append, is_empty,
}
use zmq_pubsub_testing.Keys.{is_control_message}
use zmq_pubsub_testing.Wire.{Header, Envelope, encode_header, decode_frame}
use zmq_pubsub_testing.Broker.Dedup.{IsWindow}
use zmq_pubsub_testing.Broker.{
  Broker, Link, Output, tap, deliver, forward, process_message, is_connected,
}
use zmq_pubsub_testing.Broker.Network.Carry.{Carry, process_message-Copied}
use zmq_pubsub_testing.Broker.Network.Copy.{due, IsHeard}
use zmq_pubsub_testing.Broker.Network.Pools.{All, All-map, transfers-All}
use zmq_pubsub_testing.Broker.Network.{
  Wiring, Arrival, work_at, connected_at, pick, over_link, to_worker, transfers, work,
}

abbrev pub total_due : Bytes → Bytes → List Broker → ℕ
total_due u topic [] = 0
total_due u topic (b ∷ bs) = due u topic b + total_due u topic bs

-- Every broker's window is sound.
abbrev pub AreWindows : List Broker → Type 0
AreWindows [] = Unit {0}
AreWindows (b ∷ bs) = IsWindow b.history × AreWindows bs

-- A client that the broker number `i` knows, or a peer.
abbrev pub HeardAt : ℕ → Bytes → Bool → List Broker → Type 0
HeardAt i sender true bs = Unit {0}
HeardAt i sender false bs = connected_at i sender bs ≡ true

HeardAt-later :
    (i : ℕ) (sender : Bytes) (from_peer : Bool) (b : Broker) (bs : List Broker)
    → HeardAt (suc i) sender from_peer (b ∷ bs)
    → HeardAt i sender from_peer bs
HeardAt-later i sender true b bs heard = tt
HeardAt-later i sender false b bs heard = heard

HeardAt-here :
    (sender : Bytes) (from_peer : Bool) (b : Broker) (bs : List Broker)
    → HeardAt 0 sender from_peer (b ∷ bs)
    → IsHeard b sender from_peer
HeardAt-here sender true b bs heard = tt
HeardAt-here sender false b bs heard = heard

stay_head :
    (b b' : Broker) (bs : List Broker)
    → ((id : Bytes) → is_connected b id ≡ true → is_connected b' id ≡ true)
    → (j : ℕ) (id : Bytes) → connected_at j id (b ∷ bs) ≡ true
    → connected_at j id (b' ∷ bs) ≡ true
stay_head b b' bs f zero id here = f id here
stay_head b b' bs f (suc j) id here = here

stay_tail :
    (b : Broker) (bs bs' : List Broker)
    → ((j : ℕ) (id : Bytes) → connected_at j id bs ≡ true → connected_at j id bs' ≡ true)
    → (j : ℕ) (id : Bytes) → connected_at j id (b ∷ bs) ≡ true
    → connected_at j id (b ∷ bs') ≡ true
stay_tail b bs bs' f zero id here = here
stay_tail b bs bs' f (suc j) id here = f j id here

pub length-pick : (n : ℕ) (x : Arrival) (xs : List Arrival) → length (pick n x xs).1 ≡ length xs
length-pick n x [] = refl
length-pick zero x (y ∷ xs) = refl
length-pick (suc n) x (y ∷ xs) = ap suc (length-pick n y xs)

module _ (wiring : Wiring) (h : Header) (payload : Bytes) where
  -- A copy of the message that is on its way.
  pub record IsCopy (bs : List Broker) (a : Arrival) : Type 0 where
    pub same_header : a.header ≡ h
    pub same_payload : a.payload ≡ payload
    pub known_there : HeardAt a.at a.sender a.from_peer bs

  abbrev pub AreCopies : List Broker → List Arrival → Type 0
  AreCopies bs pool = All (IsCopy bs) pool

  -- The worker of every link is a client where the link ends.
  abbrev pub IsWired : List Broker → Type 0
  IsWired bs =
      (i j : ℕ) (k id : Bytes) → wiring.link_end i k ≡ some (j, id) → connected_at j id bs ≡ true

  to_worker_one :
      (i : ℕ) (c : Bytes) (owner : Option (ℕ × Link)) (o : Option Header) (p : Bytes)
      → length (to_worker i c owner o p) ≤ 1
  to_worker_one i c none o p = omega arith
  to_worker_one i c (some owner) none p = omega arith
  to_worker_one i c (some owner) (some g) p = omega arith

  over_link_one : (o : Option (ℕ × Bytes)) (env : Envelope) → length (over_link o env) ≤ 1
  over_link_one none env = omega arith
  over_link_one (some target) env = omega arith

  -- What the arrival of a copy does to the brokers.
  pub record Worked (i : ℕ) (bs : List Broker) (r : List Broker × List Output) : Type 0 where
    pub windows : AreWindows r.0
    pub stay : (j : ℕ) (id : Bytes) → connected_at j id bs ≡ true → connected_at j id r.0 ≡ true
    pub outs : List Output
    pub same_transfers : transfers wiring i r.1 ≡ transfers wiring i outs
    pub few :
        length outs + total_due h.message_uuid h.topic r.0 ≤ total_due h.message_uuid h.topic bs
    pub carry : Carry wiring.codec wiring.now wiring.fresh h payload outs

  module _ (id : is_empty h.message_uuid ≡ false)
      (plain : is_control_message h.handler_key ≡ false) where
    work_at-Worked :
        (n i : ℕ) (bs : List Broker) (sender : Bytes) (from_peer : Bool)
        → AreWindows bs
        → HeardAt n sender from_peer bs
        → let a : Arrival = record {
          at = n;
          header = h;
          payload = payload;
          sender = sender;
          from_peer = from_peer;
        } in
          Worked i bs (work_at n (work wiring a) bs)
    unfolding work_at transfers
    work_at-Worked n i [] sender from_peer w heard = record {
      windows = tt;
      stay = λ j id here. here;
      outs = [];
      same_transfers = refl;
      few = omega arith;
      carry = tt;
    }
    work_at-Worked zero i (b ∷ bs) sender from_peer w heard =
        let c =
          process_message-Copied wiring.codec wiring.now wiring.fresh h payload b sender from_peer
            id plain w.0 (HeardAt-here sender from_peer b bs heard) in
        record {
          windows = (c.spreads.window, w.1);
          stay =
              stay_head b
                (process_message wiring.codec wiring.now wiring.fresh b h payload sender
                  from_peer).0
                bs (λ c' here. c.spreads.same_clients c' ∙ here);
          outs = c.outs;
          same_transfers = ap (transfers wiring i) c.split;
          few = omega (arith, c.spreads.few);
          carry = c.carry;
        }
    work_at-Worked (suc n) i (b ∷ bs) sender from_peer w heard =
        let r =
          work_at-Worked n i bs sender from_peer w.1
            (HeardAt-later n sender from_peer b bs heard) in
        record {
          windows = (w.0, r.windows);
          stay =
              stay_tail b bs
                (work_at n
                  (work wiring (record {
                    at = n;
                    header = h;
                    payload = payload;
                    sender = sender;
                    from_peer = from_peer;
                  }))
                  bs).0
                r.stay;
          outs = r.outs;
          same_transfers = r.same_transfers;
          few = omega (arith, r.few);
          carry = r.carry;
        }

    pub arrival-Worked :
        (a : Arrival) (bs : List Broker)
        → AreWindows bs
        → IsCopy bs a
        → Worked a.at bs (work_at a.at (work wiring a) bs)
    arrival-Worked a bs w c =
        rw (c.same_header, c.same_payload)
          (work_at-Worked a.at a.at bs a.sender a.from_peer w c.known_there)

  pub length-transfers :
      (i : ℕ) (outs : List Output) → length (transfers wiring i outs) ≤ length outs
  unfolding transfers
  length-transfers i [] = omega arith
  length-transfers i (tap f p ∷ outs) = omega (arith, length-transfers i outs)
  length-transfers i (deliver c f p ∷ outs) =
      let rest = transfers wiring i outs in
      omega (
        arith,
        length-append (to_worker i c (wiring.link_of i c) (decode_frame wiring.codec f) p) rest,
        to_worker_one i c (wiring.link_of i c) (decode_frame wiring.codec f) p,
        length-transfers i outs,
      )
  length-transfers i (forward k env ∷ outs) =
      let rest = transfers wiring i outs in
      omega (
        arith,
        length-append (over_link (wiring.link_end i k) env) rest,
        over_link_one (wiring.link_end i k) env,
        length-transfers i outs,
      )

  -- Who is heard stays heard while clients stay connected.
  abbrev pub Stays : List Broker → List Broker → Type 0
  Stays bs bs' = (j : ℕ) (id : Bytes) → connected_at j id bs ≡ true → connected_at j id bs' ≡ true

  HeardAt-Stays :
      (i : ℕ) (sender : Bytes) (from_peer : Bool) (bs bs' : List Broker)
      → Stays bs bs'
      → HeardAt i sender from_peer bs
      → HeardAt i sender from_peer bs'
  HeardAt-Stays i sender true bs bs' stay heard = tt
  HeardAt-Stays i sender false bs bs' stay heard = stay i sender heard

  pub AreCopies_stay :
      (bs bs' : List Broker) (pool : List Arrival)
      → Stays bs bs'
      → AreCopies bs pool
      → AreCopies bs' pool
  AreCopies_stay bs bs' pool stay c =
      All-map (IsCopy bs) (IsCopy bs') pool
        (λ a k. record {
          same_header = k.same_header;
          same_payload = k.same_payload;
          known_there = HeardAt-Stays a.at a.sender a.from_peer bs bs' stay k.known_there;
        })
        c

  module _
      (lossless : (g : Header) → decode_frame wiring.codec (encode_header wiring.codec g) ≡ some g)
      (plain : is_control_message h.handler_key ≡ false) where
    pub transfers-AreCopies :
        (bs : List Broker) (i : ℕ) (outs : List Output)
        → IsWired bs
        → Carry wiring.codec wiring.now wiring.fresh h payload outs
        → AreCopies bs (transfers wiring i outs)
    transfers-AreCopies bs i outs wired c =
        transfers-All wiring h payload lossless plain (IsCopy bs)
          (λ j. record { same_header = refl; same_payload = refl; known_there = tt }) i outs
          (λ k j id e. record {
            same_header = refl;
            same_payload = refl;
            known_there = wired i j k id e;
          })
          c
