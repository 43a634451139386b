-- ===== src/Broker/Network.antt =====
-- server/zmqbroker.cpp and server/zmqbroker.h: brokers that are connected by peer links, in any
-- shape, and the messages on their way between them. What a broker forwards on a link arrives at the
-- other end as a message of the link's worker, which is a client there; what that broker delivers to
-- the worker arrives as a message of a peer. ZeroMQ's connections are parameters: where a link ends,
-- and whose link a client is. Nothing that is put on its way is lost.
pub mod Copy
pub mod Carry
pub mod Arrivals
pub mod Quiet
pub mod Places
pub mod Sends
pub mod Links
pub mod Spread
pub mod Everywhere
pub mod Reached
pub mod Pools
pub mod Gives
pub mod Exactly
use zmq_pubsub_testing.Base.{
  ℕ, zero, suc, Bytes, Bool, true, false, List, [], ◌∷◌, ◌++◌, Option, none, some, if◌then◌else◌,
  text_eq, contains,
}
use zmq_pubsub_testing.Keys
use zmq_pubsub_testing.Wire.{Header, Envelope, Codec, decode_frame}
use zmq_pubsub_testing.Broker.Loop.{peer_sender}
use zmq_pubsub_testing.Broker.Peers.{wildcard}
use zmq_pubsub_testing.Broker.{
  Broker, Link, Output, tap, deliver, forward, process_message, is_connected,
}

-- What is outside the brokers: the codec, the clock, what `generateUUID` returns, where a link ends and
-- under which name its worker is a client there, and whose link's worker a client is.
pub record Wiring : Type 0 where
  pub codec : Codec
  pub now : ℕ
  pub fresh : Bytes
  pub link_end : ℕ → Bytes → Option (ℕ × Bytes)
  pub link_of : ℕ → Bytes → Option (ℕ × Link)

-- A message that is about to be processed by the broker number `at`.
pub record Arrival : Type 0 where
  pub at : ℕ
  pub header : Header
  pub payload : Bytes
  pub sender : Bytes
  pub from_peer : Bool

-- The brokers, and the messages on their way.
pub record Network : Type 0 where
  pub brokers : List Broker
  pub pool : List Arrival

-- Broker number `i` works, and its outputs.
unfoldable pub work_at :
    ℕ → (Broker → Broker × List Output) → List Broker → List Broker × List Output
work_at i f [] = ([], [])
work_at zero f (b ∷ bs) = let (b', outs) = f b in (b' ∷ bs, outs)
work_at (suc i) f (b ∷ bs) = let (bs', outs) = work_at i f bs in (b ∷ bs', outs)

-- Whether a client is connected to broker number `i`, and whether the id is in its window.
abbrev pub connected_at : ℕ → Bytes → List Broker → Bool
connected_at i id [] = false
connected_at zero id (b ∷ bs) = is_connected b id
connected_at (suc i) id (b ∷ bs) = connected_at i id bs

abbrev pub seen_at : ℕ → Bytes → List Broker → Bool
seen_at i u [] = false
seen_at zero u (b ∷ bs) = contains u b.history.seen
seen_at (suc i) u (b ∷ bs) = seen_at i u bs

-- The `n`th message that is on its way, or the last one, and the others.
abbrev pub pick : ℕ → Arrival → List Arrival → Arrival × List Arrival
pick n x [] = (x, [])
pick zero x (y ∷ xs) = (x, y ∷ xs)
pick (suc n) x (y ∷ xs) = let (z, rest) = pick n y xs in (z, x ∷ rest)

-- What the worker of a link sends comes in where the link ends, under its own name.
abbrev pub over_link : Option (ℕ × Bytes) → Envelope → List Arrival
over_link none env = []
over_link (some (j, id)) env =
    record { at = j; header = env.header; payload = env.payload; sender = id; from_peer = false }
    ∷ []

-- The worker's callback: a RESET is answered with the wildcard subscription.
abbrev pub to_worker : ℕ → Bytes → Option (ℕ × Link) → Option Header → Bytes → List Arrival
to_worker i id none h payload = []
to_worker i id (some owner) none payload = []
to_worker i id (some (j, link)) (some h) payload =
    (if text_eq h.handler_key Keys.reset
      then record {
        at = i;
        header = (wildcard link).header;
        payload = (wildcard link).payload;
        sender = id;
        from_peer = false;
      }
      else record { at = j; header = h; payload = payload; sender = peer_sender; from_peer = true })
    ∷ []

module _ (wiring : Wiring) where
  -- What the outputs of broker number `i` put on their way to brokers.
  unfoldable pub transfers : ℕ → List Output → List Arrival
  transfers i [] = []
  transfers i (tap h p ∷ outs) = transfers i outs
  transfers i (deliver id h p ∷ outs) =
      to_worker i id (wiring.link_of i id) (decode_frame wiring.codec h) p ++ transfers i outs
  transfers i (forward key env ∷ outs) = over_link (wiring.link_end i key) env ++ transfers i outs

  abbrev pub work : Arrival → Broker → Broker × List Output
  work a b =
      process_message wiring.codec wiring.now wiring.fresh b a.header a.payload a.sender a.from_peer

  -- A message arrives.
  unfoldable pub arrive : Arrival → List Broker → List Arrival → Network
  arrive a bs rest =
      let (bs', outs) = work_at a.at (work a) bs in
      record { brokers = bs'; pool = rest ++ transfers a.at outs }

  unfoldable pub network_step : ℕ → Network → Network
  network_step n net = elim net.pool [
    | [] ↦ net
    | x ∷ xs ↦ arrive (pick n x xs).0 net.brokers (pick n x xs).1
  ]

  -- Messages arrive in the order that the numbers say.
  unfoldable pub network_run : List ℕ → Network → Network
  network_run [] net = net
  network_run (n ∷ ns) net = network_run ns (network_step n net)
