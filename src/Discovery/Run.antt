-- ===== src/Discovery/Run.antt =====
-- server/discovery.cpp: `run` as a whole, with its UDP socket, and `start` and `stop`. The thread is
-- the list of the rounds that it makes until `stop`.
use zmq_pubsub_testing.Base.{ℕ, ◌+◌, ◌-◌, ◌≡◌, refl, Bool, true, false, List, [], ◌∷◌, ◌++◌, Option}
use zmq_pubsub_testing.Discovery.{Discovery}
use zmq_pubsub_testing.Discovery.Loop.{Running, Datagram, Output, turn}

-- A round: the clock at its head and at the receipt of its datagram, if there is one.
pub record Round : Type 0 where
  pub now : ℕ
  pub heard_now : ℕ
  pub polled : Option Datagram

unfoldable pub run_rounds : List Round → Running → Running × List Output
run_rounds [] r = (r, [])
run_rounds (x ∷ xs) r =
    let (r1, out1) = turn x.now x.heard_now x.polled r in
    let (r2, out2) = run_rounds xs r1 in (r2, out1 ++ out2)

-- What happens to the socket.
pub data SocketCall : Type 0 where
  opened bound closed : SocketCall

-- `socket` and `bind` may fail; then the mesh is not formed, and nothing else is.
unfoldable pub run :
    Bool → Bool → ℕ → List Round → Discovery → (Discovery × List Output) × List SocketCall
run false binds now rounds d = ((d, []), [])
run true false now rounds d = ((d, []), opened ∷ closed ∷ [])
run true true now rounds d =
    let (r, out) = run_rounds rounds (record { discovery = d; next_beacon = now }) in
    ((r.discovery, out), opened ∷ bound ∷ closed ∷ [])

-- How many sockets are open at the end, from the number before.
abbrev pub open_after : List SocketCall → ℕ → ℕ
open_after [] n = n
open_after (opened ∷ cs) n = open_after cs (n + 1)
open_after (bound ∷ cs) n = open_after cs n
open_after (closed ∷ cs) n = open_after cs (n - 1)

-- Whatever fails, no socket is left open.
pub open_after-run :
    (opens binds : Bool) (now : ℕ) (rounds : List Round) (d : Discovery)
    → open_after (run opens binds now rounds d).1 0 ≡ 0
unfolding run
open_after-run false binds now rounds d = refl
open_after-run true false now rounds d = refl
open_after-run true true now rounds d = refl
