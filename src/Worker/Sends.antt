-- ===== src/Worker/Sends.antt =====
-- common/zmqworker.cpp: what a round of the loop sends, and in which order.
use zmq_pubsub_testing.Base.{
  ℕ, zero, suc, ◌≤◌, ◌≡◌, refl, ap, List, [], ◌∷◌, ◌++◌, Option, length, ltb, if◌then◌else◌, arith,
}
use zmq_pubsub_testing.SafeQueue.{Queue, try_pop}
use zmq_pubsub_testing.Wire.{Envelope}
use zmq_pubsub_testing.Worker.{
  Worker, Owner, drain_control, drain_outbound, heartbeat_of, receive, beat, turn,
}

-- The queue with nothing in it.
abbrev pub emptied : Queue Envelope → Queue Envelope
emptied q = record q { items = [] }

-- The queues that the worker has at hand.
abbrev pub with_control : Worker → List Envelope → Worker
with_control w l = record w { control = record (w.control) { items = l } }

abbrev with_outbound : Worker → List Envelope → Worker
with_outbound w l = record w { outbound = record (w.outbound) { items = l } }

pub drain_control-items :
    (l : List Envelope) (fuel : ℕ) (w : Worker)
    → w.control.items ≡ l
    → length l ≤ fuel
    → drain_control fuel w ≡ (with_control w [], l)
unfolding drain_control try_pop
drain_control-items [] zero w e h = ap (λ l. (with_control w l, [])) e
drain_control-items [] (suc fuel) w e h = rw (e, drain_control, try_pop) refl
drain_control-items (x ∷ l) zero w e h = absurd (omega arith)
drain_control-items (x ∷ l) (suc fuel) w e h =
    rw (e, drain_control, try_pop)
      (rw (drain_control-items l fuel (with_control w l) refl (omega arith)) refl)

drain_outbound-items :
    (l : List Envelope) (fuel : ℕ) (w : Worker)
    → w.outbound.items ≡ l
    → length l ≤ fuel
    → drain_outbound fuel w ≡ (with_outbound w [], l)
unfolding drain_outbound try_pop
drain_outbound-items [] zero w e h = ap (λ l. (with_outbound w l, [])) e
drain_outbound-items [] (suc fuel) w e h = rw (e, drain_outbound, try_pop) refl
drain_outbound-items (x ∷ l) zero w e h = absurd (omega arith)
drain_outbound-items (x ∷ l) (suc fuel) w e h =
    rw (e, drain_outbound, try_pop)
      (rw (drain_outbound-items l fuel (with_outbound w l) refl (omega arith)) refl)

module _ (o : Owner) (rx_now now : ℕ) (polled : Option Envelope) (s : o.State) (w : Worker) where
  -- The worker behind the receipt of a message, and what the owner made of that.
  abbrev pub behind : Worker
  behind = (receive o rx_now polled s w).1

  -- Is a heartbeat due?
  abbrev pub beats : List Envelope
  beats = if ltb behind.heartbeat_after now then heartbeat_of behind ∷ [] else []

  -- A round of the worker sends all of its control queue, as the receipt of a message left it,
  -- then all of its outbound queue, then a heartbeat if more than three seconds have passed since
  -- the last one.
  pub turn-sends :
      (turn o rx_now now polled s w).1 ≡ behind.control.items ++ behind.outbound.items ++ beats
  unfolding turn beat
  turn-sends =
      rw
        (
          drain_control-items behind.control.items (length behind.control.items) behind refl
              (omega arith),
          drain_outbound-items behind.outbound.items (length behind.outbound.items)
              (with_control behind []) refl (omega arith),
        )
        (ground arith)
