-- ===== src/SafeQueue.antt =====
-- common/safequeue.h: one call with the mutex held. A call whose condition variable would make
-- the thread wait returns `waits`.
pub mod Order
pub mod Monitor
mod Tests
use zmq_pubsub_testing.Base.{
  ℕ, Bool, true, false, ◌&&◌, ◌||◌, not, Option, none, some, List, [], ◌∷◌, ◌++◌, ltb, length,
  is_empty, if◌then◌else◌,
}

pub record Queue {ℓ} (A : Type ℓ) : Type ℓ where
  pub items : List A
  pub stopped : Bool
  pub max_size : ℕ

-- A call returns, or its wait predicate is false and the thread sleeps.
pub data Outcome {ℓ} (B : Type ℓ) : Type ℓ where
  returns : B → Outcome B
  waits : Outcome B

module _ {ℓ} {A : Type ℓ} where
  unfoldable pub make : ℕ → Queue A
  make max_size = record { items = []; stopped = false; max_size = max_size }

  -- The predicates of `m_condFull` and `m_condEmpty`.
  abbrev pub can_push : Queue A → Bool
  can_push q = ltb (length q.items) q.max_size || q.stopped

  abbrev pub can_pop : Queue A → Bool
  can_pop q = not (is_empty q.items) || q.stopped

  -- The part of both `push` overloads behind the wait.
  abbrev pub push_now : Queue A → A → Queue A × Bool
  push_now q value =
      if q.stopped then (q, false) else (record q { items = q.items ++ value ∷ [] }, true)

  unfoldable pub push : Queue A → A → Outcome (Queue A × Bool)
  push q value = if can_push q then returns (push_now q value) else waits

  -- `expired` tells whether the timeout has passed; then `wait_for` gives the predicate's value.
  unfoldable pub push_for : Queue A → A → Bool → Outcome (Queue A × Bool)
  push_for q value expired =
      if can_push q
      then returns (push_now q value)
      else if expired
      then returns (q, false)
      else waits

  -- The front of the queue and the queue without it.
  abbrev pub take_front : Queue A → List A → Queue A × Option A
  take_front q [] = (q, none)
  take_front q (x ∷ xs) = (record q { items = xs }, some x)

  unfoldable pub pop : Queue A → Outcome (Queue A × Option A)
  pop q =
      if can_pop q
      then returns (if is_empty q.items && q.stopped then (q, none) else take_front q q.items)
      else waits

  unfoldable pub try_pop : Queue A → Queue A × Option A
  try_pop q = if is_empty q.items then (q, none) else take_front q q.items

  unfoldable pub stop : Queue A → Queue A
  stop q = record q { stopped = true }
