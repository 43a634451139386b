-- ===== src/SafeQueue/Monitor.antt =====
-- common/safequeue.h: threads at the queue's mutex and condition variables, counted by what they
-- do. Each `push` and each pop calls `notify_one`.
use mathlib.Core.Path.{◌≡◌}
use zmq_pubsub_testing.Base.{
  ℕ, suc, ◌+◌, ◌-◌, ◌≤◌, ◌<◌, Bool, true, false, Option, none, some, [], ◌∷◌, length, length-append,
  arith, if◌then◌else◌, ltb,
}
use zmq_pubsub_testing.SafeQueue.{
  Queue, Outcome, returns, waits, make, push, push_for, pop, try_pop, stop,
}

-- Of the threads in `push` and in `pop`: those asleep on the condition variable, and those that
-- it woke and that have not run yet.
pub record Monitor {ℓ} (A : Type ℓ) : Type ℓ where
  pub queue : Queue A
  pub push_asleep : ℕ
  pub push_woken : ℕ
  pub pop_asleep : ℕ
  pub pop_woken : ℕ

module _ {ℓ} {A : Type ℓ} where
  -- `m_condEmpty.notify_one()` and `m_condFull.notify_one()`.
  abbrev pub notify_empty : Monitor A → Monitor A
  notify_empty m =
      if ltb 0 m.pop_asleep
      then record m { pop_asleep = m.pop_asleep - 1; pop_woken = m.pop_woken + 1 }
      else m

  abbrev pub notify_full : Monitor A → Monitor A
  notify_full m =
      if ltb 0 m.push_asleep
      then record m { push_asleep = m.push_asleep - 1; push_woken = m.push_woken + 1 }
      else m

  -- A thread evaluates the call: it sleeps, or returns and notifies if it changed the queue.
  abbrev pub after_push : Monitor A → Outcome (Queue A × Bool) → Monitor A
  after_push m waits = record m { push_asleep = m.push_asleep + 1 }
  after_push m (returns (q, true)) = notify_empty (record m { queue = q })
  after_push m (returns (q, false)) = record m { queue = q }

  abbrev pub after_try_pop : Monitor A → Queue A × Option A → Monitor A
  after_try_pop m (q, some v) = notify_full (record m { queue = q })
  after_try_pop m (q, none) = record m { queue = q }

  abbrev pub after_pop : Monitor A → Outcome (Queue A × Option A) → Monitor A
  after_pop m waits = record m { pop_asleep = m.pop_asleep + 1 }
  after_pop m (returns r) = after_try_pop m r

  unfoldable pub stop_all : Monitor A → Monitor A
  stop_all m = record {
    queue = stop m.queue;
    push_asleep = 0;
    push_woken = m.push_woken + m.push_asleep;
    pop_asleep = 0;
    pop_woken = m.pop_woken + m.pop_asleep;
  }

-- What a thread does while it holds the mutex. A thread calls, or goes on after a wakeup; a
-- sleeper wakes with no reason, or because its timeout has passed (`e` in `push_resume`).
pub data Step {ℓ} {A : Type ℓ} (m : Monitor A) : Monitor A → Type ℓ where
  push_call : (v : A) → Step m (after_push m (push m.queue v))
  push_for_call : (v : A) (e : Bool) → Step m (after_push m (push_for m.queue v e))
  push_resume :
      (n : ℕ) (v : A) (e : Bool)
      → m.push_woken ≡ suc n
      → Step m (after_push (record m { push_woken = n }) (push_for m.queue v e))
  push_spurious :
      (n : ℕ)
      → m.push_asleep ≡ suc n
      → Step m (record m { push_asleep = n; push_woken = m.push_woken + 1 })
  pop_call : Step m (after_pop m (pop m.queue))
  pop_resume :
      (n : ℕ) → m.pop_woken ≡ suc n → Step m (after_pop (record m { pop_woken = n }) (pop m.queue))
  pop_spurious :
      (n : ℕ)
      → m.pop_asleep ≡ suc n
      → Step m (record m { pop_asleep = n; pop_woken = m.pop_woken + 1 })
  try_call : Step m (after_try_pop m (try_pop m.queue))
  stop_call : Step m (stop_all m)

pub data Reach {ℓ} {A : Type ℓ} (m : Monitor A) : Monitor A → Type ℓ where
  here : Reach m m
  next : {n k : Monitor A} → Reach m n → Step n k → Reach m k

-- While a thread sleeps in `pop`, each item has a woken thread to take it; while one sleeps in
-- `push`, each free place has a woken thread to fill it; after `stop` nobody sleeps.
pub record IsLive {ℓ} {A : Type ℓ} (m : Monitor A) : Type ℓ where
  pub bound : length m.queue.items ≤ m.queue.max_size
  pub pops : 0 < m.pop_asleep → length m.queue.items ≤ m.pop_woken
  pub pushes : 0 < m.push_asleep → m.queue.max_size ≤ length m.queue.items + m.push_woken
  pub stopped : m.queue.stopped ≡ true → (m.pop_asleep ≡ 0) × (m.push_asleep ≡ 0)

module _ {ℓ} {A : Type ℓ} where
  Step-IsLive : {m n : Monitor A} → Step m n → IsLive m → IsLive n
  unfolding push push_for pop try_pop stop stop_all
  Step-IsLive {m} (push_call v) l = ground (arith, length-append m.queue.items (v ∷ []))
  Step-IsLive {m} (push_for_call v e) l = ground (arith, length-append m.queue.items (v ∷ []))
  Step-IsLive {m} (push_resume n v e h) l = ground (arith, length-append m.queue.items (v ∷ []))
  Step-IsLive {m} (push_spurious n h) l = ground arith
  Step-IsLive {m} pop_call l = ground arith
  Step-IsLive {m} (pop_resume n h) l = ground arith
  Step-IsLive {m} (pop_spurious n h) l = ground arith
  Step-IsLive {m} try_call l = ground arith
  Step-IsLive {m} stop_call l = ground arith

  -- A new queue, with no thread at it.
  abbrev pub start : ℕ → Monitor A
  start max_size = record {
    queue = make max_size;
    push_asleep = 0;
    push_woken = 0;
    pop_asleep = 0;
    pop_woken = 0;
  }

  start-IsLive : (n : ℕ) → IsLive (start n)
  unfolding make
  start-IsLive n = ground arith

  -- No wakeup of the queue's threads is lost, however the calls interleave and whatever wakes
  -- spuriously: while a thread sleeps in pop, each item has a woken thread to take it; while one
  -- sleeps in push, each free place has a woken thread to fill it; after stop nobody sleeps; and
  -- the queue keeps its limit.
  pub Reach-IsLive : (n : ℕ) {m : Monitor A} → Reach (start n) m → IsLive m
  Reach-IsLive n here = start-IsLive n
  Reach-IsLive n (next r s) = Step-IsLive s (Reach-IsLive n r)
