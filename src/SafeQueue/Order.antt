-- ===== src/SafeQueue/Order.antt =====
-- common/safequeue.h: histories of calls on one queue.
use zmq_pubsub_testing.Base.{
  ◌≡◌, ◌≤◌, refl, ◌∙◌, ap, sym, Bool, true, false, Option, none, some, List, [], ◌∷◌, ◌++◌, length,
  length-append, append_assoc, append-nil, arith, if◌then◌else◌,
}
use zmq_pubsub_testing.SafeQueue.{
  Queue, Outcome, returns, waits, push, push_for, pop, try_pop, stop,
}

-- A call by some thread; one that would wait is made again later, as a new call.
pub data Call {ℓ} (A : Type ℓ) : Type ℓ where
  pushes : A → Call A
  pushes_for : A → Bool → Call A
  pops tries stops : Call A

-- The queue after a call, the values that it took in and the values that it gave out.
pub record Effect {ℓ} (A : Type ℓ) : Type ℓ where
  pub queue : Queue A
  pub taken : List A
  pub given : List A

module _ {ℓ} {A : Type ℓ} where
  abbrev pub idle : Queue A → Effect A
  idle q = record { queue = q; taken = []; given = [] }

  abbrev pub pushed : Queue A → A → Outcome (Queue A × Bool) → Effect A
  pushed q v waits = idle q
  pushed q v (returns (q', done)) = record {
    queue = q';
    taken = if done then v ∷ [] else [];
    given = [];
  }

  abbrev pub to_list : Option A → List A
  to_list none = []
  to_list (some v) = v ∷ []

  abbrev pub popped : Queue A → Outcome (Queue A × Option A) → Effect A
  popped q waits = idle q
  popped q (returns (q', out)) = record { queue = q'; taken = []; given = to_list out }

  unfoldable pub call : Queue A → Call A → Effect A
  call q (pushes v) = pushed q v (push q v)
  call q (pushes_for v expired) = pushed q v (push_for q v expired)
  call q pops = popped q (pop q)
  call q tries = popped q (returns (try_pop q))
  call q stops = idle (stop q)

  unfoldable pub run : Queue A → List (Call A) → Effect A
  run q [] = idle q
  run q (c ∷ cs) =
      let first = call q c in
      let rest = run first.queue cs in
      record {
        queue = rest.queue;
        taken = first.taken ++ rest.taken;
        given = first.given ++ rest.given;
      }

  call-fifo :
      (q : Queue A) (c : Call A)
      → (call q c).given ++ (call q c).queue.items ≡ q.items ++ (call q c).taken
  unfolding call push push_for pop try_pop stop
  call-fifo q (pushes v) = ground (arith, append-nil q.items)
  call-fifo q (pushes_for v e) = ground (arith, append-nil q.items)
  call-fifo q pops = ground (arith, append-nil q.items)
  call-fifo q tries = ground (arith, append-nil q.items)
  call-fifo q stops = sym (append-nil q.items)

  -- The queue is first in, first out, under any sequence of calls: what the calls gave out and
  -- then what is left in the queue is what was there at the start and then what the calls took
  -- in.
  pub run-fifo :
      (q : Queue A) (cs : List (Call A))
      → (run q cs).given ++ (run q cs).queue.items ≡ q.items ++ (run q cs).taken
  unfolding run
  run-fifo q [] = sym (append-nil q.items)
  run-fifo q (c ∷ cs) =
      let e = call q c in
      let r = run e.queue cs in
      append_assoc e.given r.given r.queue.items
      ∙ ap (λ l. e.given ++ l) (run-fifo e.queue cs)
      ∙ sym (append_assoc e.given e.queue.items r.taken)
      ∙ ap (λ l. l ++ r.taken) (call-fifo q c)
      ∙ append_assoc q.items e.taken r.taken

  call-max_size : (q : Queue A) (c : Call A) → (call q c).queue.max_size ≡ q.max_size
  unfolding call push push_for pop try_pop stop
  call-max_size q stops = refl
  call-max_size q _ = ground arith

  call-bound :
      (q : Queue A) (c : Call A)
      → length q.items ≤ q.max_size
      → length (call q c).queue.items ≤ q.max_size
  unfolding call push push_for pop try_pop stop
  call-bound q (pushes v) h = ground (arith, length-append q.items (v ∷ []))
  call-bound q (pushes_for v e) h = ground (arith, length-append q.items (v ∷ []))
  call-bound q _ h = ground arith

  -- A queue that is within its limit stays within it under any sequence of calls.
  pub run-bound :
      (q : Queue A) (cs : List (Call A))
      → length q.items ≤ q.max_size
      → length (run q cs).queue.items ≤ q.max_size
  unfolding run
  run-bound q [] h = h
  run-bound q (c ∷ cs) h = omega (
    arith,
    call-max_size q c,
    call-bound q c h,
    run-bound (call q c).queue cs (omega (arith, call-max_size q c, call-bound q c h)),
  )

  -- After `stop`, nothing is taken in, no call waits, and pops still drain what is left.
  stopped-call :
      (q : Queue A) (c : Call A)
      → q.stopped ≡ true
      → ((call q c).taken ≡ []) × ((call q c).queue.stopped ≡ true)
  unfolding call push push_for pop try_pop stop
  stopped-call q stops h = (refl, refl)
  stopped-call q _ h = ground arith

  -- A stopped queue takes nothing in, whatever calls follow.
  pub stopped-run : (q : Queue A) (cs : List (Call A)) → q.stopped ≡ true → (run q cs).taken ≡ []
  unfolding run
  stopped-run q [] h = refl
  stopped-run q (c ∷ cs) h =
      let s = stopped-call q c h in cc (s.0, stopped-run (call q c).queue cs s.1)

  -- After stop, no call waits: both pushes return false at once and leave the queue as it is, and
  -- pop behaves as try_pop.
  pub stop-returns :
      (q : Queue A) (v : A) (e : Bool)
      → (push (stop q) v ≡ returns (stop q, false))
        × (push_for (stop q) v e ≡ returns (stop q, false))
        × (pop (stop q) ≡ returns (try_pop (stop q)))
  unfolding push push_for pop try_pop stop
  stop-returns q v e = ground arith
