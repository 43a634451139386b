-- ===== src/SafeQueue/Tests.antt =====
-- The queue at concrete inputs.
use zmq_pubsub_testing.Base.{◌≡◌, refl, ℕ, true, false, List, [], ◌∷◌, ◌++◌}
use zmq_pubsub_testing.SafeQueue.{Queue, returns, make, push, push_for, pop, try_pop, stop}
use zmq_pubsub_testing.SafeQueue.Order.{
  Call, pushes, pushes_for, pops, tries, stops, call, run, run-fifo,
}
use zmq_pubsub_testing.SafeQueue.Monitor.{
  Monitor, Reach, here, next, push_call, pop_call, start, IsLive, Reach-IsLive, stop_all,
}

program : Unit {0}
unfolding make push push_for pop try_pop stop call run stop_all
program = tt

abbrev calls : List (Call ℕ)
calls =
    pushes 1
    ∷ pushes 2
    ∷ pushes 3
    ∷ pops
    ∷ pushes_for 4 true
    ∷ stops
    ∷ pushes 5
    ∷ tries
    ∷ pops
    ∷ pops
    ∷ []

two : Queue ℕ
unfolding make
two = make 2

-- The third push waits, and the fifth value comes after `stop`.
calls_given : ((run two calls).given ≡ 1 ∷ 2 ∷ 4 ∷ []) × ((run two calls).taken ≡ 1 ∷ 2 ∷ 4 ∷ [])
unfolding program two
calls_given = (refl, refl)

push_full :
    push_for (run two (pushes 1 ∷ pushes 2 ∷ [])).queue 3 true
    ≡ returns ((run two (pushes 1 ∷ pushes 2 ∷ [])).queue, false)
unfolding program two
push_full = refl

run-fifo_example :
    (run two calls).given ++ (run two calls).queue.items ≡ two.items ++ (run two calls).taken
run-fifo_example = run-fifo two calls

-- A thread sleeps in `pop`; a push wakes it.
abbrev woken : Monitor ℕ
woken = record {
  queue = record { items = 9 ∷ []; stopped = false; max_size = 2 };
  push_asleep = 0;
  push_woken = 0;
  pop_asleep = 0;
  pop_woken = 1;
}

sleep_then_push : Reach (start 2) woken
unfolding program
sleep_then_push = next (next here pop_call) (push_call 9)

Reach-IsLive_example : IsLive woken
Reach-IsLive_example = Reach-IsLive 2 sleep_then_push
