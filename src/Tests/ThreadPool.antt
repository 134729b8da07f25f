-- ===== src/Tests/ThreadPool.antt =====
-- A thread pool of evenk/thread_pool.h with one worker: a task, then `wait`.
use evenk.Prelude.{
  ℕ, ◌≡◌, ◌<◌, ◌≤◌, ◌⊎◌, Bool, true, false, some, List, [], ◌∷◌, refl, length, ◌*◌, ◌+◌, arith,
}
use evenk.SynchQueue.{
  synch_queue, close, push, wait_push, try_push, locked_push, wait_pop, locked_pop,
}
use evenk.ThreadPool.Defs.{
  Worker, testing, popping, running, done, crashed, Caller, outside, shutting, joining, joined,
  is_stopped, set_flag, wait, shutdown, submit, test, after_pop, pop, all_done, activate, destroyed,
  pure_virtual_call, queue_in_use, destroy,
}
use evenk.ThreadPool.Steps.{
  System, at, do_test, do_pop, finish, call_wait, do_shutdown, do_join, Step, work, submits, calls,
  Reach, start, later,
}
use evenk.ThreadPool.Waiting.{thread_pool_wait}
use evenk.Prelude.Threads.{tally}
use evenk.ThreadPool.Stopping.{is_popping, thread_pool_stop}
use evenk.ThreadPool.Ending.{Run, here, then_step, is_crashed, CanWork, thread_pool_ends}

abbrev pool : ℕ → List ℕ → Bool → Worker ℕ → Caller → List ℕ → System ℕ
pool flags items is_closed worker caller started = record {
  assigns = λ x. true;
  flags = flags;
  queue = record { is_closed = is_closed; items = items };
  workers = worker ∷ [];
  callers = caller ∷ [];
  accepted = 7 ∷ [];
  started = started;
}

-- The task is submitted, and `wait` called.
abbrev waiting : Worker ℕ → System ℕ
waiting w = pool 2 (7 ∷ []) false w (shutting true) []

submitted_reached : Reach 1 (pool 0 (7 ∷ []) false testing outside [])
unfolding activate synch_queue submit push wait_push try_push locked_push
submitted_reached =
    later (start (λ x. true) (testing ∷ []) (outside ∷ []) refl refl) (submits _ 7 refl)

popping_reached : Reach 1 (pool 0 (7 ∷ []) false popping outside [])
unfolding test is_stopped
popping_reached = later submitted_reached (work (at _ [] [] refl do_test))

waiting_reached : Reach 1 (waiting popping)
unfolding wait set_flag
waiting_reached = later popping_reached (calls _ [] [] refl call_wait)

closed_reached : Reach 1 (pool 2 (7 ∷ []) true popping joining [])
unfolding shutdown close
closed_reached = later waiting_reached (calls _ [] [] refl (do_shutdown true))

running_step :
    Step
      (pool 2 (7 ∷ []) true popping joining [])
      (pool 2 [] true (running (some 7)) joining (7 ∷ []))
unfolding pop after_pop wait_pop locked_pop
running_step = work (at _ [] [] refl (do_pop refl))

finish_step :
    Step
      (pool 2 [] true (running (some 7)) joining (7 ∷ []))
      (pool 2 [] true testing joining (7 ∷ []))
finish_step = work (at _ [] [] refl (finish (some 7)))

test_step : Step (pool 2 [] true testing joining (7 ∷ [])) (pool 2 [] true popping joining (7 ∷ []))
unfolding test is_stopped
test_step = work (at _ [] [] refl do_test)

end_step : Step (pool 2 [] true popping joining (7 ∷ [])) (pool 2 [] true done joining (7 ∷ []))
unfolding pop after_pop wait_pop locked_pop
end_step = work (at _ [] [] refl (do_pop refl))

ended_reached : Reach 1 (pool 2 [] true done joining (7 ∷ []))
ended_reached =
    later (later (later (later closed_reached running_step) finish_step) test_step) end_step

joined_reached : Reach 1 (pool 2 [] true done joined (7 ∷ []))
joined_reached = later ended_reached (calls _ [] [] refl (do_join refl))

abbrev joined_pool : System ℕ
joined_pool = pool 2 [] true done joined (7 ∷ [])

thread_pool_wait_example :
    (joined_pool.started ≡ joined_pool.accepted)
    × (joined_pool.queue.items ≡ [])
    × (joined_pool.queue.is_closed ≡ true)
    × (all_done joined_pool.workers ≡ true)
unfolding is_stopped
thread_pool_wait_example = thread_pool_wait joined_reached (omega arith) (omega arith) refl

-- A pool that is destroyed in use.
destroy_unstopped : destroy {A = ℕ} 0 (popping ∷ []) ≡ pure_virtual_call
unfolding destroy set_flag
destroy_unstopped = refl

-- A worker in the call of a task sees the flag of `stop` afterwards.
destroy_stopped : destroy {A = ℕ} 1 (running (some 7) ∷ done ∷ []) ≡ destroyed
unfolding destroy set_flag is_stopped
destroy_stopped = refl

destroy_unjoined : destroy {A = ℕ} 1 (popping ∷ []) ≡ queue_in_use
unfolding destroy set_flag is_stopped
destroy_unjoined = refl

abbrev closed_pool : System ℕ
closed_pool = pool 2 (7 ∷ []) true popping joining []

two_steps : Run 2 closed_pool (pool 2 [] true testing joining (7 ∷ []))
unfolding pop after_pop wait_pop locked_pop
two_steps =
    then_step (then_step (here _) (work (at _ [] [] refl (do_pop refl))))
      (work (at _ [] [] refl (finish (some 7))))

thread_pool_ends_example :
    (2 ≤ 3 * length closed_pool.queue.items + 3 * length closed_pool.workers)
    × ((all_done {A = ℕ} (testing ∷ []) ≡ true)
        ⊎ (0 < tally (is_crashed {A = ℕ}) (testing ∷ []))
        ⊎ CanWork (pool 2 [] true testing joining (7 ∷ [])))
thread_pool_ends_example = thread_pool_ends two_steps refl

-- After `stop`, the worker takes the task that it waits for, and no more.
abbrev stopped_pool : System ℕ
stopped_pool = pool 1 (7 ∷ []) true popping outside []

abbrev last_task : System ℕ
last_task = pool 1 [] true (running (some 7)) outside (7 ∷ [])

one_step : Run 1 stopped_pool last_task
unfolding pop after_pop wait_pop locked_pop
one_step = then_step (here _) (work (at _ [] [] refl (do_pop refl)))

thread_pool_stop_example :
    (is_stopped 1 ≡ true)
    × (length last_task.started
        ≤ length stopped_pool.started + tally is_popping stopped_pool.workers)
unfolding is_stopped
thread_pool_stop_example = thread_pool_stop one_step refl

-- A pool whose tasks have the move assignment of evenk/task.h.
abbrev crashing_pool : (items accepted : List ℕ) → Worker ℕ → System ℕ
crashing_pool items accepted worker = record {
  assigns = λ x. false;
  flags = 0;
  queue = record { is_closed = false; items = items };
  workers = worker ∷ [];
  callers = outside ∷ [];
  accepted = accepted;
  started = [];
}

abbrev crashed_pool : System ℕ
crashed_pool = crashing_pool (7 ∷ []) (7 ∷ []) crashed
