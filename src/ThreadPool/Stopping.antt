-- ===== src/ThreadPool/Stopping.antt =====
-- What `stop` of evenk/thread_pool.h leaves undone.
use evenk.Prelude.{ℕ, ◌+◌, ◌≤◌, ◌≡◌, true, Option, [], length, length-append, arith, ap}
use evenk.Prelude.Threads.{tally, tally-at}
use evenk.Prelude.Bits.{bit_or-one, bit_or_two, bit_and-one}
use evenk.ThreadPool.Defs.{Worker, popping, is_stopped, test, set_flag, stop, wait}
use evenk.ThreadPool.Steps.{
  System, popped, WorkerStep, at, do_test, do_pop, finish, Step, work, submits, calls, call_stop,
  call_wait, do_shutdown, do_join, leave,
}
use evenk.ThreadPool.Invariant.{took, ended, failed, pop-Popped}
use evenk.ThreadPool.Preserve.{tally-workers}
use evenk.ThreadPool.Ending.{Run, here, then_step}

-- Past the test of the loop, before the `wait_pop` returns.
abbrev pub is_popping {ℓ} : {A : Type ℓ} → Worker A → ℕ
is_popping popping = 1
is_popping _ = 0

module _ {ℓ} {A : Type ℓ} where
  -- The tasks that are taken, and those that may still be.
  abbrev takes : System A → ℕ
  takes s = length s.started + tally is_popping s.workers

  WorkerStep-takes :
      {s t : System A} → WorkerStep s t → is_stopped s.flags ≡ true → takes t ≤ takes s
  unfolding test
  WorkerStep-takes (at s before after {w} {w'} e do_test) stopped = ground (
    arith,
    tally-workers is_popping s before after w e,
    tally-at is_popping before after w',
    length-append s.started [],
  )
  WorkerStep-takes (at s before after {w} {w'} e (finish task)) stopped = ground (
    arith,
    tally-workers is_popping s before after w e,
    tally-at is_popping before after w',
    length-append s.started [],
  )
  WorkerStep-takes (at s before after {w} {w'} {task} {q'} e (do_pop p)) stopped =
      elim (pop-Popped s.queue p) [
        | took x returns items same v t ↦ ground (
          arith,
          tally-workers is_popping s before after w e,
          tally-at is_popping before after w',
          length-append s.started (popped task),
          ap (λ (o : Option A). length (popped o)) t,
        )
        | ended items shut v t same ↦ ground (
          arith,
          tally-workers is_popping s before after w e,
          tally-at is_popping before after w',
          length-append s.started (popped task),
          ap (λ (o : Option A). length (popped o)) t,
        )
        | failed v t same ↦ ground (
          arith,
          tally-workers is_popping s before after w e,
          tally-at is_popping before after w',
          length-append s.started (popped task),
          ap (λ (o : Option A). length (popped o)) t,
        )
      ]

  Step-takes :
      {s t : System A}
      → Step s t
      → is_stopped s.flags ≡ true
      → (is_stopped t.flags ≡ true) × (takes t ≤ takes s)
  unfolding is_stopped stop wait set_flag
  Step-takes (work (at s before after e m)) stopped =
      (stopped, WorkerStep-takes (at s before after e m) stopped)
  Step-takes (submits s task e) stopped = (stopped, omega arith)
  Step-takes (calls s before after e call_stop) stopped = (
    ground (arith, bit_or-one s.flags, bit_and-one s.flags, bit_and-one (stop s.flags).1),
    omega arith,
  )
  Step-takes (calls s before after e call_wait) stopped = (
    ground (arith, bit_or_two s.flags, bit_and-one s.flags, bit_and-one (wait s.flags).1),
    omega arith,
  )
  Step-takes (calls s before after e (do_shutdown waits)) stopped = (stopped, omega arith)
  Step-takes (calls s before after e (do_join all)) stopped = (stopped, omega arith)
  Step-takes (calls s before after e leave) stopped = (stopped, omega arith)

  Run-takes :
      {n : ℕ} {s t : System A}
      → Run n s t
      → is_stopped s.flags ≡ true
      → (is_stopped t.flags ≡ true) × (takes t ≤ takes s)
  Run-takes (here s) stopped = (stopped, omega arith)
  Run-takes (then_step r st) stopped =
      let (still, few) = Run-takes r stopped in
      let (still', few') = Step-takes st still in (still', omega arith)

  -- Once the flag of `stop` is set, whatever the threads do: it stays set, and the workers start at most
  -- as many tasks more as there were workers between their test of the flag and the end of a `wait_pop`.
  pub thread_pool_stop :
      {n : ℕ} {s t : System A}
      → Run n s t
      → is_stopped s.flags ≡ true
      → (is_stopped t.flags ≡ true)
        × (length t.started ≤ length s.started + tally is_popping s.workers)
  thread_pool_stop r stopped = let (still, few) = Run-takes r stopped in (still, omega arith)
