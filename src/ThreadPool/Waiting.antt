-- ===== src/ThreadPool/Waiting.antt =====
-- The end of `wait` of evenk/thread_pool.h.
use evenk.Prelude.{ℕ, ◌+◌, ◌<◌, ◌≡◌, true, false, [], ◌++◌, arith, refl, append-nil, sym, ◌∙◌, ap}
use evenk.Prelude.Threads.{tally, tally-at}
use evenk.Prelude.Bits.{bit_and-one}
use evenk.ThreadPool.Defs.{Worker, is_stopped, all_done}
use evenk.ThreadPool.Steps.{System, at, Step, work, submits, calls, Reach, start, later}
use evenk.ThreadPool.Invariant.{is_ended, is_going, is_joined, all_done-going}
use evenk.ThreadPool.Preserve.{tally-workers}
use evenk.ThreadPool.Reachable.{activate-new, Reach-IsKept}

module _ {ℓ} {A : Type ℓ} where
  ended_or_going : (w : Worker A) → is_ended w + is_going w ≡ 1
  ended_or_going w = ground arith

  -- No worker comes or goes.
  Step-workers :
      {s t : System A}
      → Step s t
      → tally is_ended t.workers + tally is_going t.workers
        ≡ tally is_ended s.workers + tally is_going s.workers
  Step-workers (work (at s before after {w} {w'} e m)) = omega (
    arith,
    tally-workers is_ended s before after w e,
    tally-workers is_going s before after w e,
    tally-at is_ended before after w',
    tally-at is_going before after w',
    ended_or_going w,
    ended_or_going w',
  )
  Step-workers (submits s task e) = refl
  Step-workers (calls s before after e m) = refl

  pub Reach-workers :
      {size : ℕ} {s : System A}
      → Reach size s
      → tally is_ended s.workers + tally is_going s.workers ≡ size
  Reach-workers {size} (start assigns workers callers e out) =
      omega (arith, (activate-new size workers e).0, (activate-new size workers e).1)
  Reach-workers (later r st) = Step-workers st ∙ Reach-workers r

  -- A pool with a worker at least, of any task type, that is not stopped. When a `wait` has joined the workers, they are
  -- all at their end, the queue is closed and empty, and the workers have started all the tasks that
  -- `submit` accepted, once each and in the order of the calls.
  pub thread_pool_wait :
      {size : ℕ} {s : System A}
      → Reach size s
      → 0 < size
      → 0 < tally is_joined s.callers
      → is_stopped s.flags ≡ false
      → (s.started ≡ s.accepted)
        × (s.queue.items ≡ [])
        × (s.queue.is_closed ≡ true)
        × (all_done s.workers ≡ true)
  unfolding is_stopped
  thread_pool_wait {size} {s} r some_worker joined_one going =
      let i = Reach-IsKept r in
      let over = i.joins joined_one in
      let shut : (s.queue.is_closed ≡ true) × (s.queue.items ≡ []) =
        ground (arith, i.ended, over, Reach-workers r, bit_and-one s.flags) in
      (
        sym (i.kept ∙ ap (λ xs. s.started ++ xs) shut.1 ∙ append-nil s.started),
        shut.1,
        shut.0,
        ground (arith, all_done-going s.workers, over),
      )
