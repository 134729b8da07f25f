-- ===== src/LockedQueue/Notices.antt =====
-- What the threads in a `synch_queue` of evenk/synch_queue.h owe to those that wait in `wait_pop`.
use evenk.Prelude.{
  ℕ, ◌+◌, ◌-◌, ◌≤◌, ◌<◌, ◌≡◌, ◌⊎◌, false, List, arith, ◌==◌, ltb, length, if◌then◌else◌,
}
use evenk.Prelude.Threads.{tally}
use evenk.SynchQueue.{Queue}
use evenk.FutexCondVar.Moves.{
  Local, storing, counting, loading, unlocking, releasing, waking, to_wait, added, counted,
  requeueing,
}
use evenk.FutexCondVar.Kept.{is_broadcasting}
use evenk.FutexCondVar.Wakeups.{is_blocked}
use evenk.LockedQueue.Defs.{Call, pop_test, pop_take}
use evenk.LockedQueue.Steps.{Thread}
use evenk.LockedQueue.Below.{holding, counts}
use evenk.LockedQueue.Places.{misplaced}

-- In `wait`, not blocked yet, and not told either: `futex` is still what the thread has read or will
-- read.
abbrev pub fresh_at : (futex : ℕ) → Local → ℕ
fresh_at futex storing = 1
fresh_at futex counting = 1
fresh_at futex loading = 1
fresh_at futex (unlocking value) = if value == futex then 1 else 0
fresh_at futex (releasing value) = if value == futex then 1 else 0
fresh_at futex (waking value) = if value == futex then 1 else 0
fresh_at futex (to_wait value) = if value == futex then 1 else 0
fresh_at futex _ = 0

-- With a value that `futex_` has not had.
abbrev pub beyond_at : (futex : ℕ) → Local → ℕ
beyond_at futex (unlocking value) = if ltb futex value then 1 else 0
beyond_at futex (releasing value) = if ltb futex value then 1 else 0
beyond_at futex (waking value) = if ltb futex value then 1 else 0
beyond_at futex (to_wait value) = if ltb futex value then 1 else 0
beyond_at futex _ = 0

-- Between the `fetch_add` of a notice and its end.
abbrev pub telling_at : Local → ℕ
telling_at (added all holds) = 1
telling_at (counted all holds) = 1
telling_at (requeueing holds) = 1
telling_at _ = 0

abbrev pub one_at : Local → ℕ
one_at (added all holds) = if all then 0 else 1
one_at (counted all holds) = if all then 0 else 1
one_at _ = 0

module _ {ℓ} {A : Type ℓ} where
  abbrev pub fresh : ℕ → Thread A → ℕ
  fresh futex t = fresh_at futex t.place

  abbrev pub blocks : Thread A → ℕ
  blocks t = is_blocked t.place

  abbrev pub beyond : ℕ → Thread A → ℕ
  beyond futex t = beyond_at futex t.place

  abbrev pub telling : Thread A → ℕ
  telling t = telling_at t.place

  -- A consumer that is going to look at the queue, or has looked and takes a value.
  abbrev pub coming_at : ℕ → Local → Call A → ℕ
  coming_at futex p (pop_test waits) = 1 - (fresh_at futex p + is_blocked p)
  coming_at futex p pop_take = 1
  coming_at futex p _ = 0

  abbrev pub coming : ℕ → Thread A → ℕ
  coming futex t = coming_at futex t.place t.call

  -- A call of `notify_one` that has still to let a consumer go on, and one of `notify_all`.
  abbrev pub owes_one_at : Local → Call A → ℕ
  owes_one_at p (Call.notify all) = (if all then 0 else 1) + one_at p
  owes_one_at p _ = one_at p

  abbrev pub owes_one : Thread A → ℕ
  owes_one t = owes_one_at t.place t.call

  abbrev pub owes_all_at : Local → Call A → ℕ
  owes_all_at p (Call.notify all) = (if all then 1 else 0) + is_broadcasting p
  owes_all_at p _ = is_broadcasting p

  abbrev pub owes_all : Thread A → ℕ
  owes_all t = owes_all_at t.place t.call

  -- With so many of each.
  pub record Served (q : Queue A) (fresh blocks beyond telling coming one all : ℕ) : Type 0 where
    pub known : beyond ≡ 0
    pub quiet : 0 < telling → fresh ≡ 0
    pub served : 0 < fresh + blocks → length q.items ≤ coming + one
    pub opened : 0 < fresh + blocks → (q.is_closed ≡ false) ⊎ (0 < all)

  abbrev pub IsServed : ℕ → Queue A → List (Thread A) → Type 0
  IsServed futex q ts =
      Served q (tally (fresh futex) ts) (tally blocks ts) (tally (beyond futex) ts)
        (tally telling ts) (tally (coming futex) ts) (tally owes_one ts) (tally owes_all ts)

  pub telling-holding : (t : Thread A) → telling t ≤ holding t + misplaced t
  telling-holding t = ground arith

  -- Nobody but a thread that owns the lock is fresh for the next value, nor beyond it.
  pub fresh_next : (futex : ℕ) (t : Thread A) → fresh (futex + 1) t ≤ holding t + beyond futex t
  fresh_next futex t = ground arith

  pub beyond_next : (futex : ℕ) (t : Thread A) → beyond (futex + 1) t ≤ beyond futex t
  beyond_next futex t = ground arith

  pub coming_next :
      (futex : ℕ) (t : Thread A) → coming futex t ≤ coming (futex + 1) t + beyond futex t
  coming_next futex t = ground arith

  pub fresh_counts : (futex : ℕ) (t : Thread A) → fresh futex t ≤ counts t + holding t
  fresh_counts futex t = ground arith

  pub blocks_counts : (t : Thread A) → blocks t ≤ counts t
  blocks_counts t = ground arith
