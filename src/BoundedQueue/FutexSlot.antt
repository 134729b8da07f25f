-- ===== src/BoundedQueue/FutexSlot.antt =====
-- The slot class `futex` of evenk/bounded_queue.h, and any number of threads at one slot that wait for
-- another token, put one there or close the slot.
use evenk.Prelude.{ℕ, ◌≡◌, Bool, true, false, List, [], ◌∷◌, ◌++◌, map, bit_or, if◌then◌else◌}
use evenk.Prelude.Threads.{tally}
use evenk.Kernel.{Kernel}
use evenk.BoundedQueue.Encoding.{status_waiting}
use evenk.BoundedQueue.Slot.{futex_wait, futex_blocks, futex_wakes, futex_close}

-- Where a thread stands in an operation of the slot.
pub data Local : Type 0 where
  idle : Local
  blocking : (x : ℕ) → Local  -- `wait`, before `futex_wait(*this, x)`
  blocked : (x : ℕ) → Local  -- in the kernel
  waking : Local  -- `wake` or `close`, before `futex_wake(*this, INT32_MAX)`

-- `wait(t)`, its compare-exchange: the new token, and what follows.
unfoldable pub begin_wait : (t token : ℕ) → ℕ × Local
unfolding futex_wait futex_blocks
begin_wait t token =
    (futex_wait token t, if futex_blocks token t then blocking (bit_or t status_waiting) else idle)

-- `wake(t)`, its exchange.
unfoldable pub begin_wake : (t token : ℕ) → ℕ × Local
unfolding futex_wakes
begin_wake t token = (t, if futex_wakes token then waking else idle)

-- `close()`, its compare-exchange that works.
unfoldable pub begin_close : (token : ℕ) → ℕ × Local
unfolding futex_close futex_wakes
begin_close token = (futex_close token, if futex_wakes token then waking else idle)

abbrev pub is_blocked_there : Local → Bool
is_blocked_there (blocked x) = true
is_blocked_there _ = false

-- Those who are no longer blocked return from `futex_wait`, and load the token.
abbrev pub resume : List Bool → List Local → List Local
resume [] ts = ts
resume (b ∷ bs) [] = []
resume (b ∷ bs) (blocked x ∷ ts) = (if b then blocked x else idle) ∷ resume bs ts
resume (b ∷ bs) (p ∷ ts) = p ∷ resume bs ts

pub record System : Type 0 where
  pub token : ℕ
  pub threads : List Local

pub data Move (token : ℕ) : Local → ℕ × Local → Type 0 where
  do_wait : (t : ℕ) → Move token idle (begin_wait t token)
  do_wake : (t : ℕ) → Move token idle (begin_wake t token)
  do_close : Move token idle (begin_close token)
  -- `futex_wait` returns with no wait, for another token or a signal, or a signal ends the wait.
  wait_returns : (x : ℕ) → Move token (blocking x) (token, idle)
  interrupted : (x : ℕ) → Move token (blocked x) (token, idle)

abbrev pub is_inside : Local → ℕ
is_inside idle = 0
is_inside _ = 1

module _ (kernel : Kernel) where
  pub data Step : System → System → Type 0 where
    move :
        (before after : List Local) (token : ℕ) {p : Local} {next : ℕ × Local}
        → Move token p next
        → Step
            (record { token = token; threads = before ++ p ∷ after })
            (record { token = next.0; threads = before ++ next.1 ∷ after })
    sleep :
        (before after : List Local) (token x : ℕ)
        → kernel.Blocks token x
        → Step
            (record { token = token; threads = before ++ blocking x ∷ after })
            (record { token = token; threads = before ++ blocked x ∷ after })
    wake_all :
        (before after : List Local) (token : ℕ) (bs : List Bool)
        → kernel.WakesAll (map is_blocked_there (before ++ idle ∷ after)) bs
        → Step
            (record { token = token; threads = before ++ waking ∷ after })
            (record { token = token; threads = resume bs (before ++ idle ∷ after) })

  -- A slot with any token, and threads that are not at it.
  pub data Reach : System → Type 0 where
    start :
        (token : ℕ) (ts : List Local)
        → tally is_inside ts ≡ 0
        → Reach (record { token = token; threads = ts })
    later : {s t : System} → Reach s → Step s t → Reach t
