-- ===== src/FutexCondVar/Wakeups.antt =====
-- No notice is lost by `futex_cond_var` of evenk/synch.h.
use evenk.Prelude.{
  ℕ, ◌^◌, ◌<◌, ◌≤◌, ◌≡◌, ◌⊎◌, inl, inr, Bool, true, false, List, ◌∷◌, ◌++◌, map, arith, refl,
}
use evenk.Prelude.Threads.{tally, tally-at, tally-le, tally-le_length}
use evenk.Kernel.{Kernel, Requeue, Requeued}
use evenk.FutexLock.Moves as Lock
use evenk.FutexLock.Wakeups.{is_sleeper, is_active, futex_lock_wakeups}
use evenk.FutexCondVar.Moves.{
  Local, in_lock, waking, to_wait, blocked, counted, requeueing, Words, back, at_cond, requeue_to,
  requeue_all,
}
use evenk.FutexCondVar.Steps.{
  System, in_unlock, in_wait, Step, move, lock_sleep, lock_wake, cond_sleep, cond_wake,
  cond_requeue, is_inside, Reach, start, later,
}
use evenk.FutexCondVar.Kept.{is_counted, is_past_owner, is_stale, is_broadcasting}
use evenk.FutexCondVar.Weights.{tally-requeue, requeue-none}
use evenk.FutexCondVar.Notices.{
  one, IsKept, resume_lock-Kept, resume_cond-Kept, place-Kept, move-Kept,
}
use evenk.FutexCondVar.Refines.{lock_system, cond_var_refines_lock}

requeued_same_counted :
    (y : Requeue) (p : Local) → at_cond p ≡ true → is_counted (requeue_to y p) ≡ is_counted p
requeued_same_counted y p e = ground arith

requeued_same_past :
    (y : Requeue) (p : Local) → at_cond p ≡ true → is_past_owner (requeue_to y p) ≡ is_past_owner p
requeued_same_past y p e = ground arith

requeue-Kept :
    {woken : Bool} (before after : List Local) (m : Words) (holds : Bool) (ys : List Requeue)
    → Requeued woken (map at_cond (before ++ back holds ∷ after)) ys
    → IsKept (record { words = m; threads = before ++ requeueing holds ∷ after })
    → IsKept (record { words = m; threads = requeue_all ys (before ++ back holds ∷ after) })
requeue-Kept before after m holds ys r i =
    let us = before ++ back holds ∷ after in
    ground (
      arith,
      i,
      tally-at one before after (requeueing holds),
      tally-at one before after (back holds),
      tally-at is_counted before after (requeueing holds),
      tally-at is_counted before after (back holds),
      tally-at is_past_owner before after (requeueing holds),
      tally-at is_past_owner before after (back holds),
      tally-requeue one (λ y p e. refl) us r refl,
      tally-requeue is_counted requeued_same_counted us r refl,
      tally-requeue is_past_owner requeued_same_past us r refl,
      requeue-none m.broadcast us r refl,
    )

abbrev pub is_blocked : Local → ℕ
is_blocked (blocked value) = 1
is_blocked _ = 0

blocked_counted : (p : Local) → is_blocked p ≤ is_counted p
blocked_counted p = ground arith

module _ (kernel : Kernel) where
  Step-Kept : {s t : System} → Step kernel s t → IsKept s → IsKept t
  Step-Kept (move before after {m} {m'} {p} {p'} mv) i = move-Kept before after m m' p p' mv i
  Step-Kept (lock_sleep before after m b) i =
      place-Kept m before after (in_lock Lock.to_wait) (in_lock Lock.asleep) refl (omega arith)
        (omega arith) refl i
  Step-Kept (lock_wake before after m bs in_unlock k) i =
      resume_lock-Kept m bs (before ++ in_lock Lock.outside ∷ after) (
        place-Kept m before after (in_lock Lock.waking) (in_lock Lock.outside) refl (omega arith)
          (omega arith) refl i)
  Step-Kept (lock_wake before after m bs (in_wait value) k) i =
      resume_lock-Kept m bs (before ++ to_wait value ∷ after) (
        place-Kept m before after (waking value) (to_wait value) refl (omega arith) (omega arith)
          refl i)
  Step-Kept (cond_sleep before after m value b) i = ground (
    arith,
    i,
    kernel.blocks_if_equal m.futex value b,
    tally-at one before after (to_wait value),
    tally-at one before after (blocked value),
    tally-at is_counted before after (to_wait value),
    tally-at is_counted before after (blocked value),
    tally-at is_past_owner before after (to_wait value),
    tally-at is_past_owner before after (blocked value),
    tally-at (is_stale m.broadcast) before after (to_wait value),
    tally-at (is_stale m.broadcast) before after (blocked value),
    tally-at is_broadcasting before after (to_wait value),
    tally-at is_broadcasting before after (blocked value),
  )
  Step-Kept (cond_wake before after m bs holds k) i =
      resume_cond-Kept m bs (before ++ back holds ∷ after) (
        place-Kept m before after (counted false holds) (back holds) refl (omega arith)
          (omega arith) refl i)
  Step-Kept (cond_requeue before after m ys holds k) i =
      elim (kernel.requeues_all (map at_cond (before ++ back holds ∷ after)) ys k) [
        | inl r ↦ requeue-Kept before after m holds ys r i
        | inr (free, r) ↦ requeue-Kept before after m holds ys r i
      ]

  pub Reach-Kept : {s : System} → Reach kernel s → IsKept s
  Reach-Kept (start ts few out) = ground (
    arith,
    tally-le is_counted is_inside (λ p. ground arith) ts,
    tally-le is_past_owner is_inside (λ p. ground arith) ts,
    tally-le (is_stale 0) is_inside (λ p. ground arith) ts,
    tally-le_length one (λ p. ground arith) ts,
  )
  Reach-Kept (later r st) = Step-Kept st (Reach-Kept r)

  -- While fewer than `2 ^ 32` notices have been given: `count_` is at least the number of threads that
  -- are blocked in `wait`, so that a notice that finds 0 there has nobody to wake. If a thread is
  -- blocked with a value from before the last `notify_all`, a call of `notify_all` has still to wake or
  -- to move it. And if threads are blocked at the lock's word, moved there or not, another is awake that
  -- owns the lock, is about to wake one of them, or is about to exchange 2 into the word.
  pub cond_var_wakeups :
      {s : System}
      → Reach kernel s
      → s.words.notified < 2 ^ 32
      → (tally is_blocked s.threads ≤ s.words.count)
        × ((tally (is_stale s.words.broadcast) s.threads ≡ 0)
            ⊎ (0 < tally is_broadcasting s.threads))
        × ((tally is_sleeper (lock_system s).threads ≡ 0)
            ⊎ (0 < tally is_active (lock_system s).threads))
  cond_var_wakeups {s} r few =
      let i = Reach-Kept r in
      (
        ground (arith, i.count, tally-le is_blocked is_counted blocked_counted s.threads),
        ground (arith, i.told),
        ground (arith, futex_lock_wakeups (cond_var_refines_lock kernel r)),
      )
