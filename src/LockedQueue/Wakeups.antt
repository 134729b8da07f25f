-- ===== src/LockedQueue/Wakeups.antt =====
-- No wake-up is lost by `synch_queue` of evenk/synch_queue.h on `futex_lock` and `futex_cond_var`.
use evenk.Prelude.{
  ◌+◌, ◌^◌, ◌≤◌, ◌<◌, ◌≡◌, ◌⊎◌, inl, inr, refl, false, ◌∷◌, ◌++◌, map, arith, length,
}
use evenk.Prelude.Threads.{tally, tally-at, tally-le}
use evenk.Kernel.{Kernel}
use evenk.FutexLock.Moves as Lock
use evenk.FutexCondVar.Moves.{in_lock, waking, to_wait, blocked, back, at_cond, notify_add}
use evenk.FutexCondVar.Steps.{in_unlock, in_wait}
use evenk.LockedQueue.Defs.{idle, leaving, pop_wait}
use evenk.LockedQueue.Steps.{
  System, at, places, Step, begin, begin_try, do_access, begin_wait, begin_notify, do_unlock,
  do_return, move, lock_sleep, lock_wake, cond_sleep, cond_wake, cond_requeue, is_calling, Reach,
  start, later,
}
use evenk.LockedQueue.Below.{IsSound, Reach-IsSound}
use evenk.LockedQueue.Places.{wrong, IsPlaced}
use evenk.LockedQueue.Placed.{Reach-Placed}
use evenk.LockedQueue.Notices.{fresh, blocks, beyond, telling, coming, owes_one, owes_all, IsServed}
use evenk.LockedQueue.Served.{place-Served}
use evenk.LockedQueue.Kept.{
  Move-notified, begin-Served, try-Served, unlock-Served, stay-Served, move-Served, back-misplaced,
}
use evenk.LockedQueue.Members.{access-Served, begin_wait-Served, begin_notify-Served}
use evenk.LockedQueue.Woken.{resume_lock-Served, cond_wake-Served, cond_requeue-Served}

module _ {ℓ} {A : Type ℓ} {kernel : Kernel} where
  -- While fewer than `2 ^ 32` notices have been given.
  Step-Served :
      {s t : System A}
      → Step kernel s t
      → t.words.notified < 2 ^ 32
      → IsSound s.words s.threads
      → IsPlaced s.queue s.threads
      → IsServed s.words.futex s.queue s.threads
      → IsServed t.words.futex t.queue t.threads
  Step-Served (begin before after m q log c first) few s w i =
      begin-Served m.futex q before after c first i
  Step-Served (begin_try before after m q log c nonblocking) few s w i =
      try-Served m.futex m.lock q before after c nonblocking i
  Step-Served (do_access before after m q log c is) few s w i =
      access-Served m.futex before after q c is
        (omega (arith, w.right, tally-at (wrong q) before after (at (in_lock Lock.owner) c))) i
  Step-Served (begin_wait before after m q log) few s w i =
      begin_wait-Served before after m q
        (omega (arith, w.right, tally-at (wrong q) before after (at (in_lock Lock.owner) pop_wait)))
        s w.placed i
  Step-Served (begin_notify before after m q log all) few s w i =
      begin_notify-Served before after m q all few s i
  Step-Served (do_unlock before after m q log status value) few s w i =
      unlock-Served m.futex m.lock q before after (leaving status value) i
  Step-Served (do_return before after m q log status value) few s w i =
      place-Served m.futex q before after (at (in_lock Lock.outside) (leaving status value))
        (at (in_lock Lock.outside) idle) (omega arith) (omega arith) (omega arith) (omega arith)
        (omega arith) (omega arith) i
  Step-Served (move before after {m} {m'} {p} {p'} q log c inner mv) few s w i =
      move-Served before after m m' p p' q c inner mv s w.placed i
  Step-Served (lock_sleep before after m q log c b) few s w i =
      stay-Served m.futex q before after (in_lock Lock.to_wait) (in_lock Lock.asleep) c refl
        (omega arith) (omega arith) refl refl refl i
  Step-Served (lock_wake before after m q log c bs in_unlock k) few s w i =
      resume_lock-Served m.futex q bs (before ++ at (in_lock Lock.outside) c ∷ after) (
        stay-Served m.futex q before after (in_lock Lock.waking) (in_lock Lock.outside) c refl
          (omega arith) (omega arith) refl refl refl i)
  Step-Served (lock_wake before after m q log c bs (in_wait value) k) few s w i =
      resume_lock-Served m.futex q bs (before ++ at (to_wait value) c ∷ after) (
        stay-Served m.futex q before after (waking value) (to_wait value) c refl (omega arith)
          (omega arith) refl refl refl i)
  Step-Served (cond_sleep before after m q log c value b) few s w i =
      stay-Served m.futex q before after (to_wait value) (blocked value) c
        (ground (arith, kernel.blocks_if_equal m.futex value b)) (omega arith) (omega arith) refl
        refl refl i
  Step-Served (cond_wake before after m q log c bs holds k) few s w i =
      let us = before ++ at (back holds) c ∷ after in
      cond_wake-Served before after m.futex q c bs holds
        (back-misplaced before after q false holds c w.placed)
        (kernel.wakes_one (map at_cond (places us)) bs k) i
  Step-Served (cond_requeue before after m q log c ys holds k) few s w i =
      elim (kernel.requeues_all (map at_cond (places (before ++ at (back holds) c ∷ after))) ys k) [
        | inl r ↦ cond_requeue-Served before after m.futex q c ys holds r i
        | inr (free, r) ↦ cond_requeue-Served before after m.futex q c ys holds r i
      ]

  Step-notified : {s t : System A} → Step kernel s t → s.words.notified ≤ t.words.notified
  unfolding notify_add
  Step-notified (begin before after m q log c first) = omega arith
  Step-notified (begin_try before after m q log c nonblocking) = omega arith
  Step-notified (do_access before after m q log c is) = omega arith
  Step-notified (begin_wait before after m q log) = omega arith
  Step-notified (begin_notify before after m q log all) = omega arith
  Step-notified (do_unlock before after m q log status value) = omega arith
  Step-notified (do_return before after m q log status value) = omega arith
  Step-notified (move before after q log c inner mv) = Move-notified mv
  Step-notified (lock_sleep before after m q log c b) = omega arith
  Step-notified (lock_wake before after m q log c bs told k) = omega arith
  Step-notified (cond_sleep before after m q log c value b) = omega arith
  Step-notified (cond_wake before after m q log c bs holds k) = omega arith
  Step-notified (cond_requeue before after m q log c ys holds k) = omega arith

  Reach-Served :
      {s : System A}
      → Reach kernel s
      → s.words.notified < 2 ^ 32
      → IsServed s.words.futex s.queue s.threads
  Reach-Served (start ts some out) few = ground (
    arith,
    tally-le (fresh 0) is_calling (λ t. ground arith) ts,
    tally-le blocks is_calling (λ t. ground arith) ts,
    tally-le (beyond 0) is_calling (λ t. ground arith) ts,
    tally-le telling is_calling (λ t. ground arith) ts,
  )
  Reach-Served (later r st) few =
      Step-Served st few (Reach-IsSound kernel r) (Reach-Placed r)
        (Reach-Served r (omega (arith, Step-notified st)))

  -- While fewer than `2 ^ 32` notices have been given, in every reachable state in which a consumer is
  -- blocked in the wait of `wait_pop`: for each value in the queue a consumer is going to look at the
  -- queue, or has looked and takes a value, and waits for nothing but the lock, or a call of `notify_one`
  -- has still to let one go on; and the queue is open, or a call of `notify_all` is not at its
  -- end.
  pub synch_queue_wakeups :
      {s : System A}
      → Reach kernel s
      → s.words.notified < 2 ^ 32
      → 0 < tally blocks s.threads
      → (length s.queue.items ≤ tally (coming s.words.futex) s.threads + tally owes_one s.threads)
        × ((s.queue.is_closed ≡ false) ⊎ (0 < tally owes_all s.threads))
  synch_queue_wakeups r few some_blocked =
      let i = Reach-Served r few in (i.served (omega arith), i.opened (omega arith))
