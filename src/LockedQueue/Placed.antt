-- ===== src/LockedQueue/Placed.antt =====
-- Every step of the threads in a `synch_queue` of evenk/synch_queue.h leaves them well placed.
use evenk.Prelude.{ℕ, ◌≤◌, ◌≡◌, refl, Bool, true, false, List, ◌∷◌, ◌++◌, map, arith, inl, inr}
use evenk.Prelude.Threads.{tally, tally-at, rest-le, tally-le}
use evenk.Kernel.{Kernel, Requeue, Requeued}
use evenk.SynchQueue.{Queue, synch_queue}
use evenk.FutexLock.Moves as Lock
use evenk.FutexCondVar.Moves.{
  in_lock, storing, waking, to_wait, blocked, counted, requeueing, back, at_cond, resume_lock,
  resume_cond, notify_add,
}
use evenk.FutexCondVar.Steps.{in_unlock, in_wait}
use evenk.LockedQueue.Defs.{
  Call, idle, push_test, push_store, close_store, pop_test, pop_take, pop_closed, pop_wait, leaving,
  access, is_access, is_first, is_nonblocking, tried,
}
use evenk.LockedQueue.Steps.{
  Thread, System, at, resume, requeue_all, places, Step, begin, begin_try, do_access, begin_wait,
  begin_notify, do_unlock, do_return, move, lock_sleep, lock_wake, cond_sleep, cond_wake,
  cond_requeue, is_calling, Reach, start, later,
}
use evenk.LockedQueue.Below.{holding, Reach-IsSound}
use evenk.LockedQueue.Weights.{tally-resume-le, tally-requeue-le}
use evenk.LockedQueue.Places.{
  leaving-right, is_entering, is_idle, misplaced, wrong, wrong_call, IsPlaced, Move-placed,
  place-Placed, resume_lock-misplaced, resume_lock-wrong, resume_cond-misplaced, resume_cond-wrong,
  requeue-misplaced, requeue-wrong, wrong-holding,
}

module _ {ℓ} {A : Type ℓ} where
  access-right :
      (c : Call A) (q : Queue A)
      → wrong_call q c ≡ 0
      → is_access c ≡ true
      → (wrong_call (access c q).1 (access c q).0 ≡ 0) × (is_idle (access c q).0 ≡ false)
  unfolding access
  access-right (push_test value) q e is = ground arith
  access-right (push_store value) q e is = ground arith
  access-right close_store q e is = ground arith
  access-right (pop_test waits) q e is = ground arith
  access-right pop_take q e is = ground arith
  access-right (pop_closed waits) q e is = ground arith
  access-right c q e is = ground arith

  access-Placed :
      (before after : List (Thread A)) (q : Queue A) (c : Call A)
      → is_access c ≡ true
      → tally holding (before ++ at (in_lock Lock.owner) c ∷ after) ≤ 1
      → IsPlaced q (before ++ at (in_lock Lock.owner) c ∷ after)
      → IsPlaced (access c q).1 (before ++ at (in_lock Lock.owner) (access c q).0 ∷ after)
  access-Placed before after q c is one i =
      let t = at (in_lock Lock.owner) c in
      let t' = at (in_lock Lock.owner) (access c q).0 in
      ground (
        arith,
        i,
        access-right c q,
        tally-at holding before after t,
        tally-at misplaced before after t,
        tally-at misplaced before after t',
        tally-at (wrong q) before after t,
        tally-at (wrong (access c q).1) before after t',
        rest-le (wrong (access c q).1) holding (wrong-holding (access c q).1) before after,
      )

  resume_lock-Placed :
      (q : Queue A) (bs : List Bool) (ts : List (Thread A))
      → IsPlaced q ts
      → IsPlaced q (resume resume_lock bs ts)
  resume_lock-Placed q bs ts i = ground (
    arith,
    i,
    tally-resume-le misplaced resume_lock resume_lock-misplaced bs ts,
    tally-resume-le (wrong q) resume_lock (resume_lock-wrong q) bs ts,
  )

  resume_cond-Placed :
      (q : Queue A) (bs : List Bool) (ts : List (Thread A))
      → IsPlaced q ts
      → IsPlaced q (resume resume_cond bs ts)
  resume_cond-Placed q bs ts i = ground (
    arith,
    i,
    tally-resume-le misplaced resume_cond resume_cond-misplaced bs ts,
    tally-resume-le (wrong q) resume_cond (resume_cond-wrong q) bs ts,
  )

  requeue-Placed :
      {woken : Bool} {ys : List Requeue} (q : Queue A) (ts : List (Thread A))
      → Requeued woken (map at_cond (places ts)) ys
      → IsPlaced q ts
      → IsPlaced q (requeue_all ys ts)
  requeue-Placed q ts r i = ground (
    arith,
    i,
    tally-requeue-le misplaced requeue-misplaced ts r refl,
    tally-requeue-le (wrong q) (requeue-wrong q) ts r refl,
  )

  first-entering : (c : Call A) → is_first c ≡ true → is_entering c ≡ true
  first-entering c first = ground arith

  tried-placed :
      (w : ℕ) (q : Queue A) (c : Call A)
      → is_nonblocking c ≡ true
      → (misplaced (at (in_lock (Lock.try_lock w).1) (tried (Lock.try_lock w).1 c)) ≡ 0)
        × (wrong q (at (in_lock (Lock.try_lock w).1) (tried (Lock.try_lock w).1 c)) ≡ 0)
  unfolding Lock.try_lock
  tried-placed w q c nonblocking = ground arith

  pub back-placed :
      (q : Queue A) (all holds : Bool) (c : Call A)
      → misplaced (at (counted all holds) c) ≡ 0
      → (misplaced (at (back holds) c) ≡ 0) × (wrong q (at (back holds) c) ≡ 0)
  back-placed q all holds c e = ground (arith, leaving-right q c)

  calling_placed : (t : Thread A) → misplaced t ≤ is_calling t
  calling_placed t = ground arith

  calling_right : (q : Queue A) (t : Thread A) → wrong q t ≤ is_calling t
  calling_right q t = ground arith

module _ {ℓ} {A : Type ℓ} {kernel : Kernel} where
  Step-Placed :
      {s t : System A}
      → Step kernel s t
      → tally holding s.threads ≤ 1
      → IsPlaced s.queue s.threads
      → IsPlaced t.queue t.threads
  unfolding notify_add Lock.unlock
  Step-Placed (begin before after m q log c first) one i =
      place-Placed q before after (at (in_lock Lock.outside) idle) (at (in_lock Lock.trying) c)
        (λ e. ground (arith, first-entering c)) i
  Step-Placed (begin_try before after m q log c nonblocking) one i =
      place-Placed q before after (at (in_lock Lock.outside) idle)
        (at (in_lock (Lock.try_lock m.lock).1) (tried (Lock.try_lock m.lock).1 c))
        (λ e. tried-placed m.lock q c nonblocking) i
  Step-Placed (do_access before after m q log c is) one i = access-Placed before after q c is one i
  Step-Placed (begin_wait before after m q log) one i =
      place-Placed q before after (at (in_lock Lock.owner) pop_wait) (at storing (pop_test true))
        (λ e. (refl, refl)) i
  Step-Placed (begin_notify before after m q log all) one i =
      place-Placed q before after (at (in_lock Lock.owner) (Call.notify all))
        (at (notify_add all true m).1 (leaving _ _)) (λ e. (refl, refl)) i
  Step-Placed (do_unlock before after m q log status value) one i =
      place-Placed q before after (at (in_lock Lock.owner) (leaving status value))
        (at (in_lock (Lock.unlock m.lock).1) (leaving status value)) (λ e. ground arith) i
  Step-Placed (do_return before after m q log status value) one i =
      place-Placed q before after (at (in_lock Lock.outside) (leaving status value))
        (at (in_lock Lock.outside) idle) (λ e. (refl, refl)) i
  Step-Placed (move before after {m} {m'} {p} {p'} q log c inner mv) one i =
      place-Placed q before after (at p c) (at p' c) (Move-placed q c inner mv) i
  Step-Placed (lock_sleep before after m q log c b) one i =
      place-Placed q before after (at (in_lock Lock.to_wait) c) (at (in_lock Lock.asleep) c)
        (λ e. (e, refl)) i
  Step-Placed (lock_wake before after m q log c bs in_unlock k) one i =
      resume_lock-Placed q bs (before ++ at (in_lock Lock.outside) c ∷ after) (
        place-Placed q before after (at (in_lock Lock.waking) c) (at (in_lock Lock.outside) c)
          (λ e. (ground arith, refl)) i)
  Step-Placed (lock_wake before after m q log c bs (in_wait value) k) one i =
      resume_lock-Placed q bs (before ++ at (to_wait value) c ∷ after) (
        place-Placed q before after (at (waking value) c) (at (to_wait value) c) (λ e. (e, refl)) i)
  Step-Placed (cond_sleep before after m q log c value b) one i =
      place-Placed q before after (at (to_wait value) c) (at (blocked value) c) (λ e. (e, refl)) i
  Step-Placed (cond_wake before after m q log c bs holds k) one i =
      resume_cond-Placed q bs (before ++ at (back holds) c ∷ after) (
        place-Placed q before after (at (counted false holds) c) (at (back holds) c)
          (back-placed q false holds c) i)
  Step-Placed (cond_requeue before after m q log c ys holds k) one i =
      let us = before ++ at (back holds) c ∷ after in
      let i' : IsPlaced q us =
        place-Placed q before after (at (requeueing holds) c) (at (back holds) c)
          (back-placed q true holds c) i in
      elim (kernel.requeues_all (map at_cond (places us)) ys k) [
        | inl r ↦ requeue-Placed q us r i'
        | inr (free, r) ↦ requeue-Placed q us r i'
      ]

  pub Reach-Placed : {s : System A} → Reach kernel s → IsPlaced s.queue s.threads
  Reach-Placed (start ts few out) = ground (
    arith,
    tally-le misplaced is_calling calling_placed ts,
    tally-le (wrong synch_queue) is_calling (calling_right synch_queue) ts,
  )
  Reach-Placed (later r st) = Step-Placed st (Reach-IsSound kernel r).one_holder (Reach-Placed r)
