-- ===== src/LockedQueue/Progress.antt =====
-- The threads in the methods of a `synch_queue` of evenk/synch_queue.h are never all stuck.
use evenk.Prelude.{ℕ, ◌≡◌, ◌<◌, refl, Bool, true, false, List, ◌∷◌, ◌++◌, map, arith, if◌then◌else◌}
use evenk.Kernel.{Kernel, Requeue}
use evenk.SynchQueue.{Queue}
use evenk.FutexLock.Moves as Lock
use evenk.FutexCondVar.Moves.{
  Local, in_lock, storing, counting, loading, unlocking, releasing, waking, to_wait, blocked,
  requeued, awake, added, counted, requeueing, Words, back, at_cond, at_lock,
}
use evenk.FutexCondVar.Steps as Inner
use evenk.LockedQueue.Defs.{
  Call, idle, push_test, push_store, close_store, notify, pop_test, pop_take, pop_closed, pop_wait,
  leaving, Event,
}
use evenk.LockedQueue.Steps.{
  Thread, System, at, system, places, Step, begin, begin_try, do_access, begin_wait, begin_notify,
  do_unlock, do_return, move, lock_sleep, lock_wake, cond_sleep, cond_wake, cond_requeue,
}
use evenk.LockedQueue.Places.{fits, is_idle}

module _ {ℓ} {A : Type ℓ} where
  -- In a method, and not asleep in the kernel.
  abbrev pub awake_at : Local → Call A → ℕ
  awake_at (in_lock Lock.outside) c = if is_idle c then 0 else 1
  awake_at (in_lock Lock.asleep) c = 0
  awake_at (blocked value) c = 0
  awake_at requeued c = 0
  awake_at p c = 1

  abbrev pub is_awake : Thread A → ℕ
  is_awake t = awake_at t.place t.call

  -- Whether the thread that makes the step is in a method and not asleep in the kernel. So the call of a
  -- method is no such step, and neither is the interruption of a futex call.
  abbrev pub mover : {kernel : Kernel} {s t : System A} → Step kernel s t → ℕ
  mover (begin before after m q log c first) =
      let c' : Call A = idle in awake_at (in_lock Lock.outside) c'
  mover (begin_try before after m q log c nonblocking) =
      let c' : Call A = idle in awake_at (in_lock Lock.outside) c'
  mover (do_access before after m q log c is) = awake_at (in_lock Lock.owner) c
  mover (begin_wait before after m q log) =
      let c : Call A = pop_wait in awake_at (in_lock Lock.owner) c
  mover (begin_notify before after m q log all) =
      let c : Call A = notify all in awake_at (in_lock Lock.owner) c
  mover (do_unlock before after m q log status value) =
      awake_at (in_lock Lock.owner) (leaving status value)
  mover (do_return before after m q log status value) =
      awake_at (in_lock Lock.outside) (leaving status value)
  mover (move before after {p = p} q log c inner mv) = awake_at p c
  mover (lock_sleep before after m q log c b) = awake_at (in_lock Lock.to_wait) c
  mover (lock_wake before after m q log c bs {p = p} w k) = awake_at p c
  mover (cond_sleep before after m q log c value b) = awake_at (to_wait value) c
  mover (cond_wake before after m q log c bs holds k) = awake_at (counted false holds) c
  mover (cond_requeue before after m q log c ys holds k) = awake_at (requeueing holds) c

module _ {ℓ} {A : Type ℓ} (kernel : Kernel) where
  -- A thread that is in a method and not asleep can make a step.
  abbrev pub CanGo : System A → Type ℓ
  CanGo s = (t : System A) × (st : Step kernel s t) × (mover st ≡ 1)

  owner-CanGo :
      (before after : List (Thread A)) (m : Words) (q : Queue A) (log : List (Event A)) (c : Call A)
      → is_idle c ≡ false
      → CanGo (system m q log (before ++ at (in_lock Lock.owner) c ∷ after))
  owner-CanGo before after m q log idle e = absurd (cc)
  owner-CanGo before after m q log (push_test value) e =
      (_, do_access before after m q log (push_test value) refl, refl)
  owner-CanGo before after m q log (push_store value) e =
      (_, do_access before after m q log (push_store value) refl, refl)
  owner-CanGo before after m q log close_store e =
      (_, do_access before after m q log close_store refl, refl)
  owner-CanGo before after m q log (notify all) e = (_, begin_notify before after m q log all, refl)
  owner-CanGo before after m q log (pop_test waits) e =
      (_, do_access before after m q log (pop_test waits) refl, refl)
  owner-CanGo before after m q log pop_take e =
      (_, do_access before after m q log pop_take refl, refl)
  owner-CanGo before after m q log (pop_closed waits) e =
      (_, do_access before after m q log (pop_closed waits) refl, refl)
  owner-CanGo before after m q log pop_wait e = (_, begin_wait before after m q log, refl)
  owner-CanGo before after m q log (leaving status value) e =
      (_, do_unlock before after m q log status value, refl)

  outside-CanGo :
      (before after : List (Thread A)) (m : Words) (q : Queue A) (log : List (Event A)) (c : Call A)
      → fits (in_lock Lock.outside) c ≡ true
      → is_idle c ≡ false
      → CanGo (system m q log (before ++ at (in_lock Lock.outside) c ∷ after))
  outside-CanGo before after m q log (leaving status value) fit e =
      (_, do_return before after m q log status value, refl)
  outside-CanGo before after m q log c fit e = absurd (ground arith)

  -- The calls `futex_wake` and `futex_requeue` return.
  module _ (wakes_return : (xs : List Bool) → (ys : List Bool) × kernel.Wakes xs ys)
      (requeues_return : (xs : List Bool) → (ys : List Requeue) × kernel.Requeues xs ys) where
    wake-CanGo :
        (before after : List (Thread A)) (m : Words) (q : Queue A) (log : List (Event A))
        (c : Call A) (p p' : Local)
        → Inner.Wakes p p'
        → awake_at p c ≡ 1
        → CanGo (system m q log (before ++ at p c ∷ after))
    wake-CanGo before after m q log c p p' w e =
        let (bs, k) = wakes_return (map at_lock (places (before ++ at p' c ∷ after))) in
        (_, lock_wake before after m q log c bs w k, e)

    counted-CanGo :
        (before after : List (Thread A)) (m : Words) (q : Queue A) (log : List (Event A))
        (c : Call A) (all holds : Bool)
        → CanGo (system m q log (before ++ at (counted all holds) c ∷ after))
    counted-CanGo before after m q log c true holds =
        (_, move before after q log c refl (Inner.see_owner holds m), refl)
    counted-CanGo before after m q log c false holds =
        let (bs, k) = wakes_return (map at_cond (places (before ++ at (back holds) c ∷ after))) in
        (_, cond_wake before after m q log c bs holds k, refl)

    pub awake-CanGo :
        (before after : List (Thread A)) (m : Words) (q : Queue A) (log : List (Event A))
        (p : Local) (c : Call A)
        → fits p c ≡ true
        → 0 < awake_at p c
        → CanGo (system m q log (before ++ at p c ∷ after))
    awake-CanGo before after m q log (in_lock Lock.outside) c fit e =
        outside-CanGo before after m q log c fit (ground arith)
    awake-CanGo before after m q log (in_lock Lock.trying) c fit e =
        (_, move before after q log c refl (Inner.lock_move m (Lock.attempt m.lock)), refl)
    awake-CanGo before after m q log (in_lock (Lock.failed value)) c fit e = (
      _,
      move before after q log c refl (Inner.lock_move m (Lock.back_off true m.lock value)),
      refl,
    )
    awake-CanGo before after m q log (in_lock Lock.exchanging) c fit e =
        (_, move before after q log c refl (Inner.lock_move m (Lock.exchange m.lock)), refl)
    awake-CanGo before after m q log (in_lock Lock.to_wait) c fit e =
        (_, move before after q log c refl (Inner.lock_move m (Lock.wait_returns m.lock)), refl)
    awake-CanGo before after m q log (in_lock Lock.asleep) c fit e = absurd (omega arith)
    awake-CanGo before after m q log (in_lock Lock.owner) c fit e =
        owner-CanGo before after m q log c (ground arith)
    awake-CanGo before after m q log (in_lock Lock.releasing) c fit e =
        (_, move before after q log c refl (Inner.lock_move m (Lock.store m.lock)), refl)
    awake-CanGo before after m q log (in_lock Lock.waking) c fit e =
        wake-CanGo before after m q log c (in_lock Lock.waking) (in_lock Lock.outside)
          Inner.in_unlock refl
    awake-CanGo before after m q log storing c fit e =
        (_, move before after q log c refl (Inner.do_store m), refl)
    awake-CanGo before after m q log counting c fit e =
        (_, move before after q log c refl (Inner.do_count m), refl)
    awake-CanGo before after m q log loading c fit e =
        (_, move before after q log c refl (Inner.do_load m), refl)
    awake-CanGo before after m q log (unlocking value) c fit e =
        (_, move before after q log c refl (Inner.do_unlock m value), refl)
    awake-CanGo before after m q log (releasing value) c fit e =
        (_, move before after q log c refl (Inner.do_zero m value), refl)
    awake-CanGo before after m q log (waking value) c fit e =
        wake-CanGo before after m q log c (waking value) (to_wait value) (Inner.in_wait value) refl
    awake-CanGo before after m q log (to_wait value) c fit e =
        (_, move before after q log c refl (Inner.wait_returns m value), refl)
    awake-CanGo before after m q log (blocked value) c fit e = absurd (omega arith)
    awake-CanGo before after m q log requeued c fit e = absurd (omega arith)
    awake-CanGo before after m q log awake c fit e =
        (_, move before after q log c refl (Inner.count_off m), refl)
    awake-CanGo before after m q log (added all holds) c fit e =
        (_, move before after q log c refl (Inner.see_count all holds m), refl)
    awake-CanGo before after m q log (counted all holds) c fit e =
        counted-CanGo before after m q log c all holds
    awake-CanGo before after m q log (requeueing holds) c fit e =
        let (ys, k) =
          requeues_return (map at_cond (places (before ++ at (back holds) c ∷ after))) in
        (_, cond_requeue before after m q log c ys holds k, refl)
