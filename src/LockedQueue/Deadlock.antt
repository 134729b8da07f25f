-- ===== src/LockedQueue/Deadlock.antt =====
-- The methods of `synch_queue` of evenk/synch_queue.h do not deadlock.
use evenk.Prelude.{
  ℕ, ◌+◌, ◌^◌, ◌≡◌, ◌≤◌, ◌<◌, ◌⊎◌, inl, inr, Bool, true, false, List, arith, length, dec_lt, ap,
  sym, subst, if◌then◌else◌,
}
use evenk.Prelude.Threads.{tally, tally-at, tally-le_add, tally-find}
use evenk.Kernel.{Kernel, Requeue}
use evenk.FutexLock.Moves as Lock
use evenk.FutexLock.Wakeups.{is_sleeper, is_active, futex_lock_wakeups}
use evenk.FutexCondVar.Moves.{Local, in_lock, blocked, lock_place}
use evenk.FutexCondVar.Refines.{cond_var_refines_lock}
use evenk.LockedQueue.Defs.{Call}
use evenk.LockedQueue.Steps.{Thread, System, system, places, Reach}
use evenk.LockedQueue.Below.{Reach-below, tally-places, tally-map}
use evenk.LockedQueue.Places.{is_idle, fits, misplaced}
use evenk.LockedQueue.Placed.{Reach-Placed}
use evenk.LockedQueue.Notices.{blocks, coming, owes_one, owes_all}
use evenk.LockedQueue.Wakeups.{synch_queue_wakeups}
use evenk.LockedQueue.Progress.{is_awake, CanGo, awake-CanGo}

-- In a method, and not in the wait of `wait_pop`.
abbrev pub busy_at {ℓ} : {A : Type ℓ} → Local → Call A → ℕ
busy_at (in_lock Lock.outside) c = if is_idle c then 0 else 1
busy_at (blocked value) c = 0
busy_at p c = 1

abbrev pub is_busy {ℓ} : {A : Type ℓ} → Thread A → ℕ
is_busy t = busy_at t.place t.call

module _ {ℓ} {A : Type ℓ} where
  sleeps : Thread A → ℕ
  sleeps t = is_sleeper (lock_place t.place)

  acts : Thread A → ℕ
  acts t = is_active (lock_place t.place)

  acts-le-awake : (t : Thread A) → acts t ≤ is_awake t + misplaced t
  unfolding acts
  acts-le-awake t = ground arith

  busy-le : (t : Thread A) → is_busy t ≤ is_awake t + sleeps t
  unfolding sleeps
  busy-le t = ground arith

  coming-le : (f : ℕ) (t : Thread A) → coming f t ≤ is_busy t + misplaced t
  coming-le f t = ground arith

  owes_one-le : (t : Thread A) → owes_one t ≤ is_awake t + misplaced t
  owes_one-le t = ground arith

  owes_all-le : (t : Thread A) → owes_all t ≤ is_awake t + misplaced t
  owes_all-le t = ground arith

  abbrev pub NothingToDo : System A → Type 0
  NothingToDo s =
      (tally is_busy s.threads ≡ 0)
      × ((tally blocks s.threads ≡ 0) ⊎ ((length s.queue.items ≡ 0) × (s.queue.is_closed ≡ false)))

module _ {ℓ} {A : Type ℓ} (kernel : Kernel) where
  none_sleeps :
      {s : System A} → Reach kernel s → tally is_awake s.threads ≡ 0 → tally sleeps s.threads ≡ 0
  unfolding sleeps acts
  none_sleeps {s} r quiet = ground (
    arith,
    futex_lock_wakeups (cond_var_refines_lock kernel (Reach-below kernel r)),
    tally-places (λ (p : Local). is_sleeper (lock_place p)) s.threads,
    tally-map is_sleeper lock_place (places s.threads),
    tally-places (λ (p : Local). is_active (lock_place p)) s.threads,
    tally-map is_active lock_place (places s.threads),
    tally-le_add acts is_awake misplaced acts-le-awake s.threads,
    (Reach-Placed r).placed,
  )

  quiet-NothingToDo :
      {s : System A}
      → Reach kernel s
      → s.words.notified < 2 ^ 32
      → tally is_awake s.threads ≡ 0
      → NothingToDo s
  quiet-NothingToDo {s} r few quiet =
      let asleep = none_sleeps r quiet in
      let placed = (Reach-Placed r).placed in
      let some_waits = synch_queue_wakeups r few in
      let idle : tally is_busy s.threads ≡ 0 =
        omega (arith, asleep, tally-le_add is_busy is_awake sleeps busy-le s.threads) in
      let k =
        tally-le_add (coming s.words.futex) is_busy misplaced (coming-le s.words.futex) s.threads in
      let o = tally-le_add owes_one is_awake misplaced owes_one-le s.threads in
      let l = tally-le_add owes_all is_awake misplaced owes_all-le s.threads in
      (
        idle,
        elim (dec_lt 0 (tally blocks s.threads)) [
          | yes waits ↦ inr (
            omega (arith, (some_waits waits).0, placed, k, o),
            elim (some_waits waits).1 [
              | inl open_still ↦ open_still
              | inr owed ↦ absurd (omega (arith, owed, placed, l))
            ],
          )
          | no none_waits ↦ inl (omega arith)
        ],
      )

  -- While fewer than `2 ^ 32` notices have been given, and if the calls of `futex_wake` and
  -- `futex_requeue` return: in every reachable state a thread that is in a method and is not
  -- asleep in the kernel can make a step, or else every thread that is in a method is blocked in the
  -- wait of `wait_pop`, and if there is one, the queue is empty and open.
  pub synch_queue_deadlock :
      (wakes_return : (xs : List Bool) → (ys : List Bool) × kernel.Wakes xs ys)
      (requeues_return : (xs : List Bool) → (ys : List Requeue) × kernel.Requeues xs ys)
      {s : System A}
      → Reach kernel s
      → s.words.notified < 2 ^ 32
      → CanGo kernel s ⊎ NothingToDo s
  synch_queue_deadlock wakes_return requeues_return {s} r few =
      elim (dec_lt 0 (tally is_awake s.threads)) [
        | yes some_awake ↦
            let (before, t, after, e, here) = tally-find is_awake s.threads some_awake in
            let fit : fits t.place t.call ≡ true = ground (
              arith,
              (Reach-Placed r).placed,
              ap (tally misplaced) e,
              tally-at misplaced before after t,
            ) in
            inl (
              subst (λ ts. CanGo kernel (system s.words s.queue s.log ts)) (sym e)
                (awake-CanGo kernel wakes_return requeues_return before after s.words s.queue s.log
                  t.place t.call fit here))
        | no quiet ↦ inr (quiet-NothingToDo r few (omega arith))
      ]
