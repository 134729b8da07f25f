-- ===== src/LockedQueue/Below.antt =====
-- The lock and the condition variable that the threads of a `synch_queue` of evenk/synch_queue.h use.
use evenk.Prelude.{
  ℕ, ◌≤◌, ◌<◌, ◌^◌, ◌≡◌, ◌⊎◌, inl, inr, Bool, true, List, [], ◌∷◌, ◌++◌, map, map-append, length,
  refl, arith,
}
use evenk.Prelude.Threads.{tally, tally-le}
use evenk.Kernel.{Kernel, Requeue}
use evenk.FutexLock.Moves as Lock
use evenk.FutexLock.Exclusion.{is_holder, Reach-IsCounted}
use evenk.FutexCondVar.Moves as CondVar
use evenk.FutexCondVar.Moves.{
  Local, Words, in_lock, storing, to_wait, blocked, counted, requeueing, back, lock_place,
  notify_add,
}
use evenk.FutexCondVar.Steps as Inner
use evenk.FutexCondVar.Refines.{cond_var_refines_lock}
use evenk.Prelude.{none, false}
use evenk.Status.{success}
use evenk.FutexCondVar.Kept.{is_counted, is_past_owner}
use evenk.FutexCondVar.Wakeups.{Reach-Kept}
use evenk.LockedQueue.Defs.{Call, idle, notify, pop_test, pop_wait, leaving, access, tried}
use evenk.LockedQueue.Steps.{
  Thread, System, at, resume, requeue_all, places, Step, begin, begin_try, do_access, begin_wait,
  begin_notify, do_unlock, do_return, move, lock_sleep, lock_wake, cond_sleep, cond_wake,
  cond_requeue, is_calling, Reach, start, later,
}

pub tally-map :
    (w : Lock.Local → ℕ) (f : Local → Lock.Local) (ps : List Local)
    → tally w (map f ps) ≡ tally (λ (p : Local). w (f p)) ps
tally-map w f [] = refl
tally-map w f (p ∷ ps) = omega (arith, tally-map w f ps)

module _ {ℓ} {A : Type ℓ} where
  -- The condition variable and its lock, as the threads use them.
  abbrev pub cond_var_system : System A → Inner.System
  cond_var_system s = record { words = s.words; threads = places s.threads }

  places-at :
      (before after : List (Thread A)) (t : Thread A)
      → places (before ++ t ∷ after) ≡ places before ++ t.place ∷ places after
  places-at before after t = map-append (λ (t : Thread A). t.place) before (t ∷ after)

  places-resume :
      (to : Local → Local) (bs : List Bool) (ts : List (Thread A))
      → places (resume to bs ts) ≡ CondVar.resume to bs (places ts)
  places-resume to [] ts = refl
  places-resume to (b ∷ bs) [] = refl
  places-resume to (b ∷ bs) (t ∷ ts) = cc (places-resume to bs ts)

  places-requeue :
      (ys : List Requeue) (ts : List (Thread A))
      → places (requeue_all ys ts) ≡ CondVar.requeue_all ys (places ts)
  places-requeue [] ts = refl
  places-requeue (y ∷ ys) [] = refl
  places-requeue (y ∷ ys) (t ∷ ts) = cc (places-requeue ys ts)

  pub tally-places :
      (w : Local → ℕ) (ts : List (Thread A))
      → tally w (places ts) ≡ tally (λ (t : Thread A). w t.place) ts
  tally-places w [] = refl
  tally-places w (t ∷ ts) = omega (arith, tally-places w ts)

  length-places : (ts : List (Thread A)) → length (places ts) ≡ length ts
  length-places [] = refl
  length-places (t ∷ ts) = omega (arith, length-places ts)

inside_calling {ℓ} : {A : Type ℓ} (t : Thread A) → Inner.is_inside t.place ≤ is_calling t
inside_calling t = ground arith

module _ {ℓ} {A : Type ℓ} (kernel : Kernel) where
  -- A step of one thread at its place.
  one_below :
      (before after : List (Thread A)) (m m' : CondVar.Words) (p p' : Local) (c c' : Call A)
      → Inner.Step kernel
          (record { words = m; threads = places before ++ p ∷ places after })
          (record { words = m'; threads = places before ++ p' ∷ places after })
      → Inner.Step kernel
          (record { words = m; threads = places (before ++ at p c ∷ after) })
          (record { words = m'; threads = places (before ++ at p' c' ∷ after) })
  one_below before after m m' p p' c c' st =
      rw (places-at before after (at p c), places-at before after (at p' c')) st

  -- Places that an access of the members of the queue does not change.
  none_below :
      (before after : List (Thread A)) (p : Local) (c c' : Call A)
      → places (before ++ at p c' ∷ after) ≡ places (before ++ at p c ∷ after)
  none_below before after p c c' =
      rw (places-at before after (at p c), places-at before after (at p c')) refl

  Step-below :
      {s t : System A}
      → Step kernel s t
      → (cond_var_system t ≡ cond_var_system s)
        ⊎ Inner.Step kernel (cond_var_system s) (cond_var_system t)
  Step-below (begin before after m q log c first) = inr (
      one_below before after m m (in_lock Lock.outside) (in_lock Lock.trying) idle c
        (Inner.move (places before) (places after) (Inner.lock_move m (Lock.begin_lock m.lock))))
  Step-below (begin_try before after m q log c nonblocking) = inr (
      one_below before after m (record m { lock = (Lock.try_lock m.lock).0 }) (in_lock Lock.outside)
        (in_lock (Lock.try_lock m.lock).1) idle (tried (Lock.try_lock m.lock).1 c)
        (Inner.move (places before) (places after) (Inner.lock_move m (Lock.do_try_lock m.lock))))
  Step-below (do_access before after m q log c is) =
      inl (rw (none_below before after (in_lock Lock.owner) c (access c q).0) refl)
  Step-below (begin_wait before after m q log) = inr (
      one_below before after m m (in_lock Lock.owner) storing pop_wait (pop_test true)
        (Inner.move (places before) (places after) (Inner.begin_wait m)))
  Step-below (begin_notify before after m q log all) = inr (
      one_below before after m (notify_add all true m).0 (in_lock Lock.owner)
        (notify_add all true m).1 (notify all) (leaving success none)
        (Inner.move (places before) (places after) (Inner.notify all true m)))
  Step-below (do_unlock before after m q log status value) = inr (
      one_below before after m (record m { lock = (Lock.unlock m.lock).0 }) (in_lock Lock.owner)
        (in_lock (Lock.unlock m.lock).1) (leaving status value) (leaving status value)
        (Inner.move (places before) (places after) (Inner.lock_move m (Lock.do_unlock m.lock))))
  Step-below (do_return before after m q log status value) =
      inl (rw (none_below before after (in_lock Lock.outside) (leaving status value) idle) refl)
  Step-below (move before after {m} {m'} {p} {p'} q log c inner mv) =
      inr (one_below before after m m' p p' c c (Inner.move (places before) (places after) mv))
  Step-below (lock_sleep before after m q log c b) = inr (
      one_below before after m m (in_lock Lock.to_wait) (in_lock Lock.asleep) c c
        (Inner.lock_sleep (places before) (places after) m b))
  Step-below (lock_wake before after m q log c bs {p} {p'} w k) = inr (
      rw
        (
          places-resume CondVar.resume_lock bs (before ++ at p' c ∷ after),
          places-at before after (at p c),
          places-at before after (at p' c),
        )
        (Inner.lock_wake (places before) (places after) m bs w
          (rw (places-at before after (at p' c)) at k)))
  Step-below (cond_sleep before after m q log c value b) = inr (
      one_below before after m m (to_wait value) (blocked value) c c
        (Inner.cond_sleep (places before) (places after) m value b))
  Step-below (cond_wake before after m q log c bs holds k) = inr (
      rw
        (
          places-resume CondVar.resume_cond bs (before ++ at (back holds) c ∷ after),
          places-at before after (at (counted false holds) c),
          places-at before after (at (back holds) c),
        )
        (Inner.cond_wake (places before) (places after) m bs holds
          (rw (places-at before after (at (back holds) c)) at k)))
  Step-below (cond_requeue before after m q log c ys holds k) = inr (
      rw
        (
          places-requeue ys (before ++ at (back holds) c ∷ after),
          places-at before after (at (requeueing holds) c),
          places-at before after (at (back holds) c),
        )
        (Inner.cond_requeue (places before) (places after) m ys holds
          (rw (places-at before after (at (back holds) c)) at k)))

  pub Reach-below : {s : System A} → Reach kernel s → Inner.Reach kernel (cond_var_system s)
  Reach-below (start ts few out) = Inner.start (places ts) (omega (arith, length-places ts)) (
      omega (
        arith,
        tally-places Inner.is_inside ts,
        tally-le (λ (t : Thread A). Inner.is_inside t.place) is_calling inside_calling ts,
      ))
  Reach-below (later {s} {t} r st) = elim (Step-below st) [
    | inl e ↦ rw e (Reach-below r)
    | inr step ↦ Inner.later (Reach-below r) step
  ]

-- The weights of the inner systems at a thread's place.
abbrev pub holding {ℓ} : {A : Type ℓ} → Thread A → ℕ
holding t = is_holder (lock_place t.place)

abbrev pub counts {ℓ} : {A : Type ℓ} → Thread A → ℕ
counts t = is_counted t.place

abbrev pub past_owner {ℓ} : {A : Type ℓ} → Thread A → ℕ
past_owner t = is_past_owner t.place

-- What the lock and the condition variable promise to the threads.
pub record IsSound {ℓ} {A : Type ℓ} (m : Words) (ts : List (Thread A)) : Type ℓ where
  pub one_holder : tally holding ts ≤ 1
  pub count : m.count ≡ tally counts ts
  pub owner : 0 < tally past_owner ts → m.has_owner ≡ true
  pub added : m.notified < 2 ^ 32 → m.futex ≡ m.notified

pub Reach-IsSound {ℓ} :
    {A : Type ℓ} (kernel : Kernel) {s : System A} → Reach kernel s → IsSound s.words s.threads
Reach-IsSound kernel {s} r = ground (
  arith,
  Reach-Kept kernel (Reach-below kernel r),
  Reach-IsCounted (cond_var_refines_lock kernel (Reach-below kernel r)),
  tally-places (λ (p : Local). is_holder (lock_place p)) s.threads,
  tally-map is_holder lock_place (places s.threads),
  tally-places is_counted s.threads,
  tally-places is_past_owner s.threads,
)
