-- ===== src/FutexCondVar/Refines.antt =====
-- The lock beside a `futex_cond_var` of evenk/synch.h is a `futex_lock` in use.
use evenk.Prelude.{
  ◌≤◌, ◌≡◌, ◌⊎◌, inl, inr, Bool, true, false, List, [], ◌∷◌, ◌++◌, map, refl, ap, ◌∙◌, arith,
}
use evenk.Prelude.Threads.{tally}
use evenk.Kernel.{Kernel}
use evenk.FutexLock.Moves as Lock
use evenk.FutexCondVar.Moves.{
  Local, in_lock, waking, to_wait, blocked, counted, requeueing, Words, lock_place, back, at_lock,
  at_cond, resume_lock, resume_cond, resume, requeue_all,
}
use evenk.FutexCondVar.Steps.{
  System, in_unlock, in_wait, Step, move, lock_sleep, lock_wake, cond_sleep, cond_wake,
  cond_requeue, is_inside, Reach, start, later,
}
use evenk.FutexCondVar.OnLock.{
  OnLock, same, goes, comes_back, Move-OnLock, map-at, at_lock-asleep, resume-resume,
  one-Rejoins_at, OneWakes-Rejoins, requeue-Rejoins, none_blocked-resume, still_at, back_at,
}

-- The lock, as the threads use it.
abbrev pub lock_system : System → Lock.System
lock_system s = record { word = s.words.lock; threads = map lock_place s.threads }

ap_threads :
    (m : Words) (ts us : List Local)
    → map lock_place us ≡ map lock_place ts
    → lock_system (record { words = m; threads = us })
      ≡ lock_system (record { words = m; threads = ts })
ap_threads m ts us e = rw e refl

place_inside : (p : Local) → Lock.is_inside (lock_place p) ≤ is_inside p
place_inside (in_lock p) = ground arith
place_inside p = ground arith

map-inside : (ts : List Local) → tally Lock.is_inside (map lock_place ts) ≤ tally is_inside ts
map-inside [] = omega arith
map-inside (p ∷ ts) = omega (arith, place_inside p, map-inside ts)

module _ (kernel : Kernel) where
  abbrev Refines : System → System → Type 0
  Refines s t = (lock_system t ≡ lock_system s) ⊎ Lock.Step kernel (lock_system s) (lock_system t)

  Move-Refines :
      (before after : List Local) (m m' : Words) (p p' : Local)
      → OnLock m.lock (lock_place p) m'.lock (lock_place p')
      → Refines
          (record { words = m; threads = before ++ p ∷ after })
          (record { words = m'; threads = before ++ p' ∷ after })
  Move-Refines before after m m' p p' (same e e') =
      inl (rw (map-at before after p, map-at before after p', e, e') refl)
  Move-Refines before after m m' p p' (goes mv) = inr (
      rw (map-at before after p, map-at before after p')
        (Lock.move (map lock_place before) (map lock_place after) mv))
  Move-Refines before after m m' p p' (comes_back e o x) = inr (
      rw (map-at before after p, map-at before after p', e, o, x)
        (Lock.rejoin m.lock (one-Rejoins_at (map lock_place before) (map lock_place after))))

  Wakes-Refines :
      (before after : List Local) (m : Words) (bs : List Bool) (p p' : Local)
      → lock_place p ≡ Lock.waking
      → lock_place p' ≡ Lock.outside
      → kernel.Wakes (map at_lock (before ++ p' ∷ after)) bs
      → Refines
          (record { words = m; threads = before ++ p ∷ after })
          (record { words = m; threads = resume resume_lock bs (before ++ p' ∷ after) })
  Wakes-Refines before after m bs p p' e e' k = inr (
      rw
        (
          resume-resume bs (before ++ p' ∷ after),
          map-at before after p,
          map-at before after p',
          e,
          e',
        )
        (Lock.wake (map lock_place before) (map lock_place after) m.lock bs
          (rw (at_lock-asleep (before ++ p' ∷ after), map-at before after p', e') at k)))

  -- Threads that are let go from the word of the condition variable.
  Rejoins-Refines :
      (m : Words) (ts us vs : List Local)
      → map lock_place us ≡ map lock_place ts
      → Lock.Rejoins true (map lock_place us) (map lock_place vs)
      → Refines (record { words = m; threads = ts }) (record { words = m; threads = vs })
  Rejoins-Refines m ts us vs e r = inr (Lock.rejoin m.lock (rw e at r))

  Step-Refines : {s t : System} → Step kernel s t → Refines s t
  Step-Refines (move before after {m} {m'} {p} {p'} mv) =
      Move-Refines before after m m' p p' (Move-OnLock mv)
  Step-Refines (lock_sleep before after m b) = inr (
      rw (map-at before after (in_lock Lock.to_wait), map-at before after (in_lock Lock.asleep))
        (Lock.sleep (map lock_place before) (map lock_place after) m.lock b))
  Step-Refines (lock_wake before after m bs in_unlock k) =
      Wakes-Refines before after m bs (in_lock Lock.waking) (in_lock Lock.outside) refl refl k
  Step-Refines (lock_wake before after m bs (in_wait value) k) =
      Wakes-Refines before after m bs (waking value) (to_wait value) refl refl k
  Step-Refines (cond_sleep before after m value b) =
      Move-Refines before after m m (to_wait value) (blocked value) (same refl refl)
  Step-Refines (cond_wake before after m bs holds k) =
      let us = before ++ back holds ∷ after in
      let e = back_at before after (counted false holds) (back holds) refl in
      elim (kernel.wakes_one (map at_cond us) bs k) [
        | inl (free, bs-eq) ↦ inl (
            ap_threads m (before ++ counted false holds ∷ after) (resume resume_cond bs us)
              (none_blocked-resume us bs bs-eq ∙ e))
        | inr one ↦
            Rejoins-Refines m (before ++ counted false holds ∷ after) us (resume resume_cond bs us)
              e (OneWakes-Rejoins us bs one)
      ]
  Step-Refines (cond_requeue before after m ys holds k) =
      let us = before ++ back holds ∷ after in
      let e = back_at before after (requeueing holds) (back holds) refl in
      elim (kernel.requeues_all (map at_cond us) ys k) [
        | inl some_woken ↦
            Rejoins-Refines m (before ++ requeueing holds ∷ after) us (requeue_all ys us) e
              (requeue-Rejoins us some_woken refl)
        | inr (free, still) ↦ inl (
            ap_threads m (before ++ requeueing holds ∷ after) (requeue_all ys us)
              (ap (map lock_place) (still_at us still free refl) ∙ e))
      ]

  -- Whatever threads do with a `futex_lock` and a `futex_cond_var`, the lock, with the places of the
  -- threads in it, is in a state that the system of `futex_lock` reaches.
  pub cond_var_refines_lock : {s : System} → Reach kernel s → Lock.Reach kernel (lock_system s)
  cond_var_refines_lock (start ts few out) =
      Lock.start (map lock_place ts) (omega (arith, map-inside ts))
  cond_var_refines_lock (later {s} {t} r st) = elim (Step-Refines st) [
    | inl e ↦ rw e (cond_var_refines_lock r)
    | inr step ↦ Lock.later (cond_var_refines_lock r) step
  ]
