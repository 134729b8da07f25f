-- ===== src/LockGuard/Balance.antt =====
-- A `lock_guard` of evenk/synch.h uses its mutex as it must be used.
use evenk.Prelude.{
  ◌≡◌, Bool, true, false, Option, none, some, List, [], ◌∷◌, ◌++◌, arith, refl, ◌∙◌,
}
use evenk.LockGuard.Defs.{
  MutexCall, locked, unlocked, Guard, Start, locking, adopting, deferring, trying, lock_guard,
  destroy, Op, do_lock, do_try_lock, do_unlock, perform, run, lock, try_lock, unlock,
}

-- The mutex through a list of calls, from free or taken: `none` once a taken one is taken again, or a
-- free one given back.
abbrev pub follow : Bool → List MutexCall → Option Bool
follow held [] = some held
follow false (locked ∷ calls) = follow true calls
follow true (unlocked ∷ calls) = follow false calls
follow held (call ∷ calls) = none

follow-append :
    (held now : Bool) (calls more : List MutexCall)
    → follow held calls ≡ some now
    → follow held (calls ++ more) ≡ follow now more
follow-append held now [] more e = ground (arith, e)
follow-append false now (locked ∷ calls) more e = follow-append true now calls more e
follow-append true now (unlocked ∷ calls) more e = follow-append false now calls more e
follow-append false now (unlocked ∷ calls) more e = cc
follow-append true now (locked ∷ calls) more e = cc

perform-follow :
    (op : Op) (g : Guard) → follow g.owns_lock (perform op g).2 ≡ some (perform op g).1.owns_lock
unfolding perform lock try_lock unlock
perform-follow (do_lock works) g = ground arith
perform-follow (do_try_lock got) g = ground arith
perform-follow do_unlock g = ground arith

run-follow :
    (ops : List Op) (g : Guard) → follow g.owns_lock (run ops g).1 ≡ some (run ops g).0.owns_lock
unfolding run
run-follow [] g = refl
run-follow (op ∷ ops) g =
    let (end, g', calls) = perform op g in
    follow-append g.owns_lock g'.owns_lock calls (run ops g').1 (perform-follow op g)
    ∙ run-follow ops g'

-- Whether the caller has taken the mutex before the guard is made.
abbrev pub is_adopting : Start → Bool
is_adopting adopting = true
is_adopting _ = false

start-follow :
    (start : Start)
    → follow (is_adopting start) (lock_guard start).2 ≡ some (lock_guard start).1.owns_lock
unfolding lock_guard lock try_lock
start-follow (locking works) = ground arith
start-follow adopting = refl
start-follow deferring = refl
start-follow (trying got) = ground arith

destroy-follow : (g : Guard) → follow g.owns_lock (destroy g) ≡ some false
unfolding destroy
destroy-follow g = ground arith

-- The mutex during the life of a guard.
abbrev pub during : Start → List Op → List MutexCall
during start ops = (lock_guard start).2 ++ (run ops (lock_guard start).1).1

abbrev pub guard_after : Start → List Op → Guard
guard_after start ops = (run ops (lock_guard start).1).0

-- However a guard is made and whatever is done with it, also where a call throws: the guard takes its
-- mutex only when it has not, and gives it back only when it has; `owns_lock` says which; and after the
-- destructor the mutex is given back.
pub lock_guard_balance :
    (start : Start) (ops : List Op)
    → (follow (is_adopting start) (during start ops) ≡ some (guard_after start ops).owns_lock)
      × (follow (is_adopting start) (during start ops ++ destroy (guard_after start ops))
          ≡ some false)
lock_guard_balance start ops =
    let g = (lock_guard start).1 in
    let owned =
      follow-append (is_adopting start) g.owns_lock (lock_guard start).2 (run ops g).1
        (start-follow start)
      ∙ run-follow ops g in
    (
      owned,
      follow-append (is_adopting start) (guard_after start ops).owns_lock (during start ops)
            (destroy (guard_after start ops)) owned
          ∙ destroy-follow (guard_after start ops),
    )
