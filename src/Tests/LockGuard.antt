-- ===== src/Tests/LockGuard.antt =====
-- The life of a `lock_guard` of evenk/synch.h.
use evenk.Prelude.{◌≡◌, true, false, some, List, [], ◌∷◌, ◌++◌, refl}
use evenk.LockGuard.Defs.{
  locked, unlocked, locking, Op, do_lock, do_try_lock, do_unlock, lock, try_lock, unlock, perform,
  run, lock_guard, destroy,
}
use evenk.LockGuard.Balance.{follow, during, guard_after, lock_guard_balance}

abbrev ops : List Op
ops = do_lock true ∷ do_unlock ∷ do_unlock ∷ do_try_lock true ∷ []

lock_guard_balance_example :
    (follow false (during (locking true) ops) ≡ some (guard_after (locking true) ops).owns_lock)
    × (follow false (during (locking true) ops ++ destroy (guard_after (locking true) ops))
        ≡ some false)
lock_guard_balance_example = lock_guard_balance (locking true) ops

calls_of_ops : during (locking true) ops ≡ locked ∷ unlocked ∷ locked ∷ []
unfolding lock_guard lock try_lock unlock perform run
calls_of_ops = refl
