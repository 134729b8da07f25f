-- ===== src/Tests/FutexCondVar.antt =====
-- A thread that waits at a `futex_cond_var` of evenk/synch.h, and one that calls `notify_all`.
use evenk.Prelude.{ℕ, ◌≡◌, ◌≤◌, ◌<◌, ◌⊎◌, Bool, true, false, List, [], ◌∷◌, refl, arith}
use evenk.Prelude.Threads.{tally}
use evenk.FutexLock.Moves as Lock
use evenk.FutexLock.Wakeups.{is_sleeper, is_active}
use evenk.FutexCondVar.Moves.{
  Local, in_lock, loading, blocked, added, Words, store_owner, count_in, load_value, unlock_sub,
  notify_add,
}
use evenk.FutexCondVar.Steps.{
  System, lock_move, begin_wait, do_store, do_count, do_load, do_unlock, notify, move, cond_sleep,
  Reach, start, later,
}
use evenk.FutexCondVar.Kept.{is_stale, is_broadcasting}
use evenk.FutexCondVar.Refines.{lock_system, cond_var_refines_lock}
use evenk.FutexCondVar.Wakeups.{is_blocked, cond_var_wakeups}
use evenk.Tests.Locks.{linux}

abbrev words : (lock futex count : ℕ) (has_owner : Bool) → Words
words lock futex count has_owner = record {
  lock = lock;
  futex = futex;
  count = count;
  has_owner = has_owner;
  notified = futex;
  broadcast = futex;
}

abbrev idle : List Local
idle = in_lock Lock.outside ∷ []

owned : Reach linux (record { words = words 1 0 0 false; threads = in_lock Lock.owner ∷ idle })
unfolding Lock.lock_attempt
owned =
    later
      (later (start (in_lock Lock.outside ∷ idle) (omega arith) refl)
        (move [] idle (lock_move _ (Lock.begin_lock 0))))
      (move [] idle (lock_move _ (Lock.attempt 0)))

counted_in : Reach linux (record { words = words 1 0 1 true; threads = loading ∷ idle })
unfolding store_owner count_in
counted_in =
    later (later (later owned (move [] idle (begin_wait _))) (move [] idle (do_store _)))
      (move [] idle (do_count _))

asleep : Reach linux (record { words = words 0 0 1 true; threads = blocked 0 ∷ idle })
unfolding load_value unlock_sub Lock.unlock
asleep =
    later (later (later counted_in (move [] idle (do_load _))) (move [] idle (do_unlock _ 0)))
      (cond_sleep [] idle _ 0 refl)

abbrev told : System
told = record { words = words 0 1 1 true; threads = blocked 0 ∷ added true false ∷ [] }

told_reached : Reach linux told
unfolding notify_add
told_reached = later asleep (move (blocked 0 ∷ []) [] (notify true false _))

cond_var_refines_lock_example : Lock.Reach linux (lock_system told)
cond_var_refines_lock_example = cond_var_refines_lock linux told_reached

cond_var_wakeups_example :
    (tally is_blocked told.threads ≤ 1)
    × ((tally (is_stale 1) told.threads ≡ 0) ⊎ (0 < tally is_broadcasting told.threads))
    × ((tally is_sleeper (lock_system told).threads ≡ 0)
        ⊎ (0 < tally is_active (lock_system told).threads))
cond_var_wakeups_example = cond_var_wakeups linux told_reached (omega arith)
