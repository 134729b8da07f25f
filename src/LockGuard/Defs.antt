-- ===== src/LockGuard/Defs.antt =====
-- The class `lock_guard` of evenk/synch.h over any mutex. What the mutex answers is an argument of the
-- calls, and the calls that change the mutex are part of their results.
use evenk.Prelude.{Bool, true, false, List, [], ◌∷◌, ◌++◌, if◌then◌else◌}

-- A call that took the mutex, or gave it back.
pub data MutexCall : Type 0 where
  locked unlocked : MutexCall

-- The end of an operation: it returns, the answer of `try_lock` included, or throws a system error:
-- `resource_deadlock_would_occur`, `operation_not_permitted`, or that of the mutex.
pub data End : Type 0 where
  returned : End
  answered : Bool → End
  deadlock not_permitted mutex_error : End

-- `owns_lock_`; `mutex_` never changes.
pub record Guard : Type 0 where
  pub owns_lock : Bool

-- `lock`, with and without a back-off. `works`: whether the mutex is locked in the end; `posix_mutex`
-- throws an exception if `pthread_mutex_lock` fails.
unfoldable pub lock : (works : Bool) → Guard → End × Guard × List MutexCall
lock works g =
    if g.owns_lock
    then (deadlock, g, [])
    else if works
    then (returned, record { owns_lock = true }, locked ∷ [])
    else (mutex_error, g, [])

-- `got`: the answer of the mutex.
unfoldable pub try_lock : (got : Bool) → Guard → End × Guard × List MutexCall
try_lock got g =
    if g.owns_lock
    then (deadlock, g, [])
    else (answered got, record { owns_lock = got }, if got then locked ∷ [] else [])

unfoldable pub unlock : Guard → End × Guard × List MutexCall
unlock g =
    if g.owns_lock
    then (returned, record { owns_lock = false }, unlocked ∷ [])
    else (not_permitted, g, [])

-- The constructors, by their last argument. After a throw there is no guard, and no destructor runs.
pub data Start : Type 0 where
  locking : (works : Bool) → Start
  adopting deferring : Start
  trying : (got : Bool) → Start

unfoldable pub lock_guard : Start → End × Guard × List MutexCall
unfolding lock try_lock
lock_guard (locking works) = lock works (record { owns_lock = false })
lock_guard adopting = (returned, record { owns_lock = true }, [])
lock_guard deferring = (returned, record { owns_lock = false }, [])
lock_guard (trying got) = try_lock got (record { owns_lock = false })

-- The destructor.
unfoldable pub destroy : Guard → List MutexCall
destroy g = if g.owns_lock then unlocked ∷ [] else []

-- The operations of a guard between its constructor and its destructor.
pub data Op : Type 0 where
  do_lock : (works : Bool) → Op
  do_try_lock : (got : Bool) → Op
  do_unlock : Op

unfoldable pub perform : Op → Guard → End × Guard × List MutexCall
unfolding lock try_lock unlock
perform (do_lock works) g = lock works g
perform (do_try_lock got) g = try_lock got g
perform do_unlock g = unlock g

-- Operations in a row; one that throws does not end the life of the guard.
unfoldable pub run : List Op → Guard → Guard × List MutexCall
unfolding perform
run [] g = (g, [])
run (op ∷ ops) g =
    let (end, g', calls) = perform op g in let (g'', more) = run ops g' in (g'', calls ++ more)
