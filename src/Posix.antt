-- ===== src/Posix.antt =====
-- The classes `posix_mutex` and `posix_cond_var` of evenk/synch.h. Each member function makes one call of
-- pthreads; what that returns, `rc`, is an argument.
use evenk.Prelude.{ℕ, ◌≡◌, ◌≢◌, Bool, arith, ◌==◌, if◌then◌else◌}
use evenk.Basic.{End, returns, throw_system_error}

-- `Nothing`: a function that returns `void`.
abbrev pub Nothing : Type 0
Nothing = Unit {0}

-- A function that is `noexcept` ends the program where it would throw.
pub data Outcome : Type 0 where
  ended : Outcome
  terminates : Outcome

abbrev pub noexcept : End Nothing → Outcome
noexcept (returns nothing) = ended
noexcept _ = terminates

abbrev pub checked : (rc : ℕ) → End Nothing → End Nothing
checked rc otherwise = if rc == 0 then returns tt else otherwise

-- `posix_mutex`
unfoldable pub lock : (rc : ℕ) → End Nothing
unfolding throw_system_error
lock rc = checked rc (throw_system_error rc)

unfoldable pub try_lock : (rc : ℕ) → Bool
try_lock rc = rc == 0

-- What `pthread_mutex_unlock` returns is dropped.
unfoldable pub unlock : (rc : ℕ) → Nothing
unlock rc = tt

-- `posix_cond_var`
unfoldable pub wait : (rc : ℕ) → Outcome
unfolding throw_system_error
wait rc = noexcept (checked rc (throw_system_error rc))

unfoldable pub notify_one : (rc : ℕ) → Nothing
notify_one rc = tt

unfoldable pub notify_all : (rc : ℕ) → Nothing
notify_all rc = tt

-- An error of `pthread_cond_wait` ends the program, and no caller sees the exception.
wait-terminates : (rc : ℕ) → rc ≢ 0 → wait rc ≡ terminates
unfolding wait
wait-terminates rc error = ground arith
