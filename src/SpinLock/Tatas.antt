-- ===== src/SpinLock/Tatas.antt =====
-- The class `tatas_lock` of evenk/spinlock.h: after a failed exchange, `lock` only reads the flag
-- until it is clear.
use evenk.Prelude.{ℕ, ◌+◌, Bool, true, false, not, arith, if◌then◌else◌}
use evenk.SpinLock.Flag.{Local, outside, trying, pausing, owner, is_owner, IsCounted, FlagLock}

-- `lock_.exchange(true)` returns the old flag and sets it.
unfoldable pub exchange : Bool → Bool × Local
exchange flag = (true, if flag then pausing else owner)

-- `backoff()`, and then the load that ends the inner loop.
unfoldable pub pause : Bool → Bool × Local
pause flag = (flag, if flag then pausing else trying)

unfoldable pub try_lock : Bool → Bool × Local
try_lock flag = (true, if not flag then owner else outside)

unfoldable pub unlock : Bool → Bool × Local
unlock flag = (false, outside)

pub exchange_keeps :
    (flag : Bool) (n : ℕ)
    → IsCounted flag n
    → IsCounted (exchange flag).0 (is_owner (exchange flag).1 + n)
unfolding exchange
exchange_keeps flag n c = ground arith

pub pause_keeps :
    (flag : Bool) (n : ℕ)
    → IsCounted flag n
    → IsCounted (pause flag).0 (is_owner (pause flag).1 + n)
unfolding pause
pause_keeps flag n c = ground arith

pub try_lock_keeps :
    (flag : Bool) (n : ℕ)
    → IsCounted flag n
    → IsCounted (try_lock flag).0 (is_owner (try_lock flag).1 + n)
unfolding try_lock
try_lock_keeps flag n c = ground arith

pub unlock_keeps :
    (flag : Bool) (n : ℕ)
    → IsCounted flag (1 + n)
    → IsCounted (unlock flag).0 (is_owner (unlock flag).1 + n)
unfolding unlock
unlock_keeps flag n c = ground arith

abbrev pub tatas_lock : FlagLock
tatas_lock = record {
  exchange = exchange;
  pause = pause;
  try_lock = try_lock;
  unlock = unlock;
  exchange_keeps = exchange_keeps;
  pause_keeps = pause_keeps;
  try_lock_keeps = try_lock_keeps;
  unlock_keeps = unlock_keeps;
}
