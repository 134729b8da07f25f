-- ===== src/FutexCondVar/Kept.antt =====
-- What holds of the members of `futex_cond_var` of evenk/synch.h between two accesses.
use evenk.Prelude.{ℕ, ◌+◌, ◌^◌, ◌<◌, ◌≤◌, ◌≡◌, true, ltb, if◌then◌else◌, arith}
use evenk.FutexCondVar.Moves.{
  Local, counting, loading, unlocking, releasing, waking, to_wait, blocked, requeued, awake, added,
  counted, requeueing, Words, store_owner, count_in, load_value, unlock_sub, unlock_store,
  count_out, notify_add, load_count, load_owner,
}
use evenk.FutexCondVar.Steps.{
  Move, lock_move, begin_wait, do_store, do_count, do_load, do_unlock, do_zero, wait_returns,
  interrupted, interrupted_there, count_off, notify, see_count, see_owner,
}

-- A thread in `wait` that `count_` counts.
abbrev pub is_counted : Local → ℕ
is_counted loading = 1
is_counted (unlocking value) = 1
is_counted (releasing value) = 1
is_counted (waking value) = 1
is_counted (to_wait value) = 1
is_counted (blocked value) = 1
is_counted requeued = 1
is_counted awake = 1
is_counted _ = 0

-- A thread that goes on only because `owner_` is set.
abbrev pub is_past_owner : Local → ℕ
is_past_owner counting = 1
is_past_owner (counted all holds) = 1
is_past_owner p = is_counted p

-- Blocked with a value that is older than the last `notify_all`.
abbrev pub is_stale : (broadcast : ℕ) → Local → ℕ
is_stale broadcast (blocked value) = if ltb value broadcast then 1 else 0
is_stale broadcast _ = 0

-- In `notify_all`, after its `fetch_add`.
abbrev pub is_broadcasting : Local → ℕ
is_broadcasting (added all holds) = if all then 1 else 0
is_broadcasting (counted all holds) = if all then 1 else 0
is_broadcasting (requeueing holds) = 1
is_broadcasting _ = 0

-- Of so many threads, so many are counted, and so on.
pub record Kept (m : Words) (threads counted past_owner stale broadcasting : ℕ) : Type 0 where
  pub few : threads < 2 ^ 32
  pub count : m.count ≡ counted
  pub owner : 0 < past_owner → m.has_owner ≡ true
  pub added : m.notified < 2 ^ 32 → m.futex ≡ m.notified
  pub since : m.broadcast ≤ m.notified
  pub told : m.notified < 2 ^ 32 → 0 < stale → 0 < broadcasting

-- A move of one thread, with the weights of the others.
pub Move-Kept :
    {m m' : Words} {p p' : Local} (n c o b : ℕ) (stale : ℕ → ℕ)
    → c ≤ n
    → c ≤ o
    → ((k : ℕ) → stale k ≤ c)
    → Move m p m' p'
    → Kept m
        (1 + n)
        (is_counted p + c)
        (is_past_owner p + o)
        (is_stale m.broadcast p + stale m.broadcast)
        (is_broadcasting p + b)
    → Kept m'
        (1 + n)
        (is_counted p' + c)
        (is_past_owner p' + o)
        (is_stale m'.broadcast p' + stale m'.broadcast)
        (is_broadcasting p' + b)
unfolding store_owner count_in load_value unlock_sub unlock_store count_out notify_add load_count
    load_owner
Move-Kept n c o b stale few past bound (lock_move m mv) i = ground (arith, i)
Move-Kept n c o b stale few past bound (begin_wait m) i = ground (arith, i)
Move-Kept n c o b stale few past bound (do_store m) i = ground (arith, i)
Move-Kept n c o b stale few past bound (do_count m) i = ground (arith, i)
Move-Kept n c o b stale few past bound (do_load m) i = ground (arith, i)
Move-Kept n c o b stale few past bound (do_unlock m value) i = ground (arith, i)
Move-Kept n c o b stale few past bound (do_zero m value) i = ground (arith, i)
Move-Kept n c o b stale few past bound (wait_returns m value) i = ground (arith, i)
Move-Kept n c o b stale few past bound (interrupted m value) i = ground (arith, i)
Move-Kept n c o b stale few past bound (interrupted_there m) i = ground (arith, i)
Move-Kept n c o b stale few past bound (count_off m) i = ground (arith, i)
Move-Kept n c o b stale few past bound (notify all holds m) i = ground (arith, i)
Move-Kept n c o b stale few past bound (see_count all holds m) i =
    ground (arith, i, bound m.broadcast)
Move-Kept n c o b stale few past bound (see_owner holds m) i = ground (arith, i)
