-- ===== src/FutexLock/Moves.antt =====
-- `futex_lock` of evenk/synch.h, one atomic access at a time, and any number of threads that use it.
use evenk.Prelude.{
  ℕ, ◌+◌, ◌-◌, ◌^◌, ◌≡◌, Bool, true, false, List, [], ◌∷◌, ◌++◌, map, ◌==◌, u32, if◌then◌else◌,
}
use evenk.Prelude.Threads.{tally}
use evenk.Kernel.{Kernel}

-- Where a thread stands.
pub data Local : Type 0 where
  outside : Local
  trying : Local  -- the compare-exchange in the loop of `lock`
  failed : (value : ℕ) → Local  -- it failed and read `value`; `backoff` is next
  exchanging : Local  -- `exchange(2)`, the first or that of the inner loop
  to_wait : Local  -- `futex_wait(futex_, 2)`
  asleep : Local  -- blocked there in the kernel
  owner : Local  -- after `lock` or a successful `try_lock`
  releasing : Local  -- in `unlock`, after a `fetch_sub` that found waiters
  waking : Local  -- in `unlock`, after `store(0)`

-- `lock`, between two accesses: the loop head, with `reached` the result of `backoff()`.
unfoldable pub after_backoff : Bool → ℕ → Local
after_backoff reached value =
    if reached then (if value == 2 then to_wait else exchanging) else trying

-- `compare_exchange_strong(value, 1)` with 0 in `value`: the new word and the next place, given the
-- place after a failure that read `w`.
unfoldable pub compare_exchange : (ℕ → Local) → ℕ → ℕ × Local
compare_exchange lost w = if w == 0 then (1, owner) else (w, lost w)

unfoldable pub try_lock : ℕ → ℕ × Local
unfolding compare_exchange
try_lock w = compare_exchange (λ value. outside) w

unfoldable pub lock_attempt : ℕ → ℕ × Local
unfolding compare_exchange
lock_attempt w = compare_exchange failed w

-- `exchange(2)`: the lock is taken if the old word was 0.
unfoldable pub exchange_two : ℕ → ℕ × Local
exchange_two w = (2, if w == 0 then owner else to_wait)

-- `fetch_sub(1) != 1`
unfoldable pub unlock : ℕ → ℕ × Local
unlock w = (u32 (w + 2 ^ 32 - 1), if w == 1 then outside else releasing)

unfoldable pub store_zero : ℕ × Local
store_zero = (0, waking)

abbrev pub is_asleep : Local → Bool
is_asleep asleep = true
is_asleep _ = false

-- A thread that the kernel no longer blocks returns from `futex_wait`.
abbrev pub resume : List Bool → List Local → List Local
resume [] ts = ts
resume (b ∷ bs) [] = []
resume (b ∷ bs) (asleep ∷ ts) = (if b then asleep else exchanging) ∷ resume bs ts
resume (b ∷ bs) (p ∷ ts) = p ∷ resume bs ts

pub record System : Type 0 where
  pub word : ℕ
  pub threads : List Local

-- What one thread does by itself.
pub data Move : ℕ → Local → ℕ → Local → Type 0 where
  begin_lock : (w : ℕ) → Move w outside w trying
  do_try_lock : (w : ℕ) → Move w outside (try_lock w).0 (try_lock w).1
  attempt : (w : ℕ) → Move w trying (lock_attempt w).0 (lock_attempt w).1
  back_off : (reached : Bool) (w value : ℕ) → Move w (failed value) w (after_backoff reached value)
  exchange : (w : ℕ) → Move w exchanging (exchange_two w).0 (exchange_two w).1
  -- `futex_wait` returns with no wait, for another value or a signal, or goes to sleep.
  wait_returns : (w : ℕ) → Move w to_wait w exchanging
  interrupted : (w : ℕ) → Move w asleep w exchanging
  do_unlock : (w : ℕ) → Move w owner (unlock w).0 (unlock w).1
  store : (w : ℕ) → Move w releasing store_zero.0 store_zero.1

-- Threads come back to the lock from `futex_cond_var`: they are about to exchange 2 into the word, or
-- are blocked at it. `woken`: one of them is about to exchange.
pub data Rejoins : (woken : Bool) → List Local → List Local → Type 0 where
  nobody : Rejoins false [] []
  stays :
      {woken : Bool} {ts us : List Local} (p : Local)
      → Rejoins woken ts us
      → Rejoins woken (p ∷ ts) (p ∷ us)
  wakes :
      {ts us : List Local} (woken : Bool)
      → Rejoins woken ts us
      → Rejoins true (outside ∷ ts) (exchanging ∷ us)
  moves :
      {woken : Bool} {ts us : List Local}
      → Rejoins woken ts us
      → Rejoins woken (outside ∷ ts) (asleep ∷ us)

-- A thread is inside `lock` or `unlock`, or between the two.
abbrev pub is_inside : Local → ℕ
is_inside outside = 0
is_inside _ = 1

module _ (kernel : Kernel) where
  pub data Step : System → System → Type 0 where
    move :
        (before after : List Local) {w w' : ℕ} {p p' : Local}
        → Move w p w' p'
        → Step
            (record { word = w; threads = before ++ p ∷ after })
            (record { word = w'; threads = before ++ p' ∷ after })
    sleep :
        (before after : List Local) (w : ℕ)
        → kernel.Blocks w 2
        → Step
            (record { word = w; threads = before ++ to_wait ∷ after })
            (record { word = w; threads = before ++ asleep ∷ after })
    -- `futex_wake(futex_, 1)`
    wake :
        (before after : List Local) (w : ℕ) (bs : List Bool)
        → kernel.Wakes (map is_asleep (before ++ outside ∷ after)) bs
        → Step
            (record { word = w; threads = before ++ waking ∷ after })
            (record { word = w; threads = resume bs (before ++ outside ∷ after) })
    rejoin :
        (w : ℕ) {ts us : List Local}
        → Rejoins true ts us
        → Step (record { word = w; threads = ts }) (record { word = w; threads = us })

  pub data Reach : System → Type 0 where
    start : (ts : List Local) → tally is_inside ts ≡ 0 → Reach (record { word = 0; threads = ts })
    later : {s t : System} → Reach s → Step s t → Reach t
