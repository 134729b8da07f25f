-- ===== src/SpinLock/Flag.antt =====
-- A lock in one flag, and any number of threads that use it.
use evenk.Prelude.{ℕ, ◌+◌, ◌≡◌, Bool, false, List, ◌∷◌, ◌++◌, arith, if◌then◌else◌}
use evenk.Prelude.Threads.{tally, rest, tally-at}

-- Where a thread stands.
pub data Local : Type 0 where
  outside : Local
  trying : Local  -- before the exchange of `lock`
  pausing : Local  -- the exchange failed; `backoff()` is next
  owner : Local

abbrev pub is_owner : Local → ℕ
is_owner owner = 1
is_owner _ = 0

-- The flag tells whether one thread owns the lock.
abbrev pub IsCounted : Bool → ℕ → Type 0
IsCounted flag owners = owners ≡ (if flag then 1 else 0)

-- The operations of a lock class, each the new flag with the thread's next place, and what a class
-- owes to its clients: no operation breaks the count, whatever number of others own the lock.
pub record FlagLock : Type 0 where
  pub exchange : Bool → Bool × Local  -- in `lock`
  pub pause : Bool → Bool × Local  -- the wait in `lock`
  pub try_lock : Bool → Bool × Local
  pub unlock : Bool → Bool × Local
  pub exchange_keeps :
      (flag : Bool) (n : ℕ)
      → IsCounted flag n
      → IsCounted (exchange flag).0 (is_owner (exchange flag).1 + n)
  pub pause_keeps :
      (flag : Bool) (n : ℕ)
      → IsCounted flag n
      → IsCounted (pause flag).0 (is_owner (pause flag).1 + n)
  pub try_lock_keeps :
      (flag : Bool) (n : ℕ)
      → IsCounted flag n
      → IsCounted (try_lock flag).0 (is_owner (try_lock flag).1 + n)
  pub unlock_keeps :
      (flag : Bool) (n : ℕ)
      → IsCounted flag (1 + n)
      → IsCounted (unlock flag).0 (is_owner (unlock flag).1 + n)

pub record System : Type 0 where
  pub flag : Bool
  pub threads : List Local

module _ (lock : FlagLock) where
  pub data Move (flag : Bool) : Local → Bool × Local → Type 0 where
    begin : Move flag outside (flag, trying)
    try : Move flag outside (lock.try_lock flag)
    grab : Move flag trying (lock.exchange flag)
    wait : Move flag pausing (lock.pause flag)
    leave : Move flag owner (lock.unlock flag)

  pub data Step : System → System → Type 0 where
    move :
        (before after : List Local) {flag : Bool} {p : Local} {next : Bool × Local}
        → Move flag p next
        → Step
            (record { flag = flag; threads = before ++ p ∷ after })
            (record { flag = next.0; threads = before ++ next.1 ∷ after })

  pub data Reach : System → Type 0 where
    start :
        (ts : List Local) → tally is_owner ts ≡ 0 → Reach (record { flag = false; threads = ts })
    later : {s t : System} → Reach s → Step s t → Reach t

module _ {lock : FlagLock} where
  Move-IsCounted :
      {flag : Bool} {p : Local} {next : Bool × Local} (n : ℕ)
      → Move lock flag p next
      → IsCounted flag (is_owner p + n)
      → IsCounted next.0 (is_owner next.1 + n)
  Move-IsCounted n begin c = c
  Move-IsCounted {flag} n try c = lock.try_lock_keeps flag n (omega arith)
  Move-IsCounted {flag} n grab c = lock.exchange_keeps flag n (omega arith)
  Move-IsCounted {flag} n wait c = lock.pause_keeps flag n (omega arith)
  Move-IsCounted {flag} n leave c = lock.unlock_keeps flag n c

  Step-IsCounted :
      {s t : System}
      → Step lock s t
      → IsCounted s.flag (tally is_owner s.threads)
      → IsCounted t.flag (tally is_owner t.threads)
  Step-IsCounted (move before after {p} {next} mv) c =
      rw (tally-at is_owner before after next.1) (
        Move-IsCounted (rest is_owner before after) mv (rw (tally-at is_owner before after p) at c))

  -- In every reachable state of a lock in one flag, one thread owns the lock if the flag is set, and
  -- none if it is clear.
  pub owners-eq-flag :
      {s : System} → Reach lock s → tally is_owner s.threads ≡ (if s.flag then 1 else 0)
  owners-eq-flag (start ts free) = free
  owners-eq-flag (later r st) = Step-IsCounted st (owners-eq-flag r)
