-- ===== src/Backoff/Calls.antt =====
-- The policies of evenk/backoff.h, one function for each `operator()`.
use evenk.Prelude.{
  ℕ, zero, suc, ◌+◌, ◌*◌, Bool, true, false, List, [], ◌∷◌, ltb, u32, if◌then◌else◌,
}

-- What a waiting thread executes. The template parameter `Pause` is the constructor that it uses.
pub data Pause : Type 0 where
  fence : Pause  -- std::atomic_signal_fence, of `cpu_cycle`
  relax : Pause  -- _mm_pause, of `cpu_relax`
  sleep : ℕ → Pause  -- ::nanosleep of so many nanoseconds
  give_up_cpu : Pause  -- std::this_thread::yield

-- `while (n--) body`
abbrev pub repeat : ℕ → Pause → List Pause
repeat zero p = []
repeat (suc n) p = p ∷ repeat n p

abbrev pub Pauser : Type 0
Pauser = ℕ → List Pause

unfoldable pub cpu_cycle : Pauser
cpu_cycle n = repeat n fence

unfoldable pub cpu_relax : Pauser
cpu_relax n = repeat n relax

unfoldable pub nanosleep : Pauser
nanosleep n = sleep n ∷ []

-- One call of a policy whose state is an `S`.
abbrev pub Call {ℓ} : Type ℓ → Type ℓ
Call S = S → Bool × List Pause × S

unfoldable pub no_backoff : Call (Unit {0})
no_backoff s = (true, [], s)

unfoldable pub yield_backoff : Call (Unit {0})
yield_backoff s = (false, give_up_cpu ∷ [], s)

module _ (pause : Pauser) where
  unfoldable pub const_backoff : ℕ → Call (Unit {0})
  const_backoff count s = (false, pause count, s)

  -- The state of the next two is the member `count_`, which starts at 0.
  unfoldable pub linear_backoff : (ceiling step : ℕ) → Call ℕ
  linear_backoff ceiling step count =
      let count' = u32 (count + step) in
      if ltb ceiling count' then (true, pause count, ceiling) else (false, pause count, count')

  unfoldable pub exponential_backoff : (ceiling : ℕ) → Call ℕ
  exponential_backoff ceiling count =
      let count' = u32 (count + (count + 1)) in
      if ltb ceiling count' then (true, pause count, ceiling) else (false, pause count, count')

  -- `factor` comes from the lock that waits: it is the number of tickets ahead.
  unfoldable pub proportional_backoff : (count factor : ℕ) → Call (Unit {0})
  proportional_backoff count factor s = (false, pause (u32 (count * factor)), s)

-- `proportional_adapter`: any other policy drops the factor.
unfoldable pub proportional_adapter {ℓ} : {S : Type ℓ} → Call S → ℕ → Call S
proportional_adapter call factor = call

pub record Composite {ℓ} (A B : Type ℓ) : Type ℓ where
  pub first : A
  pub second : B
  pub use_second : Bool

unfoldable pub composite {ℓ} : {A B : Type ℓ} → A → B → Composite A B
composite a b = record { first = a; second = b; use_second = false }

unfoldable pub composite_backoff {ℓ} : {A B : Type ℓ} → Call A → Call B → Call (Composite A B)
composite_backoff call_a call_b s =
    let (reached_b, paused_b, b) = call_b s.second in
    let (reached_a, paused_a, a) = call_a s.first in
    if s.use_second
    then (reached_b, paused_b, record s { second = b })
    else (false, paused_a, record s { first = a; use_second = reached_a })

-- The state after `k` calls, and the result of the call that follows them.
abbrev pub after {ℓ} : {S : Type ℓ} → Call S → ℕ → S → S
after call zero s = s
after call (suc k) s = (call (after call k s)).2

abbrev pub reaches {ℓ} : {S : Type ℓ} → Call S → ℕ → S → Bool
reaches call k s = (call (after call k s)).0
