-- ===== src/Backoff/Ceiling.antt =====
-- When the counting policies of evenk/backoff.h reach their ceiling, and when they never do.
use evenk.Prelude.{ℕ, zero, suc, ◌+◌, ◌-◌, ◌*◌, ◌^◌, ◌<◌, min, ◌≡◌, false, ltb, arith}
use native.Mathlib.Nat.{pow-suc}
use evenk.Prelude.Bits.{pow-pos}
use evenk.Backoff.Calls.{Pauser, linear_backoff, exponential_backoff, after, reaches, Call}

-- The policies that count: `linear_backoff` with its step, and `exponential_backoff`.
pub data Counting : Type 0 where
  linear : (step : ℕ) → Counting
  exponential : Counting

abbrev pub counting : Pauser → Counting → (ceiling : ℕ) → Call ℕ
counting pause (linear step) ceiling = linear_backoff pause ceiling step
counting pause exponential ceiling = exponential_backoff pause ceiling

-- The count after `k` calls if there were no ceiling.
abbrev pub free_count : Counting → (k : ℕ) → ℕ
free_count (linear step) k = k * step
free_count exponential k = 2 ^ k - 1

-- How far the count may go above the ceiling before it is cut.
abbrev pub overshoot : Counting → (ceiling : ℕ) → ℕ
overshoot (linear step) ceiling = step
overshoot exponential ceiling = ceiling + 1

module _ (pause : Pauser) where
  linear_step :
      (ceiling step k count : ℕ)
      → ceiling + step < 2 ^ 32
      → count ≡ min (k * step) ceiling
      → ((linear_backoff pause ceiling step count).0 ≡ ltb ceiling (suc k * step))
        × ((linear_backoff pause ceiling step count).2 ≡ min (suc k * step) ceiling)
  unfolding linear_backoff
  linear_step ceiling step k count fits e = ground arith

  linear_count :
      (ceiling step k : ℕ)
      → ceiling + step < 2 ^ 32
      → after (linear_backoff pause ceiling step) k 0 ≡ min (k * step) ceiling
  linear_count ceiling step zero fits = omega arith
  linear_count ceiling step (suc k) fits =
      (linear_step ceiling step k _ fits (linear_count ceiling step k fits)).1

  linear_backoff-reaches :
      (ceiling step k : ℕ)
      → ceiling + step < 2 ^ 32
      → (after (linear_backoff pause ceiling step) k 0 ≡ min (k * step) ceiling)
        × (reaches (linear_backoff pause ceiling step) k 0 ≡ ltb ceiling (suc k * step))
  linear_backoff-reaches ceiling step k fits = (
    linear_count ceiling step k fits,
    (linear_step ceiling step k _ fits (linear_count ceiling step k fits)).0,
  )

  exponential_step :
      (ceiling k count : ℕ)
      → 2 * ceiling + 1 < 2 ^ 32
      → count ≡ min (2 ^ k - 1) ceiling
      → ((exponential_backoff pause ceiling count).0 ≡ ltb ceiling (2 ^ suc k - 1))
        × ((exponential_backoff pause ceiling count).2 ≡ min (2 ^ suc k - 1) ceiling)
  unfolding exponential_backoff
  exponential_step ceiling k count fits e = ground (arith, pow-suc 2 k, pow-pos k)

  exponential_count :
      (ceiling k : ℕ)
      → 2 * ceiling + 1 < 2 ^ 32
      → after (exponential_backoff pause ceiling) k 0 ≡ min (2 ^ k - 1) ceiling
  exponential_count ceiling zero fits = omega arith
  exponential_count ceiling (suc k) fits =
      (exponential_step ceiling k _ fits (exponential_count ceiling k fits)).1

  exponential_backoff-reaches :
      (ceiling k : ℕ)
      → 2 * ceiling + 1 < 2 ^ 32
      → (after (exponential_backoff pause ceiling) k 0 ≡ min (2 ^ k - 1) ceiling)
        × (reaches (exponential_backoff pause ceiling) k 0 ≡ ltb ceiling (2 ^ suc k - 1))
  exponential_backoff-reaches ceiling k fits = (
    exponential_count ceiling k fits,
    (exponential_step ceiling k _ fits (exponential_count ceiling k fits)).0,
  )

  -- From a fresh `linear_backoff` or `exponential_backoff`, where the ceiling and what the count may go
  -- above it fit in 32 bits: after `k` calls the count is `k * step`, or `2 ^ k - 1`, or the ceiling if
  -- that is less, and the next call says that the ceiling is reached exactly when the count of `k + 1`
  -- calls is above it.
  pub counting-reaches :
      (policy : Counting) (ceiling k : ℕ)
      → ceiling + overshoot policy ceiling < 2 ^ 32
      → (after (counting pause policy ceiling) k 0 ≡ min (free_count policy k) ceiling)
        × (reaches (counting pause policy ceiling) k 0 ≡ ltb ceiling (free_count policy (suc k)))
  counting-reaches (linear step) ceiling k fits = linear_backoff-reaches ceiling step k fits
  counting-reaches exponential ceiling k fits = exponential_backoff-reaches ceiling k (omega arith)

  -- With the largest 32-bit number as the ceiling no call of `linear_backoff` or of
  -- `exponential_backoff`, at any count, ever says that the ceiling is reached.
  unreachable_ceiling :
      (step count : ℕ)
      → ((linear_backoff pause (2 ^ 32 - 1) step count).0 ≡ false)
        × ((exponential_backoff pause (2 ^ 32 - 1) count).0 ≡ false)
  unfolding linear_backoff exponential_backoff
  unreachable_ceiling step count = ground arith
