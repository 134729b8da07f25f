-- ===== src/Prelude/Threads.antt =====
-- Threads as a list of their local states: a step of one thread replaces one entry, and a weight
-- summed over the list counts the threads in some condition.
use Prim.Native.Nat.{ℕ, ◌+◌, ◌≤◌, ◌<◌}
use native.Mathlib.Decide.{dec_lt}
use mathlib.Core.Path.{◌≡◌, refl, ap}
use mathlib.Core.List.{List, [], ◌∷◌, ◌++◌}
use native.Mathlib.Omega.{arith}
use evenk.Prelude.Tests.{length}

module _ {ℓ} {A : Type ℓ} where
  abbrev pub tally : (A → ℕ) → List A → ℕ
  tally w [] = 0
  tally w (x ∷ xs) = w x + tally w xs

  -- The weight of the threads other than the one that moves.
  abbrev pub rest : (A → ℕ) → List A → List A → ℕ
  rest w before after = tally w before + tally w after

  pub tally-at :
      (w : A → ℕ) (before after : List A) (x : A)
      → tally w (before ++ x ∷ after) ≡ w x + rest w before after
  tally-at w [] after x = omega arith
  tally-at w (y ∷ before) after x = omega (arith, tally-at w before after x)

  pub tally-append : (w : A → ℕ) (xs ys : List A) → tally w (xs ++ ys) ≡ tally w xs + tally w ys
  tally-append w [] ys = omega arith
  tally-append w (x ∷ xs) ys = omega (arith, tally-append w xs ys)

  pub tally-le_length : (w : A → ℕ) → ((x : A) → w x ≤ 1) → (xs : List A) → tally w xs ≤ length xs
  tally-le_length w small [] = omega arith
  tally-le_length w small (x ∷ xs) = omega (arith, small x, tally-le_length w small xs)

  -- A weight below another thread by thread is below it in total.
  pub tally-le : (u w : A → ℕ) → ((x : A) → u x ≤ w x) → (xs : List A) → tally u xs ≤ tally w xs
  tally-le u w bound [] = omega arith
  tally-le u w bound (x ∷ xs) = omega (arith, bound x, tally-le u w bound xs)

  -- A weight that the sum of two others bounds thread by thread is bounded in total.
  pub tally-le_add :
      (u v w : A → ℕ)
      → ((x : A) → u x ≤ v x + w x)
      → (xs : List A) → tally u xs ≤ tally v xs + tally w xs
  tally-le_add u v w bound [] = omega arith
  tally-le_add u v w bound (x ∷ xs) = omega (arith, bound x, tally-le_add u v w bound xs)

  -- The same of the threads other than the one that moves.
  pub rest-le :
      (u w : A → ℕ)
      → ((x : A) → u x ≤ w x)
      → (before after : List A) → rest u before after ≤ rest w before after
  rest-le u w bound before after =
      omega (arith, tally-le u w bound before, tally-le u w bound after)

  pub rest-le_add :
      (u v w : A → ℕ)
      → ((x : A) → u x ≤ v x + w x)
      → (before after : List A) → rest u before after ≤ rest v before after + rest w before after
  rest-le_add u v w bound before after =
      omega (arith, tally-le_add u v w bound before, tally-le_add u v w bound after)

  -- One thread is replaced.
  pub replace-le :
      (w : A → ℕ) (before after : List A) (x y : A)
      → w x ≤ w y
      → tally w (before ++ x ∷ after) ≤ tally w (before ++ y ∷ after)
  replace-le w before after x y bound =
      omega (arith, tally-at w before after x, tally-at w before after y)

  -- A thread of some weight stands somewhere.
  pub tally-find :
      (w : A → ℕ) (xs : List A)
      → 0 < tally w xs
      → (before : List A) × (x : A) × (after : List A) × (xs ≡ before ++ x ∷ after) × (0 < w x)
  tally-find w [] some_weight = absurd (omega arith)
  tally-find w (x ∷ xs) some_weight = elim (dec_lt 0 (w x)) [
    | yes here ↦ ([], x, xs, refl, here)
    | no away ↦
        let (before, y, after, e, here) = tally-find w xs (omega arith) in
        (x ∷ before, y, after, ap (λ ys. x ∷ ys) e, here)
  ]
