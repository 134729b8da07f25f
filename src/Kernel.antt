-- ===== src/Kernel.antt =====
-- The futex calls of Linux, behind evenk/futex.h. The kernel is not part of the repository: it is a
-- record of what it may do, with the documented behaviour that the locks rely on as laws.
use evenk.Prelude.{map, ℕ, ◌≡◌, ◌⊎◌, Bool, true, false, List, [], ◌∷◌}

-- Exactly one blocked caller goes on; callers stand in a fixed order, `true` for a blocked one.
abbrev pub OneWakes : List Bool → List Bool → Type 0
OneWakes [] ys = ⊥
OneWakes (x ∷ xs) [] = ⊥
OneWakes (x ∷ xs) (y ∷ ys) = ((x ≡ true) × (y ≡ false) × (ys ≡ xs)) ⊎ ((y ≡ x) × OneWakes xs ys)

abbrev pub NoneBlocked : List Bool → Type 0
NoneBlocked [] = Unit
NoneBlocked (x ∷ xs) = (x ≡ false) × NoneBlocked xs

-- What FUTEX_REQUEUE makes of a caller: it is not blocked there, goes on, or is blocked at the
-- second word.
pub data Requeue : Type 0 where
  stays wakes moves : Requeue

-- The callers blocked at the first word go on or move. `woken`: one of them goes on.
pub data Requeued : (woken : Bool) → List Bool → List Requeue → Type 0 where
  none_left : Requeued false [] []
  not_blocked :
      {woken : Bool} {xs : List Bool} {ys : List Requeue}
      → Requeued woken xs ys
      → Requeued woken (false ∷ xs) (stays ∷ ys)
  goes_on :
      {xs : List Bool} {ys : List Requeue} (woken : Bool)
      → Requeued woken xs ys
      → Requeued true (true ∷ xs) (wakes ∷ ys)
  is_moved :
      {woken : Bool} {xs : List Bool} {ys : List Requeue}
      → Requeued woken xs ys
      → Requeued woken (true ∷ xs) (moves ∷ ys)

pub record Kernel : Type 1 where
  -- FUTEX_WAIT at this word and expected value may block.
  pub Blocks : (word expected : ℕ) → Type 0
  -- FUTEX_WAKE with count 1: who is blocked before and after.
  pub Wakes : List Bool → List Bool → Type 0
  pub blocks_if_equal : (word expected : ℕ) → Blocks word expected → word ≡ expected
  pub wakes_one : (xs ys : List Bool) → Wakes xs ys → (NoneBlocked xs × (ys ≡ xs)) ⊎ OneWakes xs ys
  -- FUTEX_REQUEUE with count 1 and no bound on the callers that it moves.
  pub Requeues : List Bool → List Requeue → Type 0
  pub requeues_all :
      (xs : List Bool) (ys : List Requeue)
      → Requeues xs ys
      → Requeued true xs ys ⊎ (NoneBlocked xs × Requeued false xs ys)
  -- FUTEX_WAKE with no bound on the callers that it lets go on.
  pub WakesAll : List Bool → List Bool → Type 0
  pub wakes_all : (xs ys : List Bool) → WakesAll xs ys → ys ≡ map (λ x. false) xs
