-- ===== src/Task/Assignment.antt =====
-- Move assignment and swap of a `task` of evenk/task.h, which call each other.
use evenk.Prelude.{ℕ, zero, suc, ◌≡◌, refl, Option, none, some, arith}
use evenk.Task.Object.{
  Memory, zeroed, holds, points, ended, Adapter, small, large, Task, Heap, Fault, null_call,
  out_of_fuel, Run, ok, fail, ◌>>=◌, move_construct, destroy,
}

-- An operation on two different tasks: both afterwards, with the heap.
abbrev pub Assign {ℓ} : Type ℓ → Type ℓ
Assign T = Task T → Task T → Heap T → Run (Task T × Task T × Heap T)

-- The memory of a task holds what its helper expects.
abbrev pub Fits {ℓ} : {T : Type ℓ} → Option Adapter → Memory T → Type 0
Fits none m = Unit
Fits (some small) (holds target) = Unit
Fits (some small) m = ⊥
Fits (some large) (points address) = Unit
Fits (some large) m = ⊥

module _ {ℓ} {T : Type ℓ} where
  -- `std::swap(a, b)`: move construction into a temporary, then two move assignments.
  unfoldable pub swap_with : Assign T → Assign T
  swap_with assign a b h = move_construct a >>= λ moved. assign moved.1 b h >>= λ first.
      assign first.1 moved.0 first.2 >>= λ second.
      destroy second.1 second.2 >>= λ h'. ok (first.0, second.0, h')

  -- `task(std::move(other)).swap(*this)`, where `swap` is `std::swap`, within so many nested calls.
  unfoldable pub move_assign : ℕ → Assign T
  unfolding swap_with
  move_assign zero this other h = fail out_of_fuel
  move_assign (suc n) this other h = move_construct other >>= λ moved.
      swap_with (move_assign n) moved.0 this h >>= λ swapped.
      destroy swapped.0 swapped.2 >>= λ h'. ok (swapped.1, moved.1, h')

  -- `a.swap(b)`
  unfoldable pub swap : ℕ → Assign T
  unfolding swap_with move_assign
  swap n = swap_with (move_assign n)

  move_construct-empty : (t : Task T) → t.helper ≡ none → move_construct t ≡ fail null_call
  unfolding move_construct
  move_construct-empty t e = ground arith

  abbrev Moved : Task T → Adapter → Type ℓ
  Moved t a =
      (made : Task T) × (left : Task T) × (move_construct t ≡ ok (made, left))
      × (left.helper ≡ none)
      × (made.helper ≡ some a)
      × Fits made.helper made.memory

  move_construct-full :
      (t : Task T) (a : Adapter) → t.helper ≡ some a → Fits t.helper t.memory → Moved t a
  unfolding move_construct
  move_construct-full t a e fits = by_shape a t.memory refl e (rw e at fits)
    where
      by_shape :
          (a : Adapter) (m : Memory T)
          → t.memory ≡ m
          → t.helper ≡ some a
          → Fits (some a) t.memory
          → Moved t a
      by_shape small (holds target) q e f = (
        record { memory = holds target; invoke = t.invoke; helper = t.helper; alloc = 0 },
        record t { memory = ended; invoke = none; helper = none },
        ground arith,
        refl,
        e,
        ground arith,
      )
      by_shape small zeroed q e f = absurd (rw q at f)
      by_shape small ended q e f = absurd (rw q at f)
      by_shape small (points address) q e f = absurd (rw q at f)
      by_shape large (points address) q e f = (
        record { memory = points address; invoke = t.invoke; helper = t.helper; alloc = 0 },
        record t { memory = zeroed; invoke = none; helper = none },
        ground arith,
        refl,
        e,
        ground arith,
      )
      by_shape large zeroed q e f = absurd (rw q at f)
      by_shape large ended q e f = absurd (rw q at f)
      by_shape large (holds target) q e f = absurd (rw q at f)

  from_empty :
      (n : ℕ) (this other : Task T) (h : Heap T)
      → other.helper ≡ none
      → move_assign (suc n) this other h ≡ fail null_call
  unfolding move_assign
  from_empty n this other h e = rw (move_construct-empty other e)

  -- Where the source holds a target, the assignment asks for a nested one, from the destination into
  -- a task that is already empty.
  nested :
      (n : ℕ) (this other : Task T) (h : Heap T) {f : Fault} (a : Adapter)
      → other.helper ≡ some a
      → Fits other.helper other.memory
      → ((emptied : Task T) → emptied.helper ≡ none → move_assign n emptied this h ≡ fail f)
      → move_assign (suc n) this other h ≡ fail f
  unfolding move_assign
  nested n this other h a e fits inner =
      let (made, left, moves, gone, kept, fits') = move_construct-full other a e fits in
      let (made', left', moves', gone', kept', fits'') = move_construct-full made a kept fits' in
      rw (moves, moves', inner left' gone')

  into_empty :
      (n : ℕ) (this other : Task T) (h : Heap T)
      → this.helper ≡ none
      → Fits other.helper other.memory
      → move_assign (suc (suc n)) this other h ≡ fail null_call
  into_empty n this other h e fits = by_helper other.helper refl
    where
      by_helper :
          (o : Option Adapter)
          → other.helper ≡ o
          → move_assign (suc (suc n)) this other h ≡ fail null_call
      by_helper none q = from_empty (suc n) this other h q
      by_helper (some a) q =
          nested (suc n) this other h a q fits (λ emptied gone. from_empty n emptied this h e)

  -- Every move assignment of a task to another, whatever the two hold, ends in a call through a null
  -- pointer, in at most three nested assignments: `swap` is `std::swap`, which is written with the
  -- move assignment, and a task that has been moved from cannot be moved again.
  pub move_assign-fails :
      (n : ℕ) (this other : Task T) (h : Heap T)
      → Fits this.helper this.memory
      → Fits other.helper other.memory
      → move_assign (suc (suc (suc n))) this other h ≡ fail null_call
  move_assign-fails n this other h fits_this fits = by_helper other.helper refl
    where
      by_helper :
          (o : Option Adapter)
          → other.helper ≡ o
          → move_assign (suc (suc (suc n))) this other h ≡ fail null_call
      by_helper none q = from_empty (suc (suc n)) this other h q
      by_helper (some a) q =
          nested (suc (suc n)) this other h a q fits
            (λ emptied gone. into_empty n emptied this h gone fits_this)
