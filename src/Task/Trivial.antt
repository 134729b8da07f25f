-- ===== src/Task/Trivial.antt =====
-- The class `trivial_task` of evenk/task.h: a trivially copyable target in place, with no heap.
use evenk.Prelude.{◌≡◌, refl, Bool, true, false, Option, none, some}
use evenk.Task.Object.{null_call, bad_memory, Run, ok, fail}

-- `memory_`, zeroed or with a target copied into it, and whether `invoke_` is the function for it.
pub record Trivial {ℓ} (T : Type ℓ) : Type ℓ where
  pub memory : Option T
  pub invoke : Bool

module _ {ℓ} {T : Type ℓ} where
  unfoldable pub trivial_task : Trivial T
  trivial_task = record { memory = none; invoke = false }

  unfoldable pub construct : T → Trivial T
  construct target = record { memory = some target; invoke = true }

  -- `a.swap(b)`: the two afterwards.
  unfoldable pub swap : Trivial T → Trivial T → Trivial T × Trivial T
  swap a b = (
    record { memory = b.memory; invoke = b.invoke },
    record { memory = a.memory; invoke = a.invoke },
  )

  -- The task that `trivial_task(trivial_task &&other)` makes, and what it leaves of `other`.
  unfoldable pub move_construct : Trivial T → Trivial T × Trivial T
  unfolding swap trivial_task
  move_construct other = let (left, made) = swap other trivial_task in (made, left)

  -- `*this = std::move(other)`: `*this` and `other` afterwards. The temporary has no destructor.
  unfoldable pub move_assign : Trivial T → Trivial T → Trivial T × Trivial T
  unfolding move_construct swap
  move_assign this other =
      let (temporary, left) = move_construct other in
      let (temporary', this') = swap temporary this in (this', left)

  unfoldable pub has_target : Trivial T → Bool
  has_target t = t.invoke

  abbrev pub target_of : Option T → Run T
  target_of none = fail bad_memory
  target_of (some target) = ok target

  -- `operator()`: the target that is called.
  unfoldable pub call : Trivial T → Run T
  call t = elim t.invoke [ false ↦ fail null_call | true ↦ target_of t.memory ]

  -- Move assignment and move construction of a `trivial_task`: the destination becomes the source,
  -- whatever it was, and the source becomes empty, so that a call of it is a call of a null pointer.
  move_assign-moves :
      (this other : Trivial T)
      → ((move_assign this other).0 ≡ other)
        × ((move_construct other).0 ≡ other)
        × (has_target (move_assign this other).1 ≡ false)
        × (call (move_assign this other).1 ≡ fail null_call)
        × ((move_construct other).1 ≡ (move_assign this other).1)
  unfolding move_assign call has_target
  move_assign-moves this other = (refl, refl, refl, refl, refl)
