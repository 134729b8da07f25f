-- ===== src/Task/Object.antt =====
-- The class `task` of evenk/task.h: its memory, its two function pointers and its allocator, with the
-- heap that large targets live on. A target is an element of `T`, and `is_small` says whether its type
-- fits the memory of the task (`sizeof(T) <= S`).
use evenk.Prelude.{ℕ, ◌+◌, Bool, true, false, Option, none, some, ◌==◌, update, if◌then◌else◌}

-- The bytes of `memory_`.
pub data Memory {ℓ} (T : Type ℓ) : Type ℓ where
  zeroed : Memory T  -- {0}, the null pointer
  holds : T → Memory T  -- a target, in place
  points : ℕ → Memory T  -- the address of a target on the heap
  ended : Memory T  -- a target was here, and is destructed

-- The adapter that the template argument of `invoke` and `helper` selects.
pub data Adapter : Type 0 where
  small large : Adapter

pub record Task {ℓ} (T : Type ℓ) : Type ℓ where
  pub memory : Memory T
  pub invoke : Option Adapter  -- none: `invalid_invoke`
  pub helper : Option Adapter  -- none: a null pointer
  pub alloc : ℕ  -- which allocator; 0 is the default-constructed one

-- A block of the heap: the allocator that it came from, and the target in it.
pub record Block {ℓ} (T : Type ℓ) : Type ℓ where
  pub source : ℕ
  pub target : Option T

pub record Heap {ℓ} (T : Type ℓ) : Type ℓ where
  pub blocks : ℕ → Option (Block T)
  pub next : ℕ

pub data Fault : Type 0 where
  null_call : Fault  -- a call through a null function pointer
  bad_memory : Fault  -- no target where one is used
  bad_free : Fault  -- a block is given back to another allocator than it came from
  bad_function_call : Fault  -- the exception of `invalid_invoke`
  out_of_fuel : Fault

pub data Run {ℓ} (A : Type ℓ) : Type ℓ where
  ok : A → Run A
  fail : Fault → Run A

infixl 5 ◌>>=◌
abbrev pub ◌>>=◌ {ℓ κ} : {A : Type ℓ} {B : Type κ} → Run A → (A → Run B) → Run B
ok a >>= f = f a
fail e >>= f = fail e

module _ {ℓ} {T : Type ℓ} where
  unfoldable pub empty_task : Task T
  empty_task = record { memory = zeroed; invoke = none; helper = none; alloc = 0 }

  -- `adapter.allocate`, then placement `new` at `adapter.get`.
  unfoldable pub construct : Adapter → T → ℕ → Heap T → Task T × Heap T
  construct small target alloc h =
      (record { memory = holds target; invoke = some small; helper = some small; alloc = alloc }, h)
  construct large target alloc h = (
    record { memory = points h.next; invoke = some large; helper = some large; alloc = alloc },
    record {
      blocks = update h.blocks h.next (some (record { source = alloc; target = some target }));
      next = h.next + 1;
    },
  )

  -- `adapter.move(memory, other_memory)`: the two memories afterwards.
  unfoldable pub adapter_move : Adapter → Memory T → Run (Memory T × Memory T)
  adapter_move small (holds target) = ok (holds target, ended)
  adapter_move small m = fail bad_memory
  adapter_move large (points address) = ok (points address, zeroed)
  adapter_move large m = fail bad_memory

  abbrev free : ℕ → ℕ → Option (Block T) → Heap T → Run (Heap T)
  free alloc address none h = fail bad_memory
  free alloc address (some block) h =
      if block.source == alloc
      then ok (record h { blocks = update h.blocks address none })
      else fail bad_free

  -- `adapter.get(memory)->~Target()`, then `adapter.deallocate`.
  unfoldable pub adapter_destroy : Adapter → ℕ → Memory T → Heap T → Run (Memory T × Heap T)
  adapter_destroy small alloc (holds target) h = ok (ended, h)
  adapter_destroy small alloc m h = fail bad_memory
  adapter_destroy large alloc (points address) h =
      free alloc address (h.blocks address) h >>= λ h'. ok (points address, h')
  adapter_destroy large alloc m h = fail bad_memory

  -- The task that `task(task &&other)` makes, and what it leaves of `other`.
  unfoldable pub move_construct : Task T → Run (Task T × Task T)
  unfolding adapter_move
  move_construct other = elim other.helper [
    | none ↦ fail null_call
    | some adapter ↦ adapter_move adapter other.memory >>= λ memories. ok (
      record { memory = memories.0; invoke = other.invoke; helper = other.helper; alloc = 0 },
      record other { memory = memories.1; invoke = none; helper = none },
    )
  ]

  -- `~task()`
  unfoldable pub destroy : Task T → Heap T → Run (Heap T)
  unfolding adapter_destroy
  destroy t h = elim t.helper [
    | none ↦ ok h
    | some adapter ↦ adapter_destroy adapter t.alloc t.memory h >>= λ rest. ok rest.1
  ]

  unfoldable pub has_target : Task T → Bool
  has_target t = elim t.helper [ none ↦ false | some adapter ↦ true ]

  abbrev pub target_in : Option (Block T) → Run T
  target_in none = fail bad_memory
  target_in (some block) = elim block.target [ none ↦ fail bad_memory | some target ↦ ok target ]

  -- `adapter.get(memory)`, the target that `invoke` calls.
  unfoldable pub adapter_get : Adapter → Memory T → Heap T → Run T
  adapter_get small (holds target) h = ok target
  adapter_get small m h = fail bad_memory
  adapter_get large (points address) h = target_in (h.blocks address)
  adapter_get large m h = fail bad_memory

  -- `operator()`: the target that is called.
  unfoldable pub call : Task T → Heap T → Run T
  unfolding adapter_get
  call t h = elim t.invoke [
    | none ↦ fail bad_function_call
    | some adapter ↦ adapter_get adapter t.memory h
  ]
