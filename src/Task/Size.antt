-- ===== src/Task/Size.antt =====
-- The size of the memory inside a task of evenk/task.h, on a target with 8-byte function pointers.
use evenk.Prelude.{ℕ, ◌+◌, ◌-◌, ◌/◌, ◌%◌, ◌^◌, ◌≤◌, ◌<◌, ◌≡◌, max, u64, bit_and, arith}
use evenk.Prelude.Bits.{bit_and-halves, bit_and-mask}

abbrev pub fptr_size : ℕ
fptr_size = 8

abbrev pub fptr_align : ℕ
fptr_align = 8

-- `(size + fptr_align - 1) & ~(fptr_align - 1)` in 64 bits, and at least `fptr_size`.
unfoldable pub task_memory_size : ℕ → ℕ
task_memory_size size = max (bit_and (u64 (size + fptr_align - 1)) (2 ^ 64 - fptr_align)) fptr_size

round_down : (n : ℕ) → n < 2 ^ 64 → bit_and n (2 ^ 64 - 8) ≡ n - n % 8
round_down n h = omega (
  arith,
  bit_and-halves n (2 ^ 64 - 8),
  bit_and-halves (n / 2) (2 ^ 63 - 4),
  bit_and-halves (n / 2 / 2) (2 ^ 62 - 2),
  bit_and-mask 61 (n / 2 / 2 / 2),
)

-- For a size that does not wrap when it is rounded up, the memory of a task holds the size, is a
-- multiple of the alignment, holds a pointer, and is either one pointer or less than an alignment
-- larger than the size.
pub task_memory_size_bounds :
    (size : ℕ)
    → size + 7 < 2 ^ 64
    → (size ≤ task_memory_size size)
      × (task_memory_size size % fptr_align ≡ 0)
      × (fptr_size ≤ task_memory_size size)
      × (task_memory_size size ≤ max (size + 7) 8)
unfolding task_memory_size
task_memory_size_bounds size h =
    omega (arith, round_down (u64 (size + fptr_align - 1)) (omega arith))
