-- ===== src/BoundedQueue/Laps.antt =====
-- Counts that fall on one slot of evenk/bounded_queue.h differ by laps of the ring.
use evenk.Prelude.{ℕ, ◌+◌, ◌/◌, ◌%◌, ◌^◌, ◌≤◌, ◌<◌, ◌≡◌, arith, ap, dec_lt}
use native.Mathlib.Nat.{mul-le-mul_right, mod-add-div', mod-eq-zero_of_dvd}
use evenk.BoundedQueue.Encoding.{index-eq}
use evenk.BoundedQueue.Create.{sixteen_divides, low_bits}

-- The next count of a slot is a lap later.
pub lap : (size c d : ℕ) → c % size ≡ d % size → c < d → c + size ≤ d
lap size c d same less = elim (dec_lt (c / size) (d / size)) [
  | yes h ↦ omega (
    arith,
    mod-add-div' c size,
    mod-add-div' d size,
    mul-le-mul_right {m = c / size + 1} {n = d / size} size (omega arith),
  )
  | no h ↦ absurd (
      omega (
        arith,
        mod-add-div' c size,
        mod-add-div' d size,
        mul-le-mul_right {m = d / size} {n = c / size} size (omega arith),
      ))
]

pub size_round : (k : ℕ) → 4 ≤ k → 2 ^ k % 16 ≡ 0
size_round k low = mod-eq-zero_of_dvd 16 (sixteen_divides k low)

pub slot_bits : (k c : ℕ) → 4 ≤ k → c % 2 ^ k % 16 ≡ c % 16
slot_bits k c low = omega (arith, low_bits k c low, ap (λ (n : ℕ). n % 16) (index-eq k c))
