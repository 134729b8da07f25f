-- ===== src/BoundedQueue/Create.antt =====
-- Which sizes the constructor of evenk/bounded_queue.h accepts, and what its encoding of counts gives.
use evenk.Prelude.{
  Bool, true, false, ℕ, zero, suc, ◌+◌, ◌-◌, ◌/◌, ◌%◌, ◌^◌, ◌≤◌, ◌<◌, ◌≡◌, inl, inr, refl, ap,
  bit_and, arith, ◌==◌, ◌∣◌, u32, Bool-cases,
}
use native.Mathlib.Nat.{pow-suc, pow-le-pow_right, mod-eq_of_lt, mod_self, mod-mod_of_dvd}
use evenk.Prelude.Bits.{bit_and-halves, bit_and-mask}
use evenk.BoundedQueue.Encoding.{open_state, ticket_mask, ticket, index, index-eq, ticket-eq}
use evenk.BoundedQueue.Ring.{out_of_memory, Ring, ok, create, slot_of}

bit_and_self_below : (n a : ℕ) → a ≤ n → bit_and a a ≡ a
bit_and_self_below n zero h = omega (arith, bit_and-halves 0 0, bit_and-mask 0 0)
bit_and_self_below zero (suc a) h = absurd (omega arith)
bit_and_self_below (suc n) (suc a) h =
    omega (arith, bit_and-halves (suc a) (suc a), bit_and_self_below n (suc a / 2) (omega arith))

-- `(size & (size - 1)) == 0` says that `size` is a power of two.
power_of_two_below :
    (n size : ℕ) → size ≤ n → 0 < size → bit_and size (size - 1) ≡ 0 → (k : ℕ) × (size ≡ 2 ^ k)
power_of_two_below zero size h p z = absurd (omega arith)
power_of_two_below (suc n) size h p z = elim (Bool-cases (size % 2 == 1)) [
  | inl odd ↦
      let half = size / 2 in
      let e : (size - 1) / 2 ≡ size / 2 = ground arith in
      (
        0,
        ground (
          arith,
          bit_and-halves size (size - 1),
          ap (bit_and half) e,
          bit_and_self_below half half (omega arith),
        ),
      )
  | inr even ↦
      let half = size / 2 in
      let e : (size - 1) / 2 ≡ size / 2 - 1 = ground arith in
      let (k, q) =
        power_of_two_below n half (omega arith) (ground arith)
          (ground (arith, bit_and-halves size (size - 1), ap (bit_and half) e)) in
      (suc k, ground (arith, pow-suc 2 k))
]

pow_and_pred : (k : ℕ) → bit_and (2 ^ k) (2 ^ k - 1) ≡ 0
pow_and_pred k = rw (bit_and-mask k (2 ^ k)) (mod_self (2 ^ k))

pub sixteen_divides : (k : ℕ) → 4 ≤ k → 16 ∣ 2 ^ k
sixteen_divides zero low = absurd (omega arith)
sixteen_divides (suc zero) low = absurd (omega arith)
sixteen_divides (suc (suc zero)) low = absurd (omega arith)
sixteen_divides (suc (suc (suc zero))) low = absurd (omega arith)
sixteen_divides (suc (suc (suc (suc j)))) low = ∣ (
  2 ^ j,
  omega (
    arith,
    pow-suc 2 j,
    pow-suc 2 (suc j),
    pow-suc 2 (suc (suc j)),
    pow-suc 2 (suc (suc (suc j))),
  ),
) ∣₁

-- The low four bits of a count are those of its slot.
pub low_bits : (k c : ℕ) → 4 ≤ k → index (2 ^ k - 1) c % 16 ≡ c % 16
low_bits k c low = rw (index-eq k c) (mod-mod_of_dvd 16 {b = 2 ^ k} c (sixteen_divides k low))

module _ {ℓ} {A : Type ℓ} where
  -- A 32-bit size for which the constructor returns a ring is a power of two, at least 16, and the
  -- mask of the ring is one less.
  create_only :
      (memory : Bool) (size last : ℕ) (default : A) (r : Ring A)
      → size < 2 ^ 32
      → create memory size last default ≡ ok r
      → (16 ≤ size) × (r.mask ≡ size - 1) × ((k : ℕ) × (size ≡ 2 ^ k))
  unfolding create
  create_only memory size last default r fits e = (
    ground arith,
    ground arith,
    power_of_two_below size size (omega arith) (ground arith) (ground arith),
  )

  abbrev fresh : (mask last : ℕ) → A → Ring A
  fresh mask last default = record {
    slots = λ i. record { token = bit_and i ticket_mask; value = default };
    mask = mask;
    closed = open_state;
    last = last;
    head = 0;
    tail = 0;
  }

  -- A size that is a power of two from 16 up to 2 ^ 31: the constructor throws `std::bad_alloc` if
  -- `cache_aligned_alloc` does; if it returns, the ring is empty and open, and the token of each slot is
  -- the ticket of the first count that falls on the slot.
  pub create_accepts :
      (k last i : ℕ) (default : A)
      → 4 ≤ k
      → k < 32
      → i < 2 ^ k
      → (create false (2 ^ k) last default ≡ out_of_memory)
        × (r : Ring A) × (create true (2 ^ k) last default ≡ ok r)
        × (r.mask ≡ 2 ^ k - 1)
        × (r.head ≡ 0)
        × (r.tail ≡ 0)
        × (r.closed ≡ open_state)
        × (index r.mask i ≡ i)
        × ((slot_of r i).token ≡ ticket i)
  unfolding create slot_of ticket
  create_accepts k last i default low high below =
      let large : 16 ≤ 2 ^ k = pow-le-pow_right {n = 2} (omega arith) {i = 4} {j = k} low in
      let small : 2 ^ k ≤ 2 ^ 31 =
        pow-le-pow_right {n = 2} (omega arith) {i = k} {j = 31} (omega arith) in
      let mask : u32 (2 ^ k + 2 ^ 32 - 1) ≡ 2 ^ k - 1 = omega arith in
      let own : index (2 ^ k - 1) i ≡ i = rw (index-eq k i) (mod-eq_of_lt below) in
      (
        ground (arith, pow_and_pred k),
        fresh (2 ^ k - 1) last default,
        ground (arith, pow_and_pred k),
        refl,
        refl,
        refl,
        refl,
        own,
        rw own,
      )

-- The index of the slot and the ticket in the token together determine a 32-bit count, in every ring
-- of at least 16 slots: two counts that fall on one slot and have one ticket are the same.
index-ticket-injective :
    (k c c' : ℕ)
    → 4 ≤ k
    → c < 2 ^ 32
    → c' < 2 ^ 32
    → index (2 ^ k - 1) c ≡ index (2 ^ k - 1) c'
    → ticket c ≡ ticket c'
    → c ≡ c'
index-ticket-injective k c c' low h h' same_index same_ticket = omega (
  arith,
  low_bits k c low,
  low_bits k c' low,
  ap (λ (n : ℕ). n % 16) same_index,
  ticket-eq c h,
  ticket-eq c' h',
)
