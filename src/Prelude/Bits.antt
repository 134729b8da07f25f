-- ===== src/Prelude/Bits.antt =====
-- Laws of the bit operations at a variable: the lowest digit, masks of ones, and single flags.
use Prim.Native.Nat.{ℕ, zero, suc, ◌+◌, ◌-◌, ◌*◌, ◌/◌, ◌%◌, ◌^◌, ◌≤◌, ◌<◌, min, max}
use Prim.Native.Nat.{bit_and, bit_or, digits, bit_and-bitwise, bit_or-bitwise}
use mathlib.Core.Path.{◌≡◌, refl}
use native.Mathlib.Omega.{arith}
use native.Mathlib.Nat.{pow-suc, div-add-mod, mod-lt}

-- The native operations stand for `digits`, whose count of digits to go may be any that is enough.
digits_enough :
    (z : ℕ → ℕ) (f : ℕ → ℕ → ℕ) (n m a b : ℕ) → a ≤ n → a ≤ m → digits z f n a b ≡ digits z f m a b
digits_enough z f zero zero a b h k = refl
digits_enough z f zero (suc m) zero b h k = refl
digits_enough z f zero (suc m) (suc a) b h k = absurd (omega arith)
digits_enough z f (suc n) zero zero b h k = refl
digits_enough z f (suc n) zero (suc a) b h k = absurd (omega arith)
digits_enough z f (suc n) (suc m) zero b h k = refl
digits_enough z f (suc n) (suc m) (suc a) b h k =
    omega (arith, digits_enough z f n m (suc a / 2) (b / 2) (omega arith) (omega arith))

bit_and-zero_left : (b : ℕ) → bit_and 0 b ≡ 0
bit_and-zero_left b = bit_and-bitwise 0 b

pub bit_or-zero_left : (b : ℕ) → bit_or 0 b ≡ b
bit_or-zero_left b = bit_or-bitwise 0 b

-- The lowest digit of a conjunction, and the digits above it.
pub bit_and-halves : (a b : ℕ) → bit_and a b ≡ 2 * bit_and (a / 2) (b / 2) + min (a % 2) (b % 2)
bit_and-halves zero b = omega (arith, bit_and-zero_left b, bit_and-zero_left (b / 2))
bit_and-halves (suc a) b = omega (
  arith,
  bit_and-bitwise (suc a) b,
  bit_and-bitwise (suc a / 2) (b / 2),
  digits_enough (λ d. 0) min a (suc a / 2) (suc a / 2) (b / 2) (omega arith) (omega arith),
)

pub bit_or-halves : (a b : ℕ) → bit_or a b ≡ 2 * bit_or (a / 2) (b / 2) + max (a % 2) (b % 2)
bit_or-halves zero b = omega (arith, bit_or-zero_left b, bit_or-zero_left (b / 2))
bit_or-halves (suc a) b = omega (
  arith,
  bit_or-bitwise (suc a) b,
  bit_or-bitwise (suc a / 2) (b / 2),
  digits_enough (λ d. d) max a (suc a / 2) (suc a / 2) (b / 2) (omega arith) (omega arith),
)

bit_and-zero_below : (n a : ℕ) → a ≤ n → bit_and a 0 ≡ 0
bit_and-zero_below n zero h = bit_and-zero_left 0
bit_and-zero_below zero (suc a) h = absurd (omega arith)
bit_and-zero_below (suc n) (suc a) h =
    omega (arith, bit_and-halves (suc a) 0, bit_and-zero_below n (suc a / 2) (omega arith))

pub bit_and-zero : (a : ℕ) → bit_and a 0 ≡ 0
bit_and-zero a = bit_and-zero_below a a (omega arith)

bit_or-zero_below : (n a : ℕ) → a ≤ n → bit_or a 0 ≡ a
bit_or-zero_below n zero h = bit_or-zero_left 0
bit_or-zero_below zero (suc a) h = absurd (omega arith)
bit_or-zero_below (suc n) (suc a) h =
    omega (arith, bit_or-halves (suc a) 0, bit_or-zero_below n (suc a / 2) (omega arith))

pub bit_or-zero : (a : ℕ) → bit_or a 0 ≡ a
bit_or-zero a = bit_or-zero_below a a (omega arith)

-- The remainder by twice a number, from that of the half.
mod_double : (a p : ℕ) → 0 < p → a % (p * 2) ≡ 2 * (a / 2 % p) + a % 2
mod_double a p h = grind (arith, div-add-mod (a / 2) p, div-add-mod a (p * 2), mod-lt)

pub pow-pos : (k : ℕ) → 0 < 2 ^ k
pow-pos zero = omega arith
pow-pos (suc k) = omega (arith, pow-suc 2 k, pow-pos k)

-- A conjunction with `k` ones is the remainder by `2 ^ k`.
pub bit_and-mask : (k a : ℕ) → bit_and a (2 ^ k - 1) ≡ a % 2 ^ k
bit_and-mask zero a = omega (arith, bit_and-zero a)
bit_and-mask (suc k) a =
    let p : 0 < 2 ^ k = pow-pos k in
    let e : 2 ^ suc k ≡ 2 ^ k * 2 = pow-suc 2 k in
    let low : (2 ^ suc k - 1) % 2 ≡ 1 = omega arith in
    let high : (2 ^ suc k - 1) / 2 ≡ 2 ^ k - 1 = omega arith in
    rw (bit_and-halves a (2 ^ suc k - 1), low, high, bit_and-mask k (a / 2), e)
      (omega (arith, mod_double a (2 ^ k) p))

-- The flags of a slot's token: the low four bits beside a ticket, in 32 bits.
pub bit_and_tickets : (t : ℕ) → t < 2 ^ 32 → bit_and t 0xffff_fff0 ≡ t - t % 16
bit_and_tickets t h = omega (
  arith,
  bit_and-halves t 0xffff_fff0,
  bit_and-halves (t / 2) 0x7fff_fff8,
  bit_and-halves (t / 2 / 2) 0x3fff_fffc,
  bit_and-halves (t / 2 / 2 / 2) 0x1fff_fffe,
  bit_and-mask 28 (t / 2 / 2 / 2 / 2),
)

pub bit_and-one : (t : ℕ) → bit_and t 1 ≡ t % 2
bit_and-one t = bit_and-mask 1 t

pub bit_and_three : (t : ℕ) → bit_and t 3 ≡ t % 4
bit_and_three t = bit_and-mask 2 t

pub bit_and_four : (t : ℕ) → bit_and t 4 ≡ t / 4 % 2 * 4
bit_and_four t =
    omega (arith, bit_and-halves t 4, bit_and-halves (t / 2) 2, bit_and-one (t / 2 / 2))

pub bit_or-one : (t : ℕ) → bit_or t 1 ≡ t - t % 2 + 1
bit_or-one t = omega (arith, bit_or-halves t 1, bit_or-zero (t / 2))

pub bit_or_two : (t : ℕ) → bit_or t 2 ≡ t + (2 - t / 2 % 2 * 2)
bit_or_two t = omega (arith, bit_or-halves t 2, bit_or-one (t / 2))

pub bit_or_four : (t : ℕ) → bit_or t 4 ≡ t + (4 - t / 4 % 2 * 4)
bit_or_four t = omega (arith, bit_or-halves t 4, bit_or_two (t / 2))

pub bit_or_eight : (t : ℕ) → bit_or t 8 ≡ t + (8 - t / 8 % 2 * 8)
bit_or_eight t = omega (arith, bit_or-halves t 8, bit_or_four (t / 2))
