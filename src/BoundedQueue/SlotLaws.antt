-- ===== src/BoundedQueue/SlotLaws.antt =====
-- What one access of a thread to a slot of evenk/bounded_queue.h makes of the slot itself.
use evenk.Prelude.{ℕ, ◌+◌, ◌-◌, ◌%◌, ◌^◌, ◌≤◌, ◌<◌, ◌≡◌, ◌≢◌, Option, some, arith, ap}
use evenk.BoundedQueue.Encoding.{number}
use evenk.BoundedQueue.Slot.{IsMarked}
use evenk.BoundedQueue.Roles.{SlotAt}

module _ {ℓ} {A : Type ℓ} (put get : A → Option A) (size tail head : ℕ) (log : ℕ → A) (i t : ℕ)
    (x : A) (h : SlotAt put get size tail head log i t x) where
  pub SlotAt-mark : (t' : ℕ) → IsMarked t t' → SlotAt put get size tail head log i t' x
  SlotAt-mark t' m =
      let e : number i t' ≡ number i t = ground arith in ground (arith, ap log e, h.holds)

  pub SlotAt-put : (y : A) → t % 4 ≡ 0 → SlotAt put get size tail head log i t y
  SlotAt-put y pending = ground arith

  pub SlotAt-wake :
      (q flag : ℕ)
      → q % 16 ≡ i % 16
      → number q t ≡ q
      → q < tail
      → flag ≤ 2
      → (flag ≡ 1 → put (log q) ≡ some x)
      → SlotAt put get size tail head log i (q - q % 16 + flag) x
  SlotAt-wake q flag same turn below few value =
      let e : number i t ≡ q = ground arith in
      let e' : number i (q - q % 16 + flag) ≡ q = ground arith in
      ground (arith, ap log e, ap log e')

  pub SlotAt-get :
      (d : ℕ) (y : A)
      → d % 16 ≡ i % 16
      → number d t ≡ d
      → d < head
      → SlotAt put get size tail head log i t y
  SlotAt-get d y same turn below = ground arith

  pub SlotAt-next :
      (d : ℕ)
      → size % 16 ≡ 0
      → d % 16 ≡ i % 16
      → d % size ≡ i
      → (d + size) % size ≡ d % size
      → d + size < 2 ^ 32
      → number d t ≡ d
      → d < head
      → t % 4 ≢ 0
      → SlotAt put get size tail head log i (d - d % 16 + size) x
  SlotAt-next d round same own next fits turn below full =
      let e : number i (d - d % 16 + size) ≡ d + size = ground arith in
      ground (arith, ap (λ (n : ℕ). n % size) e)

  pub SlotAt-grow :
      (tail' head' : ℕ) (log' : ℕ → A)
      → tail ≤ tail'
      → head ≤ head'
      → (number i t < tail → log' (number i t) ≡ log (number i t))
      → SlotAt put get size tail' head' log' i t x
  SlotAt-grow tail' head' log' more_tail more_head same = ground arith
