-- ===== src/BoundedQueue/Delivery.antt =====
-- What evenk/bounded_queue.h gives its threads, whatever the order of their accesses, until a counter
-- comes near its wrap-around.
use evenk.Prelude.{ℕ, ◌+◌, ◌%◌, ◌^◌, ◌≤◌, ◌<◌, ◌≡◌, ◌≢◌, Option, some, arith, refl, ap}
use mathlib.Core.Path.{subst}
use evenk.BoundedQueue.Encoding.{index}
use evenk.BoundedQueue.Slot.{SlotClass}
use evenk.BoundedQueue.Moves.{Local, push_put, pop_get, pop_wake}
use evenk.BoundedQueue.Steps.{System, Reach}
use evenk.BoundedQueue.Roles.{AreApart}
use evenk.BoundedQueue.SlotSteps.{slot_index}
use native.Mathlib.Nat.{mod-lt}
use evenk.Prelude.Bits.{pow-pos}
use evenk.BoundedQueue.Laps.{slot_bits}
use evenk.BoundedQueue.Invariant.{role, IsChecked, IsPlaced, Invariant}
use evenk.BoundedQueue.Always.{Reach-Invariant}

-- The next access of a thread is to the value of the slot of a count.
pub data Accesses {ℓ} {A : Type ℓ} : Local A → ℕ → Type ℓ where
  writes : (count : ℕ) (value : A) (t : ℕ) → Accesses (push_put count value t) count
  reads : (count t : ℕ) → Accesses (pop_get count t) count

module _ {ℓ} {A : Type ℓ} (put get : A → Option A) (class : SlotClass) (k : ℕ) (low : 4 ≤ k)
    {s : System A} {n : ℕ} (reach : Reach put get class k n s) (few : n + 2 ^ k ≤ 2 ^ 32) where
  inv : Invariant put get k n s
  inv = Reach-Invariant put get class k low reach few

  -- In a ring of 2 ^ k slots, at least 16, whose threads call `wait_push`, `wait_pop`, `try_pop`
  -- and `close`, each access of which is made while both counters, with what the access may add to one
  -- of them (1, or a lap in `close`), are a lap or more below 2 ^ 32: a consumer that has
  -- moved a value out of the slot of its count has the value that was pushed with the same count,
  -- as the assignments into the slot and out of it make it, and the assignment into the slot had
  -- not thrown an exception.
  pub ring_delivery :
      (j count t : ℕ) (result : Option A)
      → s.threads j ≡ pop_wake count t result
      → (count < s.ring.head) × ((y : A) × (put (s.log count) ≡ some y) × (result ≡ get y))
  ring_delivery j count t result e =
      let h = subst (λ l. IsPlaced put get k s.ring s.log (role l)) e (inv.placed j) in
      (h.below, h.delivered refl)

  exclusive :
      {l l' : Local A} {c d : ℕ}
      → Accesses l c
      → Accesses l' d
      → IsChecked l
      → IsChecked l'
      → IsPlaced put get k s.ring s.log (role l)
      → IsPlaced put get k s.ring s.log (role l')
      → AreApart (role l) (role l')
      → c % 2 ^ k ≢ d % 2 ^ k
  exclusive (writes c v t) (writes d w u) i i' h h' apart e = ground (
    arith,
    h.stays,
    h'.stays,
    slot_bits k c low,
    slot_bits k d low,
    ap (λ x. (s.ring.slots x).token) e,
    ap (λ (x : ℕ). x % 16) e,
  )
  exclusive (writes c v t) (reads d u) i i' h h' apart e = ground (
    arith,
    h.stays,
    h.pending,
    h'.stays,
    h'.keeps,
    slot_bits k c low,
    slot_bits k d low,
    ap (λ x. (s.ring.slots x).token) e,
    ap (λ (x : ℕ). x % 16) e,
  )
  exclusive (reads c t) (writes d w u) i i' h h' apart e = ground (
    arith,
    h'.stays,
    h'.pending,
    h.stays,
    h.keeps,
    slot_bits k c low,
    slot_bits k d low,
    ap (λ x. (s.ring.slots x).token) e,
    ap (λ (x : ℕ). x % 16) e,
  )
  exclusive (reads c t) (reads d u) i i' h h' apart e = ground (
    arith,
    h.stays,
    h'.stays,
    slot_bits k c low,
    slot_bits k d low,
    ap (λ x. (s.ring.slots x).token) e,
    ap (λ (x : ℕ). x % 16) e,
  )

  -- In a ring of 2 ^ k slots, at least 16, whose threads call `wait_push`, `wait_pop`, `try_pop`
  -- and `close`, each access of which is made while both counters, with what the access may add to one
  -- of them (1, or a lap in `close`), are a lap or more below 2 ^ 32: two threads that are
  -- about to access values access those of two different slots.
  pub ring_exclusion :
      (i j c d : ℕ)
      → i ≢ j
      → Accesses (s.threads i) c
      → Accesses (s.threads j) d
      → index s.ring.mask c ≢ index s.ring.mask d
  ring_exclusion i j c d differ at_c at_d e =
      exclusive at_c at_d (inv.checked i) (inv.checked j) (inv.placed i) (inv.placed j)
        (inv.apart i j differ)
        (ground (arith, slot_index put get k low s n j inv c, slot_index put get k low s n j inv d))

  bounded :
      {l : Local A} {c : ℕ}
      → Accesses l c
      → IsChecked l
      → IsPlaced put get k s.ring s.log (role l)
      → (c < s.ring.tail) × (c < s.ring.head + 2 ^ k)
  bounded (writes c v t) checked h =
      ground (arith, h.stays, inv.slot_at (c % 2 ^ k) (mod-lt c (pow-pos k)), slot_bits k c low)
  bounded (reads c t) checked h =
      ground
        (arith, h.stays, h.keeps, inv.slot_at (c % 2 ^ k) (mod-lt c (pow-pos k)), slot_bits k c low)

  -- In a ring of 2 ^ k slots, at least 16, whose threads call `wait_push`, `wait_pop`, `try_pop`
  -- and `close`, each access of which is made while both counters, with what the access may add to one
  -- of them (1, or a lap in `close`), are a lap or more below 2 ^ 32: a thread about to
  -- access a value does so for a count below `tail_`, and below one lap after `head_`.
  pub ring_capacity :
      (j c : ℕ) → Accesses (s.threads j) c → (c < s.ring.tail) × (c < s.ring.head + 2 ^ k)
  ring_capacity j c at_c = bounded at_c (inv.checked j) (inv.placed j)
