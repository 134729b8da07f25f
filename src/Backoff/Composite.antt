-- ===== src/Backoff/Composite.antt =====
-- The order in which `composite_backoff` uses its two policies.
use evenk.Prelude.{ℕ, zero, suc, ◌+◌, ◌<◌, ◌≡◌, refl, true, false, arith}
use evenk.Backoff.Calls.{Call, Composite, composite, composite_backoff, after, reaches}

module _ {ℓ} {A B : Type ℓ} (call_a : Call A) (call_b : Call B) (a : A) (b : B) where
  abbrev whole : Call (Composite A B)
  whole = composite_backoff call_a call_b

  -- While the first policy has not reached its ceiling, only it is called.
  first_only :
      (n : ℕ)
      → ((k : ℕ) → k < n → reaches call_a k a ≡ false)
      → after whole n (composite a b)
        ≡ record { first = after call_a n a; second = b; use_second = false }
  unfolding composite_backoff composite
  first_only zero h = refl
  first_only (suc n) h = ground (arith, first_only n (λ k p. h k (omega arith)), h n (omega arith))

  then_second :
      (n m : ℕ)
      → ((k : ℕ) → k < n → reaches call_a k a ≡ false)
      → reaches call_a n a ≡ true
      → after whole (m + suc n) (composite a b)
        ≡ record { first = after call_a (suc n) a; second = after call_b m b; use_second = true }
  unfolding composite_backoff composite
  then_second n zero h t =
      let e : 0 + suc n ≡ suc n = omega arith in rw e (ground (arith, first_only n h))
  then_second n (suc m) h t =
      let e : suc m + suc n ≡ suc (m + suc n) = omega arith in
      rw e (ground (arith, then_second n m h t))

  -- Where call `n` of the first policy is its first call that reaches the ceiling (all numbered from
  -- 0), the composite says "not reached" in each call `k` up to `n`, and its call `n + 1 + m` says
  -- what call `m` of a fresh second policy says, with the first policy left as call `n` left it.
  composite_backoff-reaches :
      (n k m : ℕ)
      → ((k : ℕ) → k < n → reaches call_a k a ≡ false)
      → reaches call_a n a ≡ true
      → k < suc n
      → (reaches whole k (composite a b) ≡ false)
        × (reaches whole (m + suc n) (composite a b) ≡ reaches call_b m b)
        × ((after whole (m + suc n) (composite a b)).first ≡ after call_a (suc n) a)
  unfolding composite_backoff
  composite_backoff-reaches n k m h t p = (
    ground (arith, first_only k (λ j q. h j (omega arith))),
    ground (arith, then_second n m h t),
    ground (arith, then_second n m h t),
  )
