-- ===== src/BoundedQueue/Preserve.antt =====
-- The accesses of `wait_push` and of the end of `wait_pop` in evenk/bounded_queue.h keep the invariant.
use evenk.Prelude.{
  ℕ, ◌+◌, ◌%◌, ◌^◌, ◌≤◌, ◌<◌, ◌≡◌, ◌≢◌, Bool, true, false, Option, none, some, update, arith, refl,
  ap,
}
use mathlib.Core.Path.{subst}
use evenk.Status.{Status}
use evenk.Prelude.Bits.{bit_or-one, bit_or_two}
use evenk.BoundedQueue.Encoding.{number, ticket, ticket-eq}
use evenk.BoundedQueue.Ring.{Ring, set_token, set_value, slot_of}
use evenk.BoundedQueue.Moves.{
  Local, finished, thrown, push_put, push_wake, pop_get, pop_wake, pop_skip, pop_begin, put_value,
  put_wake, get_value, get_wake, skip, wake_next,
}
use evenk.BoundedQueue.Steps.{System}
use evenk.BoundedQueue.Roles.{producer, consumer, AreApart, AreApart-free}
use evenk.BoundedQueue.SlotSteps.{
  slot_index, at_slot, IsPlaced-here, Invariant-put, Invariant-wake, Invariant-get, Invariant-next,
}
use evenk.BoundedQueue.Invariant.{role, Fits, IsPlaced, Invariant}

module _ {ℓ} {A : Type ℓ} (put get : A → Option A) (k : ℕ) (low : 4 ≤ k) (s : System A) (n j : ℕ)
    (inv : Invariant put get k n s) where
  pub token_here : (c : ℕ) → (slot_of s.ring c).token ≡ (s.ring.slots (c % 2 ^ k)).token
  unfolding slot_of
  token_here c = ap (λ (i : ℕ). (s.ring.slots i).token) (slot_index put get k low s n j inv c)

  abbrev pub After : Ring A × Local A → Type ℓ
  After next =
      Invariant put get k (n + 0)
        (record { ring = next.0; threads = update s.threads j next.1; log = s.log })

  pub Invariant-put_value :
      (c : ℕ) (v : A) (t : ℕ) (junk : A)
      → Fits put get k s.ring s.log s.threads j (push_put c v t)
      → After (put_value put c v t junk s.ring)
  unfolding put_value set_value slot_of
  Invariant-put_value c v t junk (placed, turn, apart) =
      let x = slot_of s.ring c in
      let h = at_slot put get k low s n j inv (producer c v t false) placed in
      let after : (stored : Bool) (y : A)
          → (stored ≡ true → put v ≡ some y)
          → After (set_value s.ring c y, push_wake c v t stored) =
        λ stored y value.
          Invariant-put put get k low s n j inv (push_wake c v t stored) c v t stored y
            (ground (arith, h.stays)) (ground (arith, h.stays, h.pending)) apart
            (
              IsPlaced-here put get k low s n j inv (producer c v t stored)
                  (record { token = x.token; value = y }) (ground arith),
              turn,
              apart,
            ) in
      let cases : (o : Option A)
          → put v ≡ o
          → After (elim o [
            | none ↦ (set_value s.ring c junk, push_wake c v t false)
            | some y ↦ (set_value s.ring c y, push_wake c v t true)
          ]) =
        λ o.
          elim o
            as (λ o'.
              put v ≡ o'
              → After (elim o' [
                | none ↦ (set_value s.ring c junk, push_wake c v t false)
                | some y ↦ (set_value s.ring c y, push_wake c v t true)
              ])) [
                | none ↦ λ e. after false junk (λ f. absurd (ground arith))
                | some y ↦ λ e. after true y (λ f. e)
              ] in
      cases (put v) refl

  pub Invariant-put_wake :
      (c : ℕ) (v : A) (t : ℕ) (stored : Bool)
      → c < 2 ^ 32
      → Fits put get k s.ring s.log s.threads j (push_wake c v t stored)
      → After (put_wake c stored s.ring)
  unfolding put_wake
  Invariant-put_wake c v t true small (placed, turn, apart) =
      let h = at_slot put get k low s n j inv (producer c v t true) placed in
      subst (λ (t' : ℕ). After (set_token s.ring c t', finished Status.success none))
        (ground (arith, ticket-eq c small, bit_or-one (ticket c)))
        (Invariant-wake put get k low s n j inv (finished Status.success none) c 1 v t true
          (ground (arith, h.stays)) (ground (arith, h.stays, h.pending)) h.below (omega arith)
          (omega arith) (λ e. h.stored_value refl) apart
          (refl, tt, λ m d. AreApart-free (role (s.threads m))))
  Invariant-put_wake c v t false small (placed, turn, apart) =
      let h = at_slot put get k low s n j inv (producer c v t false) placed in
      subst (λ (t' : ℕ). After (set_token s.ring c t', thrown))
        (ground (arith, ticket-eq c small, bit_or_two (ticket c)))
        (Invariant-wake put get k low s n j inv thrown c 2 v t false (ground (arith, h.stays))
          (ground (arith, h.stays, h.pending)) h.below (omega arith) (omega arith)
          (λ e. absurd (omega arith)) apart (refl, tt, λ m d. AreApart-free (role (s.threads m))))

  pub Invariant-get_value :
      (c t : ℕ) (junk : A)
      → Fits put get k s.ring s.log s.threads j (pop_get c t)
      → After (get_value get c t junk s.ring)
  unfolding get_value
  Invariant-get_value c t junk (placed, (turn, valid), apart) =
      let x = slot_of s.ring c in
      let h = at_slot put get k low s n j inv (consumer c t false none) placed in
      let e : number c x.token ≡ c = h.stays turn in
      let e' : x.token % 4 ≡ 1 = ground (arith, h.keeps turn) in
      Invariant-get put get k low s n j inv (pop_wake c t (get x.value)) c t true (get x.value) junk
        e (omega arith) h.below apart
        (
          IsPlaced-here put get k low s n j inv (consumer c t true (get x.value))
              (record { token = x.token; value = junk })
              (record {
                below = h.below;
                behind = h.behind;
                stays = h.stays;
                keeps = h.keeps;
                kept = λ f. absurd (ground arith);
                taken_here = λ f. turn;
                taken_valid = λ f. valid;
                delivered = λ f. (x.value, h.kept refl e (omega arith), refl);
              }),
          (turn, valid),
          apart,
        )

  -- The wake of a consumer that is done with its slot.
  Invariant-done :
      (c t : ℕ) (taken : Bool) (result : Option A) (l : Local A)
      → n + 0 + 2 ^ k ≤ 2 ^ 32
      → Fits put get k s.ring s.log s.threads j l
      → role l ≡ consumer c t taken result
      → number c t ≡ c
      → t % 4 ≢ 0
      → (l' : Local A) → Fits put get k (wake_next c s.ring) s.log s.threads j l'
      → After (wake_next c s.ring, l')
  Invariant-done c t taken result l few (placed, checked, apart) e turn full l' own =
      let h =
        at_slot put get k low s n j inv (consumer c t taken result)
          (subst (λ role. IsPlaced put get k s.ring s.log role) e placed) in
      Invariant-next put get k low s n j inv l' c t taken result
        (omega (arith, h.below, inv.head_le)) (h.stays turn) (ground (arith, h.keeps turn)) h.below
        (subst (λ role'. (m : ℕ) → j ≢ m → AreApart (role (s.threads m)) role') e apart) own

  pub Invariant-get_wake :
      (c t : ℕ) (result : Option A)
      → n + 0 + 2 ^ k ≤ 2 ^ 32
      → Fits put get k s.ring s.log s.threads j (pop_wake c t result)
      → After (get_wake c result s.ring)
  unfolding get_wake
  Invariant-get_wake c t none few own =
      Invariant-done c t true none (pop_wake c t none) few own refl own.1.0 (omega (arith, own.1.1))
        thrown (refl, tt, λ m d. AreApart-free (role (s.threads m)))
  Invariant-get_wake c t (some v) few own =
      Invariant-done c t true (some v) (pop_wake c t (some v)) few own refl own.1.0
        (omega (arith, own.1.1)) (finished Status.success (some v))
        (refl, tt, λ m d. AreApart-free (role (s.threads m)))

  pub Invariant-skip :
      (c t : ℕ) (retries : Bool)
      → n + 0 + 2 ^ k ≤ 2 ^ 32
      → Fits put get k s.ring s.log s.threads j (pop_skip c t retries)
      → After (skip c retries s.ring)
  unfolding skip
  Invariant-skip c t true few own =
      Invariant-done c t false none (pop_skip c t true) few own refl own.1.0
        (omega (arith, own.1.1)) pop_begin (refl, tt, λ m d. AreApart-free (role (s.threads m)))
  Invariant-skip c t false few own =
      Invariant-done c t false none (pop_skip c t false) few own refl own.1.0
        (omega (arith, own.1.1)) (finished Status.empty none)
        (refl, tt, λ m d. AreApart-free (role (s.threads m)))
