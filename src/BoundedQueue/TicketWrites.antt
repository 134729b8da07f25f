-- ===== src/BoundedQueue/TicketWrites.antt =====
-- The class `ring` of evenk/bounded_queue.h: the tickets, and the accesses that write a slot.
use evenk.Prelude.{
  ℕ, ◌+◌, ◌^◌, ◌≤◌, ◌<◌, ◌≡◌, Bool, true, false, Option, none, some, arith, refl, ap, subst,
}
use evenk.Prelude.Bits.{pow-pos, bit_or-one, bit_or_two}
use evenk.Status.{Status}
use evenk.BoundedQueue.Encoding.{number, index, ticket, ticket-eq}
use evenk.BoundedQueue.Slot.{SlotClass}
use evenk.BoundedQueue.Ring.{slot_of, set_token, set_value}
use evenk.BoundedQueue.Moves.{
  Local, finished, thrown, push_put, push_wake, pop_get, pop_wake, pop_skip, pop_begin, put_wake,
  wake_next, get_wake, skip, put_value, get_value,
}
use evenk.BoundedQueue.Steps.{System, wait_mark}
use evenk.BoundedQueue.Roles.{producer, consumer, push_ticket, pop_ticket}
use evenk.BoundedQueue.Invariant.{role, Fits, IsPlaced, Invariant}
use evenk.BoundedQueue.SlotSteps.{at_slot}
use evenk.BoundedQueue.Tickets.{is_closing, Held, HeldAfter}
use evenk.BoundedQueue.TicketSteps.{Held-mark, Held-filled, Held-next}

module _ {ℓ} {A : Type ℓ} (put get : A → Option A) (class : SlotClass) (k : ℕ) (s : System A)
    (j : ℕ) (l : Local A) (e : s.threads j ≡ l) (h : Held k s) where
  pub Held-wait :
      (c t : ℕ) (l' : Local A)
      → is_closing l' ≡ false
      → push_ticket (role l') ≡ push_ticket (role l)
      → pop_ticket (role l') ≡ pop_ticket (role l)
      → HeldAfter k s j (wait_mark put get class s.ring c t, l')
  unfolding set_token slot_of
  Held-wait c t l' stays push pop =
      let x = slot_of s.ring c in
      Held-mark k s j l e h (index s.ring.mask c)
        (record { token = class.wait x.token t; value = x.value }) l' (class.wait_marks x.token t)
        stays push pop

  -- A write of the value.
  Held-value :
      (c : ℕ) (y : A) (l' : Local A)
      → is_closing l' ≡ false
      → push_ticket (role l') ≡ push_ticket (role l)
      → pop_ticket (role l') ≡ pop_ticket (role l)
      → HeldAfter k s j (set_value s.ring c y, l')
  unfolding set_value slot_of
  Held-value c y l' stays push pop =
      let x = slot_of s.ring c in
      Held-mark k s j l e h (index s.ring.mask c) (record { token = x.token; value = y }) l'
        (record { same_ticket = refl; same_status = refl }) stays push pop

module _ {ℓ} {A : Type ℓ} (put get : A → Option A) (class : SlotClass) (k : ℕ) (s : System A)
    (j : ℕ) (h : Held k s) where
  pub Held-put_value :
      (c : ℕ) (v junk : A) (t : ℕ)
      → s.threads j ≡ push_put c v t
      → HeldAfter k s j (put_value put c v t junk s.ring)
  unfolding put_value
  Held-put_value c v junk t e =
      elim (put v)
        as (λ o. HeldAfter k s j (elim o [
          | none ↦ (set_value s.ring c junk, push_wake c v t false)
          | some y ↦ (set_value s.ring c y, push_wake c v t true)
        ])) [
          | none ↦
              Held-value put get class k s j (push_put c v t) e h c junk (push_wake c v t false)
                refl refl refl
          | some y ↦
              Held-value put get class k s j (push_put c v t) e h c y (push_wake c v t true) refl
                refl refl
        ]

  pub Held-get_value :
      (c t : ℕ) (junk : A)
      → s.threads j ≡ pop_get c t
      → HeldAfter k s j (get_value get c t junk s.ring)
  unfolding get_value
  Held-get_value c t junk e =
      Held-value put get class k s j (pop_get c t) e h c junk
        (pop_wake c t (get (slot_of s.ring c).value)) refl refl refl

module _ {ℓ} {A : Type ℓ} (put get : A → Option A) (k : ℕ) (low : 4 ≤ k) (s : System A) (n j : ℕ)
    (inv : Invariant put get k n s) (h : Held k s) where
  pub Held-put_wake :
      (c : ℕ) (v : A) (t : ℕ) (stored : Bool)
      → c < 2 ^ 32
      → s.threads j ≡ push_wake c v t stored
      → Fits put get k s.ring s.log s.threads j (push_wake c v t stored)
      → HeldAfter k s j (put_wake c stored s.ring)
  unfolding put_wake
  Held-put_wake c v t true small e (placed, turn, apart) =
      let here = at_slot put get k low s n j inv (producer c v t true) placed in
      Held-filled put get k low s n j inv (push_wake c v t true) e h c _
        (finished Status.success none) refl refl refl (ground (arith, here.stays))
        (ground (arith, here.stays, here.pending))
        (ground (arith, ticket-eq c small, bit_or-one (ticket c)))
        (ground (arith, ticket-eq c small, bit_or-one (ticket c)))
  Held-put_wake c v t false small e (placed, turn, apart) =
      let here = at_slot put get k low s n j inv (producer c v t false) placed in
      Held-filled put get k low s n j inv (push_wake c v t false) e h c _ thrown refl refl refl
        (ground (arith, here.stays)) (ground (arith, here.stays, here.pending))
        (ground (arith, ticket-eq c small, bit_or_two (ticket c)))
        (ground (arith, ticket-eq c small, bit_or_two (ticket c)))

  -- The wake of a consumer that is done with its slot.
  Held-done :
      (c t : ℕ) (taken : Bool) (result : Option A) (l l' : Local A)
      → n + 2 ^ k ≤ 2 ^ 32
      → s.threads j ≡ l
      → Fits put get k s.ring s.log s.threads j l
      → role l ≡ consumer c t taken result
      → number c t ≡ c
      → is_closing l' ≡ false
      → HeldAfter k s j (wake_next c s.ring, l')
  unfolding wake_next
  Held-done c t taken result l l' few e (placed, checked, apart) same turn stays =
      let here =
        at_slot put get k low s n j inv (consumer c t taken result)
          (subst (λ role. IsPlaced put get k s.ring s.log role) same placed) in
      Held-next put get k low s n j inv l e h c _ l' stays (ap push_ticket same)
        (ap pop_ticket same) (here.stays turn)
        (ground (
          arith,
          ticket-eq c (omega (arith, here.below, inv.head_le)),
          inv.mask_eq,
          here.below,
          inv.head_le,
          pow-pos k,
        ))

  pub Held-get_wake :
      (c t : ℕ) (result : Option A)
      → n + 2 ^ k ≤ 2 ^ 32
      → s.threads j ≡ pop_wake c t result
      → Fits put get k s.ring s.log s.threads j (pop_wake c t result)
      → HeldAfter k s j (get_wake c result s.ring)
  unfolding get_wake
  Held-get_wake c t none few e own =
      Held-done c t true none (pop_wake c t none) thrown few e own refl own.1.0 refl
  Held-get_wake c t (some v) few e own =
      Held-done c t true (some v) (pop_wake c t (some v)) (finished Status.success (some v)) few e
        own refl own.1.0 refl

  pub Held-skip :
      (c t : ℕ) (retries : Bool)
      → n + 2 ^ k ≤ 2 ^ 32
      → s.threads j ≡ pop_skip c t retries
      → Fits put get k s.ring s.log s.threads j (pop_skip c t retries)
      → HeldAfter k s j (skip c retries s.ring)
  unfolding skip
  Held-skip c t true few e own =
      Held-done c t false none (pop_skip c t true) pop_begin few e own refl own.1.0 refl
  Held-skip c t false few e own =
      Held-done c t false none (pop_skip c t false) (finished Status.empty none) few e own refl
        own.1.0 refl
