-- ===== src/BoundedQueue/Turns.antt =====
-- The class `ring` of evenk/bounded_queue.h: whose turn it is at a slot.
use evenk.Prelude.{
  ℕ, ◌+◌, ◌-◌, ◌%◌, ◌^◌, ◌≤◌, ◌<◌, ◌≡◌, ◌≢◌, ◌⊎◌, inl, inr, Bool, true, Option, some, arith, refl,
  ap, subst, dec_lt, ◌==◌, if◌then◌else◌, Bool-cases,
}
use native.Mathlib.Nat.{mod-lt}
use evenk.Prelude.Bits.{pow-pos}
use evenk.BoundedQueue.Encoding.{number, ticket-eq, status-eq, is_valid}
use evenk.BoundedQueue.Slot.{SlotClass}
use evenk.BoundedQueue.Ring.{Ring}
use evenk.BoundedQueue.Moves.{
  push_put, pop_status, pop_get, pop_skip, wait_tail, wait_head, wait_status,
}
use evenk.BoundedQueue.Steps.{System, Reach}
use evenk.BoundedQueue.Roles.{Role, free, producer, consumer, trier, push_ticket, pop_ticket}
use evenk.BoundedQueue.Laps.{lap, slot_bits}
use evenk.BoundedQueue.Invariant.{role, IsSlot, IsPlaced, Invariant}
use evenk.BoundedQueue.Always.{Reach-Invariant}
use evenk.BoundedQueue.Tickets.{token, HasPush, HasPop, Held}
use evenk.BoundedQueue.TicketReach.{StaysOpen, Reach-Held}

module _ {ℓ} {A : Type ℓ} where
  wait_tail-turn :
      (p : ℕ) (v : A) (waiting : Bool) (t : ℕ) (r : Ring A)
      → t < 2 ^ 32
      → p < 2 ^ 32
      → number p t ≡ p
      → wait_tail p v waiting t r ≡ push_put p v t
  unfolding wait_tail
  wait_tail-turn p v waiting t r fits small turn =
      ground (arith, ticket-eq t fits, ticket-eq p small)

  wait_head-turn :
      (c t : ℕ) (r : Ring A)
      → t < 2 ^ 32
      → c < 2 ^ 32
      → number c t ≡ c
      → wait_head c t r ≡ pop_status c t
  unfolding wait_head
  wait_head-turn c t r fits small turn = ground (arith, ticket-eq t fits, ticket-eq c small)

  wait_status-turn :
      (c t : ℕ) (r : Ring A)
      → t % 4 ≢ 0
      → wait_status c t r ≡ (if is_valid t then pop_get c t else pop_skip c t true)
  unfolding wait_status
  wait_status-turn c t r full = ground (arith, status-eq t)

  -- A thread has the ticket that its slot is at, and a test of the token ends its wait.
  abbrev pub PushTurn : (k : ℕ) (s : System A) (n : ℕ) → Type ℓ
  PushTurn k s n =
      HasPush s.threads n
      × ((v : A) (waiting : Bool)
          → wait_tail n v waiting (token k s.ring n) s.ring ≡ push_put n v (token k s.ring n))

  abbrev pub PopTurn : (k : ℕ) (s : System A) (n : ℕ) → Type ℓ
  PopTurn k s n =
      HasPop s.threads n
      × (wait_head n (token k s.ring n) s.ring ≡ pop_status n (token k s.ring n))
      × (wait_status n (token k s.ring n) s.ring ≡ (
          if is_valid (token k s.ring n)
          then pop_get n (token k s.ring n)
          else pop_skip n (token k s.ring n) true))

  -- At the slot of a count it is the turn of that count or of an earlier one.
  abbrev pub Turn : (k : ℕ) (s : System A) (count : ℕ) → Type ℓ
  Turn k s count =
      (n : ℕ) × (n ≤ count) × (n % 2 ^ k ≡ count % 2 ^ k) × (PushTurn k s n ⊎ PopTurn k s n)

module _ {ℓ} {A : Type ℓ} (put get : A → Option A) (k : ℕ) (low : 4 ≤ k) (s : System A) (n : ℕ)
    (inv : Invariant put get k n s) (few : n + 2 ^ k ≤ 2 ^ 32) (h : Held k s) where
  at_count : (c : ℕ) → IsSlot put get k s.ring s.log (c % 2 ^ k) (s.ring.slots (c % 2 ^ k))
  at_count c = inv.slot_at (c % 2 ^ k) (mod-lt c (pow-pos k))

  same_slot : (c : ℕ) → number c (token k s.ring c) % 2 ^ k ≡ c % 2 ^ k
  same_slot c =
      subst (λ (i : ℕ). (token k s.ring c - token k s.ring c % 16 + i) % 2 ^ k ≡ c % 2 ^ k)
        (slot_bits k c low) (at_count c).own

  token-same : (c d : ℕ) → d % 2 ^ k ≡ c % 2 ^ k → token k s.ring d ≡ token k s.ring c
  token-same c d same = ap (λ (i : ℕ). (s.ring.slots i).token) same

  Turn-push :
      (c d : ℕ)
      → number c (token k s.ring c) ≡ d
      → d ≤ c
      → d < s.ring.tail
      → token k s.ring c % 4 ≡ 0
      → Turn k s c
  Turn-push c d e behind below empty =
      let same : d % 2 ^ k ≡ c % 2 ^ k = subst (λ (m : ℕ). m % 2 ^ k ≡ c % 2 ^ k) e (same_slot c) in
      let here = token-same c d same in
      let turn : number d (token k s.ring d) ≡ d = ground (arith, here) in
      (
        d,
        behind,
        same,
        inl (
          h.pushes d below (ground (arith, here, turn)),
          λ v waiting.
              wait_tail-turn d v waiting (token k s.ring d) s.ring (at_count d).fits
                (omega (arith, inv.tail_le)) turn,
        ),
      )

  Turn-pop :
      (c d : ℕ)
      → number c (token k s.ring c) ≡ d
      → d ≤ c
      → d < s.ring.head
      → token k s.ring c % 4 ≢ 0
      → Turn k s c
  Turn-pop c d e behind below full =
      let same : d % 2 ^ k ≡ c % 2 ^ k = subst (λ (m : ℕ). m % 2 ^ k ≡ c % 2 ^ k) e (same_slot c) in
      let here = token-same c d same in
      let turn : number d (token k s.ring d) ≡ d = ground (arith, here) in
      (
        d,
        behind,
        same,
        inr (
          h.pops d below (ground (arith, turn)),
          wait_head-turn d (token k s.ring d) s.ring (at_count d).fits (omega (arith, inv.head_le))
              turn,
          wait_status-turn d (token k s.ring d) s.ring (ground (arith, here)),
        ),
      )

  pop-Turn :
      (c : ℕ) → number c (token k s.ring c) ≤ c → c < s.ring.head → (s.ring.tail ≤ c) ⊎ Turn k s c
  pop-Turn c behind below =
      let d = number c (token k s.ring c) in
      elim (Bool-cases (token k s.ring c % 4 == 0)) [
        | inl e ↦ elim (dec_lt d s.ring.tail) [
          | yes pushed ↦ inr (Turn-push c d refl behind pushed (ground arith))
          | no absent ↦ inl (omega arith)
        ]
        | inr e ↦ inr (Turn-pop c d refl behind (omega arith) (ground arith))
      ]

  push-Turn :
      (p : ℕ)
      → number p (token k s.ring p) ≤ p
      → p < s.ring.tail
      → (number p (token k s.ring p) ≡ p → token k s.ring p % 4 ≡ 0)
      → (s.ring.head + 2 ^ k ≤ p) ⊎ Turn k s p
  push-Turn p behind below pending =
      let d = number p (token k s.ring p) in
      elim (Bool-cases (token k s.ring p % 4 == 0)) [
        | inl e ↦ inr (Turn-push p d refl behind (omega arith) (ground arith))
        | inr e ↦ elim (dec_lt d s.ring.head) [
          | yes taken ↦ inr (Turn-pop p d refl behind taken (ground arith))
          | no later ↦ inl (omega (arith, lap (2 ^ k) d p (same_slot p) (ground (arith, pending))))
        ]
      ]

  pop_turns :
      (r : Role A) (c : ℕ)
      → IsPlaced put get k s.ring s.log r
      → pop_ticket r ≡ some c
      → (s.ring.tail ≤ c) ⊎ Turn k s c
  pop_turns free c placed held = absurd (ground arith)
  pop_turns (producer p v seen stored) c placed held = absurd (ground arith)
  pop_turns (trier d seen) c placed held = absurd (ground arith)
  pop_turns (consumer d seen taken result) c placed held =
      subst (λ (i : ℕ). (s.ring.tail ≤ i) ⊎ Turn k s i) (ground arith)
        (pop-Turn d placed.behind placed.below)

  push_turns :
      (r : Role A) (p : ℕ)
      → IsPlaced put get k s.ring s.log r
      → push_ticket r ≡ some p
      → (s.ring.head + 2 ^ k ≤ p) ⊎ Turn k s p
  push_turns free p placed held = absurd (ground arith)
  push_turns (consumer c seen taken result) p placed held = absurd (ground arith)
  push_turns (trier c seen) p placed held = absurd (ground arith)
  push_turns (producer q v seen stored) p placed held =
      subst (λ (i : ℕ). (s.ring.head + 2 ^ k ≤ i) ⊎ Turn k s i) (ground arith)
        (push-Turn q placed.behind placed.below placed.pending)

-- In a ring of 2 ^ k slots, at least 16, of any slot class, whose threads make their accesses in any
-- order, each while both counters, with what the access may add to one of them (1), are a lap or more
-- below 2 ^ 32, and with no call of `close` so far:
-- if a thread has the ticket `count` of `wait_push` or of a pop, then it is a consumer and no producer has
-- taken that count yet, or it is a producer and the count is a whole lap or more ahead of `head_`, or
-- the slot of `count` is at the ticket of a thread: some thread has a ticket `m` of that slot, `count` or
-- an earlier one, and with the token that the slot has now the loop of `wait_tail` goes on to the value,
-- if `m` is a ticket of `wait_push`, or both loops of `wait_head` end, if it is a consumer's.
pub ring_turns {ℓ} :
    {A : Type ℓ} (put get : A → Option A) (class : SlotClass) (k : ℕ) (low : 4 ≤ k) {s : System A}
    {n : ℕ} (reach : Reach put get class k n s) (j count : ℕ)
    → n + 2 ^ k ≤ 2 ^ 32
    → StaysOpen put get class k low reach
    → (push_ticket (role (s.threads j)) ≡ some count)
      ⊎ (pop_ticket (role (s.threads j)) ≡ some count)
    → ((pop_ticket (role (s.threads j)) ≡ some count) × (s.ring.tail ≤ count))
      ⊎ ((push_ticket (role (s.threads j)) ≡ some count) × (s.ring.head + 2 ^ k ≤ count))
      ⊎ Turn k s count
ring_turns put get class k low {s = s} {n = n} reach j count few calm (inl held) =
    let inv = Reach-Invariant put get class k low reach few in
    elim (push_turns put get k low s n inv few (Reach-Held put get class k low reach few calm)
      (role (s.threads j)) count (inv.placed j) held) [
        | inl full ↦ inr (inl (held, full))
        | inr turn ↦ inr (inr turn)
      ]
ring_turns put get class k low {s = s} {n = n} reach j count few calm (inr held) =
    let inv = Reach-Invariant put get class k low reach few in
    elim (pop_turns put get k low s n inv few (Reach-Held put get class k low reach few calm)
      (role (s.threads j)) count (inv.placed j) held) [
        | inl empty ↦ inl (held, empty)
        | inr turn ↦ inr (inr turn)
      ]
