-- ===== src/BoundedQueue/TicketMoves.antt =====
-- The class `ring` of evenk/bounded_queue.h: the tickets, and the accesses that move a counter.
use evenk.Prelude.{
  ℕ, ◌+◌, ◌^◌, ◌≤◌, ◌<◌, ◌≡◌, ◌≢◌, inl, inr, Bool, true, false, Option, none, some, update, ◌==◌,
  if◌then◌else◌, arith, refl, ap, ◌∙◌, u32, if-elim, Bool-cases,
}
use evenk.Status.{Status}
use evenk.BoundedQueue.Encoding.{is_valid}
use evenk.BoundedQueue.Slot.{SlotClass}
use evenk.BoundedQueue.Ring.{Ring, try_increment}
use evenk.BoundedQueue.Moves.{
  Local, idle, finished, push_load, pop_load, pop_get, pop_skip, pop_begin, try_take, push_begin,
  pop_take, try_claim,
}
use evenk.BoundedQueue.Steps.{System, Move, begin_close}
use evenk.BoundedQueue.Roles.{push_ticket, pop_ticket}
use evenk.BoundedQueue.Invariant.{role, Invariant}
use evenk.BoundedQueue.Tickets.{is_closing, HeldAfter, Held, Held-step, Held-quiet}

module _ {ℓ} (A : Type ℓ) where
  abbrev claimed : (c t : ℕ) (valid : Bool) → Local A
  claimed c t valid = if valid then pop_get c t else pop_skip c t false

  claimed-keeps :
      (c t : ℕ) (valid : Bool)
      → (is_closing (claimed c t valid) ≡ false)
        × (push_ticket (role (claimed c t valid)) ≡ none)
        × (pop_ticket (role (claimed c t valid)) ≡ some c)
  claimed-keeps c t true = (refl, refl, refl)
  claimed-keeps c t false = (refl, refl, refl)

module _ {ℓ} {A : Type ℓ} (put get : A → Option A) (class : SlotClass) (k : ℕ) (low : 4 ≤ k) where
  abbrev pub begins_close :
      {r : Ring A} {l : Local A} {next : Ring A × Local A} {cost : ℕ}
      → Move put get class r l next cost
      → Bool
  begins_close begin_close = true
  begins_close _ = false

  module _ (s : System A) (n j : ℕ) (inv : Invariant put get k n s) (l : Local A)
      (e : s.threads j ≡ l) (h : Held k s) where
    pub Held-take : l ≡ pop_begin → n + 1 < 2 ^ 32 → HeldAfter k s j (pop_take s.ring)
    unfolding pop_take
    Held-take at few =
        let c = s.ring.head in
        let none_held : (p : ℕ) → pop_ticket (role (s.threads j)) ≢ some p =
          λ p held. cc (ap (λ m. pop_ticket (role m)) (e ∙ at)) in
        let none_pushed : (p : ℕ) → push_ticket (role (s.threads j)) ≢ some p =
          λ p held. cc (ap (λ m. push_ticket (role m)) (e ∙ at)) in
        Held-step k s j (record s.ring { head = u32 (c + 1) }) (pop_load c) s.log h.opened refl
          (λ p below due. inl (below, due, λ held. absurd (none_pushed p held)))
          (λ p below due. elim (Bool-cases (p == c)) [
            | inl same ↦ inr (ground arith)
            | inr differ ↦ inl (ground (arith, inv.head_le), due, λ held. absurd (none_held p held))
          ])
          h

    pub Held-begin_push :
        (v : A) (waiting : Bool)
        → l ≡ idle
        → n + 1 < 2 ^ 32
        → Held k (record {
          ring = (push_begin v waiting s.ring).0;
          threads = update s.threads j (push_begin v waiting s.ring).1;
          log = update s.log s.ring.tail v;
        })
    unfolding push_begin
    Held-begin_push v waiting at few =
        let p = s.ring.tail in
        let none_held : (q : ℕ) → push_ticket (role (s.threads j)) ≢ some q =
          λ q held. cc (ap (λ m. push_ticket (role m)) (e ∙ at)) in
        let none_popped : (c : ℕ) → pop_ticket (role (s.threads j)) ≢ some c =
          λ c held. cc (ap (λ m. pop_ticket (role m)) (e ∙ at)) in
        Held-step k s j (record s.ring { tail = u32 (p + 1) }) (push_load p v waiting)
          (update s.log p v) h.opened refl
          (λ q below due. elim (Bool-cases (q == p)) [
            | inl same ↦ inr (ground arith)
            | inr differ ↦ inl (ground (arith, inv.tail_le), due, λ held. absurd (none_held q held))
          ])
          (λ c below due. inl (below, due, λ held. absurd (none_popped c held))) h

    pub Held-claim :
        (c t : ℕ) → l ≡ try_take c t → n + 1 < 2 ^ 32 → HeldAfter k s j (try_claim c t s.ring)
    unfolding try_claim try_increment
    Held-claim c t at few =
        let none_held : (p : ℕ) → push_ticket (role (s.threads j)) ≢ some p =
          λ p held. cc (ap (λ m. push_ticket (role m)) (e ∙ at)) in
        let none_popped : (d : ℕ) → pop_ticket (role (s.threads j)) ≢ some d =
          λ d held. cc (ap (λ m. pop_ticket (role m)) (e ∙ at)) in
        let l' : Local A = claimed A c t (is_valid t) in
        let keeps = claimed-keeps A c t (is_valid t) in
        if-elim
          (λ (q : Bool × ℕ).
            HeldAfter k s j
              (record s.ring { head = q.1 }, if q.0 then l' else finished Status.empty none))
          (s.ring.head == c) _ _
          (λ same.
            Held-step k s j (record s.ring { head = u32 (c + 1) }) l' s.log h.opened keeps.0
              (λ p below due. inl (below, due, λ held. absurd (none_held p held)))
              (λ d below due. elim (Bool-cases (d == c)) [
                | inl here ↦ inr (keeps.2 ∙ ap (λ (i : ℕ). some i) (ground arith))
                | inr differ ↦
                    inl (ground (arith, inv.head_le), due, λ held. absurd (none_popped d held))
              ])
              h)
          (λ differ.
            Held-quiet k s j (finished Status.empty none) refl (λ p held. absurd (none_held p held))
              (λ d held. absurd (none_popped d held)) h)
