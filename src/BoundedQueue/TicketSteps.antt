-- ===== src/BoundedQueue/TicketSteps.antt =====
-- The class `ring` of evenk/bounded_queue.h: the tickets, and the tests and writes of a slot.
use evenk.Prelude.{
  ℕ, ◌+◌, ◌-◌, ◌%◌, ◌^◌, ◌≤◌, ◌<◌, ◌≡◌, ◌≢◌, Bool, false, Option, none, some, update, arith, ap,
  sym, ◌∙◌,
}
use evenk.Prelude.Bits.{pow-pos}
use evenk.BoundedQueue.Encoding.{open_state, number, index}
use evenk.BoundedQueue.Slot.{IsMarked}
use evenk.BoundedQueue.Ring.{Ring, Slot, slot_of, set_token}
use evenk.BoundedQueue.Moves.{Local, wait_tail, wait_head, wait_status, try_check}
use evenk.BoundedQueue.Steps.{System}
use evenk.BoundedQueue.Roles.{push_ticket, pop_ticket}
use evenk.BoundedQueue.Laps.{size_round, slot_bits}
use evenk.BoundedQueue.Invariant.{role, Invariant}
use evenk.BoundedQueue.SlotSteps.{slot_index}
use evenk.BoundedQueue.Tickets.{is_closing, Held, Held-quiet, Held-slot}

module _ {ℓ} {A : Type ℓ} where
  -- The tests of an open ring end no call.
  pub wait_tail-keeps :
      (p : ℕ) (v : A) (waiting : Bool) (t : ℕ) (r : Ring A)
      → r.closed ≡ open_state
      → (is_closing (wait_tail p v waiting t r) ≡ false)
        × (push_ticket (role (wait_tail p v waiting t r)) ≡ some p)
        × (pop_ticket (role (wait_tail p v waiting t r)) ≡ none)
  unfolding wait_tail
  wait_tail-keeps p v waiting t r e = ground arith

  pub wait_head-keeps :
      (c t : ℕ) (r : Ring A)
      → r.closed ≡ open_state
      → (is_closing (wait_head c t r) ≡ false)
        × (push_ticket (role (wait_head c t r)) ≡ none)
        × (pop_ticket (role (wait_head c t r)) ≡ some c)
  unfolding wait_head
  wait_head-keeps c t r e = ground arith

  pub wait_status-keeps :
      (c t : ℕ) (r : Ring A)
      → r.closed ≡ open_state
      → (is_closing (wait_status c t r) ≡ false)
        × (push_ticket (role (wait_status c t r)) ≡ none)
        × (pop_ticket (role (wait_status c t r)) ≡ some c)
  unfolding wait_status
  wait_status-keeps c t r e = ground arith

  pub try_check-keeps :
      (c t : ℕ) (r : Ring A)
      → (is_closing (try_check c t r) ≡ false)
        × (push_ticket (role (try_check c t r)) ≡ none)
        × (pop_ticket (role (try_check c t r)) ≡ none)
  unfolding try_check
  try_check-keeps c t r = ground arith

module _ {ℓ} {A : Type ℓ} (k : ℕ) (s : System A) (j : ℕ) (l : Local A) (e : s.threads j ≡ l)
    (h : Held k s) where
  pub Held-same :
      (l' : Local A)
      → is_closing l' ≡ false
      → push_ticket (role l') ≡ push_ticket (role l)
      → pop_ticket (role l') ≡ pop_ticket (role l)
      → Held k (record { ring = s.ring; threads = update s.threads j l'; log = s.log })
  Held-same l' stays push pop =
      Held-quiet k s j l' stays (λ p q. push ∙ sym (ap (λ m. push_ticket (role m)) e) ∙ q)
        (λ c q. pop ∙ sym (ap (λ m. pop_ticket (role m)) e) ∙ q) h

  -- A slot changes its value or a mark of its token.
  pub Held-mark :
      (i : ℕ) (a : Slot A) (l' : Local A)
      → IsMarked (s.ring.slots i).token a.token
      → is_closing l' ≡ false
      → push_ticket (role l') ≡ push_ticket (role l)
      → pop_ticket (role l') ≡ pop_ticket (role l)
      → Held k (record {
        ring = record s.ring { slots = update s.ring.slots i a };
        threads = update s.threads j l';
        log = s.log;
      })
  Held-mark i a l' m stays push pop =
      let keeps_push : (p : ℕ)
          → push_ticket (role (s.threads j)) ≡ some p
          → push_ticket (role l') ≡ some p =
        λ p q. push ∙ sym (ap (λ m. push_ticket (role m)) e) ∙ q in
      let keeps_pop : (c : ℕ)
          → pop_ticket (role (s.threads j)) ≡ some c
          → pop_ticket (role l') ≡ some c =
        λ c q. pop ∙ sym (ap (λ m. pop_ticket (role m)) e) ∙ q in
      Held-slot k s j i a l' stays (λ p same due. (ground (arith, m), keeps_push p))
        (λ p differ. keeps_push p) (λ c same due. (ground (arith, m), keeps_pop c))
        (λ c differ. keeps_pop c) h

module _ {ℓ} {A : Type ℓ} (put get : A → Option A) (k : ℕ) (low : 4 ≤ k) (s : System A) (n j : ℕ)
    (inv : Invariant put get k n s) (l : Local A) (e : s.threads j ≡ l) (h : Held k s) where
  index_bits : (c p : ℕ) → index s.ring.mask c ≡ p % 2 ^ k → c % 16 ≡ p % 16
  index_bits c p same = ground (
    arith,
    ap (λ (i : ℕ). i % 16) (sym (slot_index put get k low s n j inv c) ∙ same),
    slot_bits k c low,
    slot_bits k p low,
  )

  mine-push :
      (p q : ℕ) → push_ticket (role l) ≡ some q → push_ticket (role (s.threads j)) ≡ some p → p ≡ q
  mine-push p q mine held = cc (ap (λ m. push_ticket (role m)) e)

  mine-pop :
      (c d : ℕ) → pop_ticket (role l) ≡ some d → pop_ticket (role (s.threads j)) ≡ some c → c ≡ d
  mine-pop c d mine held = cc (ap (λ m. pop_ticket (role m)) e)

  no_pop : (c : ℕ) → pop_ticket (role l) ≡ none → pop_ticket (role (s.threads j)) ≢ some c
  no_pop c none_held held = cc (ap (λ m. pop_ticket (role m)) e)

  no_push : (p : ℕ) → push_ticket (role l) ≡ none → push_ticket (role (s.threads j)) ≢ some p
  no_push p none_held held = cc (ap (λ m. push_ticket (role m)) e)

  -- The flag of a producer ends its ticket and no other.
  pub Held-filled :
      (q t' : ℕ) (l' : Local A)
      → is_closing l' ≡ false
      → push_ticket (role l) ≡ some q
      → pop_ticket (role l) ≡ none
      → number q (slot_of s.ring q).token ≡ q
      → (slot_of s.ring q).token % 4 ≡ 0
      → t' - t' % 16 ≡ q - q % 16
      → t' % 4 ≢ 0
      → Held k
          (record { ring = set_token s.ring q t'; threads = update s.threads j l'; log = s.log })
  unfolding set_token slot_of
  Held-filled q t' l' stays mine none_popped turn pending next filled =
      let i = index s.ring.mask q in
      Held-slot k s j i (record { token = t'; value = (s.ring.slots i).value }) l' stays
        (λ p same due. (
          ground (arith, index_bits q p same),
          λ held. absurd (ground (arith, mine-push p q mine held, index_bits q p same)),
        ))
        (λ p differ held. absurd (
          differ (
            slot_index put get k low s n j inv q
            ∙ ap (λ c. c % 2 ^ k) (sym (mine-push p q mine held)))))
        (λ c same due.
          (ground (arith, index_bits q c same), λ held. absurd (no_pop c none_popped held)))
        (λ c differ held. absurd (no_pop c none_popped held)) h

  -- The step of a consumer to the next ticket of its slot ends its ticket and no other.
  pub Held-next :
      (d t' : ℕ) (l' : Local A)
      → is_closing l' ≡ false
      → push_ticket (role l) ≡ none
      → pop_ticket (role l) ≡ some d
      → number d (slot_of s.ring d).token ≡ d
      → t' ≡ d - d % 16 + 2 ^ k
      → Held k
          (record { ring = set_token s.ring d t'; threads = update s.threads j l'; log = s.log })
  unfolding set_token slot_of
  Held-next d t' l' stays none_pushed mine turn next =
      let i = index s.ring.mask d in
      let some_lap : 0 < 2 ^ k = pow-pos k in
      Held-slot k s j i (record { token = t'; value = (s.ring.slots i).value }) l' stays
        (λ p same due. (
          ground (arith, index_bits d p same, size_round k low, some_lap),
          λ held. absurd (no_push p none_pushed held),
        ))
        (λ p differ held. absurd (no_push p none_pushed held))
        (λ c same due. (
          ground (arith, index_bits d c same, size_round k low),
          λ held. absurd (
              ground
                (arith, mine-pop c d mine held, index_bits d c same, size_round k low, some_lap)),
        ))
        (λ c differ held. absurd (
          differ (
            slot_index put get k low s n j inv d
            ∙ ap (λ c. c % 2 ^ k) (sym (mine-pop c d mine held)))))
        h
