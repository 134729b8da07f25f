-- ===== src/BoundedQueue/TicketReach.antt =====
-- The class `ring` of evenk/bounded_queue.h: the tickets in every state that a ring reaches with no call
-- of `close`.
use evenk.Prelude.{◌-◌, ℕ, ◌+◌, ◌^◌, ◌≤◌, ◌≡◌, ◌≢◌, true, false, Option, arith, refl, sym, subst}
use evenk.Prelude.Bits.{pow-pos}
use evenk.BoundedQueue.Encoding.{open_state}
use evenk.BoundedQueue.Slot.{SlotClass}
use evenk.BoundedQueue.Ring.{Ring, ok, create}
use evenk.BoundedQueue.Moves.{
  Local, idle, push_load, push_test, pop_load, pop_test, pop_begin, pop_status, status_load,
  try_load, try_test, wait_tail, wait_head, wait_status, try_check,
}
use evenk.BoundedQueue.Steps.{
  System, Move, Reach, start, later, move, begin_push, return_status, return_thrown, load_tail_slot,
  test_tail, back_off, wait_for_tail, do_put, do_put_wake, begin_wait_pop, do_take, load_head_slot,
  test_head, wait_for_head, test_status, wait_for_status, load_status, do_get, do_get_wake, do_skip,
  begin_try_pop, load_try_slot, test_try, do_claim, begin_close, enter_close, take_close,
  store_close, loop_close, load,
}
use evenk.BoundedQueue.Invariant.{Fits, Invariant}
use evenk.BoundedQueue.Always.{Invariant-lower, Reach-Invariant}
use evenk.BoundedQueue.Tickets.{is_closing, Held, HeldAfter}
use evenk.BoundedQueue.TicketSteps.{
  wait_tail-keeps, wait_head-keeps, wait_status-keeps, try_check-keeps, Held-same,
}
use evenk.BoundedQueue.TicketMoves.{begins_close, Held-take, Held-begin_push, Held-claim}
use evenk.BoundedQueue.TicketWrites.{
  Held-wait, Held-put_value, Held-get_value, Held-put_wake, Held-get_wake, Held-skip,
}

module _ {ℓ} {A : Type ℓ} (put get : A → Option A) (class : SlotClass) (k : ℕ) (low : 4 ≤ k) where
  module _ (s : System A) (n j : ℕ) (inv : Invariant put get k n s) (h : Held k s) where
    -- The thread does not close the ring.
    not_closing : {l : Local A} → s.threads j ≡ l → is_closing l ≢ true
    not_closing e closing = cc (h.none_closes j)

    Held-move :
        {l : Local A} {next : Ring A × Local A} {cost : ℕ}
        → n + cost + 2 ^ k ≤ 2 ^ 32
        → s.threads j ≡ l
        → Fits put get k s.ring s.log s.threads j l
        → (step : Move put get class s.ring l next cost)
        → begins_close put get class k low step ≡ false
        → HeldAfter k s j next
    Held-move few e own (return_status status result) calm =
        Held-same k s j _ e h idle refl refl refl
    Held-move few e own return_thrown calm = Held-same k s j _ e h idle refl refl refl
    Held-move few e own (load_tail_slot c v waiting) calm =
        Held-same k s j _ e h (push_test c v waiting (load put get class s.ring c)) refl refl refl
    Held-move few e own (test_tail c v waiting t) calm =
        let keeps = wait_tail-keeps c v waiting t s.ring h.opened in
        Held-same k s j _ e h (wait_tail c v waiting t s.ring) keeps.0 keeps.1 keeps.2
    Held-move few e own (back_off c v reached) calm =
        Held-same k s j _ e h (push_load c v reached) refl refl refl
    Held-move few e own (wait_for_tail c v t) calm =
        Held-wait put get class k s j _ e h c t (push_load c v true) refl refl refl
    Held-move few e own (do_put c v junk t) calm = Held-put_value put get class k s j h c v junk t e
    Held-move few e own (do_put_wake c v t stored) calm =
        Held-put_wake put get k low s n j inv h c v t stored
          (omega (arith, own.0.below, inv.tail_le, pow-pos k)) e own
    Held-move few e own begin_wait_pop calm = Held-same k s j _ e h pop_begin refl refl refl
    Held-move few e own do_take calm =
        Held-take put get class k low s n j inv _ e h refl (omega (arith, pow-pos k))
    Held-move few e own (load_head_slot c) calm =
        Held-same k s j _ e h (pop_test c (load put get class s.ring c)) refl refl refl
    Held-move few e own (test_head c t) calm =
        let keeps = wait_head-keeps c t s.ring h.opened in
        Held-same k s j _ e h (wait_head c t s.ring) keeps.0 keeps.1 keeps.2
    Held-move few e own (wait_for_head c t) calm =
        Held-wait put get class k s j _ e h c t (pop_load c) refl refl refl
    Held-move few e own (test_status c t) calm =
        let keeps = wait_status-keeps c t s.ring h.opened in
        Held-same k s j _ e h (wait_status c t s.ring) keeps.0 keeps.1 keeps.2
    Held-move few e own (wait_for_status c t) calm =
        Held-wait put get class k s j _ e h c t (status_load c t) refl refl refl
    Held-move few e own (load_status c t) calm =
        Held-same k s j _ e h (pop_status c (load put get class s.ring c)) refl refl refl
    Held-move few e own (do_get c t junk) calm = Held-get_value put get class k s j h c t junk e
    Held-move few e own (do_get_wake c t result) calm =
        Held-get_wake put get k low s n j inv h c t result (omega arith) e own
    Held-move few e own (do_skip c t retries) calm =
        Held-skip put get k low s n j inv h c t retries (omega arith) e own
    Held-move few e own begin_try_pop calm =
        Held-same k s j _ e h (try_load s.ring.head) refl refl refl
    Held-move few e own (load_try_slot c) calm =
        Held-same k s j _ e h (try_test c (load put get class s.ring c)) refl refl refl
    Held-move few e own (test_try c t) calm =
        let keeps = try_check-keeps c t s.ring in
        Held-same k s j _ e h (try_check c t s.ring) keeps.0 keeps.1 keeps.2
    Held-move few e own (do_claim c t) calm =
        Held-claim put get class k low s n j inv _ e h c t refl (omega (arith, pow-pos k))
    Held-move few e own begin_close calm = absurd (ground arith)
    Held-move few e own enter_close calm = absurd (not_closing e refl)
    Held-move few e own take_close calm = absurd (not_closing e refl)
    Held-move few e own store_close calm = absurd (not_closing e refl)
    Held-move few e own (loop_close i) calm = absurd (not_closing e refl)

  -- No thread calls `close`.
  unfoldable pub StaysOpen : {n : ℕ} {s : System A} → Reach put get class k n s → Type 0
  StaysOpen (start last default r e) = Unit {0}
  StaysOpen (later reach (move s j e step) tail head) =
      StaysOpen reach × (begins_close put get class k low step ≡ false)
  StaysOpen (later reach (begin_push s j v waiting e) tail head) = StaysOpen reach

  created :
      (last : ℕ) (default : A) (r : Ring A)
      → create true (2 ^ k) last default ≡ ok r
      → (r.tail ≡ 0) × (r.head ≡ 0) × (r.closed ≡ open_state)
  unfolding create
  created last default r e = (ground arith, ground arith, ground arith)

  pub Reach-Held :
      {n : ℕ} {s : System A}
      → (reach : Reach put get class k n s) → n + 2 ^ k ≤ 2 ^ 32
      → StaysOpen reach
      → Held k s
  unfolding StaysOpen
  Reach-Held (start last default r e) few calm = record {
    opened = (created last default r e).2;
    none_closes = λ j. refl;
    pushes = λ p below due. absurd (omega (arith, created last default r e));
    pops = λ c below due. absurd (omega (arith, created last default r e));
  }
  Reach-Held {n = n} (later reach (move s j {l = l} {cost = cost} e step) tail head) few calm =
      let inv =
        Invariant-lower put get class k low s n cost tail head
          (Reach-Invariant put get class k low reach few) in
      Held-move s (n - cost) j inv (Reach-Held reach few calm.0) (omega arith) e
        (subst (λ l'. Fits put get k s.ring s.log s.threads j l') e
          (inv.placed j, inv.checked j, λ m d. inv.apart m j (λ e'. d (sym e'))))
        step calm.1
  Reach-Held {n = n} (later reach (begin_push s j v waiting e) tail head) few calm =
      let inv =
        Invariant-lower put get class k low s n 1 tail head
          (Reach-Invariant put get class k low reach few) in
      Held-begin_push put get class k low s (n - 1) j inv idle e (Reach-Held reach few calm) v
        waiting refl (omega (arith, pow-pos k))
