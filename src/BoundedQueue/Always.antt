-- ===== src/BoundedQueue/Always.antt =====
-- The invariant holds in every state that a ring of evenk/bounded_queue.h and its threads reach.
use evenk.Prelude.{
  ℕ, ◌+◌, ◌-◌, ◌^◌, ◌≤◌, ◌≡◌, Bool, true, false, Option, update, arith, refl, sym, if-elim,
  if◌then◌else◌, ltb, u32,
}
use mathlib.Core.Path.{subst}
use native.Mathlib.Nat.{mod-eq_of_lt}
use evenk.Prelude.Bits.{pow-pos}
use evenk.BoundedQueue.Encoding.{
  CloseState, open_state, closing_state, closed_state, ticket-eq, ticket,
}
use evenk.BoundedQueue.Slot.{SlotClass}
use evenk.BoundedQueue.Ring.{Ring, ok, create, close_enter, close_store, close_slot}
use evenk.BoundedQueue.Moves.{
  Local, idle, push_load, push_test, pop_begin, pop_load, pop_test, status_load, pop_status,
  try_load, try_test, close_begin, close_taking, close_loop,
}
use evenk.BoundedQueue.Steps.{
  System, Move, Reach, start, later, move, begin_push, return_status, return_thrown, load_tail_slot,
  test_tail, back_off, wait_for_tail, do_put, do_put_wake, begin_wait_pop, do_take, load_head_slot,
  test_head, wait_for_head, test_status, wait_for_status, load_status, do_get, do_get_wake, do_skip,
  begin_try_pop, load_try_slot, test_try, do_claim, begin_close, enter_close, take_close,
  store_close, loop_close, close_loop_step, load,
}
use evenk.BoundedQueue.SlotSteps.{IsSlot-here, Invariant-mark}
use evenk.BoundedQueue.CountSteps.{
  Invariant-push_begin, Invariant-pop_take, Invariant-try_claim, Invariant-close_last,
}
use evenk.BoundedQueue.Preserve.{
  token_here, Invariant-put_value, Invariant-put_wake, Invariant-get_value, Invariant-get_wake,
  Invariant-skip,
}
use evenk.BoundedQueue.Places.{Fits-wait_tail, Fits-wait_head, Fits-wait_status, Fits-try_check}
use evenk.BoundedQueue.Invariant.{Fits, Invariant, Invariant-quiet, Invariant-step}

module _ {ℓ} {A : Type ℓ} (put get : A → Option A) (class : SlotClass) (k : ℕ) (low : 4 ≤ k) where
  module _ (s : System A) (n j : ℕ) (inv : Invariant put get k n s) where
    Invariant-closed :
        (c : CloseState) (l : Local A)
        → Fits put get k s.ring s.log s.threads j l
        → Invariant put get k (n + 0) (record {
          ring = record s.ring { closed = c };
          threads = update s.threads j l;
          log = s.log;
        })
    Invariant-closed c l own =
        Invariant-step put get k s n (n + 0) j (record s.ring { closed = c }) s.log l inv
          inv.mask_eq (ground (arith, inv.tail_le)) (ground (arith, inv.head_le)) inv.slot_at
          (λ m d. inv.placed m) own

    Invariant-enter_close :
        (c : CloseState)
        → Fits put get k s.ring s.log s.threads j idle
        → (λ (q : Bool × Ring A). Invariant put get k (n + 0) (record {
          ring = q.1;
          threads = update s.threads j (if q.0 then idle else close_taking);
          log = s.log;
        }))
            (elim c [
              | closing_state ↦ (true, record s.ring { closed = open_state })
              | _ ↦ (false, s.ring)
            ])
    Invariant-enter_close open_state own = Invariant-quiet put get k s n j close_taking inv own
    Invariant-enter_close closing_state own = Invariant-closed open_state idle own
    Invariant-enter_close closed_state own = Invariant-quiet put get k s n j close_taking inv own

    Invariant-close_loop :
        (i : ℕ)
        → Fits put get k s.ring s.log s.threads j (close_loop i)
        → Invariant put get k (n + 0) (record {
          ring = (close_loop_step put get class i s.ring).0;
          threads = update s.threads j (close_loop_step put get class i s.ring).1;
          log = s.log;
        })
    unfolding close_slot
    Invariant-close_loop i own =
        if-elim
          (λ (next : Ring A × Local A).
            Invariant put get k (n + 0)
              (record { ring = next.0; threads = update s.threads j next.1; log = s.log }))
          (ltb i (u32 (s.ring.mask + 1))) _ _
          (λ e.
            Invariant-mark put get k low s n j inv (close_loop (i + 1)) (u32 (s.ring.last + i)) _
              (class.close_marks _) own)
          (λ e. Invariant-quiet put get k s n j idle inv own)

    Invariant-move :
        {l : Local A} {next : Ring A × Local A} {cost : ℕ}
        → n + cost + 2 ^ k ≤ 2 ^ 32
        → Fits put get k s.ring s.log s.threads j l
        → Move put get class s.ring l next cost
        → Invariant put get k
            (n + cost)
            (record { ring = next.0; threads = update s.threads j next.1; log = s.log })
    unfolding close_enter close_store
    Invariant-move few own (return_status status result) =
        Invariant-quiet put get k s n j idle inv own
    Invariant-move few own return_thrown = Invariant-quiet put get k s n j idle inv own
    Invariant-move few (placed, checked, apart) (load_tail_slot c v waiting) =
        Invariant-quiet put get k s n j (push_test c v waiting (load put get class s.ring c)) inv (
          ground (arith, token_here put get k low s n j inv c),
          (IsSlot-here put get k low s n j inv c).fits,
          apart,
        )
    Invariant-move few own (test_tail c v waiting t) = Invariant-quiet put get k s n j _ inv (
        Fits-wait_tail put get k s.ring s.log s.threads j c v waiting t
          (omega (arith, own.0.below, inv.tail_le, pow-pos k)) own)
    Invariant-move few own (back_off c v reached) =
        Invariant-quiet put get k s n j (push_load c v reached) inv own
    Invariant-move few own (wait_for_tail c v t) =
        Invariant-mark put get k low s n j inv (push_load c v true) c _ (class.wait_marks _ t) own
    Invariant-move few own (do_put c v junk t) =
        Invariant-put_value put get k low s n j inv c v t junk own
    Invariant-move few own (do_put_wake c v t stored) =
        Invariant-put_wake put get k low s n j inv c v t stored
          (omega (arith, own.0.below, inv.tail_le, pow-pos k)) own
    Invariant-move few own begin_wait_pop = Invariant-quiet put get k s n j pop_begin inv own
    Invariant-move few own do_take =
        Invariant-pop_take put get k low s n j inv (omega (arith, pow-pos k))
    Invariant-move few (placed, checked, apart) (load_head_slot c) =
        let h = IsSlot-here put get k low s n j inv c in
        Invariant-quiet put get k s n j (pop_test c (load put get class s.ring c)) inv (
          ground (arith, token_here put get k low s n j inv c, placed.kept),
          (h.fits, h.one_flag),
          apart,
        )
    Invariant-move few own (test_head c t) = Invariant-quiet put get k s n j _ inv (
        Fits-wait_head put get k s.ring s.log s.threads j c t
          (omega (arith, own.0.below, inv.head_le, pow-pos k)) own)
    Invariant-move few own (wait_for_head c t) =
        Invariant-mark put get k low s n j inv (pop_load c) c _ (class.wait_marks _ t) own
    Invariant-move few own (test_status c t) =
        Invariant-quiet put get k s n j _ inv
          (Fits-wait_status put get k s.ring s.log s.threads j c t own)
    Invariant-move few own (wait_for_status c t) =
        Invariant-mark put get k low s n j inv (status_load c t) c _ (class.wait_marks _ t) own
    Invariant-move few (placed, turn, apart) (load_status c t) =
        let h = IsSlot-here put get k low s n j inv c in
        Invariant-quiet put get k s n j (pop_status c (load put get class s.ring c)) inv (
          ground (arith, token_here put get k low s n j inv c, placed.kept),
          (ground (arith, token_here put get k low s n j inv c, placed.stays), h.one_flag),
          apart,
        )
    Invariant-move few own (do_get c t junk) =
        Invariant-get_value put get k low s n j inv c t junk own
    Invariant-move few own (do_get_wake c t result) =
        Invariant-get_wake put get k low s n j inv c t result few own
    Invariant-move few own (do_skip c t retries) =
        Invariant-skip put get k low s n j inv c t retries few own
    Invariant-move few own begin_try_pop =
        Invariant-quiet put get k s n j (try_load s.ring.head) inv (ground arith, tt, own.2)
    Invariant-move few (placed, checked, apart) (load_try_slot c) =
        let h = IsSlot-here put get k low s n j inv c in
        Invariant-quiet put get k s n j (try_test c (load put get class s.ring c)) inv
          (ground (arith, token_here put get k low s n j inv c), (h.fits, h.one_flag), apart)
    Invariant-move few own (test_try c t) = Invariant-quiet put get k s n j _ inv (
        Fits-try_check put get k s.ring s.log s.threads j c t
          (omega (arith, own.0.reached, inv.head_le, pow-pos k)) own)
    Invariant-move few own (do_claim c t) =
        Invariant-try_claim put get k low s n j inv c t (omega (arith, pow-pos k)) own
    Invariant-move few own begin_close = Invariant-quiet put get k s n j close_begin inv own
    Invariant-move few own enter_close = Invariant-enter_close s.ring.closed own
    Invariant-move few own take_close =
        Invariant-close_last put get k low s n j inv (ground (arith, inv.mask_eq, pow-pos k))
    Invariant-move few own store_close = Invariant-closed closed_state (close_loop 0) own
    Invariant-move few own (loop_close i) = Invariant-close_loop i own

  created :
      (last i : ℕ) (default : A) (r : Ring A)
      → 2 ^ k ≤ 2 ^ 32
      → create true (2 ^ k) last default ≡ ok r
      → (r.mask ≡ 2 ^ k - 1) × (r.tail ≡ 0) × (r.head ≡ 0) × ((r.slots i).token ≡ ticket i)
  unfolding create ticket
  created last i default r few e =
      (ground (arith, pow-pos k), ground arith, ground arith, ground arith)

  -- What an access can add may be kept back from the bound.
  pub Invariant-lower :
      (s : System A) (n cost : ℕ)
      → s.ring.tail + cost ≤ n
      → s.ring.head + cost ≤ n
      → Invariant put get k n s
      → Invariant put get k (n - cost) s
  Invariant-lower s n cost tail head inv = record {
    mask_eq = inv.mask_eq;
    tail_le = omega arith;
    head_le = omega arith;
    slot_at = inv.slot_at;
    placed = inv.placed;
    checked = inv.checked;
    apart = inv.apart;
  }

  -- In every state that a ring reaches before its counters wrap around, the invariant holds.
  pub Reach-Invariant :
      {n : ℕ} {s : System A}
      → Reach put get class k n s
      → n + 2 ^ k ≤ 2 ^ 32
      → Invariant put get k n s
  Reach-Invariant (start last default r e) few = record {
    mask_eq = ground (arith, created last 0 default r (omega arith) e);
    tail_le = ground (arith, created last 0 default r (omega arith) e);
    head_le = ground (arith, created last 0 default r (omega arith) e);
    slot_at = λ i below. ground (
      arith,
      created last i default r (omega arith) e,
      ticket-eq i (omega arith),
      mod-eq_of_lt below,
    );
    placed = λ j. refl;
    checked = λ j. tt;
    apart = λ i j d. (tt, tt);
  }
  Reach-Invariant {n = n} (later reach (move s j {l = l} {cost = cost} e step) tail head) few =
      let inv = Invariant-lower s n cost tail head (Reach-Invariant reach few) in
      let same : n - cost + cost ≡ n = omega arith in
      rw same at (
        Invariant-move s (n - cost) j inv (omega arith)
          (subst (λ l'. Fits put get k s.ring s.log s.threads j l') e
            (inv.placed j, inv.checked j, λ m d. inv.apart m j (λ e'. d (sym e'))))
          step)
  Reach-Invariant {n = n} (later reach (begin_push s j v waiting e) tail head) few =
      let inv = Invariant-lower s n 1 tail head (Reach-Invariant reach few) in
      let same : n - 1 + 1 ≡ n = omega arith in
      rw same at
        (Invariant-push_begin put get k low s (n - 1) j inv v waiting (omega (arith, pow-pos k)))
