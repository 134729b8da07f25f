-- ===== src/BoundedQueue/CountSteps.antt =====
-- The accesses to evenk/bounded_queue.h that move a counter keep the invariant.
use evenk.Prelude.{
  ℕ, ◌+◌, ◌%◌, ◌^◌, ◌≤◌, ◌<◌, ◌≡◌, ◌≢◌, Bool, true, false, Option, none, some, update, arith, refl,
  ap, u32, if-elim, if◌then◌else◌, ◌==◌,
}
use mathlib.Core.Path.{subst}
use native.Mathlib.Nat.{mod-lt}
use evenk.Prelude.Bits.{pow-pos}
use evenk.BoundedQueue.Encoding.{number, is_valid, is_valid_iff}
use evenk.BoundedQueue.Ring.{close_last, fetch_add, try_increment}
use evenk.BoundedQueue.Moves.{
  Local, finished, push_load, pop_load, pop_get, pop_skip, close_storing, push_begin, pop_take,
  try_claim, try_take,
}
use evenk.BoundedQueue.Steps.{System}
use evenk.BoundedQueue.Roles.{
  Role, free, producer, consumer, trier, count_of, push_ticket, pop_ticket, DoDiffer, DoDiffer-none,
  RoleAt, AreApart, AreApart-free,
}
use evenk.BoundedQueue.Others.{RoleAt-grow}
use evenk.BoundedQueue.SlotLaws.{SlotAt-grow}
use evenk.BoundedQueue.Laps.{lap, slot_bits}
use evenk.BoundedQueue.Invariant.{role, Fits, IsPlaced, IsSlot, Invariant, Invariant-step}
use evenk.Status.{Status}

module _ {ℓ} {A : Type ℓ} (put get : A → Option A) where
  -- A new ticket differs from all that are held.
  fresh_push :
      (tail head : ℕ) (w : A) (role : Role A) (t : ℕ) (x : A)
      → RoleAt put get tail head w role t x
      → DoDiffer (push_ticket role) (some tail)
  fresh_push tail head w free t x h = tt
  fresh_push tail head w (producer p v seen stored) t x h = ground arith
  fresh_push tail head w (consumer c seen taken result) t x h = tt
  fresh_push tail head w (trier c seen) t x h = tt

  fresh_pop :
      (tail head : ℕ) (w : A) (role : Role A) (t : ℕ) (x : A)
      → RoleAt put get tail head w role t x
      → DoDiffer (pop_ticket role) (some head)
  fresh_pop tail head w free t x h = tt
  fresh_pop tail head w (producer p v seen stored) t x h = tt
  fresh_pop tail head w (consumer c seen taken result) t x h = ground arith
  fresh_pop tail head w (trier c seen) t x h = tt

module _ {ℓ} {A : Type ℓ} (put get : A → Option A) (k : ℕ) (low : 4 ≤ k) (s : System A) (n j : ℕ)
    (inv : Invariant put get k n s) where
  at_count : (c : ℕ) → IsSlot put get k s.ring s.log (c % 2 ^ k) (s.ring.slots (c % 2 ^ k))
  at_count c = inv.slot_at (c % 2 ^ k) (mod-lt c (pow-pos k))

  Invariant-count :
      (n' tail' head' last' : ℕ) (log' : ℕ → A) (l : Local A)
      → s.ring.tail ≤ tail'
      → s.ring.head ≤ head'
      → tail' ≤ n'
      → head' ≤ n'
      → ((c : ℕ) → c < s.ring.tail → log' c ≡ s.log c)
      → Fits put get k
          (record s.ring { tail = tail'; head = head'; last = last' })
          log'
          s.threads
          j
          l
      → Invariant put get k n' (record {
        ring = record s.ring { tail = tail'; head = head'; last = last' };
        threads = update s.threads j l;
        log = log';
      })
  Invariant-count n' tail' head' last' log' l more_tail more_head tail_le head_le same own =
      Invariant-step put get k s n n' j (record s.ring { tail = tail'; head = head'; last = last' })
        log' l inv inv.mask_eq tail_le head_le
        (λ i below.
          SlotAt-grow put get (2 ^ k) s.ring.tail s.ring.head s.log i (s.ring.slots i).token
            (s.ring.slots i).value (inv.slot_at i below) tail' head' log' more_tail more_head
            (same _))
        (λ m d.
          let c = count_of (role (s.threads m)) in
          RoleAt-grow put get s.ring.tail s.ring.head (s.log c) (s.ring.slots (c % 2 ^ k)).token
            (s.ring.slots (c % 2 ^ k)).value (role (s.threads m)) tail' head' (log' c) more_tail
            more_head (same c) (ground (arith, at_count c, slot_bits k c low)) (inv.placed m))
        own

  pub Invariant-push_begin :
      (v : A) (waiting : Bool)
      → n + 1 < 2 ^ 32
      → Invariant put get k (n + 1) (record {
        ring = (push_begin v waiting s.ring).0;
        threads = update s.threads j (push_begin v waiting s.ring).1;
        log = update s.log s.ring.tail v;
      })
  unfolding push_begin
  Invariant-push_begin v waiting fits =
      let c = s.ring.tail in
      let old = s.ring.slots (c % 2 ^ k) in
      Invariant-count (n + 1) (u32 (c + 1)) s.ring.head s.ring.last (update s.log c v)
        (push_load c v waiting) (omega (arith, inv.tail_le)) (omega arith)
        (omega (arith, inv.tail_le)) (omega (arith, inv.head_le)) (λ d below. ground arith)
        (
          ground (
            arith,
            at_count c,
            slot_bits k c low,
            lap (2 ^ k) c (number c old.token),
            inv.tail_le,
          ),
          tt,
          λ m d. (
            fresh_push put get c s.ring.head _ (role (s.threads m)) _ _ (inv.placed m),
            DoDiffer-none (pop_ticket (role (s.threads m))),
          ),
        )

  pub Invariant-pop_take :
      n + 1 < 2 ^ 32
      → Invariant put get k (n + 1) (record {
        ring = (pop_take s.ring).0;
        threads = update s.threads j (pop_take s.ring).1;
        log = s.log;
      })
  unfolding pop_take
  Invariant-pop_take fits =
      let c = s.ring.head in
      let old = s.ring.slots (c % 2 ^ k) in
      Invariant-count (n + 1) s.ring.tail (u32 (c + 1)) s.ring.last s.log (pop_load c) (omega arith)
        (omega (arith, inv.head_le)) (omega (arith, inv.tail_le)) (omega (arith, inv.head_le))
        (λ d below. refl)
        (
          ground (
            arith,
            at_count c,
            (at_count c).holds,
            slot_bits k c low,
            lap (2 ^ k) c (number c old.token),
            inv.head_le,
            ap s.log,
          ),
          tt,
          λ m d. (
            DoDiffer-none (push_ticket (role (s.threads m))),
            fresh_pop put get s.ring.tail c _ (role (s.threads m)) _ _ (inv.placed m),
          ),
        )

  pub Invariant-try_claim :
      (c t : ℕ)
      → n + 1 < 2 ^ 32
      → Fits put get k s.ring s.log s.threads j (try_take c t)
      → Invariant put get k (n + 1) (record {
        ring = (try_claim c t s.ring).0;
        threads = update s.threads j (try_claim c t s.ring).1;
        log = s.log;
      })
  unfolding try_claim try_increment
  Invariant-try_claim c t fits (placed, (turn, full, one_flag), apart) =
      let old = s.ring.slots (c % 2 ^ k) in
      if-elim
        (λ (q : Bool × ℕ). Invariant put get k (n + 1) (record {
          ring = record s.ring { head = q.1 };
          threads = update s.threads j (
              if q.0
              then if is_valid t then pop_get c t else pop_skip c t false
              else finished Status.empty none);
          log = s.log;
        }))
        (s.ring.head == c) (true, u32 (c + 1)) (false, s.ring.head)
        (λ e.
          let e' : s.ring.head ≡ c = ground arith in
          let own : IsPlaced put get k (record s.ring { head = u32 (c + 1) }) s.log
              (consumer c t false none) =
            ground
              (arith, at_count c, (at_count c).holds, slot_bits k c low, inv.head_le, ap s.log) in
          let apart' : (m : ℕ) → j ≢ m → AreApart (role (s.threads m)) (consumer c t false none) =
            λ m d. (
              DoDiffer-none (push_ticket (role (s.threads m))),
              subst (λ h. DoDiffer (pop_ticket (role (s.threads m))) (some h)) e'
                  (fresh_pop put get s.ring.tail s.ring.head _ (role (s.threads m)) _ _
                    (inv.placed m)),
            ) in
          Invariant-count (n + 1) s.ring.tail (u32 (c + 1)) s.ring.last s.log
            (if is_valid t then pop_get c t else pop_skip c t false) (omega arith)
            (omega (arith, inv.head_le)) (omega (arith, inv.tail_le)) (omega (arith, inv.head_le))
            (λ d below. refl)
            (if-elim
              (λ l. Fits put get k (record s.ring { head = u32 (c + 1) }) s.log s.threads j l)
              (is_valid t) (pop_get c t) (pop_skip c t false)
              (λ v. (own, (turn, ground (arith, is_valid_iff t)), apart'))
              (λ v. (own, (turn, ground (arith, is_valid_iff t)), apart'))))
        (λ e.
          Invariant-count (n + 1) s.ring.tail s.ring.head s.ring.last s.log
            (finished Status.empty none) (omega arith) (omega arith) (omega (arith, inv.tail_le))
            (omega (arith, inv.head_le)) (λ d below. refl)
            (refl, tt, λ m d. AreApart-free (role (s.threads m))))

  pub Invariant-close_last :
      n + 2 ^ k < 2 ^ 32
      → Invariant put get k (n + (s.ring.mask + 1)) (record {
        ring = close_last s.ring;
        threads = update s.threads j close_storing;
        log = s.log;
      })
  unfolding close_last fetch_add
  Invariant-close_last fits =
      Invariant-count (n + (s.ring.mask + 1)) (u32 (s.ring.tail + u32 (s.ring.mask + 1)))
        s.ring.head s.ring.tail s.log close_storing
        (omega (arith, inv.tail_le, inv.mask_eq, pow-pos k)) (omega arith)
        (omega (arith, inv.tail_le, inv.mask_eq, pow-pos k)) (omega (arith, inv.head_le))
        (λ d below. refl) (refl, tt, λ m d. AreApart-free (role (s.threads m)))
