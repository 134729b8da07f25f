-- ===== src/BoundedQueue/TryPush.antt =====
-- `try_push` of evenk/bounded_queue.h, with no other thread in between.
use evenk.Prelude.{
  ℕ, ◌+◌, ◌^◌, ◌<◌, ◌≡◌, Bool, true, false, not, ◌==◌, bit_or, Option, none, some, if◌then◌else◌,
  arith,
}
use evenk.Prelude.{u32, ◌≢◌, if-elim, refl, sym, ap}
use mathlib.Core.Path.{subst}
use evenk.Prelude.Bits.{bit_or-one}
use evenk.Status.{Status}
use evenk.BoundedQueue.Encoding.{ticket, ticket-eq, index, status_valid, status_invalid}
use evenk.BoundedQueue.Ring.{
  Ring, CounterClass, try_increment, atomic_counter, slot_of, set_token, set_value, is_past_last,
  is_empty,
}

module _ {ℓ} {A : Type ℓ} (put : A → Option A) where
  -- `put_value` in one piece: whether it returns. An exception leaves `junk` in the slot.
  unfoldable pub put_all : (count : ℕ) (value junk : A) → Ring A → Bool × Ring A
  unfolding ticket set_token set_value
  put_all count value junk r = elim (put value) [
    | none ↦
        (false, set_token (set_value r count junk) count (bit_or (ticket count) status_invalid))
    | some x ↦ (true, set_token (set_value r count x) count (bit_or (ticket count) status_valid))
  ]

  -- The rest of `try_push`, with the result of `head_.try_increment(count)`. No status: `put_value` threw an exception.
  abbrev pub after_increment : (value junk : A) → Ring A → Bool × ℕ → Option Status × Ring A
  after_increment value junk r (taken, head') =
      let (returned, r') = put_all r.tail value junk (record r { head = head' }) in
      if not taken
      then (some Status.full, r)
      else (if returned then some Status.success else none, r')

  -- `head_class`: the class of `head_`.
  unfoldable pub try_push :
      (head_class : CounterClass) (value junk : A) → Ring A → Option Status × Ring A
  unfolding ticket slot_of is_past_last try_increment put_all
  try_push head_class value junk r =
      if not (ticket (slot_of r r.tail).token == ticket r.tail)
      then (some (if is_past_last r r.tail then Status.closed else Status.empty), r)
      else after_increment value junk r (try_increment head_class r.head r.tail)

  -- The ring that a `try_push` of `x` leaves.
  abbrev pushed : A → Ring A → Ring A
  pushed x r =
      set_token (set_value (record r { head = u32 (r.tail + 1) }) r.tail x) r.tail
        (bit_or (ticket r.tail) status_valid)

  abbrev Succeeds : (value : A) → Ring A → Option Status × Ring A → Type ℓ
  Succeeds value r q =
      q.0 ≡ some Status.success
      → (r.head ≡ r.tail) × ((x : A) × (put value ≡ some x) × (q.1 ≡ pushed x r))

  -- After both tests of `try_push`.
  after_increment-stored :
      (value junk : A) (r : Ring A)
      → r.head ≡ r.tail
      → Succeeds value r (
          let (returned, r') = put_all r.tail value junk (record r { head = u32 (r.tail + 1) }) in
          (if returned then some Status.success else none, r'))
  unfolding put_all
  after_increment-stored value junk r turn =
      let after : Option A → Bool × Ring A = λ o. elim o [
        | none ↦ (
          false,
          set_token (set_value (record r { head = u32 (r.tail + 1) }) r.tail junk) r.tail
              (bit_or (ticket r.tail) status_invalid),
        )
        | some x ↦ (true, pushed x r)
      ] in
      let cases : (o : Option A)
          → put value ≡ o
          → Succeeds value r (if (after o).0 then some Status.success else none, (after o).1) =
        λ o.
          elim o
            as (λ o'.
              put value ≡ o'
              → Succeeds value r
                  (if (after o').0 then some Status.success else none, (after o').1)) [
                    | none ↦ λ e f. absurd (ground arith)
                    | some x ↦ λ e f. (turn, (x, e, refl))
                  ] in
      cases (put value) refl

  try_push-Succeeds :
      (value junk : A) (r : Ring A) → Succeeds value r (try_push atomic_counter value junk r)
  unfolding try_push try_increment
  try_push-Succeeds value junk r =
      if-elim (λ q. Succeeds value r q) (not (ticket (slot_of r r.tail).token == ticket r.tail)) _ _
        (λ e f. absurd (
          if-elim (λ (b : Status). some b ≢ some Status.success) (is_past_last r r.tail)
            Status.closed Status.empty (λ e'. ground arith) (λ e'. ground arith) f))
        (λ e.
          if-elim (λ (c : Bool × ℕ). Succeeds value r (after_increment value junk r c))
            (r.head == r.tail) (true, u32 (r.tail + 1)) (false, r.head)
            (λ e'. after_increment-stored value junk r (ground arith))
            (λ e' f. absurd (ground arith)))

  same_slot :
      (x : A) (r : Ring A)
      → r.tail < 2 ^ 32
      → ticket (slot_of (pushed x r) r.tail).token ≡ ticket r.tail
  unfolding slot_of set_token set_value index
  same_slot x r fits = ground (
    arith,
    ticket-eq r.tail fits,
    bit_or-one (ticket r.tail),
    ticket-eq (bit_or (ticket r.tail) 1),
  )

  try_push-full :
      (value junk : A) (r : Ring A)
      → ticket (slot_of r r.tail).token ≡ ticket r.tail
      → r.head ≢ r.tail
      → (try_push atomic_counter value junk r).0 ≡ some Status.full
  unfolding try_push try_increment
  try_push-full value junk r same differ =
      if-elim (λ (q : Option Status × Ring A). q.0 ≡ some Status.full)
        (not (ticket (slot_of r r.tail).token == ticket r.tail)) _ _ (λ e. absurd (ground arith))
        (λ e.
          if-elim (λ (c : Bool × ℕ). (after_increment value junk r c).0 ≡ some Status.full)
            (r.head == r.tail) (true, u32 (r.tail + 1)) (false, r.head)
            (λ e'. absurd (ground arith)) (λ e'. refl))

  pushed-state :
      (x : A) (r : Ring A)
      → r.tail < 2 ^ 32
      → ((pushed x r).tail ≡ r.tail) × ((pushed x r).head ≢ r.tail) × (is_empty (pushed x r) ≡ true)
  unfolding set_token set_value is_empty
  pushed-state x r fits = (refl, ground arith, ground arith)

  -- In a ring whose `head_` is an atomic counter, as in the queues `mpmc` and `spmc`, and with a tail that
  -- fits in 32 bits: a `try_push` that succeeds leaves the tail where it is, so that
  -- the ring counts as empty, and the next `try_push`, of any value, finds the ring full.
  pub try_push_twice :
      (value junk value' junk' : A) (r : Ring A)
      → r.tail < 2 ^ 32
      → (try_push atomic_counter value junk r).0 ≡ some Status.success
      → ((try_push atomic_counter value junk r).1.tail ≡ r.tail)
        × (is_empty (try_push atomic_counter value junk r).1 ≡ true)
        × ((try_push atomic_counter value' junk' (try_push atomic_counter value junk r).1).0
            ≡ some Status.full)
  try_push_twice value junk value' junk' r fits e =
      let (turn, (x, stored, after)) = try_push-Succeeds value junk r e in
      let (same_tail, differ, none_left) = pushed-state x r fits in
      subst
        (λ (r' : Ring A).
          (r'.tail ≡ r.tail)
          × (is_empty r' ≡ true)
          × ((try_push atomic_counter value' junk' r').0 ≡ some Status.full))
        (sym after)
        (
          same_tail,
          none_left,
          try_push-full value' junk' (pushed x r)
              (ground (
                arith,
                same_slot x r fits,
                ap (λ c. ticket (slot_of (pushed x r) c).token) same_tail,
              ))
              (ground arith),
        )
