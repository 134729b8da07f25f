-- ===== src/BoundedQueue/Ring.antt =====
-- The class `ring` of evenk/bounded_queue.h: its state, its construction and its state operations.
use evenk.Prelude.{
  ℕ, zero, suc, ◌+◌, ◌-◌, ◌^◌, Bool, true, false, not, bit_and, ◌==◌, ltb, u32, sub32, is_nonpos32,
  update, if◌then◌else◌,
}
use evenk.BoundedQueue.Encoding.{
  CloseState, open_state, closing_state, closed_state, ticket_mask, min_size, index,
}
use evenk.BoundedQueue.Slot.{SlotClass}

-- `ring_slot`
pub record Slot {ℓ} (A : Type ℓ) : Type ℓ where
  pub token : ℕ
  pub value : A

-- `head_` and `tail_` are the counts inside the two counters.
pub record Ring {ℓ} (A : Type ℓ) : Type ℓ where
  pub slots : ℕ → Slot A
  pub mask : ℕ
  pub closed : CloseState
  pub last : ℕ
  pub head : ℕ
  pub tail : ℕ

-- `std::invalid_argument`, by its message, and the `std::bad_alloc` of `cache_aligned_alloc`.
pub data Created {ℓ} (A : Type ℓ) : Type ℓ where
  ok : Ring A → Created A
  too_small not_power_of_two out_of_memory : Created A

-- The counters: `counter`, for one thread, and `atomic_counter`.
pub data CounterClass : Type 0 where
  counter atomic_counter : CounterClass

-- `fetch_add(addend)`, in both classes: the old count and the new one.
unfoldable pub fetch_add : ℕ → ℕ → ℕ × ℕ
fetch_add count addend = (count, u32 (count + addend))

-- `try_increment(expected)`: whether it succeeds, and the count afterwards.
unfoldable pub try_increment : CounterClass → (count expected : ℕ) → Bool × ℕ
try_increment counter count expected = (true, u32 (expected + 1))
try_increment atomic_counter count expected =
    if count == expected then (true, u32 (expected + 1)) else (false, count)

abbrev pub is_closed_state : CloseState → Bool
is_closed_state closed_state = true
is_closed_state _ = false

module _ {ℓ} {A : Type ℓ} where
  -- The constructor, with `create`. `memory`: whether `cache_aligned_alloc` returns. `last_` has no initial value; it is not read before `close`.
  unfoldable pub create : (memory : Bool) (size last : ℕ) → A → Created A
  create memory size last default =
      if ltb size min_size
      then too_small
      else if not (bit_and size (size - 1) == 0)
      then not_power_of_two
      else if not memory
      then out_of_memory
      else ok (record {
        slots = λ i. record { token = bit_and i ticket_mask; value = default };
        mask = u32 (size + 2 ^ 32 - 1);
        closed = open_state;
        last = last;
        head = 0;
        tail = 0;
      })

  unfoldable pub slot_of : Ring A → ℕ → Slot A
  unfolding index
  slot_of r count = r.slots (index r.mask count)

  unfoldable pub set_token : Ring A → ℕ → ℕ → Ring A
  unfolding index
  set_token r count t = record r {
    slots =
        update r.slots (index r.mask count)
          (record { token = t; value = (r.slots (index r.mask count)).value });
  }

  unfoldable pub set_value : Ring A → ℕ → A → Ring A
  unfolding index
  set_value r count v = record r {
    slots =
        update r.slots (index r.mask count)
          (record { token = (r.slots (index r.mask count)).token; value = v });
  }

  unfoldable pub is_closed : Ring A → Bool
  is_closed r = elim r.closed [ open_state ↦ false | _ ↦ true ]

  unfoldable pub is_empty : Ring A → Bool
  is_empty r = is_nonpos32 (sub32 r.tail r.head)

  -- The signed difference is compared with an unsigned number, and so as an unsigned one.
  unfoldable pub is_full : Ring A → Bool
  is_full r = ltb r.mask (sub32 r.tail r.head)

  unfoldable pub is_past_last : Ring A → ℕ → Bool
  is_past_last r count =
      if is_closed_state r.closed then is_nonpos32 (sub32 r.last count) else false

  -- The compare-exchange at the start of `close`, which expects `closing`: whether the call returns.
  unfoldable pub close_enter : Ring A → Bool × Ring A
  close_enter r = elim r.closed [
    | closing_state ↦ (true, record r { closed = open_state })
    | _ ↦ (false, r)
  ]

  unfoldable pub close_last : Ring A → Ring A
  unfolding fetch_add
  close_last r =
      let (count, tail') = fetch_add r.tail (u32 (r.mask + 1)) in
      record r { last = count; tail = tail' }

  unfoldable pub close_store : Ring A → Ring A
  close_store r = record r { closed = closed_state }

  module _ (class : SlotClass) where
    unfoldable pub close_slot : ℕ → Ring A → Ring A
    unfolding slot_of set_token
    close_slot i r =
        set_token r (u32 (r.last + i)) (class.close (slot_of r (u32 (r.last + i))).token)

    -- The last loop of `close`, over the slots `i`, `i + 1`, … so many times.
    unfoldable pub close_slots : ℕ → ℕ → Ring A → Ring A
    unfolding close_slot
    close_slots zero i r = r
    close_slots (suc n) i r = close_slots n (i + 1) (close_slot i r)

    -- All of `close`, with no other thread in between.
    unfoldable pub close : Ring A → Ring A
    unfolding close_enter close_last close_store close_slots
    close r =
        let (returns, r') = close_enter r in
        if returns then r' else close_slots (u32 (r.mask + 1)) 0 (close_store (close_last r'))
