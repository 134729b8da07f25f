-- ===== src/Tests/BoundedQueue.antt =====
-- evenk/bounded_queue.h on rings of 16 slots.
use evenk.Prelude.{none, ℕ, ◌+◌, ◌-◌, ◌^◌, ◌≡◌, refl, true, false, arith, u32, sub32}
use evenk.BoundedQueue.Encoding.{open_state, ticket, index, status, is_valid}
use evenk.BoundedQueue.Slot.{
  futex, futex_close, futex_wait, futex_blocks, futex_wakes, synch_blocks,
}
use evenk.BoundedQueue.Ring.{
  out_of_memory, Ring, ok, create, is_empty, is_full, is_closed, is_past_last, close, slot_of,
  try_increment, counter, atomic_counter,
}
use evenk.Status.{Status, throws}
use evenk.BoundedQueue.Moves.{push_end, value_pop_end}
use evenk.BoundedQueue.Create.{create_accepts}
use evenk.BoundedQueue.State.{close-is_past_last}

-- Counts near the end of their range: five values, from count 2 ^ 32 - 2 on.
abbrev ring : Ring ℕ
ring = record {
  slots = λ i. record { token = 0; value = 0 };
  mask = 15;
  closed = open_state;
  last = 0;
  head = 2 ^ 32 - 2;
  tail = 3;
}

abbrev fresh : Ring ℕ
fresh = record {
  slots = λ i. record { token = ticket i; value = 0 };
  mask = 15;
  closed = open_state;
  last = 0;
  head = 0;
  tail = 0;
}

create_accepts_example :
    (create {A = ℕ} false 16 0 0 ≡ out_of_memory)
    × (r : Ring ℕ) × (create true 16 0 0 ≡ ok r)
    × (r.mask ≡ 15)
    × (r.head ≡ 0)
    × (r.tail ≡ 0)
    × (r.closed ≡ open_state)
    × (index r.mask 5 ≡ 5)
    × ((slot_of r 5).token ≡ ticket 5)
create_accepts_example = create_accepts 4 0 5 0 (omega arith) (omega arith) (omega arith)

closed_push : push_end Status.closed ≡ throws Status.closed
unfolding push_end
closed_push = refl

closed_value_pop : value_pop_end {A = ℕ} Status.closed none ≡ throws Status.closed
unfolding value_pop_end
closed_value_pop = refl

counts_of_ring : (is_empty ring ≡ false) × (is_full ring ≡ false)
unfolding is_empty is_full
counts_of_ring = (refl, refl)

close-is_past_last_example :
    (is_past_last (close futex ring) (u32 (3 + 4)) ≡ true)
    × (is_past_last (close futex ring) (sub32 3 (4 + 1)) ≡ false)
    × (is_closed (close futex ring) ≡ true)
close-is_past_last_example = close-is_past_last futex ring 4 refl (omega arith) (omega arith)

counters_run :
    (try_increment counter 3 7 ≡ (true, 8)) × (try_increment atomic_counter 3 7 ≡ (false, 3))
unfolding try_increment
counters_run = (refl, refl)

futex_run :
    (futex_wait 0x21 0x21 ≡ 0x25)
    × (futex_close 0x21 ≡ 0x29)
    × (futex_blocks 0x25 0x21 ≡ true)
    × (futex_wakes 0x25 ≡ true)
    × (synch_blocks 0x29 0x21 ≡ false)
unfolding futex_wait futex_close futex_blocks futex_wakes synch_blocks
futex_run = (refl, refl, refl, refl, refl)

flags_run : (status 0x25 ≡ 1) × (is_valid 0x25 ≡ true) × (is_valid 0x22 ≡ false)
unfolding status is_valid
flags_run = (refl, refl, refl)
