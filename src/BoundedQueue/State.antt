-- ===== src/BoundedQueue/State.antt =====
-- The state tests of evenk/bounded_queue.h, and closing a queue twice.
use evenk.Prelude.{
  ℕ, zero, suc, ◌+◌, ◌-◌, ◌^◌, ◌≤◌, ◌<◌, ◌≡◌, ◌≢◌, refl, true, false, arith, ◌==◌, u32, sub32,
}
use evenk.BoundedQueue.Encoding.{open_state, closing_state, closed_state}
use evenk.BoundedQueue.Slot.{SlotClass}
use evenk.BoundedQueue.Ring.{
  Ring, is_empty, is_full, is_past_last, is_closed, close, close_enter, close_last, close_store,
  close_slots, close_slot, set_token,
}

module _ {ℓ} {A : Type ℓ} where
  -- With `len` values in a ring of fewer than 2 ^ 31 slots and nobody waiting, wherever the 32-bit counts
  -- stand: `is_empty` says whether `len` is 0, and `is_full` whether it is the size.
  is_empty-is_full :
      (r : Ring A) (len : ℕ)
      → r.head < 2 ^ 32
      → r.tail ≡ u32 (r.head + len)
      → len ≤ r.mask + 1
      → r.mask < 2 ^ 31 - 1
      → (is_empty r ≡ (len == 0)) × (is_full r ≡ (len == r.mask + 1))
  unfolding is_empty is_full
  is_empty-is_full r len h t l m = ground arith

  -- While `w` consumers wait on an empty queue, the head is `w` ahead of the tail, and the queue says
  -- both that it is empty and that it is full.
  is_full_with_waiting_consumers :
      (r : Ring A) (w : ℕ)
      → r.tail < 2 ^ 32
      → r.head ≡ u32 (r.tail + w)
      → 0 < w
      → w ≤ 2 ^ 31
      → r.mask < 2 ^ 31 - 1
      → (is_empty r ≡ true) × (is_full r ≡ true)
  unfolding is_empty is_full
  is_full_with_waiting_consumers r w h t l m = ground arith

  close_slots_keeps :
      (class : SlotClass) (n i : ℕ) (r : Ring A)
      → ((close_slots class n i r).last ≡ r.last)
        × ((close_slots class n i r).closed ≡ r.closed)
        × ((close_slots class n i r).tail ≡ r.tail)
        × ((close_slots class n i r).mask ≡ r.mask)
  unfolding close_slots close_slot set_token
  close_slots_keeps class zero i r = (refl, refl, refl, refl)
  close_slots_keeps class (suc n) i r = close_slots_keeps class n (i + 1) (close_slot class i r)

  close_sets :
      (class : SlotClass) (r : Ring A)
      → r.closed ≢ closing_state
      → ((close class r).last ≡ r.tail)
        × ((close class r).closed ≡ closed_state)
        × ((close class r).tail ≡ u32 (r.tail + u32 (r.mask + 1)))
        × ((close class r).mask ≡ r.mask)
  unfolding close close_enter close_last close_store
  close_sets class r e =
      ground (arith, close_slots_keeps class (u32 (r.mask + 1)) 0 (close_store (close_last r)))

  -- `close` on an open ring: the counts handed out before it, back to 2 ^ 31 - 1 of them, are not past
  -- the last one, the tail and as many counts after it are, and the ring is closed.
  pub close-is_past_last :
      (class : SlotClass) (r : Ring A) (d : ℕ)
      → r.closed ≡ open_state
      → r.tail < 2 ^ 32
      → d + 1 < 2 ^ 31
      → (is_past_last (close class r) (u32 (r.tail + d)) ≡ true)
        × (is_past_last (close class r) (sub32 r.tail (d + 1)) ≡ false)
        × (is_closed (close class r) ≡ true)
  unfolding is_past_last is_closed
  close-is_past_last class r d o t h = ground (arith, close_sets class r)

  -- On an open ring of fewer than 2 ^ 31 slots the guard of `close` does not stop a second close: the second call moves the last count on by the
  -- size, so that the counts in between, which were past the last one, no longer are.
  close_twice :
      (class : SlotClass) (r : Ring A) (d : ℕ)
      → r.closed ≡ open_state
      → r.tail < 2 ^ 32
      → r.mask + 1 < 2 ^ 31
      → d ≤ r.mask
      → (is_past_last (close class r) (u32 (r.tail + d)) ≡ true)
        × (is_past_last (close class (close class r)) (u32 (r.tail + d)) ≡ false)
  unfolding is_past_last
  close_twice class r d o t m h =
      ground (arith, close_sets class r, close_sets class (close class r))
