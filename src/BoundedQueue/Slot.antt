-- ===== src/BoundedQueue/Slot.antt =====
-- The slot classes of evenk/bounded_queue.h: `spin`, `yield`, `futex` and `synch`. What a ring owes to
-- them is an interface: a slot may mark its token as waited on or closed, and no mark touches the
-- ticket or the status of the value.
use evenk.Prelude.{ℕ, ◌/◌, ◌%◌, ◌≡◌, Bool, not, bit_and, bit_or, arith, ◌==◌, ◌||◌, if◌then◌else◌}
use evenk.Prelude.Bits.{bit_or_four, bit_or_eight}
use evenk.BoundedQueue.Encoding.{status_waiting, status_closed}

-- Two tokens with the same ticket and the same status of the value.
pub record IsMarked (t t' : ℕ) : Type 0 where
  pub same_ticket : t' / 16 ≡ t / 16
  pub same_status : t' % 4 ≡ t % 4

-- `close` and the part of `wait` that writes the token; `wake` stores its argument in every class.
pub record SlotClass : Type 0 where
  pub close : ℕ → ℕ
  pub wait : (current expected : ℕ) → ℕ
  pub close_marks : (t : ℕ) → IsMarked t (close t)
  pub wait_marks : (t expected : ℕ) → IsMarked t (wait t expected)

unfoldable pub spin_close : ℕ → ℕ
spin_close t = t

unfoldable pub spin_wait : ℕ → ℕ → ℕ
spin_wait t expected = t

-- The loop of compare-exchanges ends with the flag set in the token that it finds.
unfoldable pub futex_close : ℕ → ℕ
futex_close t = bit_or t status_closed

-- The compare-exchange that announces a waiter, if the token is still the expected one.
unfoldable pub futex_wait : ℕ → ℕ → ℕ
futex_wait t expected = if t == expected then bit_or expected status_waiting else t

-- Whether `futex::wait` then calls `futex_wait`.
unfoldable pub futex_blocks : ℕ → ℕ → Bool
futex_blocks t expected = t == expected || t == bit_or expected status_waiting

-- Whether `futex::wake` and `futex::close` call `futex_wake`, by the old token.
unfoldable pub futex_wakes : ℕ → Bool
futex_wakes old = not (bit_and old status_waiting == 0)

unfoldable pub synch_close : ℕ → ℕ
synch_close t = bit_or t status_closed

unfoldable pub synch_wait : ℕ → ℕ → ℕ
synch_wait t expected = t

-- Whether `synch::wait` waits on its condition variable.
unfoldable pub synch_blocks : ℕ → ℕ → Bool
synch_blocks t expected = expected == t

pub spin_close_marks : (t : ℕ) → IsMarked t (spin_close t)
unfolding spin_close
spin_close_marks t = omega arith

pub spin_wait_marks : (t expected : ℕ) → IsMarked t (spin_wait t expected)
unfolding spin_wait
spin_wait_marks t expected = omega arith

pub futex_close_marks : (t : ℕ) → IsMarked t (futex_close t)
unfolding futex_close
futex_close_marks t = omega (arith, bit_or_eight t)

pub futex_wait_marks : (t expected : ℕ) → IsMarked t (futex_wait t expected)
unfolding futex_wait
futex_wait_marks t expected = ground (arith, bit_or_four expected)

pub synch_close_marks : (t : ℕ) → IsMarked t (synch_close t)
unfolding synch_close
synch_close_marks t = omega (arith, bit_or_eight t)

pub synch_wait_marks : (t expected : ℕ) → IsMarked t (synch_wait t expected)
unfolding synch_wait
synch_wait_marks t expected = omega arith

abbrev pub spin : SlotClass
spin = record {
  close = spin_close;
  wait = spin_wait;
  close_marks = spin_close_marks;
  wait_marks = spin_wait_marks;
}

abbrev pub futex : SlotClass
futex = record {
  close = futex_close;
  wait = futex_wait;
  close_marks = futex_close_marks;
  wait_marks = futex_wait_marks;
}

abbrev pub synch : SlotClass
synch = record {
  close = synch_close;
  wait = synch_wait;
  close_marks = synch_close_marks;
  wait_marks = synch_wait_marks;
}
