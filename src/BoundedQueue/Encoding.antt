-- ===== src/BoundedQueue/Encoding.antt =====
-- Tokens, tickets and status flags of evenk/bounded_queue.h.
use evenk.Prelude.{ℕ, ◌+◌, ◌-◌, ◌%◌, ◌^◌, ◌<◌, ◌≡◌, ◌↔◌, Bool, true, not, bit_and, arith, ◌==◌}
use evenk.Prelude.Bits.{bit_and_tickets, bit_and-mask, bit_and_three, bit_and-one}

-- `enum status_t`
abbrev pub status_valid : ℕ
status_valid = 1

abbrev pub status_invalid : ℕ
status_invalid = 2

abbrev pub status_waiting : ℕ
status_waiting = 4

abbrev pub status_closed : ℕ
status_closed = 8

-- `enum close_t`
pub data CloseState : Type 0 where
  open_state closing_state closed_state : CloseState

abbrev pub status_mask : ℕ
status_mask = 3

-- `~(status_mask | status_waiting | status_closed)` in 32 bits
abbrev pub ticket_mask : ℕ
ticket_mask = 0xffff_fff0

abbrev pub min_size : ℕ
min_size = 16

unfoldable pub ticket : ℕ → ℕ
ticket t = bit_and t ticket_mask

unfoldable pub status : ℕ → ℕ
status t = bit_and t status_mask

unfoldable pub is_valid : ℕ → Bool
is_valid t = not (bit_and t status_valid == 0)

-- `count & mask_`, the slot of a count.
unfoldable pub index : ℕ → ℕ → ℕ
index mask count = bit_and count mask

-- The count that a token at a slot stands for, with the number of the slot for its low bits.
abbrev pub number : ℕ → ℕ → ℕ
number i t = t - t % 16 + i % 16

pub ticket-eq : (t : ℕ) → t < 2 ^ 32 → ticket t ≡ t - t % 16
unfolding ticket
ticket-eq t h = bit_and_tickets t h

pub status-eq : (t : ℕ) → status t ≡ t % 4
unfolding status
status-eq t = bit_and_three t

pub is_valid_iff : (t : ℕ) → (is_valid t ≡ true) ↔ (t % 2 ≡ 1)
unfolding is_valid
is_valid_iff t = ground (arith, bit_and-one t)

-- A ring of `2 ^ k` slots finds the slot of a count as the remainder by its size.
pub index-eq : (k count : ℕ) → index (2 ^ k - 1) count ≡ count % 2 ^ k
unfolding index
index-eq k count = bit_and-mask k count
