-- ===== src/SharedTicketLock/Writers.antt =====
-- Who may own `shared_ticket_lock` of evenk/spinlock.h beside whom, by the order of the tickets.
use evenk.Prelude.{ℕ, ◌+◌, ◌≤◌, ◌<◌, ◌≡◌, List, [], ◌∷◌, arith}
use evenk.Prelude.Threads.{tally}
use evenk.SharedTicketLock.Moves.{Local, waiting, owner, leaving, shared_waiting, shared_owner}
use evenk.SharedTicketLock.Order.{IsOrdered}

abbrev pub is_writer : Local → ℕ
is_writer owner = 1
is_writer (leaving head) = 1
is_writer _ = 0

abbrev pub is_reader : Local → ℕ
is_reader shared_owner = 1
is_reader _ = 0

-- Behind another ticket nobody writes, and behind a writer's nobody reads.
pub alone :
    (head e s : ℕ) (ts : List Local)
    → IsOrdered head e s ts
    → (0 < e → (tally is_writer ts ≡ 0) × (tally is_reader ts ≡ 0))
      × (0 < s → tally is_writer ts ≡ 0)
      × (tally is_writer ts ≤ 1)
      × (0 < tally is_writer ts → tally is_reader ts ≡ 0)
alone head e s [] h = ground arith
alone head e s (waiting tail ∷ ts) (k, h) = ground (arith, alone head (1 + e) (0 + s) ts h)
alone head e s (owner ∷ ts) (k, h) = ground (arith, alone head (1 + e) (0 + s) ts h)
alone head e s (leaving l ∷ ts) (k, h) = ground (arith, alone head (1 + e) (0 + s) ts h)
alone head e s (shared_waiting tail ∷ ts) (k, h) = ground (arith, alone head (0 + e) (1 + s) ts h)
alone head e s (shared_owner ∷ ts) (k, h) = ground (arith, alone head (0 + e) (1 + s) ts h)
