-- ===== src/TicketLock/Moves.antt =====
-- `ticket_lock` of evenk/spinlock.h, one atomic access at a time, and the threads that use it.
use evenk.Prelude.{ℕ, ◌+◌, ◌-◌, ◌^◌, ◌≡◌, Bool, true, List, ◌∷◌, ◌++◌, ◌==◌, u16, if◌then◌else◌}
use evenk.Prelude.Threads.{tally}

-- Where a thread stands, with the variables that are live there. An owner keeps the ticket that let
-- it in, for the proofs.
pub data Local : Type 0 where
  outside : Local
  waiting : (tail : ℕ) → Local  -- the loop of `lock`
  owner : (ticket : ℕ) → Local
  leaving : (head ticket : ℕ) → Local  -- in `unlock`, after the load
  tried_head : (head : ℕ) → Local  -- in `try_lock`, after the first load
  tried_tail : (head tail : ℕ) → Local  -- in `try_lock`, before the compare-exchange

pub record Words : Type 0 where
  pub head : ℕ
  pub tail : ℕ

-- `tail_.fetch_add(1)`
unfoldable pub take : Words → Words × Local
take m = (record m { tail = u16 (m.tail + 1) }, waiting m.tail)

-- One round of the loop of `lock`, and the factor that it gives `proportional_adapter`.
unfoldable pub poll : Words → ℕ → Local
poll m tail = if tail == m.head then owner tail else waiting tail

unfoldable pub backoff_factor : Words → ℕ → ℕ
backoff_factor m tail = u16 (tail + 2 ^ 16 - m.head)

unfoldable pub unlock_load : Words → ℕ → Local
unlock_load m ticket = leaving m.head ticket

unfoldable pub unlock_store : Words → ℕ → Words × Local
unlock_store m head = (record m { head = u16 (head + 1) }, outside)

unfoldable pub try_load_head : Words → Local
try_load_head m = tried_head m.head

unfoldable pub try_load_tail : Words → ℕ → Local
try_load_tail m head = if head == m.tail then tried_tail head m.tail else outside

unfoldable pub try_exchange : Words → ℕ → Words × Local
try_exchange m tail =
    if m.tail == tail then (record m { tail = u16 (tail + 1) }, owner tail) else (m, outside)

pub record System : Type 0 where
  pub words : Words
  pub threads : List Local

-- What a thread does next in `lock` and `unlock`.
pub data Move (m : Words) : Local → Words × Local → Type 0 where
  do_take : Move m outside (take m)
  do_poll : (tail : ℕ) → Move m (waiting tail) (m, poll m tail)
  do_load : (ticket : ℕ) → Move m (owner ticket) (m, unlock_load m ticket)
  do_store : (head ticket : ℕ) → Move m (leaving head ticket) (unlock_store m head)

-- What a thread does next in `try_lock`.
pub data TryMove (m : Words) : Local → Words × Local → Type 0 where
  load_head : TryMove m outside (m, try_load_head m)
  load_tail : (head : ℕ) → TryMove m (tried_head head) (m, try_load_tail m head)
  exchange : (head tail : ℕ) → TryMove m (tried_tail head tail) (try_exchange m tail)

-- `tries`: whether the threads use `try_lock` too.
pub data Step (tries : Bool) : System → System → Type 0 where
  move :
      (before after : List Local) {m : Words} {p : Local} {next : Words × Local}
      → Move m p next
      → Step tries
          (record { words = m; threads = before ++ p ∷ after })
          (record { words = next.0; threads = before ++ next.1 ∷ after })
  try :
      (before after : List Local) {m : Words} {p : Local} {next : Words × Local}
      → tries ≡ true
      → TryMove m p next
      → Step tries
          (record { words = m; threads = before ++ p ∷ after })
          (record { words = next.0; threads = before ++ next.1 ∷ after })

abbrev pub is_inside : Local → ℕ
is_inside outside = 0
is_inside _ = 1

-- The counters may stand at any number when the threads come, as long as nobody is inside.
pub data Reach (tries : Bool) : System → Type 0 where
  start :
      (h : ℕ) (ts : List Local)
      → u16 h ≡ h
      → tally is_inside ts ≡ 0
      → Reach tries (record { words = record { head = h; tail = h }; threads = ts })
  later : {s t : System} → Reach tries s → Step tries s t → Reach tries t
