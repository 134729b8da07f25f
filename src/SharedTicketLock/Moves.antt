-- ===== src/SharedTicketLock/Moves.antt =====
-- `shared_ticket_lock` of evenk/spinlock.h, with 32-bit counters, one atomic access at a time. The low
-- half of a counter counts exclusive steps, the high half shared ones. The pauses of the loops, which
-- access no memory, are left out.
use evenk.Prelude.{
  ℕ, ◌+◌, ◌-◌, ◌^◌, ◌<◌, List, [], ◌∷◌, ◌++◌, ◌==◌, u32, if◌then◌else◌, length, bit_and,
}

abbrev pub shared_step : ℕ
shared_step = 2 ^ 16

abbrev pub exclusive_mask : ℕ
exclusive_mask = shared_step - 1

abbrev pub exclusive_step : ℕ
exclusive_step = 1

-- Where a thread that has taken a ticket stands, with the variables that are live there.
pub data Local : Type 0 where
  waiting : (tail : ℕ) → Local  -- the loop of `lock`
  owner : Local
  leaving : (head : ℕ) → Local  -- in `unlock`, after the load
  shared_waiting : (tail : ℕ) → Local  -- the loop of `lock_shared`
  shared_owner : Local

pub record Words : Type 0 where
  pub head : ℕ
  pub tail : ℕ

-- `lock`: `tail_.fetch_add(exclusive_step)`
unfoldable pub lock_take : Words → Words × Local
lock_take m = (record m { tail = u32 (m.tail + exclusive_step) }, waiting m.tail)

-- One round of the loop of `lock`.
unfoldable pub lock_poll : Words → ℕ → Local
lock_poll m tail = if tail == m.head then owner else waiting tail

unfoldable pub unlock_store : Words → ℕ → Words
unlock_store m head = record m { head = u32 (head + exclusive_step) }

-- `lock_shared`: `tail_.fetch_add(shared_step)`, and `tail &= exclusive_mask`.
unfoldable pub lock_shared_take : Words → Words × Local
lock_shared_take m =
    (record m { tail = u32 (m.tail + shared_step) }, shared_waiting (bit_and m.tail exclusive_mask))

-- One round of the loop of `lock_shared`.
unfoldable pub lock_shared_poll : Words → ℕ → Local
lock_shared_poll m tail =
    if tail == bit_and m.head exclusive_mask then shared_owner else shared_waiting tail

unfoldable pub unlock_shared : Words → Words
unlock_shared m = record m { head = u32 (m.head + shared_step) }

-- The words, and the threads that have taken a ticket and not given it back, in the order of their
-- tickets. All that a thread outside could do next is to take one.
pub record System : Type 0 where
  pub words : Words
  pub inside : List Local

-- `limit`: how many threads there are.
pub data Step (limit : ℕ) : System → System → Type 0 where
  begin_lock :
      (m : Words) (ts : List Local)
      → length ts < limit
      → Step limit
          (record { words = m; inside = ts })
          (record { words = (lock_take m).0; inside = ts ++ (lock_take m).1 ∷ [] })
  begin_lock_shared :
      (m : Words) (ts : List Local)
      → length ts < limit
      → Step limit
          (record { words = m; inside = ts })
          (record { words = (lock_shared_take m).0; inside = ts ++ (lock_shared_take m).1 ∷ [] })
  poll :
      (m : Words) (before after : List Local) (tail : ℕ)
      → Step limit
          (record { words = m; inside = before ++ waiting tail ∷ after })
          (record { words = m; inside = before ++ lock_poll m tail ∷ after })
  load :
      (m : Words) (before after : List Local)
      → Step limit
          (record { words = m; inside = before ++ owner ∷ after })
          (record { words = m; inside = before ++ leaving m.head ∷ after })
  store :
      (m : Words) (before after : List Local) (head : ℕ)
      → Step limit
          (record { words = m; inside = before ++ leaving head ∷ after })
          (record { words = unlock_store m head; inside = before ++ after })
  shared_poll :
      (m : Words) (before after : List Local) (tail : ℕ)
      → Step limit
          (record { words = m; inside = before ++ shared_waiting tail ∷ after })
          (record { words = m; inside = before ++ lock_shared_poll m tail ∷ after })
  shared_leave :
      (m : Words) (before after : List Local)
      → Step limit
          (record { words = m; inside = before ++ shared_owner ∷ after })
          (record { words = unlock_shared m; inside = before ++ after })

-- The counters may stand at any number when the threads come.
pub data Reach (limit : ℕ) : System → Type 0 where
  start :
      (h : ℕ)
      → h < 2 ^ 32
      → Reach limit (record { words = record { head = h; tail = h }; inside = [] })
  later : {s t : System} → Reach limit s → Step limit s t → Reach limit t
