-- ===== src/SharedTicketLock/TryMoves.antt =====
-- `try_lock` and `try_lock_shared` of `shared_ticket_lock` in evenk/spinlock.h, beside the operations of
-- Moves. What is covered are the runs in which no counter comes round in the course of a call: between
-- two of its accesses, fewer than 2 ^ 16 tickets are taken, with those that are inside at the first.
use evenk.Prelude.{
  ℕ, ◌+◌, ◌^◌, ◌<◌, Bool, true, false, List, [], ◌∷◌, ◌++◌, map, ◌==◌, u32, if◌then◌else◌, length,
  bit_and,
}
use evenk.Prelude.Threads.{tally}
use evenk.SharedTicketLock.Moves as Lock
use evenk.SharedTicketLock.Moves.{
  Local, owner, shared_owner, Words, shared_step, exclusive_mask, exclusive_step, begin_lock,
  begin_lock_shared,
}
use evenk.SharedTicketLock.Order.{exclusive, shared}

-- `try_lock` or `try_lock_shared`.
pub data Mode : Type 0 where
  to_write to_read : Mode

-- A thread in one of the two. For the proofs it has the exclusive and the shared tickets that were
-- inside or have been taken since its first load, and those that have been taken since the second.
pub data Try : Type 0 where
  read_head : Mode → (head e s : ℕ) → Try
  read_tail : Mode → (tail e s e' s' : ℕ) → Try

-- The test of the two loads.
unfoldable pub may_enter : Mode → (head tail : ℕ) → Bool
may_enter to_write head tail = head == tail
may_enter to_read head tail = bit_and head exclusive_mask == bit_and tail exclusive_mask

abbrev pub step_of : Mode → ℕ
step_of to_write = exclusive_step
step_of to_read = shared_step

abbrev pub place_of : Mode → Local
place_of to_write = owner
place_of to_read = shared_owner

-- `tail_.compare_exchange_strong(tail, tail + step)`: whether it works, and the new words.
unfoldable pub try_exchange : Mode → (tail : ℕ) → Words → Bool × Words
try_exchange mode tail m =
    if m.tail == tail then (true, record m { tail = u32 (tail + step_of mode) }) else (false, m)

abbrev pub more : (e s : ℕ) → Try → Try
more e s (read_head mode head e₀ s₀) = read_head mode head (e + e₀) (s + s₀)
more e s (read_tail mode tail e₀ s₀ e' s') = read_tail mode tail e₀ s₀ (e + e') (s + s')

pub record System : Type 0 where
  pub lock : Lock.System
  pub tries : List Try

-- The new state after a compare-exchange.
unfoldable pub after_exchange : Mode → (tail : ℕ) → Lock.System → List Try → System
unfolding try_exchange
after_exchange mode tail s us =
    let (works, m') = try_exchange mode tail s.words in
    if works
    then record {
      lock = record { words = m'; inside = s.inside ++ place_of mode ∷ [] };
      tries = map (more (exclusive (place_of mode)) (shared (place_of mode))) us;
    }
    else record { lock = s; tries = us }

-- The tickets that a step of the lock takes.
abbrev pub takes_exclusive : {limit : ℕ} {s t : Lock.System} → Lock.Step limit s t → ℕ
takes_exclusive (begin_lock m ts room) = 1
takes_exclusive _ = 0

abbrev pub takes_shared : {limit : ℕ} {s t : Lock.System} → Lock.Step limit s t → ℕ
takes_shared (begin_lock_shared m ts room) = 1
takes_shared _ = 0

pub data Step (limit : ℕ) : System → System → Type 0 where
  locks :
      {s t : Lock.System} (us : List Try) (st : Lock.Step limit s t)
      → Step limit
          (record { lock = s; tries = us })
          (record { lock = t; tries = map (more (takes_exclusive st) (takes_shared st)) us })
  load_head :
      (s : Lock.System) (us : List Try) (mode : Mode)
      → Step limit
          (record { lock = s; tries = us })
          (record {
            lock = s;
            tries =
                read_head mode s.words.head (tally exclusive s.inside) (tally shared s.inside) ∷ us;
          })
  load_tail :
      (s : Lock.System) (before after : List Try) (mode : Mode) (head e x : ℕ)
      → e + x < 2 ^ 16
      → Step limit
          (record { lock = s; tries = before ++ read_head mode head e x ∷ after })
          (record {
            lock = s;
            tries =
                before
                ++ (if may_enter mode head s.words.tail
                    then read_tail mode s.words.tail e x 0 0 ∷ after
                    else after);
          })
  exchange :
      (s : Lock.System) (before after : List Try) (mode : Mode) (tail e x e' x' : ℕ)
      → e' + x' < 2 ^ 16
      → length s.inside < limit
      → Step limit
          (record { lock = s; tries = before ++ read_tail mode tail e x e' x' ∷ after })
          (after_exchange mode tail s (before ++ after))

pub data Reach (limit : ℕ) : System → Type 0 where
  start :
      (h : ℕ)
      → h < 2 ^ 32
      → Reach limit (record {
        lock = record { words = record { head = h; tail = h }; inside = [] };
        tries = [];
      })
  later : {s t : System} → Reach limit s → Step limit s t → Reach limit t
