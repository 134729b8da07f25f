-- ===== src/SharedTicketLock/Turns.antt =====
-- Whose turn it is to enter `shared_ticket_lock` of evenk/spinlock.h.
use evenk.Prelude.{ℕ, ◌^◌, ◌<◌, ◌≡◌, ◌↔◌, List, ◌∷◌, ◌++◌, length, length-append, arith, subst, ap}
use evenk.Prelude.Threads.{tally}
use evenk.SharedTicketLock.Moves.{
  Local, waiting, owner, leaving, shared_waiting, shared_owner, Words, lock_poll, lock_shared_poll,
}
use evenk.SharedTicketLock.Order.{exclusive, shared, Knows, IsOrdered, IsOrdered-split, tally-split}
use evenk.SharedTicketLock.Kept.{low_half}
use evenk.SharedTicketLock.TryMoves.{Reach, System}
use evenk.SharedTicketLock.Exclusion.{Reach-IsSafe}

-- What the place of a thread says of the tickets before its own, and the other way round.
abbrev pub HasTurn : Words → List Local → Local → Type 0
HasTurn m before (waiting tail) = (lock_poll m tail ≡ owner) ↔ (length before ≡ 0)
HasTurn m before owner = length before ≡ 0
HasTurn m before (leaving head) = (length before ≡ 0) × (head ≡ m.head)
HasTurn m before (shared_waiting tail) =
    (lock_shared_poll m tail ≡ shared_owner) ↔ (tally exclusive before ≡ 0)
HasTurn m before shared_owner = tally exclusive before ≡ 0

Knows-turn :
    (m : Words) (before : List Local) (p : Local)
    → m.head < 2 ^ 32
    → length before < 2 ^ 16
    → Knows m.head (tally exclusive before) (tally shared before) p
    → HasTurn m before p
unfolding lock_poll lock_shared_poll
Knows-turn m before (waiting tail) fits few k =
    (ground (arith, tally-split before), ground (arith, tally-split before))
Knows-turn m before owner fits few k = omega (arith, k.0, k.1, tally-split before)
Knows-turn m before (leaving head) fits few k = (omega (arith, k.0, k.1, tally-split before), k.2)
Knows-turn m before (shared_waiting tail) fits few k = (
  ground (arith, low_half m.head, tally-split before),
  ground (arith, low_half m.head, tally-split before),
)
Knows-turn m before shared_owner fits few k = k

-- With fewer than 2 ^ 16 threads that call any of the methods, and no call of `try_lock` or
-- `try_lock_shared` during which a counter comes round: the threads have their turn in the order of
-- their tickets. The next test of a thread in `lock` lets it in exactly when no ticket is before its
-- own, and that of a thread in `lock_shared` exactly when no exclusive one is; so the first is always
-- let in, readers with nobody but readers before them are let in together, and none overtakes a writer.
-- Who owns the lock, exclusively or not, still has none of those before it.
pub shared_ticket_lock_turns :
    {limit : ℕ} {s : System} (before after : List Local) (p : Local)
    → limit < 2 ^ 16
    → Reach limit s
    → s.lock.inside ≡ before ++ p ∷ after
    → HasTurn s.lock.words before p
shared_ticket_lock_turns {s = s} before after p small r e =
    let i = (Reach-IsSafe small r).kept in
    let h : IsOrdered s.lock.words.head 0 0 (before ++ p ∷ after) =
      subst (λ ts. IsOrdered s.lock.words.head 0 0 ts) e i.ordered in
    let (first, (k, last)) =
      IsOrdered-split s.lock.words.head 0 0 (tally exclusive before) (tally shared before) before
        (p ∷ after) (omega arith) (omega arith) h in
    Knows-turn s.lock.words before p i.head_fits
      (omega (arith, i.few, small, ap length e, length-append before (p ∷ after))) k
