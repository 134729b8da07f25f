-- ===== src/SharedTicketLock/TryTickets.antt =====
-- What a thread in `try_lock` or `try_lock_shared` of `shared_ticket_lock` in evenk/spinlock.h knows of the
-- tickets.
use evenk.Prelude.{
  ℕ, ◌+◌, ◌*◌, ◌^◌, ◌≤◌, ◌<◌, ◌≡◌, true, List, [], ◌∷◌, ◌++◌, map, u32, bit_and, arith,
}
use evenk.Prelude.Threads.{tally, tally-at, tally-append}
use evenk.Prelude.Bits.{bit_and-mask}
use evenk.SharedTicketLock.Moves as Lock
use evenk.SharedTicketLock.Moves.{
  Local, waiting, owner, leaving, shared_waiting, shared_owner, Words, begin_lock,
  begin_lock_shared, poll, load, store, shared_poll, shared_leave, lock_take, lock_poll,
  unlock_store, lock_shared_take, lock_shared_poll, unlock_shared, exclusive_mask,
}
use evenk.SharedTicketLock.Order.{exclusive, shared}
use evenk.SharedTicketLock.Kept.{IsKept}
use evenk.SharedTicketLock.TryMoves.{
  Mode, to_write, to_read, Try, read_head, read_tail, may_enter, more, takes_exclusive,
  takes_shared,
}

-- What a thread in a try knows, with so many exclusive and shared tickets inside.
abbrev pub IsTry : (tail e s : ℕ) → Try → Type 0
IsTry tail e s (read_head mode head e₀ s₀) =
    (head < 2 ^ 32) × (tail ≡ u32 (head + e₀ + 2 ^ 16 * s₀)) × (e ≤ e₀) × (s ≤ s₀)
IsTry tail e s (read_tail to_write tail' e₀ s₀ e' s') =
    (tail' < 2 ^ 32) × (tail ≡ u32 (tail' + e' + 2 ^ 16 * s')) × (e ≤ e') × (s ≤ s')
IsTry tail e s (read_tail to_read tail' e₀ s₀ e' s') =
    (tail' < 2 ^ 32) × (tail ≡ u32 (tail' + e' + 2 ^ 16 * s')) × (e ≤ e')

abbrev pub AreTries : (tail e s : ℕ) → List Try → Type 0
AreTries tail e s [] = Unit
AreTries tail e s (u ∷ us) = IsTry tail e s u × AreTries tail e s us

pub AreTries-split :
    (tail e s : ℕ) (before after : List Try)
    → AreTries tail e s (before ++ after)
    → AreTries tail e s before × AreTries tail e s after
AreTries-split tail e s [] after h = (tt, h)
AreTries-split tail e s (u ∷ before) after (k, h) =
    let (a, b) = AreTries-split tail e s before after h in ((k, a), b)

pub AreTries-join :
    (tail e s : ℕ) (before after : List Try)
    → AreTries tail e s before
    → AreTries tail e s after
    → AreTries tail e s (before ++ after)
AreTries-join tail e s [] after a b = b
AreTries-join tail e s (u ∷ before) after (k, a) b = (k, AreTries-join tail e s before after a b)

pub IsTry-more :
    (tail tail' e s e' s' de ds : ℕ) (u : Try)
    → tail' ≡ u32 (tail + de + 2 ^ 16 * ds)
    → e' ≤ e + de
    → s' ≤ s + ds
    → IsTry tail e s u
    → IsTry tail' e' s' (more de ds u)
IsTry-more tail tail' e s e' s' de ds (read_head mode head e₀ s₀) moved he hs h = ground arith
IsTry-more tail tail' e s e' s' de ds (read_tail to_write t e₀ s₀ e₁ s₁) moved he hs h =
    ground arith
IsTry-more tail tail' e s e' s' de ds (read_tail to_read t e₀ s₀ e₁ s₁) moved he hs h = ground arith

pub AreTries-more :
    (tail tail' e s e' s' de ds : ℕ) (us : List Try)
    → tail' ≡ u32 (tail + de + 2 ^ 16 * ds)
    → e' ≤ e + de
    → s' ≤ s + ds
    → AreTries tail e s us
    → AreTries tail' e' s' (map (more de ds) us)
AreTries-more tail tail' e s e' s' de ds [] moved he hs h = tt
AreTries-more tail tail' e s e' s' de ds (u ∷ us) moved he hs (k, h) = (
  IsTry-more tail tail' e s e' s' de ds u moved he hs k,
  AreTries-more tail tail' e s e' s' de ds us moved he hs h,
)

-- What a step of the lock does to its tail and to the tickets inside.
pub Step-tickets :
    {limit : ℕ} {s t : Lock.System} (st : Lock.Step limit s t)
    → s.words.tail < 2 ^ 32
    → (t.words.tail ≡ u32 (s.words.tail + takes_exclusive st + 2 ^ 16 * takes_shared st))
      × (tally exclusive t.inside ≤ tally exclusive s.inside + takes_exclusive st)
      × (tally shared t.inside ≤ tally shared s.inside + takes_shared st)
unfolding lock_take lock_poll lock_shared_take lock_shared_poll unlock_store unlock_shared
Step-tickets (begin_lock m ts room) h = ground (
  arith,
  tally-append exclusive ts (waiting m.tail ∷ []),
  tally-append shared ts (waiting m.tail ∷ []),
)
Step-tickets (begin_lock_shared m ts room) h =
    let p = shared_waiting (bit_and m.tail exclusive_mask) in
    ground (arith, tally-append exclusive ts (p ∷ []), tally-append shared ts (p ∷ []))
Step-tickets (poll m before after tail) h = ground (
  arith,
  tally-at exclusive before after (waiting tail),
  tally-at shared before after (waiting tail),
  tally-at exclusive before after (lock_poll m tail),
  tally-at shared before after (lock_poll m tail),
)
Step-tickets (load m before after) h = omega (
  arith,
  tally-at exclusive before after owner,
  tally-at shared before after owner,
  tally-at exclusive before after (leaving m.head),
  tally-at shared before after (leaving m.head),
)
Step-tickets (store m before after head) h = omega (
  arith,
  tally-at exclusive before after (leaving head),
  tally-at shared before after (leaving head),
  tally-append exclusive before after,
  tally-append shared before after,
)
Step-tickets (shared_poll m before after tail) h = ground (
  arith,
  tally-at exclusive before after (shared_waiting tail),
  tally-at shared before after (shared_waiting tail),
  tally-at exclusive before after (lock_shared_poll m tail),
  tally-at shared before after (lock_shared_poll m tail),
)
Step-tickets (shared_leave m before after) h = omega (
  arith,
  tally-at exclusive before after shared_owner,
  tally-at shared before after shared_owner,
  tally-append exclusive before after,
  tally-append shared before after,
)

-- What the test says: no ticket for writing was inside at the load of the head or taken until that of the
-- tail, and for `try_lock` none at all.
pub may_enter_write :
    (head tail e s : ℕ)
    → head < 2 ^ 32
    → e + s < 2 ^ 16
    → tail ≡ u32 (head + e + 2 ^ 16 * s)
    → may_enter to_write head tail ≡ true
    → (e ≡ 0) × (s ≡ 0)
unfolding may_enter
may_enter_write head tail e s fits few e-eq passes = ground arith

pub may_enter_read :
    (head tail e s : ℕ)
    → head < 2 ^ 32
    → e + s < 2 ^ 16
    → tail ≡ u32 (head + e + 2 ^ 16 * s)
    → may_enter to_read head tail ≡ true
    → e ≡ 0
unfolding may_enter
may_enter_read head tail e s fits few e-eq passes =
    ground (arith, bit_and-mask 16 head, bit_and-mask 16 tail)

-- The second load.
pub IsTry-passes :
    (mode : Mode) (tail e s head e₀ s₀ : ℕ)
    → tail < 2 ^ 32
    → e₀ + s₀ < 2 ^ 16
    → may_enter mode head tail ≡ true
    → IsTry tail e s (read_head mode head e₀ s₀)
    → IsTry tail e s (read_tail mode tail e₀ s₀ 0 0)
IsTry-passes to_write tail e s head e₀ s₀ fits few passes h =
    ground (arith, may_enter_write head tail e₀ s₀, h)
IsTry-passes to_read tail e s head e₀ s₀ fits few passes h =
    ground (arith, may_enter_read head tail e₀ s₀, h)

pub tail_fits : {limit : ℕ} {s : Lock.System} → IsKept limit s → s.words.tail < 2 ^ 32
tail_fits i = omega (arith, i.tail_eq)
