-- ===== src/TicketLock/Invariant.antt =====
-- Who holds which ticket of a `ticket_lock` of evenk/spinlock.h, modulo 2 ^ 16.
use evenk.Prelude.{
  ℕ, ◌+◌, ◌-◌, ◌%◌, ◌^◌, ◌≤◌, ◌<◌, ◌≡◌, Bool, arith, ◌==◌, ltb, not, ◌&&◌, u16, if◌then◌else◌,
}
use evenk.TicketLock.Moves.{
  Local, waiting, owner, leaving, Words, take, poll, unlock_load, unlock_store, Move, do_take,
  do_poll, do_load, do_store,
}

abbrev pub is_owner : Local → ℕ
is_owner (owner _) = 1
is_owner (leaving _ _) = 1
is_owner _ = 0

-- A thread with a ticket that it has not given back.
abbrev pub is_ticketed : Local → ℕ
is_ticketed (waiting _) = 1
is_ticketed p = is_owner p

abbrev pub one_if : Bool → ℕ
one_if b = if b then 1 else 0

abbrev pub has : ℕ → Local → ℕ
has t (waiting u) = one_if (u == t)
has t (owner u) = one_if (u == t)
has t (leaving h u) = one_if (u == t)
has t _ = 0

-- An owner whose ticket is not the head.
abbrev pub is_stale : ℕ → Local → ℕ
is_stale head (owner u) = one_if (not (u == head))
is_stale head (leaving h u) = one_if (not (u == head && h == head))
is_stale head _ = 0

-- How far a ticket is behind the head.
abbrev pub behind : ℕ → ℕ → ℕ
behind head t = (t + 2 ^ 16 - head) % 2 ^ 16

-- In terms of the sums of the weights: `k` tickets are out, those next to the head, once each.
pub record IsOrdered (m : Words) (k : ℕ) (holders : ℕ → ℕ) (stale : ℕ → ℕ) : Type 0 where
  pub head_fits : m.head < 2 ^ 16
  pub tail_eq : m.tail ≡ (m.head + k) % 2 ^ 16
  pub once : (t : ℕ) → t < 2 ^ 16 → holders t ≡ one_if (ltb (behind m.head t) k)
  pub fresh : stale m.head ≡ 0

pub owner_has : (head : ℕ) (p : Local) → is_owner p ≤ has head p + is_stale head p
owner_has head p = ground arith

pub stale_owner : (head : ℕ) (p : Local) → is_stale head p ≤ is_owner p
stale_owner head p = ground arith

-- The sums of the weights of the threads other than the one that moves: tickets, holders of each
-- ticket, stale owners at each head, with the owners between the last two.
pub record Others : Type 0 where
  pub tickets : ℕ
  pub owners : ℕ
  pub holders : ℕ → ℕ
  pub stale : ℕ → ℕ
  pub owners_hold : (head : ℕ) → owners ≤ holders head + stale head
  pub stale_own : (head : ℕ) → stale head ≤ owners

pub Move-IsOrdered :
    {m : Words} {p : Local} {next : Words × Local} (o : Others)
    → Move m p next
    → is_ticketed p + o.tickets < 2 ^ 16
    → is_ticketed next.1 + o.tickets < 2 ^ 16
    → IsOrdered m
        (is_ticketed p + o.tickets)
        (λ t. has t p + o.holders t)
        (λ h. is_stale h p + o.stale h)
    → IsOrdered next.0
        (is_ticketed next.1 + o.tickets)
        (λ t. has t next.1 + o.holders t)
        (λ h. is_stale h next.1 + o.stale h)
unfolding take poll unlock_load unlock_store
Move-IsOrdered o do_take few few' i = record {
  head_fits = i.head_fits;
  tail_eq = ground (arith, i.tail_eq);
  once = λ t q. ground (arith, i.once t q, i.tail_eq, i.head_fits);
  fresh = ground (arith, i.fresh);
}
Move-IsOrdered o (do_poll tail) few few' i = record {
  head_fits = i.head_fits;
  tail_eq = ground (arith, i.tail_eq);
  once = λ t q. ground (arith, i.once t q);
  fresh = ground (arith, i.fresh);
}
Move-IsOrdered o (do_load ticket) few few' i = record {
  head_fits = i.head_fits;
  tail_eq = ground (arith, i.tail_eq);
  once = λ t q. ground (arith, i.once t q);
  fresh = ground (arith, i.fresh);
}
Move-IsOrdered {m} o (do_store head ticket) few few' i = record {
  head_fits = omega arith;
  tail_eq = ground (arith, i.tail_eq, i.fresh);
  once = λ t q. ground (arith, i.once t q, i.fresh, i.head_fits);
  fresh = ground (
    arith,
    i.fresh,
    i.once m.head i.head_fits,
    o.owners_hold m.head,
    o.stale_own (u16 (m.head + 1)),
  );
}
