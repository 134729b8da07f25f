-- ===== src/TicketLock/Exclusion.antt =====
-- Mutual exclusion, progress and order of a `ticket_lock` of evenk/spinlock.h under `lock` and
-- `unlock`, for any number of rounds.
use evenk.Prelude.{
  ℕ, suc, ◌+◌, ◌^◌, ◌≤◌, ◌<◌, ◌≡◌, refl, ◌⊎◌, inl, inr, false, List, ◌∷◌, ◌++◌, arith, ltb, u16,
  length, length-append,
}
use evenk.Prelude.Threads.{tally, rest, tally-at, tally-le, tally-le_add, tally-le_length}
use evenk.TicketLock.Moves.{
  Local, outside, leaving, Words, take, unlock_store, System, do_take, do_poll, do_load, do_store,
  Step, move, try, is_inside, Reach, start, later,
}
use evenk.TicketLock.Invariant.{
  is_owner, is_ticketed, has, is_stale, behind, one_if, IsOrdered, Others, Move-IsOrdered,
  owner_has, stale_owner,
}

abbrev AllOrdered : System → Type 0
AllOrdered s =
    IsOrdered s.words (tally is_ticketed s.threads) (λ t. tally (has t) s.threads)
      (λ h. tally (is_stale h) s.threads)

module _ (before after : List Local) where
  rest_hold :
      (h : ℕ)
      → rest is_owner before after ≤ rest (has h) before after + rest (is_stale h) before after
  rest_hold h = omega (
    arith,
    tally-le_add is_owner (has h) (is_stale h) (owner_has h) before,
    tally-le_add is_owner (has h) (is_stale h) (owner_has h) after,
  )

  rest_stale : (h : ℕ) → rest (is_stale h) before after ≤ rest is_owner before after
  rest_stale h = omega (
    arith,
    tally-le (is_stale h) is_owner (stale_owner h) before,
    tally-le (is_stale h) is_owner (stale_owner h) after,
  )

  abbrev others : Others
  others = record {
    tickets = rest is_ticketed before after;
    owners = rest is_owner before after;
    holders = λ t. rest (has t) before after;
    stale = λ h. rest (is_stale h) before after;
    owners_hold = rest_hold;
    stale_own = rest_stale;
  }

  -- The sums over all threads, and those with one thread apart.
  apart :
      {m : Words} (p : Local)
      → AllOrdered (record { words = m; threads = before ++ p ∷ after })
      → IsOrdered m
          (is_ticketed p + others.tickets)
          (λ t. has t p + others.holders t)
          (λ h. is_stale h p + others.stale h)
  apart {m} p o = record {
    head_fits = o.head_fits;
    tail_eq = rw (← tally-at is_ticketed before after p) o.tail_eq;
    once = λ t q.
        rw (← tally-at is_ticketed before after p, ← tally-at (has t) before after p) (o.once t q);
    fresh = rw (← tally-at (is_stale m.head) before after p) o.fresh;
  }

  together :
      {m : Words} (p : Local)
      → IsOrdered m
          (is_ticketed p + others.tickets)
          (λ t. has t p + others.holders t)
          (λ h. is_stale h p + others.stale h)
      → AllOrdered (record { words = m; threads = before ++ p ∷ after })
  together {m} p o = record {
    head_fits = o.head_fits;
    tail_eq = rw (tally-at is_ticketed before after p) o.tail_eq;
    once = λ t q.
        rw (tally-at is_ticketed before after p, tally-at (has t) before after p) (o.once t q);
    fresh = rw (tally-at (is_stale m.head) before after p) o.fresh;
  }

length-at :
    (before after : List Local) (p : Local)
    → length (before ++ p ∷ after) ≡ suc (length before + length after)
length-at before after p = omega (arith, length-append before (p ∷ after))

ticketed-le : (p : Local) → is_ticketed p ≤ 1
ticketed-le p = ground arith

Step-length : {s t : System} → Step false s t → length t.threads ≡ length s.threads
Step-length (move before after {p} {next} mv) =
    omega (arith, length-at before after p, length-at before after next.1)
Step-length (try before after e mv) = cc

room :
    (before after : List Local) (p : Local)
    → length (before ++ p ∷ after) < 2 ^ 16
    → is_ticketed p + rest is_ticketed before after < 2 ^ 16
room before after p few = omega (
  arith,
  tally-at is_ticketed before after p,
  tally-le_length is_ticketed ticketed-le (before ++ p ∷ after),
)

Step-AllOrdered :
    {s t : System} → Step false s t → length s.threads < 2 ^ 16 → AllOrdered s → AllOrdered t
Step-AllOrdered (move before after {p} {next} mv) few o = together before after next.1 (
    Move-IsOrdered (others before after) mv (room before after p few)
      (room before after next.1
        (omega (arith, length-at before after p, length-at before after next.1)))
      (apart before after p o))
Step-AllOrdered (try before after e mv) few o = cc

Reach-AllOrdered : {s : System} → Reach false s → length s.threads < 2 ^ 16 → AllOrdered s
Reach-AllOrdered (start h ts fits out) few = record {
  head_fits = omega (arith, fits);
  tail_eq = rw (idle is_ticketed ticketed_inside) (omega (arith, fits));
  once = λ t q. rw (idle is_ticketed ticketed_inside, idle (has t) (has_inside t)) (ground arith);
  fresh = idle (is_stale h) (stale_inside h);
}
  where
    idle : (w : Local → ℕ) → ((p : Local) → w p ≤ is_inside p) → tally w ts ≡ 0
    idle w inside = omega (arith, tally-le w is_inside inside ts)

    ticketed_inside : (p : Local) → is_ticketed p ≤ is_inside p
    ticketed_inside outside = omega arith
    ticketed_inside p = ground arith

    has_inside : (t : ℕ) (p : Local) → has t p ≤ is_inside p
    has_inside t outside = omega arith
    has_inside t p = ground arith

    stale_inside : (h : ℕ) (p : Local) → is_stale h p ≤ is_inside p
    stale_inside h outside = omega arith
    stale_inside h p = ground arith
Reach-AllOrdered (later {s} r st) few =
    let few' : length s.threads < 2 ^ 16 = omega (arith, Step-length st) in
    Step-AllOrdered st few' (Reach-AllOrdered r few')

-- Fewer than 2 ^ 16 threads that use `lock` and `unlock`, in every reachable state: at most one owns
-- the lock; while any ticket is out, exactly one thread has the ticket that is equal to the head, so
-- that it owns the lock or passes its next test; and no ticket below 2 ^ 16 is held twice.
pub ticket_lock_exclusion :
    {s : System} (t : ℕ)
    → Reach false s
    → length s.threads < 2 ^ 16
    → t < 2 ^ 16
    → (tally is_owner s.threads ≤ 1)
      × (tally (has s.words.head) s.threads ≡ one_if (ltb 0 (tally is_ticketed s.threads)))
      × (tally (has t) s.threads ≤ 1)
ticket_lock_exclusion {s} t r few q =
    let o = Reach-AllOrdered r few in
    let at_head = o.once s.words.head o.head_fits in
    let bound =
      tally-le_add is_owner (has s.words.head) (is_stale s.words.head) (owner_has s.words.head)
        s.threads in
    ground (arith, at_head, bound, o.fresh, o.once t q, o.head_fits)

head_moves :
    {s t : System}
    → Step false s t
    → AllOrdered s
    → (t.words.head ≡ s.words.head) ⊎ (t.words.head ≡ u16 (s.words.head + 1))
unfolding take unlock_store
head_moves (move before after do_take) o = inl refl
head_moves (move before after (do_poll tail)) o = inl refl
head_moves (move before after (do_load ticket)) o = inl refl
head_moves (move before after (do_store head ticket)) o =
    let mine = apart before after (leaving head ticket) o in inr (ground (arith, mine.fresh))
head_moves (try before after e mv) o = cc

-- First come, first served: while a thread keeps its ticket, a step of any thread leaves it as far
-- behind the head as it was, or one place nearer; it never falls back.
pub ticket_lock_order :
    {s s' : System} (t : ℕ)
    → Reach false s
    → Step false s s'
    → length s.threads < 2 ^ 16
    → t < 2 ^ 16
    → 0 < tally (has t) s'.threads
    → (behind s'.words.head t ≡ behind s.words.head t)
      ⊎ (suc (behind s'.words.head t) ≡ behind s.words.head t)
ticket_lock_order {s} {s'} t r st few q held =
    let o = Reach-AllOrdered r few in
    let o' = Step-AllOrdered st few o in
    let few_tickets = tally-le_length is_ticketed ticketed-le s'.threads in
    elim (head_moves st o) [
      | inl same ↦ inl (rw same)
      | inr moved ↦ inr (ground (arith, o'.once t q, o.head_fits, Step-length st))
    ]
