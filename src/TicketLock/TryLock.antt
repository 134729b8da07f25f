-- ===== src/TicketLock/TryLock.antt =====
-- `try_lock` of `ticket_lock` in evenk/spinlock.h, when the counters come round while it is stalled.
use evenk.Prelude.{ℕ, zero, suc, ◌+◌, ◌≡◌, refl, true, List, [], ◌∷◌, arith, u16}
use evenk.TicketLock.Moves.{
  Local, outside, owner, tried_head, tried_tail, Words, take, poll, unlock_load, unlock_store,
  try_load_head, try_load_tail, try_exchange, System, do_take, do_poll, do_load, do_store,
  load_head, load_tail, exchange, move, try, Step,
}

abbrev pub at : ℕ → ℕ → List Local → System
at head tail ts = record { words = record { head = head; tail = tail }; threads = ts }

-- A run of the threads from one state to another.
pub data Leads (s : System) : System → Type 0 where
  here : Leads s s
  then_step : {t u : System} → Leads s t → Step true t u → Leads s u

poll_enters : (m : Words) → poll m m.head ≡ owner m.head
unfolding poll
poll_enters m = ground arith

module _ (begun : System) (stalled : Local) where
  abbrev with_second : ℕ → ℕ → Local → System
  with_second head tail p = at head tail (stalled ∷ p ∷ [])

  enter :
      {h : ℕ}
      → Leads begun (with_second h h outside)
      → Leads begun (with_second h (u16 (h + 1)) (owner h))
  unfolding take
  enter {h} r =
      let polled : Leads begun
          (with_second h (u16 (h + 1)) (poll (record { head = h; tail = u16 (h + 1) }) h)) =
        then_step (then_step r (move (stalled ∷ []) [] do_take))
          (move (stalled ∷ []) [] (do_poll h)) in
      rw poll_enters at polled

  round :
      {h : ℕ}
      → Leads begun (with_second h h outside)
      → Leads begun (with_second (u16 (h + 1)) (u16 (h + 1)) outside)
  unfolding unlock_load unlock_store
  round {h} r =
      then_step (then_step (enter r) (move (stalled ∷ []) [] (do_load h)))
        (move (stalled ∷ []) [] (do_store h h))

  rounds :
      (n h : ℕ)
      → Leads begun (with_second h h outside)
      → u16 h ≡ h
      → Leads begun (with_second (u16 (h + n)) (u16 (h + n)) outside)
  rounds zero h r e = let e' : u16 (h + 0) ≡ h = omega arith in rw e' r
  rounds (suc n) h r e =
      let e' : u16 (u16 (h + n) + 1) ≡ u16 (h + suc n) = omega arith in
      rw e' at (round (rounds n h r e))

try_load_tail_equal : (h : ℕ) → try_load_tail (record { head = h; tail = h }) h ≡ tried_tail h h
unfolding try_load_tail
try_load_tail_equal h = ground arith

try_exchange_wins :
    (head tail : ℕ)
    → try_exchange (record { head = head; tail = tail }) tail
      ≡ (record { head = head; tail = u16 (tail + 1) }, owner tail)
unfolding try_exchange
try_exchange_wins head tail = ground arith

abbrev pub both_outside : ℕ → System
both_outside h = at h h (outside ∷ outside ∷ [])

-- Both threads are outside, and the first has called `try_lock` and is about to compare-exchange.
abbrev pub stalled_at : ℕ → System
stalled_at h = at h h (tried_tail h h ∷ outside ∷ [])

stall : (h : ℕ) → Leads (both_outside h) (stalled_at h)
unfolding try_load_head
stall h =
    let read : Leads (both_outside h) (at h h (tried_head h ∷ outside ∷ [])) =
      then_step here (try [] (outside ∷ []) refl load_head) in
    let tested : Leads (both_outside h)
        (at h h (try_load_tail (record { head = h; tail = h }) h ∷ outside ∷ [])) =
      then_step read (try [] (outside ∷ []) refl (load_tail h)) in
    rw (try_load_tail_equal h) at tested

-- The second thread owns the lock with the ticket `other`.
abbrev pub owned_at : (h other : ℕ) → Local → System
owned_at h other p = at other h (p ∷ owner other ∷ [])

-- From equal counters at any 16-bit number `h` and two threads outside: a run leads to the state in which
-- the first thread is in `try_lock`, before its compare-exchange; from there a run leads to a state in
-- which it is still there, the tail is `h` again, and the second thread owns the lock with the ticket
-- before `h`; and from there a run leads to a state in which both own the lock.
pub try_lock_wraps :
    (h : ℕ)
    → u16 h ≡ h
    → Leads (both_outside h) (stalled_at h)
      × Leads (stalled_at h) (owned_at h (u16 (h + 65535)) (tried_tail h h))
      × Leads
          (owned_at h (u16 (h + 65535)) (tried_tail h h))
          (at (u16 (h + 65535)) (u16 (h + 1)) (owner h ∷ owner (u16 (h + 65535)) ∷ []))
try_lock_wraps h fits =
    let other : ℕ = u16 (h + 65535) in
    let came_round : u16 (other + 1) ≡ h = omega arith in
    let locked : Leads (stalled_at h) (owned_at h other (tried_tail h h)) = rw came_round at (
      enter (stalled_at h) (tried_tail h h)
        (rounds (stalled_at h) (tried_tail h h) 65535 h here fits)) in
    let both : Leads (owned_at h other (tried_tail h h)) (record {
      words = (try_exchange (record { head = other; tail = h }) h).0;
      threads = (try_exchange (record { head = other; tail = h }) h).1 ∷ owner other ∷ [];
    }) =
      then_step here (try [] (owner other ∷ []) refl (exchange h h)) in
    (stall h, locked, rw (try_exchange_wins other h) at both)
