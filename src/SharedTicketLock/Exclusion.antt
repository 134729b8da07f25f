-- ===== src/SharedTicketLock/Exclusion.antt =====
-- `shared_ticket_lock` of evenk/spinlock.h keeps writers apart from all others.
use evenk.Prelude.{
  ℕ, ◌+◌, ◌*◌, ◌^◌, ◌≤◌, ◌<◌, ◌≡◌, ◌⊎◌, inl, inr, List, [], ◌∷◌, ◌++◌, map, ◌==◌, u32, if-elim,
  length, arith, refl, Bool-cases,
}
use evenk.Prelude.Threads.{tally, tally-append}
use evenk.SharedTicketLock.Moves as Lock
use evenk.SharedTicketLock.Moves.{
  Local, waiting, owner, leaving, shared_waiting, shared_owner, Words, begin_lock,
  begin_lock_shared, poll, load, store, shared_poll, shared_leave, lock_take, lock_poll,
  unlock_store, lock_shared_take, lock_shared_poll, unlock_shared, exclusive_mask,
}
use evenk.SharedTicketLock.Order.{exclusive, shared, Knows}
use evenk.SharedTicketLock.Kept.{IsKept, Step-take, Step-IsKept, Reach-IsKept}
use evenk.SharedTicketLock.Writers.{is_writer, is_reader, alone}
use evenk.SharedTicketLock.TryMoves.{
  Mode, to_write, to_read, Try, read_head, read_tail, may_enter, step_of, place_of, try_exchange,
  more, System, after_exchange, takes_exclusive, takes_shared, Step, locks, load_head, load_tail,
  exchange, Reach, start, later,
}
use evenk.SharedTicketLock.TryTickets.{
  IsTry, AreTries, AreTries-split, AreTries-join, AreTries-more, Step-tickets, IsTry-passes,
  tail_fits,
}

pub record IsSafe (limit : ℕ) (s : System) : Type 0 where
  pub kept : IsKept limit s.lock
  pub tries :
      AreTries s.lock.words.tail
        (tally exclusive s.lock.inside)
        (tally shared s.lock.inside)
        s.tries

-- The compare-exchange works: nobody is inside, or for `try_lock_shared` nobody with a ticket to write.
Exchange-works :
    (limit : ℕ) (mode : Mode) (s : Lock.System) (before after : List Try) (tail e x e' x' : ℕ)
    → s.words.tail ≡ tail
    → e' + x' < 2 ^ 16
    → length s.inside < limit
    → IsSafe limit (record { lock = s; tries = before ++ read_tail mode tail e x e' x' ∷ after })
    → IsSafe limit (record {
      lock = record {
        words = record { head = s.words.head; tail = u32 (tail + step_of mode) };
        inside = s.inside ++ place_of mode ∷ [];
      };
      tries = map (more (exclusive (place_of mode)) (shared (place_of mode))) (before ++ after);
    })
Exchange-works limit mode s before after tail e x e' x' same few room i =
    let m' : Words = record { head = s.words.head; tail = u32 (tail + step_of mode) } in
    let e₀ = tally exclusive s.inside in
    let s₀ = tally shared s.inside in
    let (a, (k, b)) =
      AreTries-split s.words.tail e₀ s₀ before (read_tail mode tail e x e' x' ∷ after) i.tries in
    record {
      kept =
          Step-take limit s.words m' s.inside (place_of mode) room refl (moves mode) (knows mode k)
            i.kept;
      tries =
          AreTries-more s.words.tail m'.tail e₀ s₀
            (tally exclusive (s.inside ++ place_of mode ∷ []))
            (tally shared (s.inside ++ place_of mode ∷ [])) (exclusive (place_of mode))
            (shared (place_of mode)) (before ++ after) (moves mode)
            (omega (arith, tally-append exclusive s.inside (place_of mode ∷ [])))
            (omega (arith, tally-append shared s.inside (place_of mode ∷ [])))
            (AreTries-join s.words.tail e₀ s₀ before after a b);
    }
  where
    moves :
        (mode : Mode)
        → u32 (tail + step_of mode)
          ≡ u32 (s.words.tail + exclusive (place_of mode) + 2 ^ 16 * shared (place_of mode))
    moves mode = ground (arith, same)

    knows :
        (mode : Mode)
        → IsTry s.words.tail
            (tally exclusive s.inside)
            (tally shared s.inside)
            (read_tail mode tail e x e' x')
        → Knows s.words.head (tally exclusive s.inside) (tally shared s.inside) (place_of mode)
    knows to_write k = ground (arith, same, few, k)
    knows to_read k = ground (arith, same, few, k)

Step-IsSafe :
    {limit : ℕ} {s t : System} → limit < 2 ^ 16 → Step limit s t → IsSafe limit s → IsSafe limit t
unfolding after_exchange try_exchange
Step-IsSafe small (locks {s} {t} us st) i =
    let (moved, he, hs) = Step-tickets st (tail_fits i.kept) in
    record {
      kept = Step-IsKept small st i.kept;
      tries =
          AreTries-more s.words.tail t.words.tail (tally exclusive s.inside) (tally shared s.inside)
            (tally exclusive t.inside) (tally shared t.inside) (takes_exclusive st)
            (takes_shared st) us moved he hs i.tries;
    }
Step-IsSafe small (load_head s us mode) i = record {
  kept = i.kept;
  tries = ((i.kept.head_fits, i.kept.tail_eq, omega arith, omega arith), i.tries);
}
Step-IsSafe {limit} small (load_tail s before after mode head e x few) i =
    let e₀ = tally exclusive s.inside in
    let s₀ = tally shared s.inside in
    let (a, (k, b)) =
      AreTries-split s.words.tail e₀ s₀ before (read_head mode head e x ∷ after) i.tries in
    record {
      kept = i.kept;
      tries = AreTries-join s.words.tail e₀ s₀ before _ a (
          if-elim (AreTries s.words.tail e₀ s₀) (may_enter mode head s.words.tail) _ _
            (λ passes.
              (IsTry-passes mode s.words.tail e₀ s₀ head e x (tail_fits i.kept) few passes k, b))
            (λ fails. b));
    }
Step-IsSafe {limit} small (exchange s before after mode tail e x e' x' few room) i =
    elim (Bool-cases (s.words.tail == tail)) [
      | inl hit ↦
          rw hit (
            Exchange-works limit mode s before after tail e x e' x' (ground (arith, hit)) few room
              i)
      | inr miss ↦ rw miss (record {
        kept = i.kept;
        tries =
            let e₀ = tally exclusive s.inside in
            let s₀ = tally shared s.inside in
            let (a, (k, b)) =
              AreTries-split s.words.tail e₀ s₀ before (read_tail mode tail e x e' x' ∷ after)
                i.tries in
            AreTries-join s.words.tail e₀ s₀ before after a b;
      })
    ]

pub Reach-IsSafe : {limit : ℕ} {s : System} → limit < 2 ^ 16 → Reach limit s → IsSafe limit s
Reach-IsSafe {limit} small (start h fits) = record {
  kept = Reach-IsKept small (Lock.start h fits);
  tries = tt;
}
Reach-IsSafe small (later r st) = Step-IsSafe small st (Reach-IsSafe small r)

-- With fewer than 2 ^ 16 threads that call any of the methods, and no call of `try_lock` or
-- `try_lock_shared` during which a counter comes round: at most one thread owns the lock exclusively, and
-- while one does no thread shares it.
pub shared_ticket_lock_exclusion :
    {limit : ℕ} {s : System}
    → limit < 2 ^ 16
    → Reach limit s
    → (tally is_writer s.lock.inside ≤ 1)
      × ((tally is_writer s.lock.inside ≡ 0) ⊎ (tally is_reader s.lock.inside ≡ 0))
shared_ticket_lock_exclusion {s = s} small r =
    let i = Reach-IsSafe small r in
    ground (arith, alone s.lock.words.head 0 0 s.lock.inside i.kept.ordered)
