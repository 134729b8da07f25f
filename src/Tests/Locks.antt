-- ===== src/Tests/Locks.antt =====
-- The locks of evenk/spinlock.h and evenk/synch.h in states that threads reach.
use evenk.Prelude.{map, ℕ, ◌↔◌, ◌≤◌, ◌<◌, ◌≡◌, refl, ◌⊎◌, true, false, [], ◌∷◌, arith, suc}
use evenk.Prelude.Threads.{tally}
use evenk.Kernel.{Kernel, OneWakes, NoneBlocked, Requeued}
use evenk.FutexLock.Moves as Futex
use evenk.FutexLock.Exclusion.{is_owner, futex_lock_exclusion}
use evenk.FutexLock.Wakeups.{is_active, futex_lock_wakeups}
use evenk.SpinLock.Flag as Flag
use evenk.SpinLock.Spin.{spin_lock, exchange}
use evenk.SpinLock.Tatas.{tatas_lock, exchange as tatas_exchange}
use evenk.SpinLock.Exclusion.{flag_lock_exclusion}
use evenk.SharedTicketLock.Moves as Shared
use evenk.SharedTicketLock.Writers.{is_writer, is_reader}
use evenk.SharedTicketLock.TryMoves as TryMoves
use evenk.SharedTicketLock.Turns.{shared_ticket_lock_turns}
use evenk.SharedTicketLock.Exclusion.{shared_ticket_lock_exclusion}
use evenk.TicketLock.Moves as Ticket
use evenk.TicketLock.Invariant.{is_owner as is_ticket_owner, has, behind}
use evenk.TicketLock.Exclusion.{ticket_lock_exclusion, ticket_lock_order}
use evenk.TicketLock.TryLock.{at, Leads, both_outside, stalled_at, owned_at, try_lock_wraps}

-- A kernel that blocks on an equal value and wakes any one blocked thread.
abbrev pub linux : Kernel
linux = record {
  Blocks = λ word expected. word ≡ expected;
  Wakes = λ xs ys. (NoneBlocked xs × (ys ≡ xs)) ⊎ OneWakes xs ys;
  blocks_if_equal = λ word expected e. e;
  wakes_one = λ xs ys w. w;
  Requeues = λ xs ys. Requeued true xs ys ⊎ (NoneBlocked xs × Requeued false xs ys);
  requeues_all = λ xs ys r. r;
  WakesAll = λ xs ys. ys ≡ map (λ x. false) xs;
  wakes_all = λ xs ys e. e;
}

-- One thread owns the lock, the other has found it taken and sleeps.
abbrev contended : Futex.System
contended = record { word = 2; threads = Futex.owner ∷ Futex.asleep ∷ [] }

contended-Reach : Futex.Reach linux contended
unfolding Futex.lock_attempt Futex.after_backoff Futex.exchange_two
contended-Reach =
    let first = Futex.owner ∷ [] in
    let idle = Futex.outside ∷ [] in
    let begun =
      Futex.later (Futex.start (Futex.outside ∷ idle) refl)
        (Futex.move [] idle (Futex.begin_lock 0)) in
    let owned = Futex.later begun (Futex.move [] idle (Futex.attempt 0)) in
    let second = Futex.later owned (Futex.move first [] (Futex.begin_lock 1)) in
    let lost = Futex.later second (Futex.move first [] (Futex.attempt 1)) in
    let tired = Futex.later lost (Futex.move first [] (Futex.back_off true 1 1)) in
    let marked = Futex.later tired (Futex.move first [] (Futex.exchange 1)) in
    Futex.later marked (Futex.sleep first [] 2 refl)

futex_lock_exclusion_example :
    (tally is_owner contended.threads ≤ 1) × (2 ≤ 2) × (tally is_owner contended.threads ≤ 2)
futex_lock_exclusion_example = futex_lock_exclusion contended-Reach

futex_lock_wakeups_example : 0 < tally is_active contended.threads
futex_lock_wakeups_example = futex_lock_wakeups contended-Reach (omega arith)

spun : Flag.Reach spin_lock (record { flag = true; threads = Flag.owner ∷ [] })
unfolding exchange
spun =
    Flag.later (Flag.later (Flag.start (Flag.outside ∷ []) refl) (Flag.move [] [] Flag.begin))
      (Flag.move [] [] Flag.grab)

tested : Flag.Reach tatas_lock (record { flag = true; threads = Flag.owner ∷ [] })
unfolding tatas_exchange
tested =
    Flag.later (Flag.later (Flag.start (Flag.outside ∷ []) refl) (Flag.move [] [] Flag.begin))
      (Flag.move [] [] Flag.grab)

flag_lock_exclusion_example :
    (tally Flag.is_owner (Flag.owner ∷ []) ≡ 1) × (tally Flag.is_owner (Flag.owner ∷ []) ≡ 1)
flag_lock_exclusion_example = flag_lock_exclusion spun tested

-- The counters are about to come round, one thread has the last ticket, another waits with 0.
abbrev queued : Ticket.System
queued = record {
  words = record { head = 65535; tail = 1 };
  threads = Ticket.leaving 65535 65535 ∷ Ticket.waiting 0 ∷ [];
}

queued-Reach : Ticket.Reach false queued
unfolding Ticket.take Ticket.poll Ticket.unlock_load
queued-Reach =
    let idle = Ticket.outside ∷ [] in
    let one =
      Ticket.later (Ticket.start 65535 (Ticket.outside ∷ idle) refl refl)
        (Ticket.move [] idle Ticket.do_take) in
    let two = Ticket.later one (Ticket.move (Ticket.waiting 65535 ∷ []) [] Ticket.do_take) in
    let in_now = Ticket.later two (Ticket.move [] (Ticket.waiting 0 ∷ []) (Ticket.do_poll 65535)) in
    Ticket.later in_now (Ticket.move [] (Ticket.waiting 0 ∷ []) (Ticket.do_load 65535))

abbrev handed_over : Ticket.System
handed_over = record {
  words = record { head = 0; tail = 1 };
  threads = Ticket.outside ∷ Ticket.waiting 0 ∷ [];
}

hand_over : Ticket.Step false queued handed_over
unfolding Ticket.unlock_store
hand_over = Ticket.move [] (Ticket.waiting 0 ∷ []) (Ticket.do_store 65535 65535)

ticket_lock_exclusion_example :
    (tally is_ticket_owner queued.threads ≤ 1)
    × (tally (has 65535) queued.threads ≡ 1)
    × (tally (has 0) queued.threads ≤ 1)
ticket_lock_exclusion_example = ticket_lock_exclusion 0 queued-Reach (omega arith) (omega arith)

ticket_lock_order_example : (behind 0 0 ≡ behind 65535 0) ⊎ (suc (behind 0 0) ≡ behind 65535 0)
ticket_lock_order_example =
    ticket_lock_order 0 queued-Reach hand_over (omega arith) (omega arith) (omega arith)

try_lock_wraps_example :
    Leads (both_outside 7) (stalled_at 7)
    × Leads (stalled_at 7) (owned_at 7 6 (Ticket.tried_tail 7 7))
    × Leads (owned_at 7 6 (Ticket.tried_tail 7 7)) (at 6 8 (Ticket.owner 7 ∷ Ticket.owner 6 ∷ []))
try_lock_wraps_example = try_lock_wraps 7 refl

-- A thread shares the lock, after `try_lock_shared`, and another waits for it behind.
abbrev read : Shared.System
read = record {
  words = record { head = 5; tail = 65542 };
  inside = Shared.shared_owner ∷ Shared.waiting 65541 ∷ [];
}

abbrev read_first : Shared.System
read_first = record { words = record { head = 5; tail = 65541 }; inside = Shared.shared_owner ∷ [] }

tried : TryMoves.Reach 2 (record { lock = read_first; tries = [] })
unfolding TryMoves.may_enter TryMoves.after_exchange TryMoves.try_exchange
tried =
    let free : Shared.System = record { words = record { head = 5; tail = 5 }; inside = [] } in
    let a =
      TryMoves.later (TryMoves.start 5 (omega arith))
        (TryMoves.load_head free [] TryMoves.to_read) in
    let b = TryMoves.later a (TryMoves.load_tail free [] [] TryMoves.to_read 5 0 0 (omega arith)) in
    TryMoves.later b
      (TryMoves.exchange free [] [] TryMoves.to_read 5 0 0 0 0 (omega arith) (omega arith))

read-Reach : TryMoves.Reach 2 (record { lock = read; tries = [] })
unfolding Shared.lock_take
read-Reach = TryMoves.later tried (
    TryMoves.locks [] (
      Shared.begin_lock (record { head = 5; tail = 65541 }) (Shared.shared_owner ∷ [])
        (omega arith)))

shared_ticket_lock_exclusion_example :
    (tally is_writer read.inside ≤ 1)
    × ((tally is_writer read.inside ≡ 0) ⊎ (tally is_reader read.inside ≡ 0))
shared_ticket_lock_exclusion_example = shared_ticket_lock_exclusion (omega arith) read-Reach

shared_ticket_lock_turns_example :
    (Shared.lock_poll read.words 65541 ≡ Shared.owner) ↔ (◌≡◌ {A = ℕ} 1 0)
shared_ticket_lock_turns_example =
    shared_ticket_lock_turns (Shared.shared_owner ∷ []) [] (Shared.waiting 65541) (omega arith)
      read-Reach refl
