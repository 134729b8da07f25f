-- ===== src/Tests/LockedQueue.antt =====
-- A thread that waits in `wait_pop` of evenk/synch_queue.h, and one that pushes a value.
use evenk.Prelude.{
  inl, inr, ap, ℕ, ◌+◌, ◌≡◌, ◌≤◌, ◌<◌, ◌⊎◌, Bool, true, false, none, List, [], ◌∷◌, ◌++◌, length,
  refl, arith,
}
use evenk.Prelude.Threads.{tally}
use evenk.Status.{success, empty}
use evenk.SynchQueue.{synch_queue}
use evenk.FutexLock.Moves as Lock
use evenk.FutexCondVar.Moves.{
  in_lock, storing, blocked, Words, store_owner, count_in, load_value, unlock_sub,
}
use evenk.FutexCondVar.Steps.{lock_move, do_store, do_count, do_load, do_unlock}
use evenk.LockedQueue.Defs.{
  idle, push_test, push_store, notify, pop_test, pop_closed, access, Event, pushes, pops,
}
use evenk.LockedQueue.Steps.{
  Thread, System, at, system, begin, do_access, begin_wait, move, cond_sleep, Reach, start, later,
}
use evenk.LockedQueue.Notices.{coming, owes_one, owes_all}
use evenk.LockedQueue.Linear.{IsRun, synch_queue_refines}
use evenk.LockedQueue.Order.{put_in, given_out, has_closed, contradictions, synch_queue_order}
use evenk.LockedQueue.Wakeups.{synch_queue_wakeups}
use evenk.Kernel.{Requeue, none_left, not_blocked, goes_on}
use evenk.LockedQueue.Progress.{CanGo}
use evenk.LockedQueue.Deadlock.{NothingToDo, synch_queue_deadlock}
use evenk.Tests.Locks.{linux}

abbrev words : (lock count : ℕ) (has_owner : Bool) → Words
words lock count has_owner = record {
  lock = lock;
  futex = 0;
  count = count;
  has_owner = has_owner;
  notified = 0;
  broadcast = 0;
}

abbrev producer : List (Thread ℕ)
producer = at (in_lock Lock.outside) idle ∷ []

abbrev consumer : List (Thread ℕ)
consumer = at (blocked 0) (pop_test true) ∷ []

abbrev looked : List (Event ℕ)
looked = pops empty none ∷ []

tested :
    Reach linux (
      system
        (words 1 0 false)
        synch_queue
        []
        (at (in_lock Lock.owner) (pop_closed true) ∷ producer))
unfolding Lock.lock_attempt access synch_queue
tested =
    later
      (later
        (later (start (at (in_lock Lock.outside) idle ∷ producer) (omega arith) refl)
          (begin [] producer _ _ _ (pop_test true) refl))
        (move [] producer _ _ _ refl (lock_move _ (Lock.attempt 0))))
      (do_access [] producer _ _ _ (pop_test true) refl)

waits :
    Reach linux
      (system (words 1 0 false) synch_queue looked (at storing (pop_test true) ∷ producer))
unfolding access synch_queue
waits =
    later (later tested (do_access [] producer _ _ _ (pop_closed true) refl))
      (begin_wait [] producer _ _ _)

asleep : Reach linux (system (words 0 1 true) synch_queue looked (consumer ++ producer))
unfolding store_owner count_in load_value unlock_sub Lock.unlock
asleep =
    later
      (later
        (later
          (later (later waits (move [] producer _ _ _ refl (do_store _)))
            (move [] producer _ _ _ refl (do_count _)))
          (move [] producer _ _ _ refl (do_load _)))
        (move [] producer _ _ _ refl (do_unlock _ 0)))
      (cond_sleep [] producer _ _ _ (pop_test true) 0 refl)

-- The value is in the queue, and the notice is still to come.
abbrev stored : System ℕ
stored =
    system (words 1 1 true) (record { is_closed = false; items = 7 ∷ [] })
      (pushes 7 success ∷ looked) (consumer ++ at (in_lock Lock.owner) (notify false) ∷ [])

stored_reached : Reach linux stored
unfolding Lock.lock_attempt access synch_queue
stored_reached =
    later
      (later
        (later (later asleep (begin consumer [] _ _ _ (push_test 7) refl))
          (move consumer [] _ _ _ refl (lock_move _ (Lock.attempt 0))))
        (do_access consumer [] _ _ _ (push_test 7) refl))
      (do_access consumer [] _ _ _ (push_store 7) refl)

synch_queue_refines_example : IsRun stored.log stored.queue
synch_queue_refines_example = synch_queue_refines stored_reached

synch_queue_order_example :
    (put_in stored.log ≡ given_out stored.log ++ stored.queue.items)
    × (stored.queue.is_closed ≡ has_closed stored.log)
    × (contradictions stored.log ≡ 0)
synch_queue_order_example = synch_queue_order stored_reached

synch_queue_wakeups_example :
    (length stored.queue.items
      ≤ tally (coming stored.words.futex) stored.threads + tally owes_one stored.threads)
    × ((stored.queue.is_closed ≡ false) ⊎ (0 < tally owes_all stored.threads))
synch_queue_wakeups_example = synch_queue_wakeups stored_reached (omega arith) (omega arith)

-- The kernel of these tests returns from its calls.
woken_by_linux : (xs : List Bool) → (ys : List Bool) × linux.Wakes xs ys
woken_by_linux [] = ([], inl (tt, refl))
woken_by_linux (true ∷ xs) = (false ∷ xs, inr (inl (refl, refl, refl)))
woken_by_linux (false ∷ xs) =
    let (ys, w) = woken_by_linux xs in
    elim w [
      | inl (free, e) ↦ (false ∷ ys, inl ((refl, free), ap (λ zs. false ∷ zs) e))
      | inr one ↦ (false ∷ ys, inr (inr (refl, one)))
    ]

requeued_by_linux : (xs : List Bool) → (ys : List Requeue) × linux.Requeues xs ys
requeued_by_linux [] = ([], inr (tt, none_left))
requeued_by_linux (true ∷ xs) =
    let (ys, r) = requeued_by_linux xs in
    elim r [
      | inl some_woken ↦ (Requeue.wakes ∷ ys, inl (goes_on true some_woken))
      | inr (free, still) ↦ (Requeue.wakes ∷ ys, inl (goes_on false still))
    ]
requeued_by_linux (false ∷ xs) =
    let (ys, r) = requeued_by_linux xs in
    elim r [
      | inl some_woken ↦ (Requeue.stays ∷ ys, inl (not_blocked some_woken))
      | inr (free, still) ↦ (Requeue.stays ∷ ys, inr ((refl, free), not_blocked still))
    ]

synch_queue_deadlock_example : CanGo linux stored ⊎ NothingToDo stored
synch_queue_deadlock_example =
    synch_queue_deadlock linux woken_by_linux requeued_by_linux stored_reached (omega arith)
