-- ===== src/Tests/FutexSlot.antt =====
-- A thread that waits at a slot of evenk/bounded_queue.h, and one that puts another token there.
use evenk.Prelude.{◌≡◌, ◌<◌, ◌⊎◌, true, [], ◌∷◌, refl}
use evenk.Prelude.Threads.{tally}
use evenk.BoundedQueue.Slot.{futex_wait, futex_blocks, futex_wakes}
use evenk.BoundedQueue.FutexSlot.{
  idle, blocked, waking, begin_wait, begin_wake, System, do_wait, do_wake, move, sleep, Reach,
  start, later,
}
use evenk.BoundedQueue.SlotWakeups.{is_blocked, is_stale, is_waking, slot_wakeups}
use evenk.Tests.Locks.{linux}

abbrev told : System
told = record { token = 33; threads = blocked 20 ∷ waking ∷ [] }

told_reached : Reach linux told
unfolding begin_wait begin_wake futex_wait futex_blocks futex_wakes
told_reached =
    later
      (later (later (start 16 (idle ∷ idle ∷ []) refl) (move [] (idle ∷ []) 16 (do_wait 16)))
        (sleep [] (idle ∷ []) 20 20 refl))
      (move (blocked 20 ∷ []) [] 20 (do_wake 33))

slot_wakeups_example :
    ((tally (is_stale 33) told.threads ≡ 0) ⊎ (0 < tally is_waking told.threads))
    × ((tally is_blocked told.threads ≡ 0)
        ⊎ (0 < tally is_waking told.threads)
        ⊎ (futex_wakes 33 ≡ true))
slot_wakeups_example = slot_wakeups told_reached
