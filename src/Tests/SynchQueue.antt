-- ===== src/Tests/SynchQueue.antt =====
-- evenk/synch_queue.h on short runs.
use evenk.Prelude.{ℕ, ◌≤◌, ◌≡◌, refl, true, false, some, List, [], ◌∷◌, ◌++◌, arith, length}
use evenk.Prelude.Threads.{tally}
use evenk.Status.{Status, returns, throws}
use evenk.SynchQueue.{
  Queue, synch_queue, close, is_empty, is_full, push, value_pop, nonblocking_pop, Op, put, get,
  put_if, shut, run, perform, try_push, locked_push, try_pop, locked_pop, nonblocking_push,
  run_fifo, close-run, drain, drain-close,
}
use evenk.SynchQueue.Wakeups.{
  entering, sleeping, System, Reach, start, later, try, attempt, is_woken, wait_pop_wakeups,
}

abbrev two_items : Queue ℕ
two_items = record { is_closed = false; items = 1 ∷ 2 ∷ [] }

abbrev script : List (Op ℕ)
script = put 3 ∷ get ∷ put_if false 4 ∷ put_if true 5 ∷ shut ∷ put 6 ∷ get ∷ []

run_fifo_example :
    1 ∷ 2 ∷ [] ++ (run script two_items).0
    ≡ (run script two_items).1 ++ (run script two_items).2.items
run_fifo_example = run_fifo script two_items

run-script : (run script two_items).2.items ≡ 3 ∷ 5 ∷ []
unfolding run perform try_push locked_push try_pop locked_pop nonblocking_push nonblocking_pop close
run-script = refl

close-run_example :
    ((run script (close two_items).1).0 ≡ [])
    × ((run script (close two_items).1).2.is_closed ≡ true)
    × (1 ∷ 2 ∷ [] ≡ (run script (close two_items).1).1 ++ (run script (close two_items).1).2.items)
close-run_example = close-run script two_items

drain-close_example : drain 3 (close two_items).1 ≡ (1 ∷ 2 ∷ [], Status.closed)
drain-close_example = drain-close 3 two_items (omega arith)

abbrev arrives : Queue ℕ → Queue ℕ
arrives q = record q { items = q.items ++ 9 ∷ [] }

value_pop_waits : value_pop (arrives ∷ []) synch_queue ≡ some (returns (some 9, synch_queue))
unfolding value_pop synch_queue
value_pop_waits = refl

push_after_close : push 7 (close two_items).1 ≡ throws Status.closed
unfolding push close
push_after_close = refl

never_full : (is_full two_items ≡ false) × (is_empty two_items ≡ false)
unfolding is_full is_empty
never_full = (refl, refl)

busy_run : (nonblocking_pop false two_items).0 ≡ Status.busy
unfolding nonblocking_pop
busy_run = refl

-- A consumer sleeps on an empty queue, and a push wakes it.
abbrev one_asleep : System ℕ
one_asleep = record { queue = synch_queue; threads = sleeping ∷ [] }

one_asleep-Reach : Reach one_asleep
unfolding attempt synch_queue
one_asleep-Reach = later (start (entering ∷ []) refl) (try [] [] synch_queue entering refl)

wait_pop_wakeups_example :
    (length one_asleep.queue.items ≤ tally is_woken one_asleep.threads)
    × (one_asleep.queue.is_closed ≡ false)
wait_pop_wakeups_example = wait_pop_wakeups one_asleep-Reach (omega arith)
