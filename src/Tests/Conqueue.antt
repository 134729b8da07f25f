-- ===== src/Tests/Conqueue.antt =====
-- The iterators of evenk/conqueue.h over a `synch_queue`.
use evenk.Prelude.{ℕ, ◌≡◌, refl, true, false, some, [], ◌∷◌}
use evenk.Status.{Status}
use evenk.SynchQueue.{Queue, wait_push, try_push, locked_push, wait_pop, locked_pop}
use evenk.Conqueue.Ops.{queue_wrapper}
use evenk.Conqueue.Ends.{generic_queue_back, generic_queue_front, push_all, pop_all}
use evenk.Conqueue.Synch.{synch}

abbrev one_item : Queue ℕ
one_item = record { is_closed = false; items = 7 ∷ [] }

abbrev shut_queue : Queue ℕ
shut_queue = record { is_closed = true; items = 7 ∷ [] }

-- A wrapped queue, by its ends.
pushed :
    push_all (generic_queue_back (queue_wrapper synch)) (8 ∷ []) one_item
    ≡ (Status.success, record { is_closed = false; items = 7 ∷ 8 ∷ [] })
unfolding push_all generic_queue_back queue_wrapper wait_push try_push locked_push
pushed = refl

popped :
    pop_all (generic_queue_front (queue_wrapper synch)) 2 shut_queue ≡ some (7 ∷ [], Status.closed)
unfolding pop_all generic_queue_front queue_wrapper wait_pop locked_pop
popped = refl
