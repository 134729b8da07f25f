-- ===== src/Conqueue/Synch.antt =====
-- `synch_queue` as a queue of evenk/conqueue.h, used by one thread.
use evenk.Prelude.{[], refl, arith}
use evenk.Status.{Outcome, returns, throws}
use evenk.SynchQueue.{
  Queue, close, is_empty, is_full, wait_push, wait_pop, try_push, try_pop, nonblocking_push,
  nonblocking_pop, push, value_pop, locked_push, locked_pop,
}
use evenk.Conqueue.Ops.{QueueOps, QueueLaws}

module _ {ℓ} {A : Type ℓ} where
  abbrev without_notice {ℓ'} : {N : Type ℓ'} → Outcome (N × Queue A) → Outcome (Queue A)
  without_notice (returns (notice, q)) = returns q
  without_notice (throws status) = throws status

  abbrev pub synch : QueueOps (Queue A) A
  synch = record {
    close = λ q. (close q).1;
    is_closed = λ q. q.is_closed;
    is_empty = is_empty;
    is_full = is_full;
    push = λ value q. without_notice (push value q);
    value_pop = value_pop [];
    wait_push = λ value q. ((wait_push value q).0, (wait_push value q).2);
    wait_pop = wait_pop [];
    try_push = λ value q. ((try_push value q).0, (try_push value q).2);
    try_pop = try_pop;
    nonblocking_push = λ acquired value q.
        ((nonblocking_push acquired value q).0, (nonblocking_push acquired value q).2);
    nonblocking_pop = nonblocking_pop;
  }

  unfoldable pub synch_laws : QueueLaws synch
  unfolding close wait_push wait_pop try_push locked_push locked_pop
  synch_laws = record {
    contents = λ q. q.items;
    push_status = λ v q e. ground arith;
    push_contents = λ v q e. ground arith;
    push_open = λ v q e. ground arith;
    push_closed = λ v q e. ground arith;
    close_closed = λ q. refl;
    close_contents = λ q. refl;
    pop_item = λ x xs q c e. (record q { items = xs }, ground arith, refl, c);
    pop_end = λ q c e. (q, ground arith);
  }
