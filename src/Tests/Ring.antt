-- ===== src/Tests/Ring.antt =====
-- evenk/bounded_queue.h: a ring of 16 slots, one producer and one consumer.
use evenk.Prelude.{
  ℕ, ◌+◌, ◌^◌, ◌<◌, ◌≡◌, ◌≢◌, none, some, refl, arith, bit_and, true, update, List, [], ◌∷◌, ◌≤◌,
  ◌⊎◌, inr,
}
use evenk.Status.{Status}
use evenk.BoundedQueue.Encoding.{open_state, ticket_mask, index, ticket, is_valid, status}
use evenk.BoundedQueue.Slot.{spin}
use evenk.BoundedQueue.Ring.{
  Ring, create, fetch_add, slot_of, set_token, set_value, is_empty, try_increment, atomic_counter,
}
use evenk.BoundedQueue.Moves.{
  Local, idle, finished, push_load, push_test, push_put, push_wake, pop_begin, pop_load, pop_test,
  pop_status, pop_get, pop_wake, push_begin, wait_tail, pop_take, wait_head, wait_status, put_value,
  put_wake, get_value,
}
use evenk.BoundedQueue.Steps.{
  System, Reach, start, later, move, begin_push, load_tail_slot, test_tail, do_put, do_put_wake,
  begin_wait_pop, do_take, load_head_slot, test_head, test_status, do_get,
}
use evenk.BoundedQueue.Delivery.{writes, ring_delivery, ring_exclusion, ring_capacity}
use evenk.BoundedQueue.TicketReach.{StaysOpen}
use evenk.BoundedQueue.Turns.{Turn, ring_turns}
use evenk.BoundedQueue.Roles.{push_ticket, pop_ticket}
use evenk.BoundedQueue.Invariant.{role}
use evenk.BoundedQueue.TryPush.{try_push, try_push_twice, put_all}

abbrev sixteen_slots : Ring ℕ
sixteen_slots = record {
  slots = λ i. record { token = bit_and i ticket_mask; value = 0 };
  mask = 15;
  closed = open_state;
  last = 0;
  head = 0;
  tail = 0;
}

abbrev begun : System ℕ
begun = record { ring = sixteen_slots; threads = λ j. idle; log = λ c. 0 }

begun-Reach : Reach some some spin 4 2 begun
unfolding create
begun-Reach = start 0 0 sixteen_slots refl

-- The places of the threads, the last one first.
abbrev places : List (ℕ × Local ℕ) → ℕ → Local ℕ
places [] = λ j. idle
places ((j, l) ∷ moves) = update (places moves) j l

abbrev to_put : List (ℕ × Local ℕ)
to_put = (0, push_put 0 7 0) ∷ (0, push_test 0 7 true 0) ∷ (0, push_load 0 7 true) ∷ []

-- The thread 0 has begun to push 7, and is about to put it into the slot 0.
abbrev pushing : System ℕ
pushing = record {
  ring = record sixteen_slots { tail = 1 };
  threads = places to_put;
  log = update (λ c. 0) 0 7;
}

pushing-Reach : Reach some some spin 4 2 pushing
unfolding push_begin fetch_add slot_of index wait_tail ticket
pushing-Reach =
    let a = later begun-Reach (begin_push begun 0 7 true refl) (omega arith) (omega arith) in
    let b = later a (move _ 0 refl (load_tail_slot 0 7 true)) (omega arith) (omega arith) in
    later b (move _ 0 refl (test_tail 0 7 true 0)) (omega arith) (omega arith)

abbrev to_get : List (ℕ × Local ℕ)
to_get =
    (1, pop_get 0 1)
    ∷ (1, pop_status 0 1)
    ∷ (1, pop_test 0 1)
    ∷ (1, pop_load 0)
    ∷ (1, pop_begin)
    ∷ (0, finished Status.success none)
    ∷ (0, push_wake 0 7 0 true)
    ∷ to_put

-- The thread 0 has put it there, and the thread 1 is about to take it.
abbrev popping : System ℕ
popping = record {
  ring = record (set_token (set_value (record sixteen_slots { tail = 1 }) 0 7) 0 1) { head = 1 };
  threads = places to_get;
  log = update (λ c. 0) 0 7;
}

popping-Reach : Reach some some spin 4 2 popping
unfolding fetch_add slot_of index put_value put_wake set_token set_value ticket pop_take wait_head
    wait_status status is_valid
popping-Reach =
    let a = later pushing-Reach (move _ 0 refl (do_put 0 7 9 0)) (omega arith) (omega arith) in
    let b = later a (move _ 0 refl (do_put_wake 0 7 0 true)) (omega arith) (omega arith) in
    let c = later b (move _ 1 refl begin_wait_pop) (omega arith) (omega arith) in
    let d = later c (move _ 1 refl do_take) (omega arith) (omega arith) in
    let e = later d (move _ 1 refl (load_head_slot 0)) (omega arith) (omega arith) in
    let f = later e (move _ 1 refl (test_head 0 1)) (omega arith) (omega arith) in
    later f (move _ 1 refl (test_status 0 1)) (omega arith) (omega arith)

-- The thread 1 has taken it and left 9 behind.
abbrev popped : System ℕ
popped = record popping {
  ring = set_value popping.ring 0 9;
  threads = places ((1, pop_wake 0 1 (some 7)) ∷ to_get);
}

popped-Reach : Reach some some spin 4 2 popped
unfolding get_value slot_of index set_token set_value
popped-Reach = later popping-Reach (move _ 1 refl (do_get 0 1 9)) (omega arith) (omega arith)

ring_delivery_example : (0 < 1) × ((y : ℕ) × (some 7 ≡ some y) × (some 7 ≡ some y))
unfolding set_value
ring_delivery_example =
    ring_delivery some some spin 4 (omega arith) popped-Reach (omega arith) 1 0 1 (some 7) refl

ring_capacity_example : (0 < 1) × (0 < 0 + 2 ^ 4)
ring_capacity_example =
    ring_capacity some some spin 4 (omega arith) pushing-Reach (omega arith) 0 0 (writes 0 7 0)

-- The thread 1 has taken the ticket 0 of a pop before the thread 0 puts its value.
abbrev waiting : System ℕ
waiting = record {
  ring = record sixteen_slots { tail = 1; head = 1 };
  threads = places ((1, pop_load 0) ∷ (1, pop_begin) ∷ to_put);
  log = update (λ c. 0) 0 7;
}

waiting-reached :
    (reach : Reach some some spin 4 2 waiting) × StaysOpen some some spin 4 (omega arith) reach
unfolding StaysOpen create push_begin fetch_add slot_of index wait_tail ticket pop_take
waiting-reached =
    let start' : Reach some some spin 4 2 begun = start 0 0 sixteen_slots refl in
    let a = later start' (begin_push begun 0 7 true refl) (omega arith) (omega arith) in
    let b = later a (move _ 0 refl (load_tail_slot 0 7 true)) (omega arith) (omega arith) in
    let c = later b (move _ 0 refl (test_tail 0 7 true 0)) (omega arith) (omega arith) in
    let d = later c (move _ 1 refl begin_wait_pop) (omega arith) (omega arith) in
    (
      later d (move _ 1 refl do_take) (omega arith) (omega arith),
      ((((tt, refl), refl), refl), refl),
    )

ring_turns_example :
    ((pop_ticket (role (waiting.threads 1)) ≡ some 0) × (1 ≤ 0))
    ⊎ ((push_ticket (role (waiting.threads 1)) ≡ some 0) × (1 + 2 ^ 4 ≤ 0))
    ⊎ Turn 4 waiting 0
ring_turns_example =
    ring_turns some some spin 4 (omega arith) waiting-reached.0 1 0 (omega arith) waiting-reached.1
      (inr refl)

-- The thread 1 pushes too, and is about to put 8 into the slot 1.
abbrev both_push : System ℕ
both_push = record {
  ring = record sixteen_slots { tail = 2 };
  threads =
      places ((1, push_put 1 8 0) ∷ (1, push_test 1 8 true 0) ∷ (1, push_load 1 8 true) ∷ to_put);
  log = update (update (λ c. 0) 0 7) 1 8;
}

both_push-Reach : Reach some some spin 4 2 both_push
unfolding push_begin fetch_add slot_of index wait_tail ticket
both_push-Reach =
    let a = later pushing-Reach (begin_push pushing 1 8 true refl) (omega arith) (omega arith) in
    let b = later a (move _ 1 refl (load_tail_slot 1 8 true)) (omega arith) (omega arith) in
    later b (move _ 1 refl (test_tail 1 8 true 0)) (omega arith) (omega arith)

ring_exclusion_example : index 15 0 ≢ index 15 1
ring_exclusion_example =
    ring_exclusion some some spin 4 (omega arith) both_push-Reach (omega arith) 0 1 0 1
      (omega arith) (writes 0 7 0) (writes 1 8 0)

try_push-new : (try_push some atomic_counter 5 0 sixteen_slots).0 ≡ some Status.success
unfolding try_push slot_of index ticket try_increment put_all
try_push-new = refl

try_push_twice_example :
    ((try_push some atomic_counter 5 0 sixteen_slots).1.tail ≡ 0)
    × (is_empty (try_push some atomic_counter 5 0 sixteen_slots).1 ≡ true)
    × ((try_push some atomic_counter 6 0 (try_push some atomic_counter 5 0 sixteen_slots).1).0
        ≡ some Status.full)
try_push_twice_example = try_push_twice some 5 0 6 0 sixteen_slots (omega arith) try_push-new
