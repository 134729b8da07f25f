-- ===== src/BoundedQueue/Steps.antt =====
-- The class `ring` of evenk/bounded_queue.h in use: any number of threads, each in an operation of its
-- own, and every order of their accesses.
use evenk.Prelude.{ℕ, ◌≤◌, ◌+◌, ◌^◌, ◌≡◌, Bool, true, Option, u32, update, ltb, if◌then◌else◌}
use evenk.BoundedQueue.Slot.{SlotClass}
use evenk.BoundedQueue.Ring.{
  Ring, ok, create, slot_of, set_token, close_enter, close_last, close_store, close_slot,
}
use evenk.BoundedQueue.Moves.{
  Local, idle, finished, thrown, push_load, push_test, push_backoff, push_wait, push_put, push_wake,
  pop_begin, pop_load, pop_test, pop_wait, status_load, pop_status, status_wait, pop_get, pop_wake,
  pop_skip, try_load, try_test, try_take, close_begin, close_taking, close_storing, close_loop,
  push_begin, wait_tail, pop_take, wait_head, wait_status, get_wake, skip, try_check, try_claim,
  put_wake, put_value, get_value,
}
use evenk.Status.{Status}

-- A ring with its threads. `log` is a record for the proofs: the value that each call of
-- `wait_push` brings, by the count that the call takes.
pub record System {ℓ} (A : Type ℓ) : Type ℓ where
  pub ring : Ring A
  pub threads : ℕ → Local A
  pub log : ℕ → A

module _ {ℓ} {A : Type ℓ} (put get : A → Option A) (class : SlotClass) where
  -- `slot.load()`
  abbrev pub load : Ring A → ℕ → ℕ
  load r count = (slot_of r count).token

  -- The part of `slot.wait(t)` that writes. The load at its end is the next access of the thread,
  -- after any time: a thread that the kernel or a condition variable blocks does nothing.
  abbrev pub wait_mark : Ring A → (count t : ℕ) → Ring A
  wait_mark r count t = set_token r count (class.wait (load r count) t)

  abbrev pub close_begin_step : Ring A → Ring A × Local A
  close_begin_step r =
      let (returns, r') = close_enter r in (r', if returns then idle else close_taking)

  abbrev pub close_loop_step : ℕ → Ring A → Ring A × Local A
  close_loop_step i r =
      if ltb i (u32 (r.mask + 1)) then (close_slot class i r, close_loop (i + 1)) else (r, idle)

  -- The next access of a thread, with what it adds to the counters `head_` and `tail_`.
  pub data Move (r : Ring A) : Local A → Ring A × Local A → ℕ → Type ℓ where
    return_status :
        (status : Status) (result : Option A) → Move r (finished status result) (r, idle) 0
    return_thrown : Move r thrown (r, idle) 0
    load_tail_slot :
        (count : ℕ) (value : A) (waiting : Bool)
        → Move r (push_load count value waiting) (r, push_test count value waiting (load r count)) 0
    test_tail :
        (count : ℕ) (value : A) (waiting : Bool) (t : ℕ)
        → Move r (push_test count value waiting t) (r, wait_tail count value waiting t r) 0
    -- `backoff()`, with its result.
    back_off :
        (count : ℕ) (value : A) (reached : Bool)
        → Move r (push_backoff count value) (r, push_load count value reached) 0
    wait_for_tail :
        (count : ℕ) (value : A) (t : ℕ)
        → Move r (push_wait count value t) (wait_mark r count t, push_load count value true) 0
    do_put :
        (count : ℕ) (value junk : A) (t : ℕ)
        → Move r (push_put count value t) (put_value put count value t junk r) 0
    do_put_wake :
        (count : ℕ) (value : A) (t : ℕ) (stored : Bool)
        → Move r (push_wake count value t stored) (put_wake count stored r) 0
    begin_wait_pop : Move r idle (r, pop_begin) 0
    do_take : Move r pop_begin (pop_take r) 1
    load_head_slot : (count : ℕ) → Move r (pop_load count) (r, pop_test count (load r count)) 0
    test_head : (count t : ℕ) → Move r (pop_test count t) (r, wait_head count t r) 0
    wait_for_head :
        (count t : ℕ) → Move r (pop_wait count t) (wait_mark r count t, pop_load count) 0
    test_status : (count t : ℕ) → Move r (pop_status count t) (r, wait_status count t r) 0
    wait_for_status :
        (count t : ℕ) → Move r (status_wait count t) (wait_mark r count t, status_load count t) 0
    load_status :
        (count t : ℕ) → Move r (status_load count t) (r, pop_status count (load r count)) 0
    do_get : (count t : ℕ) (junk : A) → Move r (pop_get count t) (get_value get count t junk r) 0
    do_get_wake :
        (count t : ℕ) (result : Option A)
        → Move r (pop_wake count t result) (get_wake count result r) 0
    do_skip :
        (count t : ℕ) (retries : Bool) → Move r (pop_skip count t retries) (skip count retries r) 0
    begin_try_pop : Move r idle (r, try_load r.head) 0
    load_try_slot : (count : ℕ) → Move r (try_load count) (r, try_test count (load r count)) 0
    test_try : (count t : ℕ) → Move r (try_test count t) (r, try_check count t r) 0
    do_claim : (count t : ℕ) → Move r (try_take count t) (try_claim count t r) 1
    begin_close : Move r idle (r, close_begin) 0
    enter_close : Move r close_begin (close_begin_step r) 0
    take_close : Move r close_taking (close_last r, close_storing) (r.mask + 1)
    store_close : Move r close_storing (close_store r, close_loop 0) 0
    loop_close : (i : ℕ) → Move r (close_loop i) (close_loop_step i r) 0

  pub data Step : System A → System A → ℕ → Type ℓ where
    move :
        (s : System A) (j : ℕ) {l : Local A} {next : Ring A × Local A} {cost : ℕ}
        → s.threads j ≡ l
        → Move s.ring l next cost
        → Step s (record { ring = next.0; threads = update s.threads j next.1; log = s.log }) cost
    begin_push :
        (s : System A) (j : ℕ) (value : A) (waiting : Bool)
        → s.threads j ≡ idle
        → Step s
            (record {
              ring = (push_begin value waiting s.ring).0;
              threads = update s.threads j (push_begin value waiting s.ring).1;
              log = update s.log s.ring.tail value;
            })
            1

  -- What a new ring of `2 ^ k` slots comes to, while no access can take a counter over `n`: each access is
  -- made when what it can add to a counter fits below `n` for each of the two.
  pub data Reach (k n : ℕ) : System A → Type ℓ where
    start :
        (last : ℕ) (default : A) (r : Ring A)
        → create true (2 ^ k) last default ≡ ok r
        → Reach k n (record { ring = r; threads = λ j. idle; log = λ c. default })
    later :
        {s t : System A} {cost : ℕ}
        → Reach k n s
        → Step s t cost
        → s.ring.tail + cost ≤ n
        → s.ring.head + cost ≤ n
        → Reach k n t
