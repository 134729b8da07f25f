-- ===== src/ThreadPool/Defs.antt =====
-- The classes `thread_pool_base` and `thread_pool` of evenk/thread_pool.h, with `synch_queue` as the
-- queue. A task is a value of any type, with a test that says for which tasks its move assignment
-- returns: that of evenk/task.h returns for none. A call of a task that throws, which ends the program,
-- is left out.
use evenk.Prelude.{
  ℕ, zero, suc, Bool, true, false, not, ◌==◌, bit_and, bit_or, Option, none, some, List, [], ◌∷◌,
  if◌then◌else◌, u8,
}
use evenk.Status.{Status, Outcome}
use evenk.Status
use evenk.SynchQueue.{Queue, wait_pop, push, close}

abbrev pub stop_flag : ℕ
stop_flag = 1

abbrev pub wait_flag : ℕ
wait_flag = 2

-- Where the thread of a worker stands in `work`. `running`: in the call of the task that it popped.
-- `crashed`: in the `wait_pop`, where the move assignment of the task has called a null pointer; that
-- ends the program, and what the model lets other threads do after it is more than they can.
pub data Worker {ℓ} (A : Type ℓ) : Type ℓ where
  testing : Worker A
  popping : Worker A
  running : Option A → Worker A
  done : Worker A
  crashed : Worker A

-- Where a thread that calls `stop` and `wait` stands: `shutting` between the `fetch_or` of `close`
-- that finds no flag and `shutdown`, with whether the call is a `wait`; `joining` before the joins.
pub data Caller : Type 0 where
  outside : Caller
  shutting : (waits : Bool) → Caller
  joining : Caller
  joined : Caller

unfoldable pub is_stopped : (flags : ℕ) → Bool
is_stopped flags = not (bit_and flags stop_flag == 0)

-- `close(flag)`, its `fetch_or`: whether it is to call `shutdown`, and the new flags.
unfoldable pub set_flag : (flag flags : ℕ) → Bool × ℕ
set_flag flag flags = (flags == 0, u8 (bit_or flags flag))

-- `stop` and `wait`, up to the end of the `fetch_or`.
unfoldable pub stop : (flags : ℕ) → Caller × ℕ
unfolding set_flag
stop flags =
    let (first, flags') = set_flag stop_flag flags in
    (if first then shutting false else outside, flags')

unfoldable pub wait : (flags : ℕ) → Caller × ℕ
unfolding set_flag
wait flags =
    let (first, flags') = set_flag wait_flag flags in
    (if first then shutting true else joining, flags')

module _ {ℓ} {A : Type ℓ} where
  -- `thread_pool::shutdown`
  unfoldable pub shutdown : Queue A → Queue A
  unfolding close
  shutdown q = (close q).1

  -- `submit`: the queue afterwards, or the status that is thrown.
  unfoldable pub submit : A → Queue A → Outcome (Queue A)
  unfolding push
  submit task q = elim (push task q) [
    | Outcome.returns (notice, q') ↦ Outcome.returns q'
    | Outcome.throws status ↦ Outcome.throws status
  ]

  -- `work`: the test of the loop.
  unfoldable pub test : (flags : ℕ) → Worker A
  unfolding is_stopped
  test flags = if is_stopped flags then done else popping

  -- `work`: what follows the `wait_pop`.
  unfoldable pub after_pop : Status → Option A → Worker A
  after_pop status task =
      if Status.is_success status
      then running task
      else if Status.is_closed status
      then done
      else testing

  -- `work`: the `wait_pop`, if it returns at this state of the queue, or crashes there: in the move
  -- assignment of the task at the front, before that is taken off the queue.
  unfoldable pub pop : (assigns : A → Bool) → Queue A → Option (Worker A × Option A × Queue A)
  unfolding wait_pop after_pop
  pop assigns q = elim (wait_pop [] q) [
    | none ↦ none
    | some (status, none, q') ↦ some (after_pop status none, none, q')
    | some (status, some task, q') ↦
        if assigns task
        then some (after_pop status (some task), some task, q')
        else some (crashed, none, q)
  ]

  abbrev pub is_done : Worker A → Bool
  is_done done = true
  is_done _ = false

  -- The joins of `wait` return when every worker is done.
  abbrev pub all_done : List (Worker A) → Bool
  all_done [] = true
  all_done (w ∷ ws) = if is_done w then all_done ws else false

  -- `activate`, with the threads that the pool has: `none` for `std::logic_error`.
  unfoldable pub activate : (size : ℕ) → List (Worker A) → Option (List (Worker A))
  activate size (w ∷ ws) = none
  activate zero [] = some []
  activate (suc n) [] = elim (activate n []) [ none ↦ none | some ws ↦ some (testing ∷ ws) ]

-- Whether a worker comes to its end with no more use of the queue: once the stop flag is set, each does
-- that is not in a `wait_pop`.
abbrev pub leaves {ℓ} : {A : Type ℓ} → (stopped : Bool) → Worker A → Bool
leaves stopped testing = stopped
leaves stopped popping = false
leaves stopped (running task) = stopped
leaves stopped done = true
leaves stopped crashed = false

abbrev pub all_leave {ℓ} : {A : Type ℓ} → (stopped : Bool) → List (Worker A) → Bool
all_leave stopped [] = true
all_leave stopped (w ∷ ws) = if leaves stopped w then all_leave stopped ws else false

-- The destructor of `thread_pool`. It destroys the queue first; that of `thread_pool_base` follows,
-- where `shutdown` is a pure virtual function, and where `stop` sets its flag. `queue_in_use`: a worker may
-- still use the queue.
pub data Destroyed : Type 0 where
  destroyed pure_virtual_call queue_in_use : Destroyed

unfoldable pub destroy {ℓ} : {A : Type ℓ} → (flags : ℕ) → List (Worker A) → Destroyed
unfolding set_flag is_stopped
destroy flags workers =
    if (set_flag stop_flag flags).0
    then pure_virtual_call
    else if all_leave (is_stopped flags) workers
    then destroyed
    else queue_in_use
