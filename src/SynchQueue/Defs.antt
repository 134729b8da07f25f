-- ===== src/SynchQueue/Defs.antt =====
-- The class `synch_queue` of evenk/synch_queue.h. Each operation holds the lock from its first
-- access to its last, but for the wait inside `wait_pop`, so an operation is one function.
use evenk.Prelude.{Bool, true, false, Option, none, some, List, [], ◌∷◌, ◌++◌, if◌then◌else◌}
use evenk.Status.{Status, success, empty, closed, busy, Outcome, returns, throws}
use evenk.Status

-- The members `closed_` and `queue_`, front first.
pub record Queue {ℓ} (A : Type ℓ) : Type ℓ where
  pub is_closed : Bool
  pub items : List A

-- What an operation does to the condition variable `cond_`.
pub data Notice : Type 0 where
  silent notify_one notify_all : Notice

module _ {ℓ} {A : Type ℓ} where
  unfoldable pub synch_queue : Queue A
  synch_queue = record { is_closed = false; items = [] }

  -- The new queue, and what is left of the other.
  unfoldable pub move_construct : Queue A → Queue A × Queue A
  move_construct other =
      (record { is_closed = other.is_closed; items = other.items }, record other { items = [] })

  unfoldable pub close : Queue A → Notice × Queue A
  close q = (notify_all, record q { is_closed = true })

  unfoldable pub is_empty : Queue A → Bool
  is_empty q = elim q.items [ [] ↦ true | _ ∷ _ ↦ false ]

  unfoldable pub is_full : Queue A → Bool
  is_full q = false

  unfoldable pub locked_push : A → Queue A → Status × Notice × Queue A
  locked_push value q =
      if q.is_closed
      then (closed, silent, q)
      else (success, notify_one, record q { items = q.items ++ value ∷ [] })

  -- The option is what the call assigns to its argument `value`.
  abbrev pub pop_front : List A → Queue A → Status × Option A × Queue A
  pop_front [] q = (if q.is_closed then closed else empty, none, q)
  pop_front (x ∷ xs) q = (success, some x, record q { items = xs })

  unfoldable pub locked_pop : Queue A → Status × Option A × Queue A
  locked_pop q = pop_front q.items q

  unfoldable pub try_push : A → Queue A → Status × Notice × Queue A
  unfolding locked_push
  try_push value q = locked_push value q

  unfoldable pub wait_push : A → Queue A → Status × Notice × Queue A
  unfolding try_push
  wait_push value q = try_push value q

  unfoldable pub try_pop : Queue A → Status × Option A × Queue A
  unfolding locked_pop
  try_pop q = locked_pop q

  -- `acquired`: whether `std::try_to_lock` got the lock.
  unfoldable pub nonblocking_push : Bool → A → Queue A → Status × Notice × Queue A
  unfolding locked_push
  nonblocking_push acquired value q = if acquired then locked_push value q else (busy, silent, q)

  unfoldable pub nonblocking_pop : Bool → Queue A → Status × Option A × Queue A
  unfolding locked_pop
  nonblocking_pop acquired q = if acquired then locked_pop q else (busy, none, q)

  -- The loop of `wait_pop`. Each `cond_.wait` releases the lock: `others` lists what the other
  -- threads make of the queue in each wait. `none`: the call still waits when the list ends.
  unfoldable pub wait_pop :
      List (Queue A → Queue A) → Queue A → Option (Status × Option A × Queue A)
  unfolding locked_pop
  wait_pop [] q =
      let (status, value, q') = locked_pop q in
      if Status.is_empty status then none else some (status, value, q')
  wait_pop (during ∷ others) q =
      let (status, value, q') = locked_pop q in
      let again = wait_pop others (during q') in
      if Status.is_empty status then again else some (status, value, q')

  unfoldable pub push : A → Queue A → Outcome (Notice × Queue A)
  unfolding wait_push
  push value q =
      let (status, notice, q') = wait_push value q in
      if Status.is_success status then returns (notice, q') else throws status

  -- `value_pop`, with the result of its `wait_pop`.
  abbrev pub or_throw : Status × Option A × Queue A → Outcome (Option A × Queue A)
  or_throw (status, value, q) =
      if Status.is_success status then returns (value, q) else throws status

  unfoldable pub value_pop :
      List (Queue A → Queue A) → Queue A → Option (Outcome (Option A × Queue A))
  unfolding wait_pop
  value_pop others q = elim (wait_pop others q) [ none ↦ none | some reply ↦ some (or_throw reply) ]
