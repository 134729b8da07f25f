-- ===== src/BoundedQueue/Moves.antt =====
-- The operations of the class `ring` of evenk/bounded_queue.h, one access to the shared memory at a
-- time: `wait_push`, `wait_pop`, `try_pop` and `close`, with the helpers that they call.
use evenk.Prelude.{
  ℕ, ◌+◌, Bool, true, false, not, ◌||◌, ◌==◌, bit_or, u32, Option, none, some, if◌then◌else◌,
}
use evenk.Status.{Status, success, empty, closed, Outcome, returns, throws}
use evenk.Status
use evenk.BoundedQueue.Encoding.{ticket, status, is_valid, status_valid, status_invalid}
use evenk.BoundedQueue.Ring.{
  Ring, fetch_add, try_increment, atomic_counter, slot_of, set_token, set_value, is_past_last,
}

-- Where a thread stands, with the variables that are live there. After a loop over a token, the token
-- that ended it is kept for the proofs.
pub data Local {ℓ} (A : Type ℓ) : Type ℓ where
  idle : Local A
  finished : Status → Option A → Local A
  thrown : Local A
  -- `wait_push`; `waiting` is that of `wait_tail`, true from the start with no backoff
  push_load : (count : ℕ) (value : A) (waiting : Bool) → Local A
  push_test : (count : ℕ) (value : A) (waiting : Bool) (t : ℕ) → Local A
  push_backoff : (count : ℕ) (value : A) → Local A
  push_wait : (count : ℕ) (value : A) (t : ℕ) → Local A
  push_put : (count : ℕ) (value : A) (t : ℕ) → Local A
  push_wake : (count : ℕ) (value : A) (t : ℕ) (stored : Bool) → Local A
  -- `wait_pop`
  pop_begin : Local A
  pop_load : (count : ℕ) → Local A
  pop_test : (count t : ℕ) → Local A
  pop_wait : (count t : ℕ) → Local A
  status_load : (count t : ℕ) → Local A
  pop_status : (count t : ℕ) → Local A
  status_wait : (count t : ℕ) → Local A
  pop_get : (count t : ℕ) → Local A
  pop_wake : (count t : ℕ) (result : Option A) → Local A
  pop_skip : (count t : ℕ) (retries : Bool) → Local A
  -- `try_pop`
  try_load : (count : ℕ) → Local A
  try_test : (count t : ℕ) → Local A
  try_take : (count t : ℕ) → Local A
  -- `close`
  close_begin : Local A
  close_taking : Local A
  close_storing : Local A
  close_loop : (i : ℕ) → Local A

-- `push`, once its `wait_push` has returned.
unfoldable pub push_end : Status → Outcome (Unit {0})
push_end result = if Status.is_success result then returns tt else throws result

module _ {ℓ} {A : Type ℓ} where
  -- `wait_push`: `tail_.fetch_add(1)`
  unfoldable pub push_begin : (value : A) (waiting : Bool) → Ring A → Ring A × Local A
  unfolding fetch_add
  push_begin value waiting r =
      let (count, tail') = fetch_add r.tail 1 in
      (record r { tail = tail' }, push_load count value waiting)

  -- The head of the loop of `wait_tail`, with the access to `closed_` and `last_` inside.
  unfoldable pub wait_tail : (count : ℕ) (value : A) (waiting : Bool) (t : ℕ) → Ring A → Local A
  unfolding ticket is_past_last
  wait_tail count value waiting t r =
      if ticket t == ticket count
      then push_put count value t
      else if is_past_last r count
      then finished closed none
      else if waiting
      then push_wait count value t
      else push_backoff count value

  -- `wait_pop`: `head_.fetch_add(1)`
  unfoldable pub pop_take : Ring A → Ring A × Local A
  unfolding fetch_add
  pop_take r =
      let (count, head') = fetch_add r.head 1 in (record r { head = head' }, pop_load count)

  -- The first loop of `wait_head`. With a backoff it waits too, after the call of `backoff`.
  unfoldable pub wait_head : (count t : ℕ) → Ring A → Local A
  unfolding ticket is_past_last
  wait_head count t r =
      if ticket t == ticket count
      then pop_status count t
      else if is_past_last r count
      then finished closed none
      else pop_wait count t

  -- The second loop of `wait_head`, and what `wait_pop` does with its result.
  unfoldable pub wait_status : (count t : ℕ) → Ring A → Local A
  unfolding status is_valid is_past_last
  wait_status count t r =
      if status t == 0
      then if is_past_last r count then finished closed none else status_wait count t
      else if is_valid t
      then pop_get count t
      else pop_skip count t true

  -- `slot.wake(token + mask_ + 1)`
  unfoldable pub wake_next : (count : ℕ) → Ring A → Ring A
  unfolding ticket set_token
  wake_next count r = set_token r count (u32 (ticket count + r.mask + 1))

  -- The end of `get_value`.
  unfoldable pub get_wake : (count : ℕ) (result : Option A) → Ring A → Ring A × Local A
  unfolding wake_next
  get_wake count result r = (
    wake_next count r,
    elim result [ none ↦ thrown | some value ↦ finished success (some value) ],
  )

  -- A slot whose producer threw an exception: `wait_pop` goes on with the next, `try_pop` returns.
  unfoldable pub skip : (count : ℕ) (retries : Bool) → Ring A → Ring A × Local A
  unfolding wake_next
  skip count retries r = (wake_next count r, if retries then pop_begin else finished empty none)

  -- `try_pop`, with the token that it loaded.
  unfoldable pub try_check : (count t : ℕ) → Ring A → Local A
  unfolding ticket status is_past_last
  try_check count t r =
      if not (ticket t == ticket count) || status t == 0
      then finished (if is_past_last r count then closed else empty) none
      else try_take count t

  -- `head_.try_increment(count)`, of the class `atomic_counter`.
  unfoldable pub try_claim : (count t : ℕ) → Ring A → Ring A × Local A
  unfolding try_increment is_valid
  try_claim count t r =
      let (taken, head') = try_increment atomic_counter r.head count in
      (
        record r { head = head' },
        if taken
            then if is_valid t then pop_get count t else pop_skip count t false
            else finished empty none,
      )

  -- The end of `put_value`; the token has a bit pattern that makes `+` and `|` the same.
  unfoldable pub put_wake : (count : ℕ) (stored : Bool) → Ring A → Ring A × Local A
  unfolding ticket set_token
  put_wake count stored r =
      if stored
      then (set_token r count (bit_or (ticket count) status_valid), finished success none)
      else (set_token r count (bit_or (ticket count) status_invalid), thrown)

  -- `put_value` and `get_value` assign a value, which may throw an exception (`none`). An exception
  -- leaves some value `junk` in the slot, and so does a move out of the slot.
  unfoldable pub put_value :
      (put : A → Option A) (count : ℕ) (value : A) (t : ℕ) (junk : A) → Ring A → Ring A × Local A
  unfolding set_value
  put_value put count value t junk r = elim (put value) [
    | none ↦ (set_value r count junk, push_wake count value t false)
    | some x ↦ (set_value r count x, push_wake count value t true)
  ]

  unfoldable pub get_value :
      (get : A → Option A) (count t : ℕ) (junk : A) → Ring A → Ring A × Local A
  unfolding slot_of set_value
  get_value get count t junk r =
      (set_value r count junk, pop_wake count t (get (slot_of r count).value))

  -- `value_pop`, once its `wait_pop` has returned.
  unfoldable pub value_pop_end : Status → Option A → Outcome (Option A)
  value_pop_end result value = if Status.is_success result then returns value else throws result
