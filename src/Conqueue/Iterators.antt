-- ===== src/Conqueue/Iterators.antt =====
-- The iterators of evenk/conqueue.h over any queue.
use evenk.Prelude.{ℕ, suc, Bool, true, false, not, Option, none, some, List, [], ◌∷◌, if◌then◌else◌}
use evenk.Status.{Status}
use evenk.Status
use evenk.Conqueue.Ops.{QueueOps}

-- A call through an iterator: it waits for ever, it goes through the null pointer of an iterator that
-- has come to its end, it throws a status, or it returns.
pub data Call {ℓ} (A : Type ℓ) : Type ℓ where
  waits : Call A
  null_queue : Call A
  throws : Status → A → Call A
  returns : A → Call A

-- `attached`: whether `queue_` is not null.
pub record InputIterator {ℓ} (A : Type ℓ) : Type ℓ where
  pub attached : Bool
  pub value : A

pub record OutputIterator : Type 0 where
  pub attached : Bool

module _ {ℓ} {S A : Type ℓ} (queue : QueueOps S A) where
  abbrev after_pop : InputIterator A → Option (Status × Option A × S) → Call (InputIterator A × S)
  after_pop it none = waits
  after_pop it (some (status, popped, s)) = returns (
    record {
      attached = if Status.is_closed status then false else it.attached;
      value = elim popped [ none ↦ it.value | some x ↦ x ];
    },
    s,
  )

  -- `pop_value`, which is also `operator++`.
  unfoldable pub pop_value : InputIterator A → S → Call (InputIterator A × S)
  pop_value it s = if it.attached then after_pop it (queue.wait_pop s) else null_queue

  -- The constructor from a queue, with the default value of the type.
  unfoldable pub input_begin : A → S → Call (InputIterator A × S)
  unfolding pop_value
  input_begin default s = pop_value (record { attached = true; value = default }) s

  -- `operator==` of an input iterator with the end.
  unfoldable pub is_end : InputIterator A → Bool
  is_end it = not it.attached

  -- Assignment through an output iterator.
  unfoldable pub assign : A → OutputIterator → S → Call (OutputIterator × S)
  assign value it s =
      let (status, s') = queue.wait_push value s in
      if not it.attached
      then null_queue
      else if Status.is_success status
      then returns (it, s')
      else throws status (record { attached = false }, s')

  -- The values from an iterator to the end, within so many rounds: `none` for a loop that does not end
  -- in them, or does not end well.
  unfoldable pub collect : ℕ → Call (InputIterator A × S) → Option (List A)
  unfolding is_end pop_value
  collect (suc n) (returns (it, s)) =
      let more = collect n (pop_value it s) in
      if is_end it then some [] else elim more [ none ↦ none | some xs ↦ some (it.value ∷ xs) ]
  collect _ _ = none

  -- A list assigned through an iterator, one value after the other.
  unfoldable pub assign_all : List A → OutputIterator → S → Call (OutputIterator × S)
  unfolding assign
  assign_all [] it s = returns (it, s)
  assign_all (x ∷ xs) it s = elim (assign x it s) [
    | waits ↦ waits
    | null_queue ↦ null_queue
    | throws status after ↦ throws status after
    | returns (it', s') ↦ assign_all xs it' s'
  ]
