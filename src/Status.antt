-- ===== src/Status.antt =====
-- The results of queue operations: `queue_op_status` of evenk/conqueue.h, and the calls that turn a
-- status other than success into an exception.

use evenk.Prelude.{Bool, true, false}

pub data Status : Type 0 where
  success empty full closed busy : Status

pub Status-discrete : Discrete Status
Status-discrete = hlevel

-- The comparisons `status == queue_op_status::…` that the callers make.
abbrev pub is_success : Status → Bool
is_success success = true
is_success _ = false

abbrev pub is_empty : Status → Bool
is_empty empty = true
is_empty _ = false

abbrev pub is_closed : Status → Bool
is_closed closed = true
is_closed _ = false

-- A call that returns a value or throws a status.
pub data Outcome {ℓ} (A : Type ℓ) : Type ℓ where
  returns : A → Outcome A
  throws : Status → Outcome A
