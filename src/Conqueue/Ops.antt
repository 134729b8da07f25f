-- ===== src/Conqueue/Ops.antt =====
-- The interface of a queue in evenk/conqueue.h, `queue_base`, with what its clients rely on, and the
-- class `queue_wrapper`, which has it too.
use evenk.Prelude.{Bool, true, false, ◌≡◌, Option, none, some, List, [], ◌∷◌, ◌++◌}
use evenk.Status.{Status, Outcome}

-- The operations, with the state of the queue as argument and result. Those that pop return nothing if
-- they wait for ever. The option next to a status is what the call assigns to its argument.
pub record QueueOps {ℓ} (S A : Type ℓ) : Type ℓ where
  pub close : S → S
  pub is_closed : S → Bool
  pub is_empty : S → Bool
  pub is_full : S → Bool
  pub push : A → S → Outcome S
  pub value_pop : S → Option (Outcome (Option A × S))
  pub wait_push : A → S → Status × S
  pub wait_pop : S → Option (Status × Option A × S)
  pub try_push : A → S → Status × S
  pub try_pop : S → Status × Option A × S
  pub nonblocking_push : Bool → A → S → Status × S
  pub nonblocking_pop : Bool → S → Status × Option A × S

-- A queue that nobody else uses keeps its values in order, and once it is closed gives them out and
-- then says so.
pub record QueueLaws {ℓ} {S A : Type ℓ} (queue : QueueOps S A) : Type ℓ where
  pub contents : S → List A
  pub push_status :
      (v : A) (s : S) → queue.is_closed s ≡ false → (queue.wait_push v s).0 ≡ Status.success
  pub push_contents :
      (v : A) (s : S)
      → queue.is_closed s ≡ false
      → contents (queue.wait_push v s).1 ≡ contents s ++ v ∷ []
  pub push_open :
      (v : A) (s : S) → queue.is_closed s ≡ false → queue.is_closed (queue.wait_push v s).1 ≡ false
  pub push_closed :
      (v : A) (s : S) → queue.is_closed s ≡ true → queue.wait_push v s ≡ (Status.closed, s)
  pub close_closed : (s : S) → queue.is_closed (queue.close s) ≡ true
  pub close_contents : (s : S) → contents (queue.close s) ≡ contents s
  pub pop_item :
      (x : A) (xs : List A) (s : S)
      → queue.is_closed s ≡ true
      → contents s ≡ x ∷ xs
      → (t : S) × (queue.wait_pop s ≡ some (Status.success, some x, t))
        × (contents t ≡ xs)
        × (queue.is_closed t ≡ true)
  pub pop_end :
      (s : S)
      → queue.is_closed s ≡ true
      → contents s ≡ []
      → (t : S) × (queue.wait_pop s ≡ some (Status.closed, none, t))

-- The wrapper forwards every call to the queue that it points to.
unfoldable pub queue_wrapper {ℓ} : {S A : Type ℓ} → QueueOps S A → QueueOps S A
queue_wrapper queue = record {
  close = λ s. queue.close s;
  is_closed = λ s. queue.is_closed s;
  is_empty = λ s. queue.is_empty s;
  is_full = λ s. queue.is_full s;
  push = λ value s. queue.push value s;
  value_pop = λ s. queue.value_pop s;
  wait_push = λ value s. queue.wait_push value s;
  wait_pop = λ s. queue.wait_pop s;
  try_push = λ value s. queue.try_push value s;
  try_pop = λ s. queue.try_pop s;
  nonblocking_push = λ acquired value s. queue.nonblocking_push acquired value s;
  nonblocking_pop = λ acquired s. queue.nonblocking_pop acquired s;
}
