-- ===== src/Conqueue/Ends.antt =====
-- The two ends of a queue in evenk/conqueue.h, `generic_queue_back` for producers and
-- `generic_queue_front` for consumers. Their iterators do not compile, and are left out.
use evenk.Prelude.{
  ℕ, zero, suc, ◌<◌, ◌≡◌, Bool, true, false, Option, none, some, List, [], ◌∷◌, ◌++◌, length, arith,
  refl, if◌then◌else◌, append_assoc, append-nil, sym, ◌∙◌, ap,
}
use evenk.Status.{Status, Outcome}
use evenk.Status
use evenk.Conqueue.Ops.{QueueOps, QueueLaws, queue_wrapper}

pub record QueueBack {ℓ} (S A : Type ℓ) : Type ℓ where
  pub close : S → S
  pub is_closed : S → Bool
  pub is_empty : S → Bool
  pub is_full : S → Bool
  pub push : A → S → Outcome S
  pub wait_push : A → S → Status × S
  pub try_push : A → S → Status × S
  pub nonblocking_push : Bool → A → S → Status × S

pub record QueueFront {ℓ} (S A : Type ℓ) : Type ℓ where
  pub close : S → S
  pub is_closed : S → Bool
  pub is_empty : S → Bool
  pub is_full : S → Bool
  pub value_pop : S → Option (Outcome (Option A × S))
  pub wait_pop : S → Option (Status × Option A × S)
  pub try_pop : S → Status × Option A × S
  pub nonblocking_pop : Bool → S → Status × Option A × S

module _ {ℓ} {S A : Type ℓ} where
  unfoldable pub generic_queue_back : QueueOps S A → QueueBack S A
  generic_queue_back queue = record {
    close = λ s. queue.close s;
    is_closed = λ s. queue.is_closed s;
    is_empty = λ s. queue.is_empty s;
    is_full = λ s. queue.is_full s;
    push = λ value s. queue.push value s;
    wait_push = λ value s. queue.wait_push value s;
    try_push = λ value s. queue.try_push value s;
    nonblocking_push = λ acquired value s. queue.nonblocking_push acquired value s;
  }

  unfoldable pub generic_queue_front : QueueOps S A → QueueFront S A
  generic_queue_front queue = record {
    close = λ s. queue.close s;
    is_closed = λ s. queue.is_closed s;
    is_empty = λ s. queue.is_empty s;
    is_full = λ s. queue.is_full s;
    value_pop = λ s. queue.value_pop s;
    wait_pop = λ s. queue.wait_pop s;
    try_pop = λ s. queue.try_pop s;
    nonblocking_pop = λ acquired s. queue.nonblocking_pop acquired s;
  }

  -- A producer that pushes until a push fails, and a consumer that pops until a pop fails, for so many
  -- rounds: nothing if it waits for ever or runs out of rounds.
  unfoldable pub push_all : QueueBack S A → List A → S → Status × S
  push_all back [] s = (Status.success, s)
  push_all back (x ∷ xs) s =
      let (status, s') = back.wait_push x s in
      let rest = push_all back xs s' in if Status.is_success status then rest else (status, s')

  unfoldable pub pop_all : QueueFront S A → (rounds : ℕ) → S → Option (List A × Status)
  pop_all front zero s = none
  pop_all front (suc n) s = elim (front.wait_pop s) [
    | none ↦ none
    | some (status, none, s') ↦ some ([], status)
    | some (status, some x, s') ↦ elim (pop_all front n s') [
      | none ↦ none
      | some (xs, last) ↦ some (x ∷ xs, last)
    ]
  ]

module _ {ℓ} {S A : Type ℓ} (queue : QueueOps S A) (laws : QueueLaws queue) where
  abbrev back : QueueBack S A
  back = generic_queue_back (queue_wrapper queue)

  abbrev front : QueueFront S A
  front = generic_queue_front (queue_wrapper queue)

  push_all-contents :
      (xs : List A) (s : S)
      → queue.is_closed s ≡ false
      → (t : S) × (push_all back xs s ≡ (Status.success, t))
        × (laws.contents t ≡ laws.contents s ++ xs)
        × (queue.is_closed t ≡ false)
  unfolding push_all generic_queue_back queue_wrapper
  push_all-contents [] s is_open = (s, refl, sym (append-nil (laws.contents s)), is_open)
  push_all-contents (x ∷ xs) s is_open =
      let s' = (queue.wait_push x s).1 in
      let (t, pushed, kept, still_open) = push_all-contents xs s' (laws.push_open x s is_open) in
      (
        t,
        rw (laws.push_status x s is_open) pushed,
        kept
            ∙ ap (λ ys. ys ++ xs) (laws.push_contents x s is_open)
            ∙ append_assoc (laws.contents s) (x ∷ []) xs,
        still_open,
      )

  pop_all-contents :
      (n : ℕ) (xs : List A) (s : S)
      → queue.is_closed s ≡ true
      → laws.contents s ≡ xs
      → length xs < n
      → pop_all front n s ≡ some (xs, Status.closed)
  unfolding pop_all generic_queue_front queue_wrapper
  pop_all-contents zero xs s is_closed held enough = absurd (omega arith)
  pop_all-contents (suc n) [] s is_closed held enough =
      let (t, popped) = laws.pop_end s is_closed held in rw (pop_all, popped) refl
  pop_all-contents (suc n) (x ∷ xs) s is_closed held enough =
      let (t, popped, left, still_closed) = laws.pop_item x xs s is_closed held in
      rw (pop_all, popped) (rw (pop_all-contents n xs t still_closed left (omega arith)) refl)

  -- All that a producer pushes at the back of a wrapped open queue, and was in it before, comes out at the
  -- front in that order, once the producer has closed the queue and if nobody else uses it, and then the
  -- consumer is told that the queue is closed: every push succeeds, and so many rounds as there are values,
  -- and one more, are enough.
  pub push_all-pop_all :
      (n : ℕ) (xs : List A) (s : S)
      → queue.is_closed s ≡ false
      → length (laws.contents s ++ xs) < n
      → (t : S) × (push_all back xs s ≡ (Status.success, t))
        × (pop_all front n (back.close t) ≡ some (laws.contents s ++ xs, Status.closed))
  unfolding generic_queue_back queue_wrapper
  push_all-pop_all n xs s is_open enough =
      let (t, pushed, kept, still_open) = push_all-contents xs s is_open in
      (
        t,
        pushed,
        pop_all-contents n (laws.contents s ++ xs) (queue.close t) (laws.close_closed t)
            (laws.close_contents t ∙ kept) enough,
      )
