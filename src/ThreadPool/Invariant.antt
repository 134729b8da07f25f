-- ===== src/ThreadPool/Invariant.antt =====
-- What holds of a thread pool of evenk/thread_pool.h between two steps.
use evenk.Prelude.{
  refl, inl, inr, Bool-cases, ℕ, ◌+◌, ◌<◌, ◌%◌, ◌≡◌, ◌⊎◌, ◌↔◌, Bool, true, false, Option, none,
  some, List, [], ◌∷◌, ◌++◌, if◌then◌else◌, ◌==◌, arith,
}
use evenk.Prelude.Threads.{tally}
use evenk.SynchQueue.{Queue, wait_pop, locked_pop}
use evenk.ThreadPool.Defs.{
  Worker, testing, popping, running, done, crashed, Caller, shutting, joined, after_pop, pop,
  all_done,
}
use evenk.ThreadPool.Steps.{System}

abbrev pub is_ended {ℓ} : {A : Type ℓ} → Worker A → ℕ
is_ended done = 1
is_ended _ = 0

abbrev pub is_going {ℓ} : {A : Type ℓ} → Worker A → ℕ
is_going done = 0
is_going _ = 1

-- In the call of a task.
abbrev pub is_running {ℓ} : {A : Type ℓ} → Worker A → ℕ
is_running (running task) = 1
is_running _ = 0

abbrev pub is_shutting : Caller → ℕ
is_shutting (shutting waits) = 1
is_shutting _ = 0

abbrev pub is_joined : Caller → ℕ
is_joined joined = 1
is_joined _ = 0

module _ {ℓ} {A : Type ℓ} where
  pub all_done-going : (ws : List (Worker A)) → (all_done ws ≡ true) ↔ (tally is_going ws ≡ 0)
  all_done-going [] = ground arith
  all_done-going (done ∷ ws) = ground (arith, all_done-going ws)
  all_done-going (testing ∷ ws) = ground arith
  all_done-going (popping ∷ ws) = ground arith
  all_done-going (running task ∷ ws) = ground arith
  all_done-going (crashed ∷ ws) = ground arith

  -- `shut`: how many shutdowns are under way or over. A worker that ended saw the stop flag, or a queue
  -- that is closed and empty.
  pub record IsKept (s : System A) : Type ℓ where
    pub kept : s.accepted ≡ s.started ++ s.queue.items
    pub small : s.flags < 4
    pub once :
        tally is_shutting s.callers + (if s.queue.is_closed then 1 else 0)
        ≡ (if s.flags == 0 then 0 else 1)
    pub ended :
        0 < tally is_ended s.workers
        → (s.flags % 2 ≡ 1) ⊎ ((s.queue.is_closed ≡ true) × (s.queue.items ≡ []))
    pub joins : 0 < tally is_joined s.callers → tally is_going s.workers ≡ 0

  pub pop_item :
      (assigns : A → Bool) (q : Queue A) (x : A) (xs : List A)
      → q.items ≡ x ∷ xs
      → assigns x ≡ true
      → pop assigns q ≡ some (running (some x), some x, record q { items = xs })
  unfolding pop after_pop wait_pop locked_pop
  pop_item assigns q x xs e returns = ground arith

  pub pop_crash :
      (assigns : A → Bool) (q : Queue A) (x : A) (xs : List A)
      → q.items ≡ x ∷ xs
      → assigns x ≡ false
      → pop assigns q ≡ some (crashed, none, q)
  unfolding pop after_pop wait_pop locked_pop
  pop_crash assigns q x xs e fails = ground arith

  pub pop_end :
      (assigns : A → Bool) (q : Queue A)
      → q.items ≡ []
      → q.is_closed ≡ true
      → pop assigns q ≡ some (done, none, q)
  unfolding pop after_pop wait_pop locked_pop
  pop_end assigns q e c = ground arith

  pop_wait :
      (assigns : A → Bool) (q : Queue A) → q.items ≡ [] → q.is_closed ≡ false → pop assigns q ≡ none
  unfolding pop after_pop wait_pop locked_pop
  pop_wait assigns q e c = ground arith

  -- The ways in which a `wait_pop` comes to its end.
  pub data Popped (assigns : A → Bool) (q : Queue A) (w : Worker A) (task : Option A) (q' : Queue A)
      : Type ℓ where
    took :
        (x : A)
        → assigns x ≡ true
        → q.items ≡ x ∷ q'.items
        → q'.is_closed ≡ q.is_closed
        → w ≡ running (some x)
        → task ≡ some x
        → Popped assigns q w task q'
    ended :
        q.items ≡ []
        → q.is_closed ≡ true
        → w ≡ done
        → task ≡ none
        → q' ≡ q
        → Popped assigns q w task q'
    failed : w ≡ crashed → task ≡ none → q' ≡ q → Popped assigns q w task q'

  by_items :
      (assigns : A → Bool) (q : Queue A) (xs : List A) (c : Bool) (w : Worker A) (task : Option A)
      (q' : Queue A)
      → q.items ≡ xs
      → q.is_closed ≡ c
      → pop assigns q ≡ some (w, task, q')
      → Popped assigns q w task q'
  by_items assigns q [] true w task q' e c p =
      ended e c (ground (arith, pop_end assigns q)) (ground (arith, pop_end assigns q))
        (ground (arith, pop_end assigns q))
  by_items assigns q [] false w task q' e c p = absurd (ground (arith, pop_wait assigns q))
  by_items assigns q (x ∷ xs) c w task q' e e' p = elim (Bool-cases (assigns x)) [
    | inl returns ↦
        took x returns (ground (arith, pop_item assigns q x xs))
          (ground (arith, pop_item assigns q x xs)) (ground (arith, pop_item assigns q x xs))
          (ground (arith, pop_item assigns q x xs))
    | inr fails ↦
        failed (ground (arith, pop_crash assigns q x xs)) (ground (arith, pop_crash assigns q x xs))
          (ground (arith, pop_crash assigns q x xs))
  ]

  pub pop-Popped :
      {assigns : A → Bool} (q : Queue A) {w : Worker A} {task : Option A} {q' : Queue A}
      → pop assigns q ≡ some (w, task, q')
      → Popped assigns q w task q'
  pop-Popped {assigns} q {w} {task} {q'} p =
      by_items assigns q q.items q.is_closed w task q' refl refl p
