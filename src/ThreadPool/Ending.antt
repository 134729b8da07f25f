-- ===== src/ThreadPool/Ending.antt =====
-- The workers of evenk/thread_pool.h come to their end after `stop` or `wait`.
use evenk.Prelude.{
  Bool-cases, ℕ, ◌+◌, ◌*◌, ◌≤◌, ◌<◌, ◌≡◌, ◌⊎◌, true, false, List, [], ◌∷◌, ◌++◌, arith, refl, ap,
  inl, inr, length,
}
use evenk.Prelude.Threads.{tally, tally-at}
use evenk.SynchQueue.{close}
use evenk.ThreadPool.Defs.{
  Worker, testing, popping, running, done, crashed, is_stopped, shutdown, test, is_done, all_done,
}
use evenk.ThreadPool.Steps.{
  System, WorkerStep, at, do_test, do_pop, finish, Step, work, submits, calls, call_stop, call_wait,
  do_shutdown, do_join, leave,
}
use evenk.ThreadPool.Invariant.{pop_item, pop_crash, pop_end, took, ended, failed, pop-Popped}
use evenk.ThreadPool.Preserve.{tally-workers, submit-eq}

-- The accesses that a worker may still make but for the tasks in the queue, each of which takes three.
abbrev pub to_go {ℓ} : {A : Type ℓ} → Worker A → ℕ
to_go testing = 2
to_go popping = 1
to_go (running task) = 3
to_go done = 0
to_go crashed = 0

module _ {ℓ} {A : Type ℓ} where
  abbrev pub work_left : System A → ℕ
  work_left s = 3 * length s.queue.items + tally to_go s.workers

  WorkerStep-left : {s t : System A} → WorkerStep s t → work_left t < work_left s
  unfolding test is_stopped
  WorkerStep-left (at s before after {w} {w'} e do_test) =
      ground (arith, tally-workers to_go s before after w e, tally-at to_go before after w')
  WorkerStep-left (at s before after {w} {w'} e (finish task)) =
      omega (arith, tally-workers to_go s before after w e, tally-at to_go before after w')
  WorkerStep-left (at s before after {w} {w'} {task} {q'} e (do_pop p)) =
      elim (pop-Popped s.queue p) [
        | took x returns items same v t ↦ ground (
          arith,
          tally-workers to_go s before after w e,
          tally-at to_go before after w',
          ap length items,
        )
        | ended items shut v t same ↦
            ground (arith, tally-workers to_go s before after w e, tally-at to_go before after w')
        | failed v t same ↦
            ground (arith, tally-workers to_go s before after w e, tally-at to_go before after w')
      ]

  -- A closed queue takes no task, and stays closed.
  Step-closed : {s t : System A} → Step s t → s.queue.is_closed ≡ true → t.queue.is_closed ≡ true
  unfolding shutdown close
  Step-closed (work (at s before after e do_test)) c = c
  Step-closed (work (at s before after e (finish task))) c = c
  Step-closed (work (at s before after {w} {w'} {task} {q'} e (do_pop p))) c =
      elim (pop-Popped s.queue p) [
        | took x returns items same v t ↦ ground arith
        | ended items shut v t same ↦ ground arith
        | failed v t same ↦ ground arith
      ]
  Step-closed (submits s task {q'} e) c = ground (arith, submit-eq task s.queue q' e)
  Step-closed (calls s before after e call_stop) c = c
  Step-closed (calls s before after e call_wait) c = c
  Step-closed (calls s before after e (do_shutdown waits)) c = refl
  Step-closed (calls s before after e (do_join all)) c = c
  Step-closed (calls s before after e leave) c = c

  abbrev pub by_worker : {s t : System A} → Step s t → ℕ
  by_worker (work w) = 1
  by_worker _ = 0

  -- A run, with the number of the steps of workers in it.
  pub data Run : ℕ → System A → System A → Type ℓ where
    here : (s : System A) → Run 0 s s
    then_step :
        {n : ℕ} {s t u : System A} → Run n s t → (st : Step t u) → Run (n + by_worker st) s u

  Step-left :
      {s t : System A}
      → (st : Step s t) → s.queue.is_closed ≡ true
      → by_worker st + work_left t ≤ work_left s
  unfolding shutdown close
  Step-left (work w) c = omega (arith, WorkerStep-left w)
  Step-left (submits s task {q'} e) c = ground (arith, submit-eq task s.queue q' e)
  Step-left (calls s before after e call_stop) c = omega arith
  Step-left (calls s before after e call_wait) c = omega arith
  Step-left (calls s before after e (do_shutdown waits)) c = omega arith
  Step-left (calls s before after e (do_join all)) c = omega arith
  Step-left (calls s before after e leave) c = omega arith

  Run-closed :
      {n : ℕ} {s t : System A} → Run n s t → s.queue.is_closed ≡ true → t.queue.is_closed ≡ true
  Run-closed (here s) c = c
  Run-closed (then_step r st) c = Step-closed st (Run-closed r c)

  Run-left :
      {n : ℕ} {s t : System A}
      → Run n s t
      → s.queue.is_closed ≡ true
      → n + work_left t ≤ work_left s
  Run-left (here s) c = omega arith
  Run-left (then_step r st) c = omega (arith, Run-left r c, Step-left st (Run-closed r c))

  abbrev pub is_crashed : Worker A → ℕ
  is_crashed crashed = 1
  is_crashed _ = 0

  -- Some worker can go on: it is not blocked in a `wait_pop`.
  abbrev pub CanWork : System A → Type ℓ
  CanWork s = (t : System A) × WorkerStep s t

  pub data Going (ws : List (Worker A)) : Type ℓ where
    going :
        (before after : List (Worker A)) (w : Worker A)
        → ws ≡ before ++ w ∷ after
        → is_done w ≡ false
        → is_crashed w ≡ 0
        → Going ws

  find-Going : (ws : List (Worker A)) → (all_done ws ≡ true) ⊎ (0 < tally is_crashed ws) ⊎ Going ws
  find-Going [] = inl refl
  find-Going (crashed ∷ ws) = inr (inl (omega arith))
  find-Going (done ∷ ws) = elim (find-Going ws) [
    | inl all ↦ inl all
    | inr (inl some_crashed) ↦ inr (inl (omega arith))
    | inr (inr (going before after w e h h')) ↦
        inr (inr (going (done ∷ before) after w (ap (λ vs. done ∷ vs) e) h h'))
  ]
  find-Going (testing ∷ ws) = inr (inr (going [] ws testing refl refl refl))
  find-Going (popping ∷ ws) = inr (inr (going [] ws popping refl refl refl))
  find-Going (running task ∷ ws) = inr (inr (going [] ws (running task) refl refl refl))

  can_pop :
      (s : System A) (before after : List (Worker A)) (xs : List A)
      → s.workers ≡ before ++ popping ∷ after
      → s.queue.items ≡ xs
      → s.queue.is_closed ≡ true
      → CanWork s
  can_pop s before after [] e items c =
      (_, at s before after e (do_pop (pop_end s.assigns s.queue items c)))
  can_pop s before after (x ∷ xs) e items c = elim (Bool-cases (s.assigns x)) [
    | inl returns ↦
        (_, at s before after e (do_pop (pop_item s.assigns s.queue x xs items returns)))
    | inr fails ↦ (_, at s before after e (do_pop (pop_crash s.assigns s.queue x xs items fails)))
  ]

  can_work : (s : System A) → s.queue.is_closed ≡ true → Going s.workers → CanWork s
  can_work s c (going before after done e h h') = cc
  can_work s c (going before after crashed e h h') = absurd (ground arith)
  can_work s c (going before after testing e h h') = (_, at s before after e do_test)
  can_work s c (going before after popping e h h') = can_pop s before after s.queue.items e refl c
  can_work s c (going before after (running task) e h h') = (_, at s before after e (finish task))

  -- Once the queue of a pool is closed, whatever the threads do: the workers make at most three steps
  -- for each task in the queue and three for each worker, and until all of them are at their end, one
  -- of them can make a step, or has crashed in the move assignment of a task.
  pub thread_pool_ends :
      {n : ℕ} {s t : System A}
      → Run n s t
      → s.queue.is_closed ≡ true
      → (n ≤ 3 * length s.queue.items + 3 * length s.workers)
        × ((all_done t.workers ≡ true) ⊎ (0 < tally is_crashed t.workers) ⊎ CanWork t)
  thread_pool_ends {n} {s} {t} r c = (
    omega (arith, Run-left r c, to_go_le s.workers),
    elim (find-Going t.workers) [
      | inl all ↦ inl all
      | inr (inl some_crashed) ↦ inr (inl some_crashed)
      | inr (inr g) ↦ inr (inr (can_work t (Run-closed r c) g))
    ],
  )
    where
      to_go_le : (ws : List (Worker A)) → tally to_go ws ≤ 3 * length ws
      to_go_le [] = omega arith
      to_go_le (testing ∷ ws) = omega (arith, to_go_le ws)
      to_go_le (popping ∷ ws) = omega (arith, to_go_le ws)
      to_go_le (running task ∷ ws) = omega (arith, to_go_le ws)
      to_go_le (done ∷ ws) = omega (arith, to_go_le ws)
      to_go_le (crashed ∷ ws) = omega (arith, to_go_le ws)
