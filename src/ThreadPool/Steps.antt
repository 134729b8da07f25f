-- ===== src/ThreadPool/Steps.antt =====
-- A thread pool of evenk/thread_pool.h in use: its workers, and other threads that submit tasks and
-- call `stop` and `wait`. Every access to the flags or the queue is a step.
use evenk.Prelude.{ℕ, ◌≡◌, Bool, true, Option, none, some, List, [], ◌∷◌, ◌++◌, if◌then◌else◌}
use evenk.Prelude.Threads.{tally}
use evenk.Status.{Outcome}
use evenk.SynchQueue.{Queue, synch_queue}
use evenk.ThreadPool.Defs.{
  Worker, testing, popping, running, Caller, outside, shutting, joining, joined, stop, wait,
  shutdown, submit, test, pop, all_done, activate,
}

-- `accepted` and `started` are records for the proofs: the tasks in the order in which they were
-- submitted, and in which workers took them. `assigns` stays the same.
pub record System {ℓ} (A : Type ℓ) : Type ℓ where
  pub assigns : A → Bool
  pub flags : ℕ
  pub queue : Queue A
  pub workers : List (Worker A)
  pub callers : List Caller
  pub accepted : List A
  pub started : List A

abbrev pub popped {ℓ} : {A : Type ℓ} → Option A → List A
popped none = []
popped (some task) = task ∷ []

abbrev pub is_inside : Caller → ℕ
is_inside outside = 0
is_inside _ = 1

module _ {ℓ} {A : Type ℓ} where
  -- What a worker does next, with the task that it takes and the queue that it leaves.
  pub data WorkerMove (assigns : A → Bool) (flags : ℕ) (q : Queue A)
      : Worker A → Worker A → Option A → Queue A → Type ℓ where
    do_test : WorkerMove assigns flags q testing (test flags) none q
    do_pop :
        {w : Worker A} {task : Option A} {q' : Queue A}
        → pop assigns q ≡ some (w, task, q')
        → WorkerMove assigns flags q popping w task q'
    finish : (task : Option A) → WorkerMove assigns flags q (running task) testing none q

  pub data WorkerStep : System A → System A → Type ℓ where
    at :
        (s : System A) (before after : List (Worker A)) {w w' : Worker A} {task : Option A}
        {q' : Queue A}
        → s.workers ≡ before ++ w ∷ after
        → WorkerMove s.assigns s.flags s.queue w w' task q'
        → WorkerStep s (record s {
          queue = q';
          workers = before ++ w' ∷ after;
          started = s.started ++ popped task;
        })

  -- What a thread that calls `stop` or `wait` does next.
  pub data CallerMove (flags : ℕ) (q : Queue A) (workers : List (Worker A))
      : Caller → Caller → ℕ → Queue A → Type ℓ where
    call_stop : CallerMove flags q workers outside (stop flags).0 (stop flags).1 q
    call_wait : CallerMove flags q workers outside (wait flags).0 (wait flags).1 q
    do_shutdown :
        (waits : Bool)
        → CallerMove flags q workers
            (shutting waits)
            (if waits then joining else outside)
            flags
            (shutdown q)
    do_join : all_done workers ≡ true → CallerMove flags q workers joining joined flags q
    leave : CallerMove flags q workers joined outside flags q

  pub data Step : System A → System A → Type ℓ where
    work : {s t : System A} → WorkerStep s t → Step s t
    submits :
        (s : System A) (task : A) {q' : Queue A}
        → submit task s.queue ≡ Outcome.returns q'
        → Step s (record s { queue = q'; accepted = s.accepted ++ task ∷ [] })
    calls :
        (s : System A) (before after : List Caller) {c c' : Caller} {flags' : ℕ} {q' : Queue A}
        → s.callers ≡ before ++ c ∷ after
        → CallerMove s.flags s.queue s.workers c c' flags' q'
        → Step s (record s { flags = flags'; queue = q'; callers = before ++ c' ∷ after })

  -- What a new pool with so many workers comes to.
  pub data Reach (size : ℕ) : System A → Type ℓ where
    start :
        (assigns : A → Bool) (workers : List (Worker A)) (callers : List Caller)
        → activate size [] ≡ some workers
        → tally is_inside callers ≡ 0
        → Reach size (record {
          assigns = assigns;
          flags = 0;
          queue = synch_queue;
          workers = workers;
          callers = callers;
          accepted = [];
          started = [];
        })
    later : {s t : System A} → Reach size s → Step s t → Reach size t
