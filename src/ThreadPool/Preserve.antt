-- ===== src/ThreadPool/Preserve.antt =====
-- Every step of a thread pool of evenk/thread_pool.h keeps its invariant.
use evenk.Prelude.{
  ℕ, ◌+◌, ◌≤◌, ◌<◌, ◌%◌, ◌≡◌, ◌⊎◌, true, false, Option, none, List, [], ◌∷◌, ◌++◌, if◌then◌else◌,
  ◌==◌, arith, refl, append_assoc, sym, ◌∙◌, ap,
}
use evenk.Prelude.Threads.{tally, rest, tally-at}
use evenk.Prelude.Bits.{bit_and-one}
use evenk.Status.{Outcome}
use evenk.SynchQueue.{Queue, push, wait_push, try_push, locked_push}
use evenk.ThreadPool.Defs.{
  Worker, testing, popping, running, Caller, is_stopped, submit, test, all_done,
}
use evenk.ThreadPool.Steps.{System, popped, do_test, do_pop, finish, WorkerStep, at}
use evenk.ThreadPool.Invariant.{
  is_ended, is_going, is_shutting, is_joined, all_done-going, IsKept, took, ended, failed,
  pop-Popped,
}

module _ {ℓ} {A : Type ℓ} where
  pub tally-workers :
      (f : Worker A → ℕ) (s : System A) (before after : List (Worker A)) (w : Worker A)
      → s.workers ≡ before ++ w ∷ after
      → tally f s.workers ≡ f w + rest f before after
  tally-workers f s before after w e = ap (tally f) e ∙ tally-at f before after w

  -- A worker moves on. What it takes from the queue, it starts.
  Worker-IsKept :
      (s : System A) (before after : List (Worker A)) (w w' : Worker A) (task : Option A)
      (q' : Queue A)
      → s.workers ≡ before ++ w ∷ after
      → is_going w ≡ 1
      → s.queue.items ≡ popped task ++ q'.items
      → q'.is_closed ≡ s.queue.is_closed
      → (is_ended w' ≡ 1 → (s.flags % 2 ≡ 1) ⊎ ((s.queue.is_closed ≡ true) × (s.queue.items ≡ [])))
      → (s.queue.items ≡ [] → q'.items ≡ [])
      → IsKept s
      → IsKept (record s {
        queue = q';
        workers = before ++ w' ∷ after;
        started = s.started ++ popped task;
      })
  Worker-IsKept s before after w w' task q' e going taken same over emptied i = record {
    kept =
        i.kept
        ∙ ap (λ xs. s.started ++ xs) taken
        ∙ sym (append_assoc s.started (popped task) q'.items);
    small = i.small;
    once = ground (arith, i.once);
    ended = ground (
      arith,
      i.ended,
      over,
      emptied,
      tally-workers is_ended s before after w e,
      tally-at is_ended before after w',
      is_ended_small w',
    );
    joins = λ h. absurd (ground (arith, i.joins h, tally-workers is_going s before after w e));
  }
    where
      is_ended_small : (v : Worker A) → is_ended v ≤ 1
      is_ended_small v = ground arith

  pub WorkerStep-IsKept : {s t : System A} → WorkerStep s t → IsKept s → IsKept t
  unfolding test is_stopped
  WorkerStep-IsKept (at s before after e do_test) i =
      Worker-IsKept s before after testing (test s.flags) none s.queue e refl refl refl
        (ground (arith, bit_and-one s.flags)) (λ h. h) i
  WorkerStep-IsKept (at s before after e (do_pop {w} {task} {q'} p)) i =
      elim (pop-Popped s.queue p) [
        | took x returns items same v t ↦
            Worker-IsKept s before after popping w task q' e refl (ground arith) same (ground arith)
              (ground arith) i
        | ended items shut v t same ↦
            Worker-IsKept s before after popping w task q' e refl (ground arith) (ground arith)
              (ground arith) (ground arith) i
        | failed v t same ↦
            Worker-IsKept s before after popping w task q' e refl (ground arith) (ground arith)
              (ground arith) (ground arith) i
      ]
  WorkerStep-IsKept (at s before after e (finish task)) i =
      Worker-IsKept s before after (running task) testing none s.queue e refl refl refl
        (ground arith) (λ h. h) i

  pub submit-eq :
      (task : A) (q q' : Queue A)
      → submit task q ≡ Outcome.returns q'
      → (q.is_closed ≡ false) × (q' ≡ record q { items = q.items ++ task ∷ [] })
  unfolding submit push wait_push try_push locked_push
  submit-eq task q q' e = ground arith

  pub tally-callers :
      (f : Caller → ℕ) (s : System A) (before after : List Caller) (c : Caller)
      → s.callers ≡ before ++ c ∷ after
      → tally f s.callers ≡ f c + rest f before after
  tally-callers f s before after c e = ap (tally f) e ∙ tally-at f before after c

  pub Caller-IsKept :
      (s : System A) (before after : List Caller) (c c' : Caller) (flags' : ℕ) (q' : Queue A)
      → s.callers ≡ before ++ c ∷ after
      → flags' < 4
      → q'.items ≡ s.queue.items
      → (s.queue.is_closed ≡ true → q'.is_closed ≡ true)
      → (s.flags % 2 ≡ 1 → flags' % 2 ≡ 1)
      → is_shutting c' + (if q'.is_closed then 1 else 0) + (if s.flags == 0 then 0 else 1)
        ≡ is_shutting c + (if s.queue.is_closed then 1 else 0) + (if flags' == 0 then 0 else 1)
      → (is_joined c' ≡ 1 → (is_joined c ≡ 1) ⊎ (all_done s.workers ≡ true))
      → IsKept s
      → IsKept (record s { flags = flags'; queue = q'; callers = before ++ c' ∷ after })
  Caller-IsKept s before after c c' flags' q' e small items shut stopped count join i = record {
    kept = i.kept ∙ ap (λ xs. s.started ++ xs) (sym items);
    small = small;
    once = ground (
      arith,
      i.once,
      tally-callers is_shutting s before after c e,
      tally-at is_shutting before after c',
    );
    ended = ground (arith, i.ended);
    joins = ground (
      arith,
      i.joins,
      tally-callers is_joined s before after c e,
      tally-at is_joined before after c',
      all_done-going s.workers,
      is_joined_small c',
    );
  }
    where
      is_joined_small : (v : Caller) → is_joined v ≤ 1
      is_joined_small v = ground arith
