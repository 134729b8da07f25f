-- ===== src/ThreadPool/Reachable.antt =====
-- A thread pool of evenk/thread_pool.h that is reached keeps its invariant.
use evenk.Prelude.{
  ℕ, zero, suc, ◌≤◌, ◌≡◌, inr, some, List, [], ◌∷◌, ◌++◌, arith, refl, append_assoc, sym, ◌∙◌, ap,
}
use evenk.Prelude.Threads.{tally, tally-le}
use evenk.Prelude.Bits.{bit_or-one, bit_or_two}
use evenk.Status.{Outcome}
use evenk.SynchQueue.{Queue, synch_queue, close}
use evenk.ThreadPool.Defs.{
  Worker, testing, Caller, shutting, set_flag, stop, wait, shutdown, submit, activate,
}
use evenk.ThreadPool.Steps.{
  System, CallerMove, call_stop, call_wait, do_shutdown, do_join, leave, Step, work, submits, calls,
  is_inside, Reach, start, later,
}
use evenk.ThreadPool.Invariant.{is_ended, is_going, is_running, is_shutting, is_joined, IsKept}
use evenk.ThreadPool.Preserve.{WorkerStep-IsKept, submit-eq, tally-callers, Caller-IsKept}

shutting-inside : (c : Caller) → is_shutting c ≤ is_inside c
shutting-inside c = ground arith

joined-inside : (c : Caller) → is_joined c ≤ is_inside c
joined-inside c = ground arith

abbrev new_workers {ℓ} : (A : Type ℓ) → ℕ → List (Worker A)
new_workers A zero = []
new_workers A (suc n) = testing ∷ new_workers A n

new_workers-ended {ℓ} : (A : Type ℓ) (n : ℕ) → tally is_ended (new_workers A n) ≡ 0
new_workers-ended A zero = refl
new_workers-ended A (suc n) = omega (arith, new_workers-ended A n)

new_workers-going {ℓ} : (A : Type ℓ) (n : ℕ) → tally is_going (new_workers A n) ≡ n
new_workers-going A zero = refl
new_workers-going A (suc n) = omega (arith, new_workers-going A n)

new_workers-running {ℓ} : (A : Type ℓ) (n : ℕ) → tally is_running (new_workers A n) ≡ 0
new_workers-running A zero = refl
new_workers-running A (suc n) = omega (arith, new_workers-running A n)

module _ {ℓ} {A : Type ℓ} where
  submits-IsKept :
      (s : System A) (task : A) (q' : Queue A)
      → submit task s.queue ≡ Outcome.returns q'
      → IsKept s
      → IsKept (record s { queue = q'; accepted = s.accepted ++ task ∷ [] })
  submits-IsKept s task q' e i =
      let (not_closed, q'-eq) = submit-eq task s.queue q' e in
      record {
        kept =
            ap (λ xs. xs ++ task ∷ []) i.kept
            ∙ append_assoc s.started s.queue.items (task ∷ [])
            ∙ ap (λ (q : Queue A). s.started ++ q.items) (sym q'-eq);
        small = i.small;
        once = ground (arith, i.once, not_closed, q'-eq);
        ended = ground (arith, i.ended, not_closed);
        joins = i.joins;
      }

  Move-IsKept :
      (s : System A) (before after : List Caller) (c c' : Caller) (flags' : ℕ) (q' : Queue A)
      → s.callers ≡ before ++ c ∷ after
      → CallerMove s.flags s.queue s.workers c c' flags' q'
      → IsKept s
      → IsKept (record s { flags = flags'; queue = q'; callers = before ++ c' ∷ after })
  unfolding stop wait set_flag shutdown close
  Move-IsKept s before after c c' flags' q' e call_stop i =
      Caller-IsKept s before after c c' flags' q' e
        (ground (arith, bit_or-one s.flags, bit_or_two s.flags, i.small)) refl (λ h. h)
        (ground (arith, bit_or-one s.flags, bit_or_two s.flags, i.small))
        (ground (arith, bit_or-one s.flags, bit_or_two s.flags, i.small))
        (ground (arith, bit_or-one s.flags, bit_or_two s.flags, i.small)) i
  Move-IsKept s before after c c' flags' q' e call_wait i =
      Caller-IsKept s before after c c' flags' q' e
        (ground (arith, bit_or-one s.flags, bit_or_two s.flags, i.small)) refl (λ h. h)
        (ground (arith, bit_or-one s.flags, bit_or_two s.flags, i.small))
        (ground (arith, bit_or-one s.flags, bit_or_two s.flags, i.small))
        (ground (arith, bit_or-one s.flags, bit_or_two s.flags, i.small)) i
  Move-IsKept s before after c c' flags' q' e (do_shutdown waits) i =
      Caller-IsKept s before after c c' flags' q' e i.small refl (ground arith) (λ h. h)
        (ground (arith, i.once, tally-callers is_shutting s before after (shutting waits) e))
        (ground arith) i
  Move-IsKept s before after c c' flags' q' e (do_join all) i =
      Caller-IsKept s before after c c' flags' q' e i.small refl (λ h. h) (λ h. h) (ground arith)
        (λ h. inr all) i
  Move-IsKept s before after c c' flags' q' e leave i =
      Caller-IsKept s before after c c' flags' q' e i.small refl (λ h. h) (λ h. h) (ground arith)
        (ground arith) i

  Step-IsKept : {s t : System A} → Step s t → IsKept s → IsKept t
  Step-IsKept (work w) i = WorkerStep-IsKept w i
  Step-IsKept (submits s task {q'} e) i = submits-IsKept s task q' e i
  Step-IsKept (calls s before after {c} {c'} {flags'} {q'} e m) i =
      Move-IsKept s before after c c' flags' q' e m i

  activate-eq : (n : ℕ) → activate n [] ≡ some (new_workers A n)
  unfolding activate
  activate-eq zero = refl
  activate-eq (suc n) = rw (activate-eq n) refl

  -- No new worker has ended, or begun.
  pub activate-new :
      (size : ℕ) (ws : List (Worker A))
      → activate size [] ≡ some ws
      → (tally is_ended ws ≡ 0) × (tally is_going ws ≡ size) × (tally is_running ws ≡ 0)
  activate-new size ws e = ground (
    arith,
    activate-eq size,
    new_workers-ended A size,
    new_workers-going A size,
    new_workers-running A size,
    e,
  )

  pub Reach-IsKept : {size : ℕ} {s : System A} → Reach size s → IsKept s
  unfolding synch_queue
  Reach-IsKept {size} (start assigns workers callers e out) = record {
    kept = refl;
    small = omega arith;
    once = ground (arith, out, tally-le is_shutting is_inside shutting-inside callers);
    ended = ground (arith, activate-new size workers e);
    joins = ground (arith, out, tally-le is_joined is_inside joined-inside callers);
  }
  Reach-IsKept (later r st) = Step-IsKept st (Reach-IsKept r)
