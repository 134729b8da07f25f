-- ===== src/LockedQueue/Weights.antt =====
-- What the kernel leaves of the weights of the threads in a `synch_queue` of evenk/synch_queue.h.
use evenk.Prelude.{ℕ, ◌≤◌, ◌≡◌, Bool, true, List, [], ◌∷◌, map, arith}
use evenk.Prelude.Threads.{tally}
use evenk.Kernel.{Requeue, Requeued, none_left, not_blocked, goes_on, is_moved}
use evenk.FutexCondVar.Moves.{Local, at_cond, requeue_to}
use evenk.LockedQueue.Steps.{Thread, at, resume, requeue_all, places}

module _ {ℓ} {A : Type ℓ} where
  -- A weight that a return from `futex_wait` does not raise.
  pub tally-resume-le :
      (w : Thread A → ℕ) (to : Local → Local)
      → ((t : Thread A) → w (at (to t.place) t.call) ≤ w t)
      → (bs : List Bool) (ts : List (Thread A)) → tally w (resume to bs ts) ≤ tally w ts
  tally-resume-le w to same [] ts = omega arith
  tally-resume-le w to same (b ∷ bs) [] = omega arith
  tally-resume-le w to same (b ∷ bs) (t ∷ ts) =
      ground (arith, same t, tally-resume-le w to same bs ts)

  -- One that it does not lower.
  pub tally-le-resume :
      (w : Thread A → ℕ) (to : Local → Local)
      → ((t : Thread A) → w t ≤ w (at (to t.place) t.call))
      → (bs : List Bool) (ts : List (Thread A)) → tally w ts ≤ tally w (resume to bs ts)
  tally-le-resume w to same [] ts = omega arith
  tally-le-resume w to same (b ∷ bs) [] = omega arith
  tally-le-resume w to same (b ∷ bs) (t ∷ ts) =
      ground (arith, same t, tally-le-resume w to same bs ts)

  -- A weight that FUTEX_REQUEUE does not raise.
  pub tally-requeue-le :
      {woken : Bool} {xs : List Bool} {ys : List Requeue} (w : Thread A → ℕ)
      → ((y : Requeue) (t : Thread A)
          → at_cond t.place ≡ true
          → w (at (requeue_to y t.place) t.call) ≤ w t)
      → (ts : List (Thread A)) → Requeued woken xs ys
      → xs ≡ map at_cond (places ts)
      → tally w (requeue_all ys ts) ≤ tally w ts
  tally-requeue-le w same ts none_left e = omega arith
  tally-requeue-le w same [] (not_blocked r) e = absurd (cc)
  tally-requeue-le w same [] (goes_on woken r) e = absurd (cc)
  tally-requeue-le w same [] (is_moved r) e = absurd (cc)
  tally-requeue-le w same (t ∷ ts) (not_blocked r) e =
      omega (arith, tally-requeue-le w same ts r (cc))
  tally-requeue-le w same (t ∷ ts) (goes_on woken r) e =
      omega (arith, same Requeue.wakes t (cc), tally-requeue-le w same ts r (cc))
  tally-requeue-le w same (t ∷ ts) (is_moved r) e =
      omega (arith, same Requeue.moves t (cc), tally-requeue-le w same ts r (cc))
