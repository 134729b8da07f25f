-- ===== src/FutexCondVar/Weights.antt =====
-- What the futex calls of `futex_cond_var` of evenk/synch.h leave of the weights of the threads.
use evenk.Prelude.{ℕ, ◌≤◌, ◌≡◌, Bool, true, false, List, [], ◌∷◌, map, arith, refl}
use evenk.Prelude.Threads.{tally}
use evenk.Kernel.{Requeue, Requeued, none_left, not_blocked, goes_on, is_moved}
use evenk.FutexCondVar.Moves.{Local, at_cond, resume, requeue_to, requeue_all}
use evenk.FutexCondVar.Kept.{is_stale}

-- A weight that a return from `futex_wait` does not change.
pub tally-resume :
    (w : Local → ℕ) (to : Local → Local)
    → ((p : Local) → w (to p) ≡ w p)
    → (bs : List Bool) (ts : List Local) → tally w (resume to bs ts) ≡ tally w ts
tally-resume w to same [] ts = refl
tally-resume w to same (b ∷ bs) [] = refl
tally-resume w to same (b ∷ bs) (p ∷ ts) = ground (arith, same p, tally-resume w to same bs ts)

pub tally-resume-le :
    (w : Local → ℕ) (to : Local → Local)
    → ((p : Local) → w (to p) ≤ w p)
    → (bs : List Bool) (ts : List Local) → tally w (resume to bs ts) ≤ tally w ts
tally-resume-le w to same [] ts = omega arith
tally-resume-le w to same (b ∷ bs) [] = omega arith
tally-resume-le w to same (b ∷ bs) (p ∷ ts) =
    ground (arith, same p, tally-resume-le w to same bs ts)

-- A weight that FUTEX_REQUEUE does not change.
pub tally-requeue :
    {woken : Bool} {xs : List Bool} {ys : List Requeue} (w : Local → ℕ)
    → ((y : Requeue) (p : Local) → at_cond p ≡ true → w (requeue_to y p) ≡ w p)
    → (ts : List Local) → Requeued woken xs ys
    → xs ≡ map at_cond ts
    → tally w (requeue_all ys ts) ≡ tally w ts
tally-requeue w same ts none_left e = refl
tally-requeue w same [] (not_blocked r) e = absurd (cc)
tally-requeue w same [] (goes_on woken r) e = absurd (cc)
tally-requeue w same [] (is_moved r) e = absurd (cc)
tally-requeue w same (p ∷ ts) (not_blocked r) e = omega (arith, tally-requeue w same ts r (cc))
tally-requeue w same (p ∷ ts) (goes_on woken r) e =
    omega (arith, same Requeue.wakes p (cc), tally-requeue w same ts r (cc))
tally-requeue w same (p ∷ ts) (is_moved r) e =
    omega (arith, same Requeue.moves p (cc), tally-requeue w same ts r (cc))

-- After it nobody is blocked.
pub requeue-none :
    {woken : Bool} {xs : List Bool} {ys : List Requeue} (k : ℕ) (ts : List Local)
    → Requeued woken xs ys
    → xs ≡ map at_cond ts
    → tally (is_stale k) (requeue_all ys ts) ≡ 0
requeue-none k [] none_left e = refl
requeue-none k (p ∷ ts) none_left e = absurd (cc)
requeue-none k [] (not_blocked r) e = absurd (cc)
requeue-none k [] (goes_on woken r) e = absurd (cc)
requeue-none k [] (is_moved r) e = absurd (cc)
requeue-none k (p ∷ ts) (not_blocked r) e =
    omega (arith, not_stale p (cc), requeue-none k ts r (cc))
  where
    not_stale : (p : Local) → at_cond p ≡ false → is_stale k p ≡ 0
    not_stale p e = ground arith
requeue-none k (p ∷ ts) (goes_on woken r) e = omega (arith, requeue-none k ts r (cc))
requeue-none k (p ∷ ts) (is_moved r) e = omega (arith, requeue-none k ts r (cc))
