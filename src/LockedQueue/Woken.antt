-- ===== src/LockedQueue/Woken.antt =====
-- What the kernel leaves of the notices in a `synch_queue` of evenk/synch_queue.h.
use evenk.Prelude.{
  ℕ, ◌+◌, ◌≤◌, ◌≡◌, ◌⊎◌, inl, inr, refl, Bool, true, false, List, [], ◌∷◌, ◌++◌, map, arith,
  if◌then◌else◌,
}
use evenk.Prelude.Threads.{tally, tally-at, replace-le}
use evenk.Kernel.{
  OneWakes, NoneBlocked, Requeue, Requeued, none_left, not_blocked, goes_on, is_moved,
}
use evenk.SynchQueue.{Queue}
use evenk.FutexCondVar.Moves.{counted, requeueing, back, at_cond, resume_lock, resume_cond}
use evenk.LockedQueue.Defs.{Call}
use evenk.LockedQueue.Steps.{Thread, at, resume, requeue_all, places}
use evenk.LockedQueue.Weights.{tally-resume-le, tally-le-resume, tally-requeue-le}
use evenk.LockedQueue.Places.{misplaced}
use evenk.LockedQueue.Notices.{
  fresh, blocks, beyond, telling, coming, owes_one, owes_all, Served, IsServed,
}
use evenk.LockedQueue.Served.{Served-le}

module _ {ℓ} {A : Type ℓ} where
  -- Returns from the word of the lock.
  pub resume_lock-Served :
      (futex : ℕ) (q : Queue A) (bs : List Bool) (ts : List (Thread A))
      → IsServed futex q ts
      → IsServed futex q (resume resume_lock bs ts)
  resume_lock-Served futex q bs ts i =
      let f = tally-resume-le (fresh futex) resume_lock (λ t. ground arith) bs ts in
      let b = tally-resume-le blocks resume_lock (λ t. ground arith) bs ts in
      let y = tally-resume-le (beyond futex) resume_lock (λ t. ground arith) bs ts in
      let w = tally-resume-le telling resume_lock (λ t. ground arith) bs ts in
      let k = tally-le-resume (coming futex) resume_lock (λ t. ground arith) bs ts in
      let o = tally-le-resume owes_one resume_lock (λ t. ground arith) bs ts in
      let l = tally-le-resume owes_all resume_lock (λ t. ground arith) bs ts in
      Served-le (omega arith) f y w (omega arith) l i

  -- Where nobody waits there is nobody to tell.
  none-Served :
      {q : Queue A} {f f' b b' y y' t t' k k' o o' l l' : ℕ}
      → f' ≤ f
      → y' ≤ y
      → f ≡ 0
      → b' ≡ 0
      → Served q f b y t k o l
      → Served q f' b' y' t' k' o' l'
  none-Served less bound none none' i = ground (arith, i)

  none_blocked :
      (ts : List (Thread A)) → NoneBlocked (map at_cond (places ts)) → tally blocks ts ≡ 0
  none_blocked [] h = refl
  none_blocked (t ∷ ts) h = ground (arith, h.0, none_blocked ts h.1)

  coming_after : (f : ℕ) (t : Thread A) → coming f t ≤ coming f (at (resume_cond t.place) t.call)
  coming_after f t = ground arith

  -- A consumer that was blocked is coming.
  coming_awake :
      (f : ℕ) (t : Thread A)
      → at_cond t.place ≡ true
      → 1 + coming f t ≤ coming f (at (resume_cond t.place) t.call) + misplaced t
  coming_awake f t e = ground arith

  coming_there :
      (f : ℕ) (t : Thread A)
      → coming f (at (if at_cond t.place then t.place else resume_cond t.place) t.call) ≡ coming f t
  coming_there f t = ground arith

  resume-there :
      (f : ℕ) (ts : List (Thread A))
      → tally (coming f) (resume resume_cond (map at_cond (places ts)) ts) ≡ tally (coming f) ts
  resume-there f [] = refl
  resume-there f (t ∷ ts) = omega (arith, coming_there f t, resume-there f ts)

  one-coming :
      (f : ℕ) (ts : List (Thread A)) (bs : List Bool)
      → OneWakes (map at_cond (places ts)) bs
      → 1 + tally (coming f) ts ≤ tally (coming f) (resume resume_cond bs ts) + tally misplaced ts
  one-coming f [] bs h = absurd h
  one-coming f (t ∷ ts) [] h = absurd h
  one-coming f (t ∷ ts) (b ∷ bs) (inl (e, e', same)) =
      rw (e', same) (omega (arith, coming_awake f t e, resume-there f ts))
  one-coming f (t ∷ ts) (b ∷ bs) (inr (e, h)) =
      rw e (omega (arith, coming_there f t, one-coming f ts bs h))

  -- `futex_wake` of `notify_one`: a blocked consumer goes on, or nobody waits.
  pub cond_wake-Served :
      (before after : List (Thread A)) (futex : ℕ) (q : Queue A) (c : Call A) (bs : List Bool)
      (holds : Bool)
      → tally misplaced (before ++ at (back holds) c ∷ after) ≡ 0
      → (NoneBlocked (map at_cond (places (before ++ at (back holds) c ∷ after)))
          × (bs ≡ map at_cond (places (before ++ at (back holds) c ∷ after))))
        ⊎ OneWakes (map at_cond (places (before ++ at (back holds) c ∷ after))) bs
      → IsServed futex q (before ++ at (counted false holds) c ∷ after)
      → IsServed futex q (resume resume_cond bs (before ++ at (back holds) c ∷ after))
  cond_wake-Served before after futex q c bs holds placed told i =
      let ts = before ++ at (counted false holds) c ∷ after in
      let us = before ++ at (back holds) c ∷ after in
      let vs = resume resume_cond bs us in
      let f = tally-resume-le (fresh futex) resume_cond (λ t. ground arith) bs us in
      let f' =
        replace-le (fresh futex) before after (at (back holds) c) (at (counted false holds) c)
          (ground arith) in
      let b = tally-resume-le blocks resume_cond (λ t. ground arith) bs us in
      let b' =
        replace-le blocks before after (at (back holds) c) (at (counted false holds) c)
          (ground arith) in
      let y = tally-resume-le (beyond futex) resume_cond (λ t. ground arith) bs us in
      let y' =
        replace-le (beyond futex) before after (at (back holds) c) (at (counted false holds) c)
          (ground arith) in
      let w = tally-resume-le telling resume_cond (λ t. ground arith) bs us in
      let w' =
        replace-le telling before after (at (back holds) c) (at (counted false holds) c)
          (ground arith) in
      let k =
        replace-le (coming futex) before after (at (counted false holds) c) (at (back holds) c)
          (ground arith) in
      let o = tally-le-resume owes_one resume_cond (λ t. ground arith) bs us in
      let o' : tally owes_one ts ≤ 1 + tally owes_one us = ground (
        arith,
        tally-at owes_one before after (at (counted false holds) c),
        tally-at owes_one before after (at (back holds) c),
      ) in
      let l = tally-le-resume owes_all resume_cond (λ t. ground arith) bs us in
      let l' =
        replace-le owes_all before after (at (counted false holds) c) (at (back holds) c)
          (ground arith) in
      elim told [
        | inl (free, same) ↦
            none-Served (omega (arith, f, f')) (omega (arith, y, y'))
              (omega (
                arith,
                i.quiet (omega (arith, tally-at telling before after (at (counted false holds) c))),
              ))
              (omega (arith, b, none_blocked us free)) i
        | inr one ↦
            Served-le (omega (arith, f, f', b, b')) (omega (arith, f, f')) (omega (arith, y, y'))
              (omega (arith, w, w')) (omega (arith, placed, k, o, o', one-coming futex us bs one))
              (omega (arith, l, l')) i
      ]

  stays-unblocked : (t : Thread A) → at_cond t.place ≡ false → blocks t ≡ 0
  stays-unblocked t e = ground arith

  requeue-unblocked :
      {woken : Bool} {xs : List Bool} {ys : List Requeue} (ts : List (Thread A))
      → Requeued woken xs ys
      → xs ≡ map at_cond (places ts)
      → tally blocks (requeue_all ys ts) ≡ 0
  requeue-unblocked [] none_left e = refl
  requeue-unblocked (t ∷ ts) none_left e = absurd (cc)
  requeue-unblocked [] (not_blocked r) e = absurd (cc)
  requeue-unblocked [] (goes_on woken r) e = absurd (cc)
  requeue-unblocked [] (is_moved r) e = absurd (cc)
  requeue-unblocked (t ∷ ts) (not_blocked r) e =
      omega (arith, stays-unblocked t (cc), requeue-unblocked ts r (cc))
  requeue-unblocked (t ∷ ts) (goes_on woken r) e = omega (arith, requeue-unblocked ts r (cc))
  requeue-unblocked (t ∷ ts) (is_moved r) e = omega (arith, requeue-unblocked ts r (cc))

  -- `futex_requeue` of `notify_all`: nobody is blocked any longer.
  pub cond_requeue-Served :
      {woken : Bool} (before after : List (Thread A)) (futex : ℕ) (q : Queue A) (c : Call A)
      (ys : List Requeue) (holds : Bool)
      → Requeued woken (map at_cond (places (before ++ at (back holds) c ∷ after))) ys
      → IsServed futex q (before ++ at (requeueing holds) c ∷ after)
      → IsServed futex q (requeue_all ys (before ++ at (back holds) c ∷ after))
  cond_requeue-Served before after futex q c ys holds r i =
      let us = before ++ at (back holds) c ∷ after in
      let t = at (requeueing holds) c in
      let f = tally-requeue-le (fresh futex) (λ y t e. ground arith) us r refl in
      let f' = replace-le (fresh futex) before after (at (back holds) c) t (ground arith) in
      let y = tally-requeue-le (beyond futex) (λ y t e. ground arith) us r refl in
      let y' = replace-le (beyond futex) before after (at (back holds) c) t (ground arith) in
      none-Served (omega (arith, f, f')) (omega (arith, y, y'))
        (i.quiet (omega (arith, tally-at telling before after t))) (requeue-unblocked us r refl) i
