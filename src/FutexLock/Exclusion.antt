-- ===== src/FutexLock/Exclusion.antt =====
-- Mutual exclusion of `futex_lock` of evenk/synch.h.
use evenk.Prelude.{ℕ, ◌+◌, ◌≤◌, ◌≡◌, refl, Bool, List, [], ◌∷◌, ◌++◌, arith, ◌==◌, if◌then◌else◌}
use evenk.Prelude.Threads.{tally, rest, tally-at, tally-le}
use evenk.Kernel.{Kernel}
use evenk.FutexLock.Moves.{
  Local, outside, to_wait, asleep, owner, releasing, waking, after_backoff, try_lock, lock_attempt,
  exchange_two, unlock, store_zero, resume, System, Move, begin_lock, do_try_lock, attempt,
  back_off, exchange, wait_returns, interrupted, do_unlock, store, Step, move, sleep, wake,
  is_inside, Rejoins, nobody, stays, wakes, moves, rejoin, Reach, start, later,
}

abbrev pub is_owner : Local → ℕ
is_owner owner = 1
is_owner _ = 0

-- The lock is held from the access that takes it to the one that frees it.
abbrev pub is_holder : Local → ℕ
is_holder owner = 1
is_holder releasing = 1
is_holder _ = 0

-- Moves that take the lock find 0 in the word, and only the holder puts 0 there.
pub record IsCounted (w : ℕ) (held : ℕ) : Type 0 where
  pub small : w ≤ 2
  pub counted : held ≡ (if w == 0 then 0 else 1)

pub Move-IsCounted :
    {w w' : ℕ} {p p' : Local} (others : ℕ)
    → Move w p w' p'
    → IsCounted w (is_holder p + others)
    → IsCounted w' (is_holder p' + others)
unfolding try_lock lock_attempt exchange_two unlock store_zero after_backoff
Move-IsCounted others (begin_lock w) c = c
Move-IsCounted others (do_try_lock w) c = ground arith
Move-IsCounted others (attempt w) c = ground arith
Move-IsCounted others (back_off reached w value) c = ground arith
Move-IsCounted others (exchange w) c = ground arith
Move-IsCounted others (wait_returns w) c = c
Move-IsCounted others (interrupted w) c = c
Move-IsCounted others (do_unlock w) c = ground arith
Move-IsCounted others (store w) c = ground arith

-- Waking a thread gives no lock to it.
tally-holder-resume :
    (bs : List Bool) (ts : List Local) → tally is_holder (resume bs ts) ≡ tally is_holder ts
tally-holder-resume [] ts = refl
tally-holder-resume (b ∷ bs) [] = refl
tally-holder-resume (b ∷ bs) (asleep ∷ ts) = ground (arith, tally-holder-resume bs ts)
tally-holder-resume (b ∷ bs) (p ∷ ts) = omega (arith, tally-holder-resume bs ts)

tally-holder-Rejoins :
    {woken : Bool} {ts us : List Local}
    → Rejoins woken ts us
    → tally is_holder us ≡ tally is_holder ts
tally-holder-Rejoins nobody = refl
tally-holder-Rejoins (stays p r) = omega (arith, tally-holder-Rejoins r)
tally-holder-Rejoins (wakes woken r) = omega (arith, tally-holder-Rejoins r)
tally-holder-Rejoins (moves r) = omega (arith, tally-holder-Rejoins r)

holder_inside : (p : Local) → is_holder p ≤ is_inside p
holder_inside outside = omega arith
holder_inside p = ground arith

owner_holds : (p : Local) → is_owner p ≤ is_holder p
owner_holds p = ground arith

module _ {kernel : Kernel} where
  Step-IsCounted :
      {s t : System}
      → Step kernel s t
      → IsCounted s.word (tally is_holder s.threads)
      → IsCounted t.word (tally is_holder t.threads)
  Step-IsCounted (move before after {p} {p'} mv) c = rw (tally-at is_holder before after p') (
      Move-IsCounted (rest is_holder before after) mv (rw (tally-at is_holder before after p) at c))
  Step-IsCounted (sleep before after w b) c =
      omega (arith, tally-at is_holder before after to_wait, tally-at is_holder before after asleep)
  Step-IsCounted (wake before after w bs k) c = ground (
    arith,
    tally-at is_holder before after waking,
    tally-at is_holder before after outside,
    tally-holder-resume bs (before ++ outside ∷ after),
  )
  Step-IsCounted (rejoin w r) c = ground (arith, tally-holder-Rejoins r)

  pub Reach-IsCounted : {s : System} → Reach kernel s → IsCounted s.word (tally is_holder s.threads)
  Reach-IsCounted (start ts out) = ground (arith, tally-le is_holder is_inside holder_inside ts)
  Reach-IsCounted (later r st) = Step-IsCounted st (Reach-IsCounted r)

  -- In every reachable state, also with threads that come back from `futex_cond_var`: at most one
  -- thread owns the lock, the word is one of 0, 1 and 2, and it is not 0 while a thread owns the
  -- lock, so that `unlock` does not wrap it.
  pub futex_lock_exclusion :
      {s : System}
      → Reach kernel s
      → (tally is_owner s.threads ≤ 1) × (s.word ≤ 2) × (tally is_owner s.threads ≤ s.word)
  futex_lock_exclusion {s} r =
      let c = Reach-IsCounted r in ground (arith, tally-le is_owner is_holder owner_holds s.threads)
