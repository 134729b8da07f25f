-- ===== src/FutexLock/Wakeups.antt =====
-- No wake-up is lost by `futex_lock` of evenk/synch.h.
use evenk.Prelude.{
  ℕ, ◌+◌, ◌≤◌, ◌<◌, ◌≡◌, refl, ◌⊎◌, inl, inr, Bool, true, List, [], ◌∷◌, ◌++◌, map, arith,
}
use evenk.Prelude.Threads.{tally, rest, tally-at, tally-le}
use evenk.Kernel.{Kernel, OneWakes, NoneBlocked}
use evenk.FutexLock.Moves.{
  Local, outside, exchanging, asleep, owner, releasing, waking, after_backoff, try_lock,
  lock_attempt, exchange_two, unlock, store_zero, resume, is_asleep, System, Move, begin_lock,
  do_try_lock, attempt, back_off, exchange, wait_returns, interrupted, do_unlock, store, Step, move,
  sleep, wake, Rejoins, stays, wakes, moves, rejoin, is_inside, Reach, start, later,
}
use evenk.FutexLock.Exclusion.{is_holder, Reach-IsCounted}

abbrev pub is_sleeper : Local → ℕ
is_sleeper asleep = 1
is_sleeper _ = 0

-- A thread that is going to mark the word as contended or to wake a sleeper.
abbrev is_obliged : Local → ℕ
is_obliged exchanging = 1
is_obliged releasing = 1
is_obliged waking = 1
is_obliged _ = 0

-- A thread that is awake and not before its first look at the lock.
abbrev pub is_active : Local → ℕ
is_active owner = 1
is_active p = is_obliged p

abbrev IsCovered : ℕ → ℕ → ℕ → Type 0
IsCovered w sleepers obliged = 0 < sleepers → (w ≡ 2) ⊎ (0 < obliged)

Move-IsCovered :
    {w w' : ℕ} {p p' : Local} (sleepers obliged : ℕ)
    → Move w p w' p'
    → IsCovered w (is_sleeper p + sleepers) (is_obliged p + obliged)
    → IsCovered w' (is_sleeper p' + sleepers) (is_obliged p' + obliged)
unfolding try_lock lock_attempt exchange_two unlock store_zero after_backoff
Move-IsCovered n m (begin_lock w) c = c
Move-IsCovered n m (do_try_lock w) c = ground arith
Move-IsCovered n m (attempt w) c = ground arith
Move-IsCovered n m (back_off reached w value) c = ground arith
Move-IsCovered n m (exchange w) c = ground arith
Move-IsCovered n m (wait_returns w) c = ground arith
Move-IsCovered n m (interrupted w) c = ground arith
Move-IsCovered n m (do_unlock w) c = ground arith
Move-IsCovered n m (store w) c = ground arith

sleeper-resume-le :
    (bs : List Bool) (ts : List Local) → tally is_sleeper (resume bs ts) ≤ tally is_sleeper ts
sleeper-resume-le [] ts = omega arith
sleeper-resume-le (b ∷ bs) [] = omega arith
sleeper-resume-le (b ∷ bs) (asleep ∷ ts) = ground (arith, sleeper-resume-le bs ts)
sleeper-resume-le (b ∷ bs) (p ∷ ts) = omega (arith, sleeper-resume-le bs ts)

none_blocked : (ts : List Local) → NoneBlocked (map is_asleep ts) → tally is_sleeper ts ≡ 0
none_blocked [] h = refl
none_blocked (asleep ∷ ts) h = cc (h.0)
none_blocked (p ∷ ts) h = omega (arith, none_blocked ts h.1)

-- The thread that the kernel wakes is obliged to look at the word.
one_wakes :
    (ts : List Local) (bs : List Bool)
    → OneWakes (map is_asleep ts) bs
    → 0 < tally is_obliged (resume bs ts)
one_wakes [] bs h = absurd h
one_wakes (p ∷ ts) [] h = absurd h
one_wakes (asleep ∷ ts) (b ∷ bs) h = ground (arith, one_wakes ts bs)
one_wakes (p ∷ ts) (b ∷ bs) h = ground (arith, one_wakes ts bs)

one-Rejoins : {ts us : List Local} → Rejoins true ts us → 0 < tally is_obliged us
one-Rejoins (stays p r) = omega (arith, one-Rejoins r)
one-Rejoins (wakes woken r) = omega arith
one-Rejoins (moves r) = omega (arith, one-Rejoins r)

module _ {kernel : Kernel} where
  Step-IsCovered :
      {s t : System}
      → Step kernel s t
      → IsCovered s.word (tally is_sleeper s.threads) (tally is_obliged s.threads)
      → IsCovered t.word (tally is_sleeper t.threads) (tally is_obliged t.threads)
  Step-IsCovered (move before after {p} {p'} mv) c =
      rw (tally-at is_sleeper before after p', tally-at is_obliged before after p')
        (Move-IsCovered (rest is_sleeper before after) (rest is_obliged before after) mv
          (rw (tally-at is_sleeper before after p, tally-at is_obliged before after p) at c))
  Step-IsCovered (sleep before after w b) c = λ p. inl (kernel.blocks_if_equal w 2 b)
  Step-IsCovered (wake before after w bs k) c = ground (
    arith,
    kernel.wakes_one (map is_asleep (before ++ outside ∷ after)) bs k,
    none_blocked (before ++ outside ∷ after),
    sleeper-resume-le bs (before ++ outside ∷ after),
    one_wakes (before ++ outside ∷ after) bs,
  )
  Step-IsCovered (rejoin w r) c = λ p. inr (one-Rejoins r)

  Reach-IsCovered :
      {s : System}
      → Reach kernel s
      → IsCovered s.word (tally is_sleeper s.threads) (tally is_obliged s.threads)
  Reach-IsCovered (start ts out) = ground (arith, tally-le is_sleeper is_inside sleeper_inside ts)
    where
      sleeper_inside : (p : Local) → is_sleeper p ≤ is_inside p
      sleeper_inside outside = omega arith
      sleeper_inside p = ground arith
  Reach-IsCovered (later r st) = Step-IsCovered st (Reach-IsCovered r)

  -- In every reachable state in which a thread sleeps in the kernel, another is awake that owns the
  -- lock, is in `unlock` before its `futex_wake`, or is about to exchange 2 into the word: the
  -- threads are never all asleep, and no wake-up is lost.
  pub futex_lock_wakeups :
      {s : System} → Reach kernel s → 0 < tally is_sleeper s.threads → 0 < tally is_active s.threads
  futex_lock_wakeups {s} r asleep_some = ground (
    arith,
    Reach-IsCovered r,
    Reach-IsCounted r,
    tally-le is_holder is_active holder_active s.threads,
    tally-le is_obliged is_active obliged_active s.threads,
  )
    where
      holder_active : (p : Local) → is_holder p ≤ is_active p
      holder_active owner = omega arith
      holder_active p = ground arith

      obliged_active : (p : Local) → is_obliged p ≤ is_active p
      obliged_active owner = omega arith
      obliged_active p = ground arith
