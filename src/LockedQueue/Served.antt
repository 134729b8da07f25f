-- ===== src/LockedQueue/Served.antt =====
-- What a step of a thread leaves of the notices in a `synch_queue` of evenk/synch_queue.h.
use evenk.Prelude.{ℕ, ◌+◌, ◌≤◌, ◌<◌, ◌≡◌, true, List, ◌∷◌, ◌++◌, arith}
use evenk.Prelude.Threads.{tally, rest, tally-at, rest-le, rest-le_add}
use evenk.SynchQueue.{Queue}
use evenk.FutexLock.Exclusion.{is_holder}
use evenk.FutexCondVar.Moves.{
  Local, Words, lock_place, store_owner, count_in, load_value, unlock_sub, unlock_store, count_out,
  notify_add, load_count, load_owner,
}
use evenk.FutexCondVar.Steps.{
  Move, lock_move, begin_wait, do_store, do_count, do_load, do_unlock, do_zero, wait_returns,
  interrupted, interrupted_there, count_off, notify, see_count, see_owner,
}
use evenk.FutexCondVar.Kept.{is_counted, is_past_owner}
use evenk.FutexCondVar.Wakeups.{is_blocked}
use evenk.LockedQueue.Defs.{Call}
use evenk.LockedQueue.Steps.{Thread, at, is_inner}
use evenk.LockedQueue.Below.{holding, counts, past_owner, IsSound}
use evenk.LockedQueue.Places.{misplaced_at, misplaced, not_back}
use evenk.LockedQueue.Notices.{
  fresh_at, beyond_at, telling_at, coming_at, owes_one_at, owes_all_at, fresh, blocks, beyond,
  telling, coming, owes_one, owes_all, Served, IsServed, telling-holding, fresh_counts,
  blocks_counts,
}

module _ {ℓ} {A : Type ℓ} where
  -- What the others are to the thread that moves.
  pub record Beside (m : Words) (p : Local) (c : Call A) (held counted fresh blocks telling : ℕ)
      : Type 0 where
    pub one_holder : is_holder (lock_place p) + held ≤ 1
    pub placed : misplaced_at p c ≡ 0
    pub told : telling ≤ held
    pub new : fresh ≤ counted + held
    pub asleep : blocks ≤ counted
    pub count : m.count ≡ is_counted p + counted
    pub owner : 0 < is_past_owner p → m.has_owner ≡ true

  pub Move-Served :
      {m m' : Words} {p p' : Local} (q : Queue A) (c : Call A) (h n f b y t k o l : ℕ)
      → is_inner p ≡ true
      → Move m p m' p'
      → Beside m p c h n f b t
      → Served q
          (fresh_at m.futex p + f)
          (is_blocked p + b)
          (beyond_at m.futex p + y)
          (telling_at p + t)
          (coming_at m.futex p c + k)
          (owes_one_at p c + o)
          (owes_all_at p c + l)
      → Served q
          (fresh_at m.futex p' + f)
          (is_blocked p' + b)
          (beyond_at m.futex p' + y)
          (telling_at p' + t)
          (coming_at m.futex p' c + k)
          (owes_one_at p' c + o)
          (owes_all_at p' c + l)
  unfolding store_owner count_in load_value unlock_sub unlock_store count_out notify_add load_count
      load_owner
  Move-Served q c h n f b y t k o l inner (lock_move m mv) z i = ground (arith, i)
  Move-Served q c h n f b y t k o l inner (begin_wait m) z i = absurd (cc)
  Move-Served q c h n f b y t k o l inner (do_store m) z i = ground (arith, i)
  Move-Served q c h n f b y t k o l inner (do_count m) z i = ground (arith, i)
  Move-Served q c h n f b y t k o l inner (do_load m) z i = ground (arith, i, z)
  Move-Served q c h n f b y t k o l inner (do_unlock m value) z i = ground (arith, i)
  Move-Served q c h n f b y t k o l inner (do_zero m value) z i = ground (arith, i)
  Move-Served q c h n f b y t k o l inner (wait_returns m value) z i = ground (arith, i, z)
  Move-Served q c h n f b y t k o l inner (interrupted m value) z i = ground (arith, i, z)
  Move-Served q c h n f b y t k o l inner (interrupted_there m) z i = ground (arith, i)
  Move-Served q c h n f b y t k o l inner (count_off m) z i = ground (arith, i)
  Move-Served q c h n f b y t k o l inner (notify all holds m) z i = absurd (cc (not_back holds))
  Move-Served q c h n f b y t k o l inner (see_count all holds m) z i = ground (arith, i, z)
  Move-Served q c h n f b y t k o l inner (see_owner holds m) z i = ground (arith, i, z)

  -- Numbers in the place of the weights.
  pub Served-le :
      {q : Queue A} {f f' b b' y y' t t' c c' o o' l l' : ℕ}
      → f' + b' ≤ f + b
      → f' ≤ f
      → y' ≤ y
      → t' ≤ t
      → c + o ≤ c' + o'
      → l ≤ l'
      → Served q f b y t c o l
      → Served q f' b' y' t' c' o' l'
  Served-le fb fewer yb tb co lb i = ground (arith, i)

  -- The weights of one thread and of the others.
  abbrev pub ServedAt : ℕ → Queue A → List (Thread A) → List (Thread A) → Thread A → Type 0
  ServedAt futex q before after t =
      Served q (fresh futex t + rest (fresh futex) before after)
        (blocks t + rest blocks before after) (beyond futex t + rest (beyond futex) before after)
        (telling t + rest telling before after) (coming futex t + rest (coming futex) before after)
        (owes_one t + rest owes_one before after) (owes_all t + rest owes_all before after)

  pub split-Served :
      (futex : ℕ) (q : Queue A) (before after : List (Thread A)) (t : Thread A)
      → IsServed futex q (before ++ t ∷ after)
      → ServedAt futex q before after t
  split-Served futex q before after t i =
      rw
        (
          tally-at (fresh futex) before after t,
          tally-at blocks before after t,
          tally-at (beyond futex) before after t,
          tally-at telling before after t,
          tally-at (coming futex) before after t,
          tally-at owes_one before after t,
          tally-at owes_all before after t,
        )
        at i

  pub join-Served :
      (futex : ℕ) (q : Queue A) (before after : List (Thread A)) (t : Thread A)
      → ServedAt futex q before after t
      → IsServed futex q (before ++ t ∷ after)
  join-Served futex q before after t i =
      rw
        (
          tally-at (fresh futex) before after t,
          tally-at blocks before after t,
          tally-at (beyond futex) before after t,
          tally-at telling before after t,
          tally-at (coming futex) before after t,
          tally-at owes_one before after t,
          tally-at owes_all before after t,
        )
        i

  -- A thread changes its place or its call, with the members and the word as they were.
  pub place-Served :
      (futex : ℕ) (q : Queue A) (before after : List (Thread A)) (t t' : Thread A)
      → fresh futex t' + blocks t' ≤ fresh futex t + blocks t
      → fresh futex t' ≤ fresh futex t
      → beyond futex t' ≤ beyond futex t
      → telling t' ≤ telling t
      → coming futex t + owes_one t ≤ coming futex t' + owes_one t'
      → owes_all t ≤ owes_all t'
      → IsServed futex q (before ++ t ∷ after)
      → IsServed futex q (before ++ t' ∷ after)
  place-Served futex q before after t t' fb f y tl k l i = join-Served futex q before after t' (
      Served-le (omega arith) (omega arith) (omega arith) (omega arith) (omega arith) (omega arith)
        (split-Served futex q before after t i))

  -- What the others are to a thread.
  pub beside :
      (before after : List (Thread A)) (m : Words) (p : Local) (c : Call A)
      → IsSound m (before ++ at p c ∷ after)
      → tally misplaced (before ++ at p c ∷ after) ≡ 0
      → Beside m p c
          (rest holding before after)
          (rest counts before after)
          (rest (fresh m.futex) before after)
          (rest blocks before after)
          (rest telling before after)
  beside before after m p c s e = ground (
    arith,
    s,
    tally-at holding before after (at p c),
    tally-at misplaced before after (at p c),
    tally-at counts before after (at p c),
    tally-at past_owner before after (at p c),
    rest-le_add telling holding misplaced telling-holding before after,
    rest-le_add (fresh m.futex) counts holding (fresh_counts m.futex) before after,
    rest-le blocks counts blocks_counts before after,
  )
