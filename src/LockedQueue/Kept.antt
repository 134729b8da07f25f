-- ===== src/LockedQueue/Kept.antt =====
-- What the steps of a thread that change nothing but its place leave of the notices in a `synch_queue`
-- of evenk/synch_queue.h.
use evenk.Prelude.{ℕ, ◌+◌, ◌≤◌, ◌≡◌, refl, Bool, true, List, ◌∷◌, ◌++◌, arith}
use evenk.Prelude.Threads.{tally, rest, tally-at}
use evenk.SynchQueue.{Queue}
use evenk.FutexLock.Moves as Lock
use evenk.FutexCondVar.Moves.{
  Local, in_lock, counted, Words, back, notify_add, store_owner, count_in, unlock_sub, unlock_store,
  count_out,
}
use evenk.FutexCondVar.Steps as Inner
use evenk.FutexCondVar.Steps.{Move, in_unlock, in_wait}
use evenk.FutexCondVar.Kept.{is_broadcasting}
use evenk.FutexCondVar.Wakeups.{is_blocked}
use evenk.LockedQueue.Defs.{Call, idle, is_first, is_nonblocking, tried}
use evenk.LockedQueue.Steps.{Thread, at, is_inner}
use evenk.LockedQueue.Below.{IsSound, holding, counts}
use evenk.LockedQueue.Places.{not_back, misplaced}
use evenk.LockedQueue.Placed.{back-placed}
use evenk.LockedQueue.Notices.{
  fresh_at, beyond_at, telling_at, one_at, fresh, blocks, beyond, telling, coming, owes_one,
  owes_all, IsServed,
}
use evenk.LockedQueue.Served.{split-Served, join-Served, place-Served, Move-Served, beside}

Move-futex : {m m' : Words} {p p' : Local} → is_inner p ≡ true → Move m p m' p' → m'.futex ≡ m.futex
unfolding store_owner count_in unlock_sub unlock_store count_out notify_add
Move-futex inner (Inner.lock_move m mv) = refl
Move-futex inner (Inner.begin_wait m) = refl
Move-futex inner (Inner.do_store m) = refl
Move-futex inner (Inner.do_count m) = refl
Move-futex inner (Inner.do_load m) = refl
Move-futex inner (Inner.do_unlock m value) = refl
Move-futex inner (Inner.do_zero m value) = refl
Move-futex inner (Inner.wait_returns m value) = refl
Move-futex inner (Inner.interrupted m value) = refl
Move-futex inner (Inner.interrupted_there m) = refl
Move-futex inner (Inner.count_off m) = refl
Move-futex inner (Inner.notify all holds m) = absurd (cc (not_back holds))
Move-futex inner (Inner.see_count all holds m) = refl
Move-futex inner (Inner.see_owner holds m) = refl

pub Move-notified : {m m' : Words} {p p' : Local} → Move m p m' p' → m.notified ≤ m'.notified
unfolding store_owner count_in unlock_sub unlock_store count_out notify_add
Move-notified (Inner.notify all holds m) = omega arith
Move-notified mv = omega arith

module _ {ℓ} {A : Type ℓ} where
  pub begin-Served :
      (futex : ℕ) (q : Queue A) (before after : List (Thread A)) (c : Call A)
      → is_first c ≡ true
      → IsServed futex q (before ++ at (in_lock Lock.outside) idle ∷ after)
      → IsServed futex q (before ++ at (in_lock Lock.trying) c ∷ after)
  begin-Served futex q before after c first i =
      place-Served futex q before after (at (in_lock Lock.outside) idle)
        (at (in_lock Lock.trying) c) (omega arith) (omega arith) (omega arith) (omega arith)
        (ground arith) (ground arith) i

  pub try-Served :
      (futex w : ℕ) (q : Queue A) (before after : List (Thread A)) (c : Call A)
      → is_nonblocking c ≡ true
      → IsServed futex q (before ++ at (in_lock Lock.outside) idle ∷ after)
      → IsServed futex q
          (before ++ at (in_lock (Lock.try_lock w).1) (tried (Lock.try_lock w).1 c) ∷ after)
  unfolding Lock.try_lock
  try-Served futex w q before after c nonblocking i =
      place-Served futex q before after (at (in_lock Lock.outside) idle)
        (at (in_lock (Lock.try_lock w).1) (tried (Lock.try_lock w).1 c)) (ground arith)
        (ground arith) (ground arith) (ground arith) (ground arith) (ground arith) i

  pub unlock-Served :
      (futex w : ℕ) (q : Queue A) (before after : List (Thread A)) (c : Call A)
      → IsServed futex q (before ++ at (in_lock Lock.owner) c ∷ after)
      → IsServed futex q (before ++ at (in_lock (Lock.unlock w).1) c ∷ after)
  unfolding Lock.unlock
  unlock-Served futex w q before after c i =
      place-Served futex q before after (at (in_lock Lock.owner) c)
        (at (in_lock (Lock.unlock w).1) c) (ground arith) (ground arith) (ground arith)
        (ground arith) (ground arith) (ground arith) i

  -- The place changes and the call does not; neither a notice nor a wait begins or ends.
  pub stay-Served :
      (futex : ℕ) (q : Queue A) (before after : List (Thread A)) (p p' : Local) (c : Call A)
      → fresh_at futex p' + is_blocked p' ≡ fresh_at futex p + is_blocked p
      → fresh_at futex p' ≤ fresh_at futex p
      → beyond_at futex p' ≤ beyond_at futex p
      → telling_at p' ≡ telling_at p
      → one_at p' ≡ one_at p
      → is_broadcasting p' ≡ is_broadcasting p
      → IsServed futex q (before ++ at p c ∷ after)
      → IsServed futex q (before ++ at p' c ∷ after)
  stay-Served futex q before after p p' c fb f y w o l i =
      place-Served futex q before after (at p c) (at p' c) (omega arith) f y (omega arith)
        (ground arith) (ground arith) i

  pub move-Served :
      (before after : List (Thread A)) (m m' : Words) (p p' : Local) (q : Queue A) (c : Call A)
      → is_inner p ≡ true
      → Move m p m' p'
      → IsSound m (before ++ at p c ∷ after)
      → tally misplaced (before ++ at p c ∷ after) ≡ 0
      → IsServed m.futex q (before ++ at p c ∷ after)
      → IsServed m'.futex q (before ++ at p' c ∷ after)
  move-Served before after m m' p p' q c inner mv s e i = rw (Move-futex inner mv) (
      join-Served m.futex q before after (at p' c) (
        Move-Served q c (rest holding before after) (rest counts before after)
          (rest (fresh m.futex) before after) (rest blocks before after)
          (rest (beyond m.futex) before after) (rest telling before after)
          (rest (coming m.futex) before after) (rest owes_one before after)
          (rest owes_all before after) inner mv (beside before after m p c s e)
          (split-Served m.futex q before after (at p c) i)))

  pub back-misplaced :
      (before after : List (Thread A)) (q : Queue A) (all holds : Bool) (c : Call A)
      → tally misplaced (before ++ at (counted all holds) c ∷ after) ≡ 0
      → tally misplaced (before ++ at (back holds) c ∷ after) ≡ 0
  back-misplaced before after q all holds c e = ground (
    arith,
    back-placed q all holds c,
    tally-at misplaced before after (at (counted all holds) c),
    tally-at misplaced before after (at (back holds) c),
  )
