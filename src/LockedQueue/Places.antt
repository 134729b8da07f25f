-- ===== src/LockedQueue/Places.antt =====
-- Where the threads in the methods of a `synch_queue` of evenk/synch_queue.h can stand, and what a
-- thread that owns the lock knows of the members.
use evenk.Prelude.{
  ◌||◌, ◌&&◌, not, ℕ, ◌≤◌, ◌≡◌, Bool, true, false, List, [], ◌∷◌, ◌++◌, arith, if◌then◌else◌,
}
use evenk.Prelude.Threads.{tally, tally-at}
use evenk.Kernel.{Requeue}
use evenk.SynchQueue.{Queue}
use evenk.FutexLock.Moves as Lock
use evenk.FutexCondVar.Moves.{
  Local, in_lock, added, counted, requeueing, Words, back, at_cond, resume_lock, resume_cond,
  requeue_to, store_owner, count_in, load_value, unlock_sub, unlock_store, count_out, notify_add,
  load_count, load_owner,
}
use evenk.FutexCondVar.Steps.{
  Move, lock_move, begin_wait, do_store, do_count, do_load, do_unlock, do_zero, wait_returns,
  interrupted, interrupted_there, count_off, notify, see_count, see_owner,
}
use evenk.LockedQueue.Defs.{
  idle, leaving, push_test, close_store, Call, push_store, pop_test, pop_take, pop_closed, pop_wait,
}
use evenk.LockedQueue.Steps.{Thread, at, is_inner}
use evenk.LockedQueue.Below.{holding}

pub not_back : (holds : Bool) → is_inner (back holds) ≡ false
not_back holds = ground arith

module _ {ℓ} {A : Type ℓ} where
  -- Calls of a thread that has yet to get the lock, or to get it back.
  abbrev pub is_entering : Call A → Bool
  is_entering (push_test value) = true
  is_entering close_store = true
  is_entering (pop_test waits) = true
  is_entering _ = false

  abbrev pub is_waiting : Call A → Bool
  is_waiting (pop_test waits) = waits
  is_waiting _ = false

  abbrev pub is_leaving : Call A → Bool
  is_leaving (leaving status value) = true
  is_leaving _ = false

  abbrev pub is_idle : Call A → Bool
  is_idle idle = true
  is_idle _ = false

  -- What a thread can be about at a place.
  abbrev pub fits : Local → Call A → Bool
  fits (in_lock Lock.outside) c = is_idle c || is_leaving c
  fits (in_lock Lock.owner) c = not (is_idle c)
  fits (in_lock Lock.releasing) c = is_leaving c
  fits (in_lock Lock.waking) c = is_leaving c
  fits (in_lock p) c = is_entering c
  fits (added all holds) c = holds && is_leaving c
  fits (counted all holds) c = holds && is_leaving c
  fits (requeueing holds) c = holds && is_leaving c
  fits p c = is_waiting c

  abbrev pub misplaced_at : Local → Call A → ℕ
  misplaced_at p c = if fits p c then 0 else 1

  abbrev pub misplaced : Thread A → ℕ
  misplaced t = misplaced_at t.place t.call

  abbrev pub no_items : Queue A → Bool
  no_items q = elim q.items [ [] ↦ true | _ ∷ _ ↦ false ]

  -- What the last test told the owner of the lock does not hold of the members.
  abbrev pub wrong_call : Queue A → Call A → ℕ
  wrong_call q (push_store value) = if q.is_closed then 1 else 0
  wrong_call q pop_take = if no_items q then 1 else 0
  wrong_call q (pop_closed waits) = if no_items q then 0 else 1
  wrong_call q pop_wait = if no_items q then (if q.is_closed then 1 else 0) else 1
  wrong_call q _ = 0

  abbrev pub wrong_at : Queue A → Local → Call A → ℕ
  wrong_at q (in_lock Lock.owner) c = wrong_call q c
  wrong_at q _ c = 0

  abbrev pub wrong : Queue A → Thread A → ℕ
  wrong q t = wrong_at q t.place t.call

  pub record IsPlaced (q : Queue A) (ts : List (Thread A)) : Type ℓ where
    pub placed : tally misplaced ts ≡ 0
    pub right : tally (wrong q) ts ≡ 0

  entering-right :
      (q : Queue A) (c : Call A) → is_entering c ≡ true → (is_idle c ≡ false) × (wrong_call q c ≡ 0)
  entering-right q c e = ground arith

  pub leaving-right :
      (q : Queue A) (c : Call A) → is_leaving c ≡ true → (is_idle c ≡ false) × (wrong_call q c ≡ 0)
  leaving-right q c e = ground arith

  -- The same in the lock alone.
  LockMove-placed :
      {w w' : ℕ} {p p' : Lock.Local} (q : Queue A) (c : Call A)
      → is_inner (in_lock p) ≡ true
      → Lock.Move w p w' p'
      → fits (in_lock p) c ≡ true
      → (fits (in_lock p') c ≡ true) × (wrong_at q (in_lock p') c ≡ 0)
  unfolding Lock.lock_attempt Lock.after_backoff Lock.exchange_two Lock.store_zero
  LockMove-placed q c inner (Lock.begin_lock w) e = absurd (cc)
  LockMove-placed q c inner (Lock.do_try_lock w) e = absurd (cc)
  LockMove-placed q c inner (Lock.attempt w) e = ground (arith, entering-right q c)
  LockMove-placed q c inner (Lock.back_off reached w value) e = ground arith
  LockMove-placed q c inner (Lock.exchange w) e = ground (arith, entering-right q c)
  LockMove-placed q c inner (Lock.wait_returns w) e = ground arith
  LockMove-placed q c inner (Lock.interrupted w) e = ground arith
  LockMove-placed q c inner (Lock.do_unlock w) e = absurd (cc)
  LockMove-placed q c inner (Lock.store w) e = ground arith

  pub Move-placed :
      {m m' : Words} {p p' : Local} (q : Queue A) (c : Call A)
      → is_inner p ≡ true
      → Move m p m' p'
      → misplaced_at p c ≡ 0
      → (misplaced_at p' c ≡ 0) × (wrong_at q p' c ≡ 0)
  unfolding store_owner count_in load_value unlock_sub unlock_store count_out notify_add load_count
      load_owner
  Move-placed q c inner (lock_move m {w'} {p} {p'} mv) e =
      ground (arith, LockMove-placed q c inner mv)
  Move-placed q c inner (begin_wait m) e = absurd (cc)
  Move-placed q c inner (do_store m) e = ground arith
  Move-placed q c inner (do_count m) e = ground arith
  Move-placed q c inner (do_load m) e = ground arith
  Move-placed q c inner (do_unlock m value) e = ground arith
  Move-placed q c inner (do_zero m value) e = ground arith
  Move-placed q c inner (wait_returns m value) e = ground arith
  Move-placed q c inner (interrupted m value) e = ground arith
  Move-placed q c inner (interrupted_there m) e = ground arith
  Move-placed q c inner (count_off m) e = ground arith
  Move-placed q c inner (notify all holds m) e = absurd (cc (not_back holds))
  Move-placed q c inner (see_count all holds m) e = ground (arith, leaving-right q c)
  Move-placed q c inner (see_owner holds m) e = ground (arith, leaving-right q c)

  -- One thread goes elsewhere.
  pub place-Placed :
      (q : Queue A) (before after : List (Thread A)) (t t' : Thread A)
      → (misplaced t ≡ 0 → (misplaced t' ≡ 0) × (wrong q t' ≡ 0))
      → IsPlaced q (before ++ t ∷ after)
      → IsPlaced q (before ++ t' ∷ after)
  place-Placed q before after t t' goes i = ground (
    arith,
    i,
    tally-at misplaced before after t,
    tally-at misplaced before after t',
    tally-at (wrong q) before after t,
    tally-at (wrong q) before after t',
  )

  pub resume_lock-misplaced :
      (t : Thread A) → misplaced (at (resume_lock t.place) t.call) ≤ misplaced t
  resume_lock-misplaced t = ground arith

  pub resume_lock-wrong :
      (q : Queue A) (t : Thread A) → wrong q (at (resume_lock t.place) t.call) ≤ wrong q t
  resume_lock-wrong q t = ground arith

  pub resume_cond-misplaced :
      (t : Thread A) → misplaced (at (resume_cond t.place) t.call) ≤ misplaced t
  resume_cond-misplaced t = ground arith

  pub resume_cond-wrong :
      (q : Queue A) (t : Thread A) → wrong q (at (resume_cond t.place) t.call) ≤ wrong q t
  resume_cond-wrong q t = ground arith

  pub requeue-misplaced :
      (y : Requeue) (t : Thread A)
      → at_cond t.place ≡ true
      → misplaced (at (requeue_to y t.place) t.call) ≤ misplaced t
  requeue-misplaced y t e = ground arith

  pub requeue-wrong :
      (q : Queue A) (y : Requeue) (t : Thread A)
      → at_cond t.place ≡ true
      → wrong q (at (requeue_to y t.place) t.call) ≤ wrong q t
  requeue-wrong q y t e = ground arith

  -- Only the owner of the lock is wrong about anything.
  pub wrong-holding : (q : Queue A) (t : Thread A) → wrong q t ≤ holding t
  wrong-holding q t = ground arith
