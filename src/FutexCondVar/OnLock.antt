-- ===== src/FutexCondVar/OnLock.antt =====
-- What the accesses of `futex_cond_var` of evenk/synch.h are to the `futex_lock` beside it.
use evenk.Prelude.{
  ℕ, ◌≡◌, inl, inr, Bool, true, false, List, [], ◌∷◌, ◌++◌, if◌then◌else◌, map, map-append, refl,
  ap, ◌∙◌, arith,
}
use evenk.Kernel.{
  OneWakes, NoneBlocked, Requeue, Requeued, none_left, not_blocked, goes_on, is_moved,
}
use evenk.FutexLock.Moves as Lock
use evenk.FutexCondVar.Moves.{
  Local, in_lock, Words, lock_place, store_owner, count_in, load_value, unlock_sub, unlock_store,
  count_out, notify_add, load_count, load_owner, at_lock, at_cond, resume_lock, resume_cond, resume,
  requeue_all,
}
use evenk.FutexCondVar.Steps.{
  Move, lock_move, begin_wait, do_store, do_count, do_load, do_unlock, do_zero, wait_returns,
  interrupted, interrupted_there, count_off, notify, see_count, see_owner,
}

-- What a move is to the lock.
pub data OnLock (w : ℕ) (p : Lock.Local) (w' : ℕ) (p' : Lock.Local) : Type 0 where
  same : w' ≡ w → p' ≡ p → OnLock w p w' p'
  goes : Lock.Move w p w' p' → OnLock w p w' p'
  comes_back : w' ≡ w → p ≡ Lock.outside → p' ≡ Lock.exchanging → OnLock w p w' p'

pub Move-OnLock :
    {m m' : Words} {p p' : Local}
    → Move m p m' p'
    → OnLock m.lock (lock_place p) m'.lock (lock_place p')
unfolding store_owner count_in load_value unlock_sub unlock_store count_out notify_add load_count
    load_owner Lock.unlock Lock.store_zero
Move-OnLock (lock_move m mv) = goes mv
Move-OnLock (begin_wait m) = same refl refl
Move-OnLock (do_store m) = same refl refl
Move-OnLock (do_count m) = same refl refl
Move-OnLock (do_load m) = same refl refl
Move-OnLock (do_unlock m value) =
    let e : lock_place (unlock_sub value m).1 ≡ (Lock.unlock m.lock).1 = ground arith in
    goes (rw e (Lock.do_unlock m.lock))
Move-OnLock (do_zero m value) = goes (Lock.store m.lock)
Move-OnLock (wait_returns m value) = comes_back refl refl refl
Move-OnLock (interrupted m value) = comes_back refl refl refl
Move-OnLock (interrupted_there m) = goes (Lock.interrupted m.lock)
Move-OnLock (count_off m) = same refl refl
Move-OnLock (notify all holds m) = same refl refl
Move-OnLock (see_count all holds m) = same refl (ground arith)
Move-OnLock (see_owner holds m) = same refl (ground arith)

pub map-at :
    (before after : List Local) (p : Local)
    → map lock_place (before ++ p ∷ after)
      ≡ map lock_place before ++ lock_place p ∷ map lock_place after
map-at before after p = map-append lock_place before (p ∷ after)

pub asleep_at : (p : Local) → at_lock p ≡ Lock.is_asleep (lock_place p)
asleep_at (in_lock p) = ground arith
asleep_at p = ground arith

pub at_lock-asleep : (ts : List Local) → map at_lock ts ≡ map Lock.is_asleep (map lock_place ts)
at_lock-asleep [] = refl
at_lock-asleep (p ∷ ts) = cc (asleep_at p, at_lock-asleep ts)

abbrev goes_on_from : Lock.Local → Lock.Local
goes_on_from Lock.asleep = Lock.exchanging
goes_on_from p = p

pub resume-cons :
    (b : Bool) (bs : List Bool) (p : Lock.Local) (ts : List Lock.Local)
    → Lock.resume (b ∷ bs) (p ∷ ts) ≡ (if b then p else goes_on_from p) ∷ Lock.resume bs ts
resume-cons b bs p ts = ground arith

pub goes_on_at :
    (b : Bool) (p : Local)
    → lock_place (if b then p else resume_lock p)
      ≡ (if b then lock_place p else goes_on_from (lock_place p))
goes_on_at b (in_lock p) = ground arith
goes_on_at b p = ground arith

pub resume-resume :
    (bs : List Bool) (ts : List Local)
    → map lock_place (resume resume_lock bs ts) ≡ Lock.resume bs (map lock_place ts)
resume-resume [] ts = refl
resume-resume (b ∷ bs) [] = refl
resume-resume (b ∷ bs) (p ∷ ts) =
    cc (goes_on_at b p, resume-resume bs ts, resume-cons b bs (lock_place p) (map lock_place ts))

pub stays_at : (p : Local) → (if at_cond p then p else resume_cond p) ≡ p
stays_at p = ground arith

pub resume_cond-same : (ts : List Local) → resume resume_cond (map at_cond ts) ts ≡ ts
resume_cond-same [] = refl
resume_cond-same (p ∷ ts) = cc (stays_at p, resume_cond-same ts)

pub none-Rejoins : (ts : List Lock.Local) → Lock.Rejoins false ts ts
none-Rejoins [] = Lock.nobody
none-Rejoins (p ∷ ts) = Lock.stays p (none-Rejoins ts)

pub one-Rejoins_at :
    (before after : List Lock.Local)
    → Lock.Rejoins true (before ++ Lock.outside ∷ after) (before ++ Lock.exchanging ∷ after)
one-Rejoins_at [] after = Lock.wakes false (none-Rejoins after)
one-Rejoins_at (p ∷ before) after = Lock.stays p (one-Rejoins_at before after)

pub at_cond-outside : (p : Local) → at_cond p ≡ true → lock_place p ≡ Lock.outside
at_cond-outside p h = ground arith

pub resume_cond-awake :
    (p : Local) → at_cond p ≡ true → lock_place (resume_cond p) ≡ Lock.exchanging
resume_cond-awake p h = ground arith

pub OneWakes-Rejoins :
    (ts : List Local) (bs : List Bool)
    → OneWakes (map at_cond ts) bs
    → Lock.Rejoins true (map lock_place ts) (map lock_place (resume resume_cond bs ts))
OneWakes-Rejoins [] bs h = absurd h
OneWakes-Rejoins (p ∷ ts) [] h = absurd h
OneWakes-Rejoins (p ∷ ts) (b ∷ bs) (inl (e, e', rest)) =
    rw (e', rest, resume_cond-same ts, at_cond-outside p e, resume_cond-awake p e)
      (Lock.wakes false (none-Rejoins (map lock_place ts)))
OneWakes-Rejoins (p ∷ ts) (b ∷ bs) (inr (e, h)) =
    rw (e, stays_at p) (Lock.stays (lock_place p) (OneWakes-Rejoins ts bs h))

pub requeue-Rejoins :
    {woken : Bool} {xs : List Bool} {ys : List Requeue} (ts : List Local)
    → Requeued woken xs ys
    → xs ≡ map at_cond ts
    → Lock.Rejoins woken (map lock_place ts) (map lock_place (requeue_all ys ts))
requeue-Rejoins [] none_left e = Lock.nobody
requeue-Rejoins (p ∷ ts) none_left e = absurd (cc)
requeue-Rejoins [] (not_blocked r) e = absurd (cc)
requeue-Rejoins [] (goes_on woken r) e = absurd (cc)
requeue-Rejoins [] (is_moved r) e = absurd (cc)
requeue-Rejoins (p ∷ ts) (not_blocked r) e = Lock.stays (lock_place p) (requeue-Rejoins ts r (cc))
requeue-Rejoins (p ∷ ts) (goes_on woken r) e =
    rw (at_cond-outside p (cc)) (Lock.wakes woken (requeue-Rejoins ts r (cc)))
requeue-Rejoins (p ∷ ts) (is_moved r) e =
    rw (at_cond-outside p (cc)) (Lock.moves (requeue-Rejoins ts r (cc)))

pub none_blocked-resume :
    (ts : List Local) (bs : List Bool)
    → bs ≡ map at_cond ts
    → map lock_place (resume resume_cond bs ts) ≡ map lock_place ts
none_blocked-resume ts bs e =
    ap (map lock_place) (ap (λ cs. resume resume_cond cs ts) e ∙ resume_cond-same ts)

-- Where nobody is blocked, FUTEX_REQUEUE changes nothing.
pub still_at :
    {woken : Bool} {xs : List Bool} {ys : List Requeue} (ts : List Local)
    → Requeued woken xs ys
    → NoneBlocked xs
    → xs ≡ map at_cond ts
    → requeue_all ys ts ≡ ts
still_at [] none_left free e = refl
still_at [] (not_blocked r) free e = absurd (cc)
still_at [] (goes_on woken r) free e = absurd (cc)
still_at [] (is_moved r) free e = absurd (cc)
still_at (p ∷ ts) none_left free e = absurd (cc)
still_at (p ∷ ts) (not_blocked r) free e = ap (λ us. p ∷ us) (still_at ts r free.1 (cc))
still_at (p ∷ ts) (goes_on woken r) free e = absurd (cc (free.0))
still_at (p ∷ ts) (is_moved r) free e = absurd (cc (free.0))

pub back_at :
    (before after : List Local) (p p' : Local)
    → lock_place p' ≡ lock_place p
    → map lock_place (before ++ p' ∷ after) ≡ map lock_place (before ++ p ∷ after)
back_at before after p p' e = rw (map-at before after p, map-at before after p', e) refl
