-- ===== src/FutexCondVar/Steps.antt =====
-- Any number of threads that use one `futex_lock` and one `futex_cond_var` of evenk/synch.h.
use evenk.Prelude.{ℕ, ◌^◌, ◌<◌, ◌≡◌, Bool, true, false, List, ◌∷◌, ◌++◌, map, length}
use evenk.Prelude.Threads.{tally}
use evenk.Kernel.{Kernel, Requeue}
use evenk.FutexLock.Moves as Lock
use evenk.FutexCondVar.Moves.{
  Local, in_lock, storing, counting, loading, unlocking, releasing, waking, to_wait, blocked,
  requeued, awake, added, counted, requeueing, Words, store_owner, count_in, load_value, unlock_sub,
  unlock_store, count_out, back, notify_add, load_count, load_owner, at_lock, at_cond, resume_lock,
  resume_cond, resume, requeue_all,
}

pub record System : Type 0 where
  pub words : Words
  pub threads : List Local

-- What one thread does by itself.
pub data Move : Words → Local → Words → Local → Type 0 where
  lock_move :
      (m : Words) {w' : ℕ} {p p' : Lock.Local}
      → Lock.Move m.lock p w' p'
      → Move m (in_lock p) (record m { lock = w' }) (in_lock p')
  begin_wait : (m : Words) → Move m (in_lock Lock.owner) m storing
  do_store : (m : Words) → Move m storing (store_owner m).0 (store_owner m).1
  do_count : (m : Words) → Move m counting (count_in m).0 (count_in m).1
  do_load : (m : Words) → Move m loading m (load_value m)
  do_unlock :
      (m : Words) (value : ℕ)
      → Move m (unlocking value) (unlock_sub value m).0 (unlock_sub value m).1
  do_zero :
      (m : Words) (value : ℕ)
      → Move m (releasing value) (unlock_store value m).0 (unlock_store value m).1
  -- `futex_wait` returns with no wait, for another value or a signal, or a signal ends the wait.
  wait_returns : (m : Words) (value : ℕ) → Move m (to_wait value) m awake
  interrupted : (m : Words) (value : ℕ) → Move m (blocked value) m awake
  interrupted_there : (m : Words) → Move m requeued m awake
  count_off : (m : Words) → Move m awake (count_out m).0 (count_out m).1
  notify :
      (all holds : Bool) (m : Words)
      → Move m (back holds) (notify_add all holds m).0 (notify_add all holds m).1
  see_count : (all holds : Bool) (m : Words) → Move m (added all holds) m (load_count all holds m)
  see_owner : (holds : Bool) (m : Words) → Move m (counted true holds) m (load_owner holds m)

-- The call of `futex_wake(futex_, 1)` of the lock's `unlock`.
pub data Wakes : Local → Local → Type 0 where
  in_unlock : Wakes (in_lock Lock.waking) (in_lock Lock.outside)
  in_wait : (value : ℕ) → Wakes (waking value) (to_wait value)

abbrev pub is_inside : Local → ℕ
is_inside (in_lock Lock.outside) = 0
is_inside _ = 1

module _ (kernel : Kernel) where
  pub data Step : System → System → Type 0 where
    move :
        (before after : List Local) {m m' : Words} {p p' : Local}
        → Move m p m' p'
        → Step
            (record { words = m; threads = before ++ p ∷ after })
            (record { words = m'; threads = before ++ p' ∷ after })
    lock_sleep :
        (before after : List Local) (m : Words)
        → kernel.Blocks m.lock 2
        → Step
            (record { words = m; threads = before ++ in_lock Lock.to_wait ∷ after })
            (record { words = m; threads = before ++ in_lock Lock.asleep ∷ after })
    lock_wake :
        (before after : List Local) (m : Words) (bs : List Bool) {p p' : Local}
        → Wakes p p'
        → kernel.Wakes (map at_lock (before ++ p' ∷ after)) bs
        → Step
            (record { words = m; threads = before ++ p ∷ after })
            (record { words = m; threads = resume resume_lock bs (before ++ p' ∷ after) })
    cond_sleep :
        (before after : List Local) (m : Words) (value : ℕ)
        → kernel.Blocks m.futex value
        → Step
            (record { words = m; threads = before ++ to_wait value ∷ after })
            (record { words = m; threads = before ++ blocked value ∷ after })
    -- `futex_wake(futex_, 1)` of `notify_one`
    cond_wake :
        (before after : List Local) (m : Words) (bs : List Bool) (holds : Bool)
        → kernel.Wakes (map at_cond (before ++ back holds ∷ after)) bs
        → Step
            (record { words = m; threads = before ++ counted false holds ∷ after })
            (record { words = m; threads = resume resume_cond bs (before ++ back holds ∷ after) })
    -- `futex_requeue` of `notify_all`
    cond_requeue :
        (before after : List Local) (m : Words) (ys : List Requeue) (holds : Bool)
        → kernel.Requeues (map at_cond (before ++ back holds ∷ after)) ys
        → Step
            (record { words = m; threads = before ++ requeueing holds ∷ after })
            (record { words = m; threads = requeue_all ys (before ++ back holds ∷ after) })

  -- Fewer threads than the count of 32 bits can tell apart, none of them in a call.
  pub data Reach : System → Type 0 where
    start :
        (ts : List Local)
        → length ts < 2 ^ 32
        → tally is_inside ts ≡ 0
        → Reach (record {
          words = record {
            lock = 0;
            futex = 0;
            count = 0;
            has_owner = false;
            notified = 0;
            broadcast = 0;
          };
          threads = ts;
        })
    later : {s t : System} → Reach s → Step s t → Reach t
