-- ===== src/LockedQueue/Steps.antt =====
-- Any number of threads in the methods of one `synch_queue` of evenk/synch_queue.h, with the lock
-- and the condition variable that `default_synch` of evenk/synch.h has on Linux.
use evenk.Prelude.{
  ℕ, ◌^◌, ◌<◌, ◌≡◌, Bool, true, false, Option, none, List, [], ◌∷◌, ◌++◌, map, length,
  if◌then◌else◌,
}
use evenk.Prelude.Threads.{tally}
use evenk.Kernel.{Kernel, Requeue}
use evenk.Status.{Status, success}
use evenk.SynchQueue.{Queue, synch_queue}
use evenk.FutexLock.Moves as Lock
use evenk.FutexCondVar.Moves.{
  Local, in_lock, storing, to_wait, blocked, counted, requeueing, Words, back, notify_add, at_lock,
  at_cond, resume_lock, resume_cond, requeue_to,
}
use evenk.FutexCondVar.Steps.{Move, Wakes, is_inside}
use evenk.LockedQueue.Defs.{
  Call, idle, notify, pop_test, pop_wait, leaving, access, is_access, is_first, is_nonblocking,
  tried, Event, events,
}

-- `place`: where the thread stands in the lock and the condition variable. `call`: what it is about
-- in the method, once it stands as the owner of the lock.
pub record Thread {ℓ} (A : Type ℓ) : Type ℓ where
  pub place : Local
  pub call : Call A

-- `log` is a record for the proofs: what has been done, the last first.
pub record System {ℓ} (A : Type ℓ) : Type ℓ where
  pub words : Words
  pub queue : Queue A
  pub log : List (Event A)
  pub threads : List (Thread A)

-- In `lock`, in `unlock`, in `wait` or in a call of `notify_one` or `notify_all`: the method goes on
-- elsewhere.
abbrev pub is_inner : Local → Bool
is_inner (in_lock Lock.outside) = false
is_inner (in_lock Lock.owner) = false
is_inner _ = true

module _ {ℓ} {A : Type ℓ} where
  abbrev pub at : Local → Call A → Thread A
  at p c = record { place = p; call = c }

  -- The kernel changes only places.
  abbrev pub resume : (Local → Local) → List Bool → List (Thread A) → List (Thread A)
  resume to [] ts = ts
  resume to (b ∷ bs) [] = []
  resume to (b ∷ bs) (t ∷ ts) = at (if b then t.place else to t.place) t.call ∷ resume to bs ts

  abbrev pub requeue_all : List Requeue → List (Thread A) → List (Thread A)
  requeue_all [] ts = ts
  requeue_all (y ∷ ys) [] = []
  requeue_all (y ∷ ys) (t ∷ ts) = at (requeue_to y t.place) t.call ∷ requeue_all ys ts

  abbrev pub places : List (Thread A) → List Local
  places ts = map (λ (t : Thread A). t.place) ts

  abbrev pub system : Words → Queue A → List (Event A) → List (Thread A) → System A
  system m q log ts = record { words = m; queue = q; log = log; threads = ts }

  -- A thread is in a method.
  abbrev pub is_calling : Thread A → ℕ
  is_calling t = elim t.call [ idle ↦ is_inside t.place | _ ↦ 1 ]

module _ {ℓ} {A : Type ℓ} (kernel : Kernel) where
  pub data Step : System A → System A → Type ℓ where
    -- A method is called: its lock owner calls `lock`.
    begin :
        (before after : List (Thread A)) (m : Words) (q : Queue A) (log : List (Event A))
        (c : Call A)
        → is_first c ≡ true
        → Step
            (system m q log (before ++ at (in_lock Lock.outside) idle ∷ after))
            (system m q log (before ++ at (in_lock Lock.trying) c ∷ after))
    -- A method that does not block is called: its lock owner calls `try_lock`.
    begin_try :
        (before after : List (Thread A)) (m : Words) (q : Queue A) (log : List (Event A))
        (c : Call A)
        → is_nonblocking c ≡ true
        → Step (system m q log (before ++ at (in_lock Lock.outside) idle ∷ after)) (
            system
              (record m { lock = (Lock.try_lock m.lock).0 })
              q
              log
              (before
                ++ at (in_lock (Lock.try_lock m.lock).1) (tried (Lock.try_lock m.lock).1 c)
                  ∷ after))
    do_access :
        (before after : List (Thread A)) (m : Words) (q : Queue A) (log : List (Event A))
        (c : Call A)
        → is_access c ≡ true
        → Step (system m q log (before ++ at (in_lock Lock.owner) c ∷ after)) (
            system m
              (access c q).1
              (events c (access c q).0 ++ log)
              (before ++ at (in_lock Lock.owner) (access c q).0 ∷ after))
    -- `cond_.wait(guard)`, after which the loop of `wait_pop` calls `locked_pop` again.
    begin_wait :
        (before after : List (Thread A)) (m : Words) (q : Queue A) (log : List (Event A))
        → Step
            (system m q log (before ++ at (in_lock Lock.owner) pop_wait ∷ after))
            (system m q log (before ++ at storing (pop_test true) ∷ after))
    -- The first access of `notify_one` and `notify_all`, whose caller owns the lock.
    begin_notify :
        (before after : List (Thread A)) (m : Words) (q : Queue A) (log : List (Event A))
        (all : Bool)
        → Step (system m q log (before ++ at (in_lock Lock.owner) (notify all) ∷ after)) (
            system
              (notify_add all true m).0
              q
              log
              (before ++ at (notify_add all true m).1 (leaving success none) ∷ after))
    -- The destructor of the lock owner.
    do_unlock :
        (before after : List (Thread A)) (m : Words) (q : Queue A) (log : List (Event A))
        (status : Status) (value : Option A)
        → Step (system m q log (before ++ at (in_lock Lock.owner) (leaving status value) ∷ after)) (
            system
              (record m { lock = (Lock.unlock m.lock).0 })
              q
              log
              (before ++ at (in_lock (Lock.unlock m.lock).1) (leaving status value) ∷ after))
    do_return :
        (before after : List (Thread A)) (m : Words) (q : Queue A) (log : List (Event A))
        (status : Status) (value : Option A)
        → Step
            (system m q log (before ++ at (in_lock Lock.outside) (leaving status value) ∷ after))
            (system m q log (before ++ at (in_lock Lock.outside) idle ∷ after))
    move :
        (before after : List (Thread A)) {m m' : Words} {p p' : Local} (q : Queue A)
        (log : List (Event A)) (c : Call A)
        → is_inner p ≡ true
        → Move m p m' p'
        → Step
            (system m q log (before ++ at p c ∷ after))
            (system m' q log (before ++ at p' c ∷ after))
    lock_sleep :
        (before after : List (Thread A)) (m : Words) (q : Queue A) (log : List (Event A))
        (c : Call A)
        → kernel.Blocks m.lock 2
        → Step
            (system m q log (before ++ at (in_lock Lock.to_wait) c ∷ after))
            (system m q log (before ++ at (in_lock Lock.asleep) c ∷ after))
    lock_wake :
        (before after : List (Thread A)) (m : Words) (q : Queue A) (log : List (Event A))
        (c : Call A) (bs : List Bool) {p p' : Local}
        → Wakes p p'
        → kernel.Wakes (map at_lock (places (before ++ at p' c ∷ after))) bs
        → Step
            (system m q log (before ++ at p c ∷ after))
            (system m q log (resume resume_lock bs (before ++ at p' c ∷ after)))
    cond_sleep :
        (before after : List (Thread A)) (m : Words) (q : Queue A) (log : List (Event A))
        (c : Call A) (value : ℕ)
        → kernel.Blocks m.futex value
        → Step
            (system m q log (before ++ at (to_wait value) c ∷ after))
            (system m q log (before ++ at (blocked value) c ∷ after))
    cond_wake :
        (before after : List (Thread A)) (m : Words) (q : Queue A) (log : List (Event A))
        (c : Call A) (bs : List Bool) (holds : Bool)
        → kernel.Wakes (map at_cond (places (before ++ at (back holds) c ∷ after))) bs
        → Step
            (system m q log (before ++ at (counted false holds) c ∷ after))
            (system m q log (resume resume_cond bs (before ++ at (back holds) c ∷ after)))
    cond_requeue :
        (before after : List (Thread A)) (m : Words) (q : Queue A) (log : List (Event A))
        (c : Call A) (ys : List Requeue) (holds : Bool)
        → kernel.Requeues (map at_cond (places (before ++ at (back holds) c ∷ after))) ys
        → Step
            (system m q log (before ++ at (requeueing holds) c ∷ after))
            (system m q log (requeue_all ys (before ++ at (back holds) c ∷ after)))

  -- A new queue, and fewer threads than the 32 bits of `count_` can tell apart, none in a method.
  pub data Reach : System A → Type ℓ where
    start :
        (ts : List (Thread A))
        → length ts < 2 ^ 32
        → tally is_calling ts ≡ 0
        → Reach (
            system
              (record {
                lock = 0;
                futex = 0;
                count = 0;
                has_owner = false;
                notified = 0;
                broadcast = 0;
              })
              synch_queue
              []
              ts)
    later : {s t : System A} → Reach s → Step s t → Reach t
