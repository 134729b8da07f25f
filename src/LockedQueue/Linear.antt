-- ===== src/LockedQueue/Linear.antt =====
-- The methods of `synch_queue` of evenk/synch_queue.h are atomic.
use evenk.Prelude.{
  ◌≡◌, refl, Bool, true, false, Option, none, some, List, [], ◌∷◌, ◌++◌, arith, ap, ◌∙◌,
  if◌then◌else◌,
}
use evenk.Prelude.Threads.{tally-at}
use evenk.Kernel.{Kernel}
use evenk.Status.{Status, success, empty, closed}
use evenk.SynchQueue.{Queue, synch_queue, locked_push, locked_pop, close, pop_front}
use evenk.FutexLock.Moves as Lock
use evenk.FutexCondVar.Moves.{in_lock}
use evenk.LockedQueue.Defs.{
  Call, push_test, push_store, close_store, pop_test, pop_take, pop_closed, access, is_access,
  take_front, leaving, pop_wait, Event, pushes, closes, pops, events,
}
use evenk.LockedQueue.Steps.{
  System, at, Step, begin, begin_try, do_access, begin_wait, begin_notify, do_unlock, do_return,
  move, lock_sleep, lock_wake, cond_sleep, cond_wake, cond_requeue, Reach, start, later,
}
use evenk.LockedQueue.Places.{wrong, wrong_call, IsPlaced}
use evenk.LockedQueue.Placed.{Reach-Placed}

-- One method at once: `locked_push`, `locked_pop` or `close` as it is with nobody beside it, with the
-- result that it returns.
pub data Does {ℓ} {A : Type ℓ} : Queue A → Event A → Queue A → Type ℓ where
  pushed :
      (value : A) (status : Status) (q q' : Queue A)
      → (locked_push value q).0 ≡ status
      → (locked_push value q).2 ≡ q'
      → Does q (pushes value status) q'
  popped :
      (status : Status) (value : Option A) (q q' : Queue A)
      → locked_pop q ≡ (status, value, q')
      → Does q (pops status value) q'
  shut : (q q' : Queue A) → (close q).1 ≡ q' → Does q closes q'

-- What becomes of a new queue by so many methods, one after the other, the last first in the list.
pub data IsRun {ℓ} {A : Type ℓ} : List (Event A) → Queue A → Type ℓ where
  new : IsRun [] synch_queue
  then_does :
      {log : List (Event A)} {q q' : Queue A} (e : Event A)
      → IsRun log q
      → Does q e q'
      → IsRun (e ∷ log) q'

module _ {ℓ} {A : Type ℓ} where
  push_test-IsRun :
      (value : A) (q : Queue A) (log : List (Event A)) (b : Bool)
      → q.is_closed ≡ b
      → IsRun log q
      → IsRun
          (events (push_test value) (if b then leaving closed none else push_store value) ++ log)
          q
  unfolding locked_push
  push_test-IsRun value q log true e r =
      then_does (pushes value closed) r (pushed value closed q q (ground arith) (ground arith))
  push_test-IsRun value q log false e r = r

  push_store-does :
      (value : A) (q : Queue A) (b : Bool)
      → q.is_closed ≡ b
      → wrong_call q (push_store value) ≡ 0
      → Does q (pushes value success) (record q { items = q.items ++ value ∷ [] })
  unfolding locked_push
  push_store-does value q true e right = absurd (ground arith)
  push_store-does value q false e right =
      pushed value success q (record q { items = q.items ++ value ∷ [] }) (ground arith)
        (ground arith)

  pop_take-IsRun :
      (q : Queue A) (log : List (Event A)) (xs : List A)
      → q.items ≡ xs
      → wrong_call q pop_take ≡ 0
      → IsRun log q
      → IsRun (events pop_take (take_front xs q).0 ++ log) (take_front xs q).1
  unfolding locked_pop
  pop_take-IsRun q log [] e right r = absurd (ground arith)
  pop_take-IsRun q log (x ∷ xs) e right r =
      then_does (pops success (some x)) r
        (popped success (some x) q (record q { items = xs }) (ap (λ ys. pop_front ys q) e))

  -- The queue is empty, as the first test of `locked_pop` has found.
  locked_pop-none :
      (waits : Bool) (q : Queue A) (xs : List A) (b : Bool)
      → q.items ≡ xs
      → q.is_closed ≡ b
      → wrong_call q (pop_closed waits) ≡ 0
      → locked_pop q ≡ (if b then closed else empty, none, q)
  unfolding locked_pop
  locked_pop-none waits q [] b e e' right =
      ap (λ ys. pop_front ys q) e ∙ ap (λ c. (if c then closed else empty, none, q)) e'
  locked_pop-none waits q (x ∷ xs) b e e' right = absurd (ground arith)

  pop_closed-IsRun :
      (q : Queue A) (log : List (Event A)) (waits b : Bool)
      → q.is_closed ≡ b
      → wrong_call q (pop_closed waits) ≡ 0
      → IsRun log q
      → IsRun
          (events
              (pop_closed waits)
              (if b then leaving closed none else (if waits then pop_wait else leaving empty none))
            ++ log)
          q
  pop_closed-IsRun q log waits true e right r =
      then_does (pops closed none) r
        (popped closed none q q (locked_pop-none waits q q.items true refl e right))
  pop_closed-IsRun q log true false e right r =
      then_does (pops empty none) r
        (popped empty none q q (locked_pop-none true q q.items false refl e right))
  pop_closed-IsRun q log false false e right r =
      then_does (pops empty none) r
        (popped empty none q q (locked_pop-none false q q.items false refl e right))

  -- The accesses that change or tell nothing end no method; one of the others does it all.
  access-IsRun :
      (c : Call A) (q : Queue A) (log : List (Event A))
      → is_access c ≡ true
      → wrong_call q c ≡ 0
      → IsRun log q
      → IsRun (events c (access c q).0 ++ log) (access c q).1
  unfolding access close
  access-IsRun (push_test value) q log is right r = push_test-IsRun value q log q.is_closed refl r
  access-IsRun (push_store value) q log is right r =
      then_does (pushes value success) r (push_store-does value q q.is_closed refl right)
  access-IsRun close_store q log is right r =
      then_does closes r (shut q (record q { is_closed = true }) refl)
  access-IsRun (pop_test waits) q log is right r = r
  access-IsRun pop_take q log is right r = pop_take-IsRun q log q.items refl right r
  access-IsRun (pop_closed waits) q log is right r =
      pop_closed-IsRun q log waits q.is_closed refl right r
  access-IsRun c q log is right r = absurd (cc)

module _ {ℓ} {A : Type ℓ} {kernel : Kernel} where
  Step-IsRun :
      {s t : System A}
      → Step kernel s t
      → IsPlaced s.queue s.threads
      → IsRun s.log s.queue
      → IsRun t.log t.queue
  Step-IsRun (begin before after m q log c first) i r = r
  Step-IsRun (begin_try before after m q log c nonblocking) i r = r
  Step-IsRun (do_access before after m q log c is) i r =
      access-IsRun c q log is
        (omega (arith, i.right, tally-at (wrong q) before after (at (in_lock Lock.owner) c))) r
  Step-IsRun (begin_wait before after m q log) i r = r
  Step-IsRun (begin_notify before after m q log all) i r = r
  Step-IsRun (do_unlock before after m q log status value) i r = r
  Step-IsRun (do_return before after m q log status value) i r = r
  Step-IsRun (move before after q log c inner mv) i r = r
  Step-IsRun (lock_sleep before after m q log c b) i r = r
  Step-IsRun (lock_wake before after m q log c bs w k) i r = r
  Step-IsRun (cond_sleep before after m q log c value b) i r = r
  Step-IsRun (cond_wake before after m q log c bs holds k) i r = r
  Step-IsRun (cond_requeue before after m q log c ys holds k) i r = r

  -- Whatever threads do in the methods of the queue, an access at a time: the members are what the
  -- functions `locked_push`, `locked_pop` and `close` make of a new queue, called one after the other
  -- in the order of the log, and each of them returns what the log says that the method returned.
  pub synch_queue_refines : {s : System A} → Reach kernel s → IsRun s.log s.queue
  synch_queue_refines (start ts few out) = new
  synch_queue_refines (later r st) = Step-IsRun st (Reach-Placed r) (synch_queue_refines r)
