-- ===== src/LockedQueue/Order.antt =====
-- What the log of a `synch_queue` of evenk/synch_queue.h says of the order of the values and of `close`.
use evenk.Prelude.{
  ℕ, ◌+◌, ◌≡◌, refl, ap, ◌∙◌, sym, subst, Bool, true, false, Option, some, List, [], ◌∷◌, ◌++◌,
  append_assoc, arith, if◌then◌else◌,
}
use evenk.Kernel.{Kernel}
use evenk.Status
use evenk.Status.{Status}
use evenk.SynchQueue.{Queue, synch_queue, locked_push, locked_pop, close, pop_front}
use evenk.LockedQueue.Defs.{Event, pushes, closes, pops}
use evenk.LockedQueue.Steps.{System, Reach}
use evenk.LockedQueue.Linear.{pushed, popped, shut, IsRun, new, then_does, synch_queue_refines}

module _ {ℓ} {A : Type ℓ} where
  -- The values that pushes have put in, and those that pops have given out, in their order.
  abbrev pub put_in : List (Event A) → List A
  put_in [] = []
  put_in (pushes value status ∷ log) =
      if Status.is_success status then put_in log ++ value ∷ [] else put_in log
  put_in (_ ∷ log) = put_in log

  abbrev pub given_out : List (Event A) → List A
  given_out [] = []
  given_out (pops status (some value) ∷ log) = given_out log ++ value ∷ []
  given_out (_ ∷ log) = given_out log

  abbrev pub has_closed : List (Event A) → Bool
  has_closed [] = false
  has_closed (closes ∷ log) = true
  has_closed (_ ∷ log) = has_closed log

  -- The events that contradict a `close`: a push that succeeds after it, and a push or a pop that
  -- finds the queue closed before it.
  abbrev pub contradicts : Event A → Bool → ℕ
  contradicts (pushes value status) true = if Status.is_success status then 1 else 0
  contradicts (pushes value status) false = if Status.is_closed status then 1 else 0
  contradicts (pops status value) false = if Status.is_closed status then 1 else 0
  contradicts _ _ = 0

  abbrev pub contradictions : List (Event A) → ℕ
  contradictions [] = 0
  contradictions (e ∷ log) = contradicts e (has_closed log) + contradictions log

  put_in-push :
      (value : A) (q : Queue A) (log : List (Event A))
      → put_in log ≡ given_out log ++ q.items
      → put_in (pushes value (locked_push value q).0 ∷ log)
        ≡ given_out log ++ (locked_push value q).2.items
  unfolding locked_push
  put_in-push value q log e = ground (arith, e, append_assoc (given_out log) q.items (value ∷ []))

  given_out-pop :
      (q : Queue A) (log : List (Event A)) (xs : List A)
      → q.items ≡ xs
      → given_out (pops (pop_front xs q).0 (pop_front xs q).1 ∷ log) ++ (pop_front xs q).2.items
        ≡ given_out log ++ xs
  given_out-pop q log [] e = ap (λ ys. given_out log ++ ys) e
  given_out-pop q log (x ∷ xs) e = append_assoc (given_out log) (x ∷ []) xs

  IsRun-fifo :
      {log : List (Event A)} {q : Queue A} → IsRun log q → put_in log ≡ given_out log ++ q.items
  unfolding synch_queue locked_pop close
  IsRun-fifo new = refl
  IsRun-fifo (then_does {log} _ r (pushed value status q q' e e')) =
      subst (λ s. put_in (pushes value s ∷ log) ≡ given_out log ++ q'.items) e
        (subst (λ u. put_in (pushes value (locked_push value q).0 ∷ log) ≡ given_out log ++ u.items)
          e' (put_in-push value q log (IsRun-fifo r)))
  IsRun-fifo (then_does {log} _ r (popped status value q q' e)) =
      subst
        (λ (u : Status × Option A × Queue A).
          put_in log ≡ given_out (pops u.0 u.1 ∷ log) ++ u.2.items)
        e (IsRun-fifo r ∙ sym (given_out-pop q log q.items refl))
  IsRun-fifo (then_does {log} _ r (shut q q' e)) =
      subst (λ u. put_in log ≡ given_out log ++ u.items) e (IsRun-fifo r)

  push-agrees :
      (value : A) (q : Queue A) → contradicts (pushes value (locked_push value q).0) q.is_closed ≡ 0
  unfolding locked_push
  push-agrees value q = ground arith

  push-same : (value : A) (q : Queue A) → (locked_push value q).2.is_closed ≡ q.is_closed
  unfolding locked_push
  push-same value q = ground arith

  pop-agrees :
      (q : Queue A) (xs : List A)
      → contradicts (pops (pop_front xs q).0 (pop_front xs q).1) q.is_closed ≡ 0
  pop-agrees q [] = ground arith
  pop-agrees q (x ∷ xs) = ground arith

  pop-same : (q : Queue A) (xs : List A) → (pop_front xs q).2.is_closed ≡ q.is_closed
  pop-same q [] = refl
  pop-same q (x ∷ xs) = refl

  Agrees : List (Event A) → Queue A → Type 0
  Agrees log q = (q.is_closed ≡ has_closed log) × (contradictions log ≡ 0)

  IsRun-Agrees : {log : List (Event A)} {q : Queue A} → IsRun log q → Agrees log q
  unfolding Agrees synch_queue locked_pop close
  IsRun-Agrees new = (refl, refl)
  IsRun-Agrees (then_does _ r (pushed value status q q' e e')) =
      ground (arith, IsRun-Agrees r, e, e', push-agrees value q, push-same value q)
  IsRun-Agrees (then_does _ r (popped status value q q' e)) =
      ground (arith, IsRun-Agrees r, e, pop-agrees q q.items, pop-same q q.items)
  IsRun-Agrees (then_does _ r (shut q q' e)) = ground (arith, IsRun-Agrees r, e)

  -- Whatever threads do in the methods of the queue, an access at a time: the values that pushes have
  -- put in are those that pops have given out, in the same order, followed by those in the queue; the
  -- queue is closed exactly when some thread has closed it; and no push succeeds after that, and none is
  -- told that the queue is closed, nor is a pop, before.
  pub synch_queue_order :
      {kernel : Kernel} {s : System A}
      → Reach kernel s
      → (put_in s.log ≡ given_out s.log ++ s.queue.items)
        × (s.queue.is_closed ≡ has_closed s.log)
        × (contradictions s.log ≡ 0)
  unfolding Agrees
  synch_queue_order r =
      let run = synch_queue_refines r in
      (IsRun-fifo run, (IsRun-Agrees run).0, (IsRun-Agrees run).1)
