-- ===== src/SynchQueue/Closing.antt =====
-- What closing does to a queue of evenk/synch_queue.h, and when a waiting pop returns.
use evenk.Prelude.{
  ℕ, zero, suc, ◌<◌, ◌≡◌, ◌≢◌, refl, Bool, true, false, Option, none, some, List, [], ◌∷◌, ◌++◌,
  append-nil, not, arith, length, if◌then◌else◌,
}
use evenk.Status.{Status}
use evenk.SynchQueue.Defs.{Queue, close, locked_pop, try_pop, wait_pop}
use evenk.SynchQueue.Fifo.{Op, put, perform, run, run_fifo}

module _ {ℓ} {A : Type ℓ} where
  perform_closed :
      (op : Op A) (q : Queue A)
      → q.is_closed ≡ true
      → ((perform op q).0 ≡ []) × ((perform op q).2.is_closed ≡ true)
  unfolding perform
  perform_closed (put v) q c = ground arith
  perform_closed op q c = ground arith

  run_closed :
      (ops : List (Op A)) (q : Queue A)
      → q.is_closed ≡ true
      → ((run ops q).0 ≡ []) × ((run ops q).2.is_closed ≡ true)
  unfolding run
  run_closed [] q c = (refl, c)
  run_closed (op ∷ ops) q c = ground (arith, perform_closed op q c, run_closed ops (perform op q).2)

  -- After `close`, no sequence of operations puts anything in or opens the queue again, and what it
  -- takes out is a first part of what the queue held, in order, with the rest still held.
  pub close-run :
      (ops : List (Op A)) (q : Queue A)
      → ((run ops (close q).1).0 ≡ [])
        × ((run ops (close q).1).2.is_closed ≡ true)
        × (q.items ≡ (run ops (close q).1).1 ++ (run ops (close q).1).2.items)
  unfolding close
  close-run ops q =
      let after = record q { is_closed = true } in
      ground (arith, run_closed ops after refl, run_fifo ops after, append-nil q.items)

  -- The consumer's loop: pop until the status is not success, within so many rounds.
  unfoldable pub drain : ℕ → Queue A → List A × Status
  unfolding try_pop
  drain zero q = ([], Status.busy)
  drain (suc n) q =
      let (status, value, q') = try_pop q in
      let more = drain n q' in elim value [ none ↦ ([], status) | some x ↦ (x ∷ more.0, more.1) ]

  drain_items :
      (n : ℕ) (q : Queue A)
      → (xs : List A) → q.items ≡ xs
      → length xs < n
      → drain n q ≡ (xs, if q.is_closed then Status.closed else Status.empty)
  unfolding drain
  drain_items zero q xs e h = absurd (omega arith)
  drain_items (suc n) q [] e h = ground arith
  drain_items (suc n) q (x ∷ xs) e h =
      ground (arith, drain_items n (record q { items = xs }) xs refl)

  -- A consumer that pops until it fails gets, after `close` and with one round more than the queue
  -- holds values, exactly those values in order, and then the status `closed`.
  pub drain-close :
      (n : ℕ) (q : Queue A) → length q.items < n → drain n (close q).1 ≡ (q.items, Status.closed)
  unfolding close
  drain-close n q h = drain_items n (record q { is_closed = true }) q.items refl h

  -- The first state that `wait_pop` finds neither empty nor closed, if it finds one.
  abbrev pub is_idle : Queue A → Bool
  is_idle q = elim q.items [ [] ↦ not q.is_closed | _ ∷ _ ↦ false ]

  unfoldable pub first_ready : List (Queue A → Queue A) → Queue A → Option (Queue A)
  first_ready [] q = if is_idle q then none else some q
  first_ready (during ∷ others) q =
      let later = first_ready others (during q) in if is_idle q then later else some q

  abbrev pub serve : Option (Queue A) → Option (Status × Option A × Queue A)
  serve none = none
  serve (some ready) = some (try_pop ready)

  abbrev pub status_of : Option (Status × Option A × Queue A) → Option Status
  status_of none = none
  status_of (some reply) = some reply.0

  wait_pop_serves :
      (others : List (Queue A → Queue A)) (q : Queue A)
      → wait_pop others q ≡ serve (first_ready others q)
  unfolding wait_pop first_ready try_pop
  wait_pop_serves [] q = ground arith
  wait_pop_serves (during ∷ others) q = ground (arith, wait_pop_serves others (during q))

  wait_pop-ne-empty :
      (others : List (Queue A → Queue A)) (q : Queue A)
      → status_of (wait_pop others q) ≢ some Status.empty
  unfolding wait_pop locked_pop
  wait_pop-ne-empty [] q = ground arith
  wait_pop-ne-empty (during ∷ others) q = ground (arith, wait_pop-ne-empty others (during q))

  -- Whatever the other threads do in each wait, `wait_pop` returns what `try_pop` gives on the first
  -- state that holds a value or is closed, goes on waiting exactly when there is none, and never
  -- returns the status `empty`.
  wait_pop-eq-try_pop :
      (others : List (Queue A → Queue A)) (q : Queue A)
      → (wait_pop others q ≡ serve (first_ready others q))
        × (status_of (wait_pop others q) ≢ some Status.empty)
  wait_pop-eq-try_pop others q = (wait_pop_serves others q, wait_pop-ne-empty others q)
