-- ===== src/SynchQueue/Fifo.antt =====
-- evenk/synch_queue.h delivers in order: what comes out is what went in, whatever the operations.
use evenk.Prelude.{
  ◌≡◌, Bool, Option, none, some, List, [], ◌∷◌, ◌++◌, append_assoc, append-nil, arith,
  if◌then◌else◌,
}
use evenk.Status
use evenk.SynchQueue.Defs.{Queue, close, try_push, try_pop, nonblocking_push, nonblocking_pop}

-- The operations that a thread may make on a queue, in the order in which they get the lock.
pub data Op {ℓ} (A : Type ℓ) : Type ℓ where
  put : A → Op A
  get : Op A
  put_if : Bool → A → Op A  -- nonblocking_push
  get_if : Bool → Op A  -- nonblocking_pop
  shut : Op A  -- close

module _ {ℓ} {A : Type ℓ} where
  abbrev pub to_list : Option A → List A
  to_list none = []
  to_list (some a) = a ∷ []

  -- The values that one operation puts in and takes out, with the queue that it leaves.
  unfoldable pub perform : Op A → Queue A → List A × List A × Queue A
  unfolding try_push try_pop nonblocking_push nonblocking_pop close
  perform (put v) q =
      let (status, notice, q') = try_push v q in
      (if Status.is_success status then v ∷ [] else [], [], q')
  perform get q = let (status, value, q') = try_pop q in ([], to_list value, q')
  perform (put_if acquired v) q =
      let (status, notice, q') = nonblocking_push acquired v q in
      (if Status.is_success status then v ∷ [] else [], [], q')
  perform (get_if acquired) q =
      let (status, value, q') = nonblocking_pop acquired q in ([], to_list value, q')
  perform shut q = ([], [], (close q).1)

  unfoldable pub run : List (Op A) → Queue A → List A × List A × Queue A
  run [] q = ([], [], q)
  run (op ∷ ops) q =
      let (accepted, delivered, q') = perform op q in
      let (puts, gots, q'') = run ops q' in (accepted ++ puts, delivered ++ gots, q'')

  -- The balance of one operation.
  perform_fifo :
      (op : Op A) (q : Queue A)
      → q.items ++ (perform op q).0 ≡ (perform op q).1 ++ (perform op q).2.items
  unfolding perform
  perform_fifo (put v) q = ground (arith, append-nil q.items)
  perform_fifo get q = ground (arith, append-nil q.items)
  perform_fifo (put_if acquired v) q = ground (arith, append-nil q.items)
  perform_fifo (get_if acquired) q = ground (arith, append-nil q.items)
  perform_fifo shut q = append-nil q.items

  -- In any sequence of operations on a queue, the values that it held followed by those accepted
  -- since are the values delivered since followed by those that it holds now: nothing is lost,
  -- repeated or reordered.
  pub run_fifo :
      (ops : List (Op A)) (q : Queue A)
      → q.items ++ (run ops q).0 ≡ (run ops q).1 ++ (run ops q).2.items
  unfolding run
  run_fifo [] q = append-nil q.items
  run_fifo (op ∷ ops) q = ground (
    arith,
    perform_fifo op q,
    run_fifo ops (perform op q).2,
    append_assoc q.items (perform op q).0 (run ops (perform op q).2).0,
    append_assoc (perform op q).1 (perform op q).2.items (run ops (perform op q).2).0,
    append_assoc (perform op q).1 (run ops (perform op q).2).1 (run ops (perform op q).2).2.items,
  )
