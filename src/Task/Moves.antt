-- ===== src/Task/Moves.antt =====
-- The life of one target of a `task` of evenk/task.h: constructed, moved along, called, destructed.
use evenk.Prelude.{ℕ, zero, suc, ◌≡◌, refl, ◌≢◌, true, false, none, some, arith, update}
use evenk.Task.Object.{
  holds, points, Adapter, small, large, Task, Heap, bad_free, bad_function_call, Run, ok, fail,
  ◌>>=◌, construct, move_construct, destroy, has_target, call,
}

module _ {ℓ} {T : Type ℓ} where
  -- `n` moves of a task, each into a fresh one, with the end of the one that is left behind.
  unfoldable pub move_along : ℕ → Task T → Heap T → Run (Task T × Heap T)
  move_along zero t h = ok (t, h)
  move_along (suc n) t h =
      move_construct t >>= λ moved. destroy moved.1 h >>= λ h'. move_along n moved.0 h'

  -- A task is made from a target, moved `n` times, called, and destructed: what was called, and the
  -- heap at the end.
  unfoldable pub live : Adapter → T → ℕ → ℕ → Heap T → Run (T × Heap T)
  live adapter target alloc n h =
      let (made, h') = construct adapter target alloc h in
      move_along n made h' >>= λ moved.
      call moved.0 moved.1 >>= λ called. destroy moved.0 moved.1 >>= λ h''. ok (called, h'')

  -- A task with a target, by its adapter and the address of a large one.
  abbrev stored : Adapter → T → ℕ → ℕ → Task T
  stored small target address alloc = record {
    memory = holds target;
    invoke = some small;
    helper = some small;
    alloc = alloc;
  }
  stored large target address alloc = record {
    memory = points address;
    invoke = some large;
    helper = some large;
    alloc = alloc;
  }

  construct-stored :
      (adapter : Adapter) (target : T) (alloc : ℕ) (h : Heap T)
      → (construct adapter target alloc h).0 ≡ stored adapter target h.next alloc
  unfolding construct
  construct-stored small target alloc h = refl
  construct-stored large target alloc h = refl

  -- After the first move the allocator is the default one, whatever it was.
  move_along-stored :
      (n : ℕ) (adapter : Adapter) (target : T) (address : ℕ) (h : Heap T)
      → move_along n (stored adapter target address 0) h ≡ ok (stored adapter target address 0, h)
  unfolding move_along move_construct destroy
  move_along-stored zero adapter target address h = refl
  move_along-stored (suc n) small target address h = move_along-stored n small target address h
  move_along-stored (suc n) large target address h = move_along-stored n large target address h

  move_along-suc :
      (n : ℕ) (adapter : Adapter) (target : T) (address alloc : ℕ) (h : Heap T)
      → move_along (suc n) (stored adapter target address alloc) h
        ≡ ok (stored adapter target address 0, h)
  unfolding move_along move_construct destroy
  move_along-suc n small target address alloc h = move_along-stored n small target address h
  move_along-suc n large target address alloc h = move_along-stored n large target address h

  -- A moved-from task is empty: a call of it throws `bad_function_call`, its end does nothing, and the
  -- new task holds the target that the old one held, with the heap not touched.
  pub move_construct-keeps :
      (adapter : Adapter) (target : T) (alloc : ℕ) (h : Heap T)
      → let (made, h') = construct adapter target alloc h in
        (t : Task T) × (left : Task T) × (move_construct made ≡ ok (t, left))
        × (call t h' ≡ ok target)
        × (has_target t ≡ true)
        × (has_target left ≡ false)
        × (call left h' ≡ fail bad_function_call)
        × (destroy left h' ≡ ok h')
  unfolding move_construct call has_target destroy construct
  move_construct-keeps small target alloc h = (_, _, refl, refl, refl, refl, refl, refl)
  move_construct-keeps large target alloc h = (_, _, refl, ground arith, refl, refl, refl, refl)

  destroy-stored :
      (adapter : Adapter) (target : T) (h : Heap T)
      → let h' = (construct adapter target 0 h).1 in
        (h'' : Heap T) × (destroy (stored adapter target h.next 0) h' ≡ ok h'')
        × (call (stored adapter target h.next 0) h' ≡ ok target)
        × ((a : ℕ) → h.blocks h.next ≡ none → h''.blocks a ≡ h.blocks a)
  unfolding destroy construct call
  destroy-stored small target h = (h, refl, refl, λ a e. refl)
  destroy-stored large target h =
      let h' = (construct large target 0 h).1 in
      (
        record h' { blocks = update h'.blocks h.next none },
        ground arith,
        ground arith,
        λ a e. ground arith,
      )

  -- With the default allocator, on a heap whose next block is not in use: a task that is made from a
  -- target, small or large, and moved any number of times calls that target, and at its end the heap
  -- has the blocks that it had before: nothing leaks and nothing is freed twice.
  pub live_returns :
      (adapter : Adapter) (target : T) (n a : ℕ) (h : Heap T)
      → h.blocks h.next ≡ none
      → (h'' : Heap T) × (live adapter target 0 n h ≡ ok (target, h''))
        × (h''.blocks a ≡ h.blocks a)
  unfolding live
  live_returns adapter target n a h unused =
      let (h'', ends, calls, same) = destroy-stored adapter target h in
      (
        h'',
        ground (
          arith,
          ends,
          calls,
          construct-stored adapter target 0 h,
          move_along-stored n adapter target h.next (construct adapter target 0 h).1,
        ),
        same a unused,
      )

  -- A large target that was allocated from another allocator than the default one is, once its task
  -- has been moved, given back to the default allocator, which never had it: the allocator does not
  -- move along with the task.
  allocator_left_behind :
      (target : T) (alloc n : ℕ) (h : Heap T)
      → alloc ≢ 0
      → live large target alloc (suc n) h ≡ fail bad_free
  unfolding live call destroy construct
  allocator_left_behind target alloc n h other = ground (
    arith,
    construct-stored large target alloc h,
    move_along-suc n large target h.next alloc (construct large target alloc h).1,
  )
