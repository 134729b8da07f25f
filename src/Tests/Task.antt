-- ===== src/Tests/Task.antt =====
-- evenk/task.h with numbers for targets.
use evenk.Prelude.{ℕ, ◌≤◌, ◌+◌, ◌%◌, ◌≡◌, refl, true, false, none, some, arith, max}
use evenk.Task.Size.{task_memory_size, fptr_size, fptr_align, task_memory_size_bounds}
use evenk.Task.Trivial as Trivial
use evenk.Task.Object.{
  Task, Heap, small, large, ok, fail, null_call, bad_function_call, empty_task, construct,
  move_construct, destroy, has_target, call,
}
use evenk.Task.Moves.{live, move_construct-keeps, live_returns}
use evenk.Task.Assignment.{move_assign, swap, move_assign-fails}

abbrev heap : Heap ℕ
heap = record { blocks = λ a. none; next = 1 }

task_memory_size_bounds_example :
    (13 ≤ task_memory_size 13)
    × (task_memory_size 13 % fptr_align ≡ 0)
    × (fptr_size ≤ task_memory_size 13)
    × (task_memory_size 13 ≤ max (13 + 7) 8)
task_memory_size_bounds_example = task_memory_size_bounds 13 (omega arith)

move_construct-keeps_example :
    (t : Task ℕ) × (left : Task ℕ) × (move_construct (construct large 42 7 heap).0 ≡ ok (t, left))
    × (call t (construct large 42 7 heap).1 ≡ ok 42)
    × (has_target t ≡ true)
    × (has_target left ≡ false)
    × (call left (construct large 42 7 heap).1 ≡ fail bad_function_call)
    × (destroy left (construct large 42 7 heap).1 ≡ ok (construct large 42 7 heap).1)
move_construct-keeps_example = move_construct-keeps large 42 7 heap

live_returns_example : (h : Heap ℕ) × (live large 42 0 3 heap ≡ ok (42, h)) × (h.blocks 1 ≡ none)
live_returns_example = live_returns large 42 3 1 heap refl

move_assign-fails_example :
    move_assign 3 empty_task (construct small 42 0 heap).0 heap ≡ fail null_call
unfolding empty_task construct
move_assign-fails_example = move_assign-fails 0 empty_task (construct small 42 0 heap).0 heap tt tt

swap_run : swap 5 (construct small 1 0 heap).0 (construct large 2 0 heap).0 heap ≡ fail null_call
unfolding swap construct move_construct
swap_run = refl

abbrev full : Trivial.Trivial ℕ
full = record { memory = some 2; invoke = true }

trivial_run : (Trivial.construct 2 ≡ full) × (Trivial.call full ≡ ok 2)
unfolding Trivial.construct Trivial.call
trivial_run = (refl, refl)

no_target_run :
    (has_target {T = ℕ} empty_task ≡ false)
    × (call {T = ℕ} empty_task heap ≡ fail bad_function_call)
unfolding empty_task has_target call
no_target_run = (refl, refl)
