-- ===== src/Lib.antt =====
-- Evenk, a header-only C++14 library for concurrent programming: a model of its locks, queues,
-- back-off policies and tasks, with the theorems that make them correct.
--
-- The parts and the files that model them.
--   evenk/backoff.h        Backoff: a policy object is its state, and `operator()` is a function from
--                          a state to the result, the pauses it makes and the new state. Locks and
--                          queues call a policy between two looks at a word.
--   evenk/conqueue.h       Status: `queue_op_status`, and exceptions that carry one.
--                          Conqueue: Ops has the interface of a queue, with the laws that its
--                          clients rely on, and the wrapper; Ends (the back and the front), Iterators
--                          and RoundTrip are over any such queue, and Synch gives `synch_queue` as one.
--   evenk/synch_queue.h    SynchQueue: Defs has one function for each method. A method holds the lock
--                          from its first access to its last, so that it is one step; only
--                          `cond_.wait` lets other threads in. Fifo and Closing are about sequences
--                          of such steps, Wakeups about any number of threads inside `wait_pop`.
--                          LockedQueue: the same class over `futex_lock` and `futex_cond_var`, as on
--                          Linux. Defs has one function for each access of the members, Steps the
--                          system of threads, Below takes it to the system of FutexCondVar. Places
--                          and Placed say where a thread stands and what it knows there, Linear and
--                          Order compare the methods with the functions of SynchQueue; Notices,
--                          Served, Members, Woken and Kept follow what is owed to the consumers that
--                          wait, up to Wakeups; Progress and Deadlock add that some thread can go on.
--   evenk/bounded_queue.h  BoundedQueue: Encoding has the tokens, tickets and flags, Slot the slot
--                          classes behind an interface, FutexSlot and SlotWakeups the threads at one
--                          slot of the class `futex`, Ring the state, the construction and the
--                          state operations (`close` as its four stages), with 32-bit wrap-around.
--                          Moves has one function for each access of `wait_push`, `wait_pop` and
--                          `try_pop`, with their helpers, and Steps puts them and those of `close`
--                          into a system of threads. TryPush is about `try_push` alone. For the
--                          proofs: Roles says what a slot and a thread at it owe each other, SlotLaws
--                          and Others what an access leaves of that, Invariant, Places, SlotSteps,
--                          CountSteps, Preserve and Always carry it through every step, and Delivery
--                          draws the conclusions. Tickets, TicketSteps, TicketMoves, TicketWrites
--                          and TicketReach follow the tickets of a ring that nobody closes, and Turns
--                          says who can go on.
--   evenk/spinlock.h       SpinLock: `spin_lock` and `tatas_lock`, two instances of one interface.
--                          TicketLock: `ticket_lock`, with its 16-bit counters.
--                          SharedTicketLock: `shared_ticket_lock`, whose threads stand in a list in
--                          the order of their tickets; TryMoves adds its `try_` methods, with the
--                          tickets that are taken in the course of a call; Exclusion and Turns are about all.
--   evenk/synch.h          FutexLock: `futex_lock`, over the kernel of Kernel.
--                          FutexCondVar: `futex_cond_var` beside one such lock: Moves has one function
--                          for each access, Steps the system of threads. OnLock and Refines lead from
--                          it to the system of FutexLock, which has a step for the threads that come
--                          back from the condition variable; Kept, Weights, Notices and Wakeups are
--                          about its own members.
--                          LockGuard: `lock_guard`, over any mutex, whose answers are arguments and
--                          whose calls are results.
--                          Posix: `posix_mutex` and `posix_cond_var`; the answers of pthreads are
--                          arguments.
--   evenk/basic.h          Basic: the allocation functions and the system errors.
--   evenk/futex.h          Futex: what each function asks of the kernel and makes of its answer.
--                          Kernel: what FUTEX_WAIT, FUTEX_WAKE and FUTEX_REQUEUE may do, as a parameter.
--   evenk/task.h           Task: Size has the memory size, Trivial `trivial_task`, Object `task` with
--                          its adapters and the heap, Moves and Assignment what becomes of a target.
--   evenk/thread_pool.h    ThreadPool: Defs has the flags and the places of a worker and of a caller
--                          of `stop` and `wait`, over the queue of SynchQueue, Steps the system of
--                          threads; Invariant, Preserve and Reachable carry what holds through every
--                          step, and Waiting, Ending, Stopping
--                          and Crashing draw the conclusions. Whether the move assignment of a task
--                          returns is a test in the system; that of evenk/task.h never does.
--   evenk/thread.h         Thread: Defs has what the class adds to `std::thread`, over the system calls
--                          for the processors of a thread, Affinity what they rely on.
--
-- Threads. A system is a word of shared memory, or a record of such, with a list of the threads'
-- local states (for the ring, a family of them). A local state names the next atomic access of
-- the thread and keeps the variables that are live there; each access is a function of its own,
-- and a step of the system is one access of any one thread. So every interleaving of sequentially
-- consistent accesses is covered. Memory orders are not modelled.
--
-- Numbers are natural numbers with the wrap-around of the machine written out: 16 bits for
-- `ticket_lock`, 32 bits for the counts and tokens of the ring, the back-off counts and futex
-- words, 64 bits for sizes. Function pointers have 8 bytes, as on x86-64.
--
-- Fuel. `SynchQueue.wait_pop` takes, in place of fuel, the list of what other threads do in each
-- of its waits, and returns nothing if it still waits at the end of the list. `SynchQueue.drain`
-- takes a number of rounds, and one more than the values in the queue are enough;
-- `Conqueue.Iterators.collect` and `Conqueue.Ends.pop_all` likewise. `Task.Assignment.move_assign`
-- takes a bound on nested calls; three are enough for every call to end.
--
-- The notices of the condition variable. Its word counts them in 32 bits; the theorem about them holds
-- while fewer than 2 ^ 32 have been given, as does the one about the consumers of `synch_queue`.
--
-- The counts of the ring. `BoundedQueue.Steps.Reach` carries a bound `n`: each access is made while
-- both counters, with what the access may add to one of them, are at most `n`; that is one for the
-- fetch_add of `wait_push` and `wait_pop` and for the compare-exchange of `try_pop`, the size of the
-- ring for that of `close`, and nothing for any other access. The theorems about it are about bounds `n`
-- such that `n` and one lap fit into 32 bits.
--
-- What stands for code outside the repository: the kernel behind the futex calls is the record
-- `Kernel.Kernel`, whose laws are the documented ones (a wait blocks only at an equal value, a
-- wake of one lets one blocked caller go on, or finds none; a wake of all lets all go on; a
-- requeue moves all that it does not let go on, and lets one go on if any is blocked). That its calls
-- return is a hypothesis of its own, of what is said about deadlock. The copy
-- and move assignments of the values of a ring, which may throw, are parameters. The system calls for
-- the processors of a thread are the record `Thread.Affinity.Processors`: reading gives what was
-- set, as far as the thread is allowed to run there. `posix_memalign` is a parameter, and what `syscall`
-- of the C library makes of the answer of the kernel is the record `Futex.CLibrary`.
--
-- What is not modelled: what pthreads and the C library do; the iterators of the ends of a queue in
-- evenk/conqueue.h, which do not compile; the tests and benchmarks. Of the ring, the counters of one thread
-- are left out in the operations of several. A move leaves any value in a slot. In
-- `synch_queue`, assignments of values and calls of `push_back` that throw are left out. In a thread pool
-- other threads may go on after a worker has crashed, which is more than they can. In the system of
-- the ring, what lets a blocked caller of a slot's `wait` go on is left open: it may go on at any
-- time. Of the `try_` methods of `shared_ticket_lock`, the runs are left out in which 2 ^ 16
-- tickets are taken between two accesses of a call.
pub mod Posix
pub mod Prelude
pub mod Backoff
pub mod Status
pub mod SynchQueue
pub mod Conqueue
pub mod Kernel
pub mod Futex
pub mod FutexCondVar
pub mod FutexLock
pub mod LockGuard
pub mod LockedQueue
pub mod SpinLock
pub mod TicketLock
pub mod SharedTicketLock
pub mod Task
pub mod Basic
pub mod BoundedQueue
pub mod Thread
pub mod ThreadPool
mod Tests
