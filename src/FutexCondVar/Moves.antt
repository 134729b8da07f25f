-- ===== src/FutexCondVar/Moves.antt =====
-- `futex_cond_var` of evenk/synch.h with the one `futex_lock` that its waiters use, an atomic access at
-- a time. Since there is one lock, `wait` never finds another in `owner_`.
use evenk.Prelude.{ℕ, ◌+◌, ◌-◌, ◌^◌, Bool, true, false, List, [], ◌∷◌, ◌==◌, u32, if◌then◌else◌}
use evenk.Kernel.{Requeue, stays, wakes, moves}
use evenk.FutexLock.Moves as Lock

-- Where a thread stands. `holds`: whether the caller of `notify_one` or `notify_all` owns the lock;
-- `all`: which of the two it has called.
pub data Local : Type 0 where
  in_lock : Lock.Local → Local  -- outside, in `lock` or `unlock`, or the owner
  storing : Local  -- `wait`, after the test of `owner_`
  counting : Local  -- `count_.fetch_add(1)`
  loading : Local  -- `futex_.load`
  unlocking : (value : ℕ) → Local  -- `owner->unlock()`
  releasing : (value : ℕ) → Local  -- there, after a `fetch_sub` that found waiters
  waking : (value : ℕ) → Local  -- there, after `store(0)`
  to_wait : (value : ℕ) → Local  -- `futex_wait(futex_, value)`
  blocked : (value : ℕ) → Local  -- blocked there in the kernel
  requeued : Local  -- blocked at the lock's futex word, where `futex_requeue` has moved it
  awake : Local  -- `count_.fetch_sub(1)`
  added : (all holds : Bool) → Local  -- `count_.load` of `notify_one` or `notify_all`
  counted : (all holds : Bool) → Local  -- it was not 0: `futex_wake`, or `owner_.load`
  requeueing : (holds : Bool) → Local  -- `futex_requeue`

-- The members of the condition variable, `has_owner` for `owner_` is not null, with the futex word of
-- the lock. `notified` and `broadcast` are records for the proofs: how many times `futex_` has been
-- added to, and its value after the last `notify_all`.
pub record Words : Type 0 where
  pub lock : ℕ
  pub futex : ℕ
  pub count : ℕ
  pub has_owner : Bool
  pub notified : ℕ
  pub broadcast : ℕ

-- The place of the thread in the `futex_lock`.
abbrev pub lock_place : Local → Lock.Local
lock_place (in_lock p) = p
lock_place storing = Lock.owner
lock_place counting = Lock.owner
lock_place loading = Lock.owner
lock_place (unlocking value) = Lock.owner
lock_place (releasing value) = Lock.releasing
lock_place (waking value) = Lock.waking
lock_place (to_wait value) = Lock.outside
lock_place (blocked value) = Lock.outside
lock_place requeued = Lock.asleep
lock_place awake = Lock.exchanging
lock_place (added all holds) = if holds then Lock.owner else Lock.outside
lock_place (counted all holds) = if holds then Lock.owner else Lock.outside
lock_place (requeueing holds) = if holds then Lock.owner else Lock.outside

unfoldable pub store_owner : Words → Words × Local
store_owner m = (record m { has_owner = true }, counting)

unfoldable pub count_in : Words → Words × Local
count_in m = (record m { count = u32 (m.count + 1) }, loading)

unfoldable pub load_value : Words → Local
load_value m = unlocking m.futex

-- The `fetch_sub` and the store of `owner->unlock()`.
unfoldable pub unlock_sub : ℕ → Words → Words × Local
unfolding Lock.unlock
unlock_sub value m = (
  record m { lock = (Lock.unlock m.lock).0 },
  if m.lock == 1 then to_wait value else releasing value,
)

unfoldable pub unlock_store : ℕ → Words → Words × Local
unfolding Lock.store_zero
unlock_store value m = (record m { lock = Lock.store_zero.0 }, waking value)

-- The loop that follows the `fetch_sub` is the inner loop of `futex_lock::lock`.
unfoldable pub count_out : Words → Words × Local
count_out m = (record m { count = u32 (m.count + 2 ^ 32 - 1) }, in_lock Lock.exchanging)

-- The end of `notify_one` and `notify_all`.
abbrev pub back : (holds : Bool) → Local
back holds = in_lock (if holds then Lock.owner else Lock.outside)

-- `notify_one` and `notify_all`: `futex_.fetch_add(1)`.
unfoldable pub notify_add : (all holds : Bool) → Words → Words × Local
notify_add all holds m = (
  record m {
    futex = u32 (m.futex + 1);
    notified = m.notified + 1;
    broadcast = if all then m.notified + 1 else m.broadcast;
  },
  added all holds,
)

unfoldable pub load_count : (all holds : Bool) → Words → Local
load_count all holds m = if m.count == 0 then back holds else counted all holds

unfoldable pub load_owner : (holds : Bool) → Words → Local
load_owner holds m = if m.has_owner then requeueing holds else back holds

-- Who is blocked at the word of the lock, and who at that of the condition variable.
abbrev pub at_lock : Local → Bool
at_lock (in_lock Lock.asleep) = true
at_lock requeued = true
at_lock _ = false

abbrev pub at_cond : Local → Bool
at_cond (blocked value) = true
at_cond _ = false

-- A return from `futex_wait`: at the word of the lock, and at that of the condition variable.
abbrev pub resume_lock : Local → Local
resume_lock (in_lock Lock.asleep) = in_lock Lock.exchanging
resume_lock requeued = awake
resume_lock p = p

abbrev pub resume_cond : Local → Local
resume_cond (blocked value) = awake
resume_cond p = p

-- Those who are no longer blocked go on so.
abbrev pub resume : (Local → Local) → List Bool → List Local → List Local
resume to [] ts = ts
resume to (b ∷ bs) [] = []
resume to (b ∷ bs) (p ∷ ts) = (if b then p else to p) ∷ resume to bs ts

-- `futex_requeue(futex_, 1, max, owner->native_handle())`
abbrev pub requeue_to : Requeue → Local → Local
requeue_to stays p = p
requeue_to wakes p = awake
requeue_to moves p = requeued

abbrev pub requeue_all : List Requeue → List Local → List Local
requeue_all [] ts = ts
requeue_all (y ∷ ys) [] = []
requeue_all (y ∷ ys) (p ∷ ts) = requeue_to y p ∷ requeue_all ys ts
