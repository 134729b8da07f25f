-- ===== src/LockedQueue/Defs.antt =====
-- The methods of `synch_queue` of evenk/synch_queue.h, one access of its members at a time: what a
-- thread that owns the lock is about to do.
use evenk.Prelude.{Bool, true, false, not, Option, none, some, List, [], ◌∷◌, ◌++◌, if◌then◌else◌}
use evenk.FutexLock.Moves as Lock
use evenk.Status.{Status, success, empty, closed, busy}
use evenk.SynchQueue.{Queue}

-- `waits`: the call is `wait_pop`, not `try_pop`. A call of `close` has no result; `leaving success none`
-- stands for its end.
pub data Call {ℓ} (A : Type ℓ) : Type ℓ where
  idle : Call A  -- in no method
  push_test : (value : A) → Call A  -- `if (closed_)` of `locked_push`
  push_store : (value : A) → Call A  -- `queue_.push_back(value)`
  close_store : Call A  -- `closed_ = true`
  notify : (all : Bool) → Call A  -- `cond_.notify_one()` or `cond_.notify_all()`
  pop_test : (waits : Bool) → Call A  -- `if (queue_.empty())` of `locked_pop`
  pop_take : Call A  -- `queue_.front()` and `queue_.pop_front()`
  pop_closed : (waits : Bool) → Call A  -- `if (closed_)` of `locked_pop`
  pop_wait : Call A  -- `cond_.wait(guard)`
  leaving : Status → Option A → Call A  -- the destructor of the lock's owner, with the result

module _ {ℓ} {A : Type ℓ} where
  unfoldable pub test_closed : A → Queue A → Call A
  test_closed value q = if q.is_closed then leaving closed none else push_store value

  unfoldable pub push_back : A → Queue A → Call A × Queue A
  push_back value q = (notify false, record q { items = q.items ++ value ∷ [] })

  unfoldable pub store_closed : Queue A → Call A × Queue A
  store_closed q = (notify true, record q { is_closed = true })

  unfoldable pub test_empty : (waits : Bool) → Queue A → Call A
  test_empty waits q = elim q.items [ [] ↦ pop_closed waits | _ ∷ _ ↦ pop_take ]

  -- With no front, which `pop_take` is never about, nothing happens.
  abbrev pub take_front : List A → Queue A → Call A × Queue A
  take_front [] q = (pop_take, q)
  take_front (x ∷ xs) q = (leaving success (some x), record q { items = xs })

  unfoldable pub test_end : (waits : Bool) → Queue A → Call A
  test_end waits q =
      if q.is_closed then leaving closed none else (if waits then pop_wait else leaving empty none)

  -- The access that the call is about, and what the thread does then.
  unfoldable pub access : Call A → Queue A → Call A × Queue A
  unfolding test_closed push_back store_closed test_empty test_end
  access (push_test value) q = (test_closed value q, q)
  access (push_store value) q = push_back value q
  access close_store q = store_closed q
  access (pop_test waits) q = (test_empty waits q, q)
  access pop_take q = take_front q.items q
  access (pop_closed waits) q = (test_end waits q, q)
  access c q = (c, q)

  -- The calls that are about an access of the members.
  abbrev pub is_access : Call A → Bool
  is_access (push_test value) = true
  is_access (push_store value) = true
  is_access close_store = true
  is_access (pop_test waits) = true
  is_access pop_take = true
  is_access (pop_closed waits) = true
  is_access _ = false

  -- What a thread that calls a method is about once it owns the lock.
  abbrev pub is_first : Call A → Bool
  is_first (push_test value) = true
  is_first close_store = true
  is_first (pop_test waits) = true
  is_first _ = false

  -- `nonblocking_push` and `nonblocking_pop`.
  abbrev pub is_nonblocking : Call A → Bool
  is_nonblocking (push_test value) = true
  is_nonblocking (pop_test waits) = not waits
  is_nonblocking _ = false

  -- `if (!guard.owns_lock())` after `try_lock`, from the place where the thread then stands.
  abbrev pub tried : Lock.Local → Call A → Call A
  tried Lock.owner c = c
  tried p c = leaving busy none

-- What a method, or a round of `wait_pop`, has done, as its caller sees it.
pub data Event {ℓ} (A : Type ℓ) : Type ℓ where
  pushes : (value : A) → Status → Event A
  closes : Event A
  pops : Status → Option A → Event A

module _ {ℓ} {A : Type ℓ} where
  -- A record for the proofs: from what a thread was about and what it is about after an access.
  abbrev pub events : Call A → Call A → List (Event A)
  events (push_test value) (leaving status x) = pushes value status ∷ []
  events (push_store value) (notify all) = pushes value success ∷ []
  events close_store (notify all) = closes ∷ []
  events pop_take (leaving status x) = pops status x ∷ []
  events (pop_closed waits) (leaving status x) = pops status x ∷ []
  events (pop_closed waits) pop_wait = pops empty none ∷ []
  events _ _ = []
