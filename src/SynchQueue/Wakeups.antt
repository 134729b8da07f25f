-- ===== src/SynchQueue/Wakeups.antt =====
-- Consumers of evenk/synch_queue.h that block in `wait_pop`, and the notices that wake them.
-- The lock makes a stretch of code between two waits one step, and `cond_.wait` gives up the lock
-- and blocks in one step. Any other thread may push or close at any time.
use evenk.Prelude.{
  ℕ, suc, ◌-◌, ◌≤◌, ◌<◌, ◌≡◌, refl, Bool, true, false, Option, List, [], ◌∷◌, ◌++◌, ◌⊎◌, inl, inr,
  map, arith, Bool-cases, length, length-append, if◌then◌else◌,
}
use evenk.Prelude.Threads.{tally, tally-at}
use evenk.Status
use evenk.Status.{Status}
use evenk.SynchQueue.Defs.{
  Queue, Notice, silent, notify_one, notify_all, synch_queue, close, locked_pop, wait_push,
}

-- Where a thread stands in `wait_pop`.
pub data Local {ℓ} (A : Type ℓ) : Type ℓ where
  entering : Local A  -- before it gets the lock
  sleeping : Local A  -- blocked in `cond_.wait`
  woken : Local A  -- on its way out of `cond_.wait`, before it has the lock again
  returned : Status → Option A → Local A

module _ {ℓ} {A : Type ℓ} where
  -- One round of the loop: `locked_pop`, and back to sleep on `empty`.
  unfoldable pub attempt : Queue A → Local A × Queue A
  unfolding locked_pop
  attempt q =
      let (status, value, q') = locked_pop q in
      (if Status.is_empty status then sleeping else returned status value, q')

  abbrev pub has_lock_next : Local A → Bool
  has_lock_next entering = true
  has_lock_next woken = true
  has_lock_next _ = false

  abbrev pub wake : Local A → Local A
  wake sleeping = woken
  wake p = p

  abbrev pub is_sleeping : Local A → ℕ
  is_sleeping sleeping = 1
  is_sleeping _ = 0

  abbrev pub is_woken : Local A → ℕ
  is_woken woken = 1
  is_woken _ = 0

pub record System {ℓ} (A : Type ℓ) : Type ℓ where
  pub queue : Queue A
  pub threads : List (Local A)

-- What a notice does to the threads. Which sleeper `notify_one` wakes is left open.
pub data Wakes {ℓ} {A : Type ℓ} : Notice → List (Local A) → List (Local A) → Type ℓ where
  none_told : {ts : List (Local A)} → Wakes silent ts ts
  none_sleeps : {ts : List (Local A)} → tally is_sleeping ts ≡ 0 → Wakes notify_one ts ts
  one_wakes :
      (before after : List (Local A))
      → Wakes notify_one (before ++ sleeping ∷ after) (before ++ woken ∷ after)
  all_wake : {ts : List (Local A)} → Wakes notify_all ts (map wake ts)

pub data Step {ℓ} {A : Type ℓ} : System A → System A → Type ℓ where
  -- A thread that calls `wait_pop` after it has returned, or for the first time.
  call :
      (before after : List (Local A)) (q : Queue A) (status : Status) (value : Option A)
      → Step
          (record { queue = q; threads = before ++ returned status value ∷ after })
          (record { queue = q; threads = before ++ entering ∷ after })
  try :
      (before after : List (Local A)) (q : Queue A) (p : Local A)
      → has_lock_next p ≡ true
      → Step
          (record { queue = q; threads = before ++ p ∷ after })
          (record { queue = (attempt q).1; threads = before ++ (attempt q).0 ∷ after })
  -- A return from `cond_.wait` with no notice, which the standard allows.
  spurious :
      (before after : List (Local A)) (q : Queue A)
      → Step
          (record { queue = q; threads = before ++ sleeping ∷ after })
          (record { queue = q; threads = before ++ woken ∷ after })
  push :
      (v : A) (q : Queue A) {ts ts' : List (Local A)}
      → Wakes (wait_push v q).1 ts ts'
      → Step
          (record { queue = q; threads = ts })
          (record { queue = (wait_push v q).2; threads = ts' })
  shut :
      (q : Queue A) {ts ts' : List (Local A)}
      → Wakes (close q).0 ts ts'
      → Step (record { queue = q; threads = ts }) (record { queue = (close q).1; threads = ts' })

-- All consumers have yet to call, and the queue is new.
pub data Reach {ℓ} {A : Type ℓ} : System A → Type ℓ where
  start :
      (ts : List (Local A))
      → tally is_sleeping ts ≡ 0
      → Reach (record { queue = synch_queue; threads = ts })
  later : {s t : System A} → Reach s → Step s t → Reach t

module _ {ℓ} {A : Type ℓ} where
  -- While a thread sleeps the queue is open, and has a woken thread for each value.
  pub record IsAwake (s : System A) : Type ℓ where
    pub covered : 0 < tally is_sleeping s.threads → length s.queue.items ≤ tally is_woken s.threads
    pub opened : 0 < tally is_sleeping s.threads → s.queue.is_closed ≡ false

  tally-wake : (ts : List (Local A)) → tally is_sleeping (map wake ts) ≡ 0
  tally-wake [] = refl
  tally-wake (t ∷ ts) = omega (arith, tally-wake ts, awake t)
    where
      awake : (p : Local A) → is_sleeping (wake p) ≡ 0
      awake sleeping = refl
      awake p = refl

  told_one :
      {n : Notice} {ts ts' : List (Local A)}
      → Wakes n ts ts'
      → n ≡ notify_one
      → ((tally is_sleeping ts' ≡ 0) × (tally is_sleeping ts ≡ 0))
        ⊎ ((tally is_sleeping ts ≡ suc (tally is_sleeping ts'))
            × (tally is_woken ts' ≡ suc (tally is_woken ts)))
  told_one none_told e = absurd (cc)
  told_one (none_sleeps idle) e = inl (idle, idle)
  told_one (one_wakes before after) e = inr (
    omega (
      arith,
      tally-at is_sleeping before after sleeping,
      tally-at is_sleeping before after woken,
    ),
    omega (arith, tally-at is_woken before after sleeping, tally-at is_woken before after woken),
  )
  told_one all_wake e = absurd (cc)

  told_nothing : {n : Notice} {ts ts' : List (Local A)} → Wakes n ts ts' → n ≡ silent → ts' ≡ ts
  told_nothing none_told e = refl
  told_nothing (none_sleeps idle) e = refl
  told_nothing (one_wakes before after) e = absurd (cc)
  told_nothing all_wake e = absurd (cc)

  told_all :
      {n : Notice} {ts ts' : List (Local A)}
      → Wakes n ts ts'
      → n ≡ notify_all
      → tally is_sleeping ts' ≡ 0
  told_all none_told e = absurd (cc)
  told_all (none_sleeps idle) e = idle
  told_all (one_wakes before after) e = absurd (cc)
  told_all {ts} all_wake e = tally-wake ts

  -- What `wait_push` does, told by its notice.
  wait_push_cases :
      (v : A) (q : Queue A)
      → (((wait_push v q).1 ≡ silent) × ((wait_push v q).2 ≡ q) × (q.is_closed ≡ true))
        ⊎ (((wait_push v q).1 ≡ notify_one)
            × ((wait_push v q).2 ≡ record q { items = q.items ++ v ∷ [] }))
  unfolding wait_push
  wait_push_cases v q = elim (Bool-cases q.is_closed) [
    | inl c ↦ inl (ground arith, ground arith, c)
    | inr o ↦ inr (ground arith, ground arith)
  ]

  attempt_cases :
      (q : Queue A)
      → ((length q.items ≡ 0)
          × (q.is_closed ≡ false)
          × ((attempt q).1 ≡ q)
          × ((attempt q).0 ≡ sleeping))
        ⊎ ((length (attempt q).1.items ≡ length q.items - 1)
            × ((attempt q).1.is_closed ≡ q.is_closed)
            × (is_sleeping (attempt q).0 ≡ 0)
            × (is_woken (attempt q).0 ≡ 0))
  unfolding attempt
  attempt_cases q = by_items q.items refl
    where
      by_items :
          (xs : List A)
          → q.items ≡ xs
          → ((length q.items ≡ 0)
              × (q.is_closed ≡ false)
              × ((attempt q).1 ≡ q)
              × ((attempt q).0 ≡ sleeping))
            ⊎ ((length (attempt q).1.items ≡ length q.items - 1)
                × ((attempt q).1.is_closed ≡ q.is_closed)
                × (is_sleeping (attempt q).0 ≡ 0)
                × (is_woken (attempt q).0 ≡ 0))
      by_items [] e = elim (Bool-cases q.is_closed) [
        | inl c ↦ inr (ground arith, ground arith, ground arith, ground arith)
        | inr o ↦ inl (ground arith, o, ground arith, ground arith)
      ]
      by_items (x ∷ xs) e = inr (ground arith, ground arith, ground arith, ground arith)

  close_tells_all : (q : Queue A) → (close q).0 ≡ notify_all
  unfolding close
  close_tells_all q = refl

  Step-IsAwake : {s t : System A} → Step s t → IsAwake s → IsAwake t
  Step-IsAwake (call before after q status value) a = ground (
    arith,
    a.covered,
    a.opened,
    tally-at is_sleeping before after (returned status value),
    tally-at is_sleeping before after entering,
    tally-at is_woken before after (returned status value),
    tally-at is_woken before after entering,
  )
  Step-IsAwake (try before after q p ready) a = ground (
    arith,
    a.covered,
    a.opened,
    attempt_cases q,
    tally-at is_sleeping before after p,
    tally-at is_sleeping before after (attempt q).0,
    tally-at is_woken before after p,
    tally-at is_woken before after (attempt q).0,
  )
  Step-IsAwake (spurious before after q) a = ground (
    arith,
    a.covered,
    a.opened,
    tally-at is_sleeping before after sleeping,
    tally-at is_sleeping before after woken,
    tally-at is_woken before after sleeping,
    tally-at is_woken before after woken,
  )
  Step-IsAwake (push v q w) a = ground (
    arith,
    a.covered,
    a.opened,
    wait_push_cases v q,
    told_nothing w,
    told_one w,
    length-append q.items (v ∷ []),
  )
  Step-IsAwake (shut q w) a = let asleep = told_all w (close_tells_all q) in ground arith

  Reach-IsAwake : {s : System A} → Reach s → IsAwake s
  Reach-IsAwake (start ts idle) = ground arith
  Reach-IsAwake (later r st) = Step-IsAwake st (Reach-IsAwake r)

  -- In every reachable state in which some thread sleeps in `wait_pop`, the queue is open and at
  -- least as many threads are awake and about to try as it holds values: no wake-up is lost, neither
  -- a push's nor a close's.
  pub wait_pop_wakeups :
      {s : System A}
      → Reach s
      → 0 < tally is_sleeping s.threads
      → (length s.queue.items ≤ tally is_woken s.threads) × (s.queue.is_closed ≡ false)
  wait_pop_wakeups r asleep = let a = Reach-IsAwake r in (a.covered asleep, a.opened asleep)
