-- ===== src/LockedQueue/Members.antt =====
-- What the accesses of the members of a `synch_queue` of evenk/synch_queue.h, and the beginnings of a
-- wait and of a notice, leave of the notices.
use evenk.Prelude.{
  ℕ, ◌+◌, ◌^◌, ◌≤◌, ◌<◌, ◌≡◌, ◌⊎◌, inl, inr, refl, Bool, true, false, none, List, [], ◌∷◌, ◌++◌,
  arith, u32, length, length-append,
}
use evenk.Prelude.Threads.{tally, rest, tally-at, rest-le, rest-le_add}
use evenk.Status.{success}
use evenk.SynchQueue.{Queue}
use evenk.FutexLock.Moves as Lock
use evenk.FutexCondVar.Moves.{in_lock, storing, added, Words, notify_add}
use evenk.LockedQueue.Defs.{
  Call, push_test, push_store, close_store, pop_test, pop_take, pop_closed, pop_wait, leaving,
  take_front, access, is_access,
}
use evenk.LockedQueue.Steps.{Thread, at}
use evenk.LockedQueue.Below.{holding, IsSound}
use evenk.LockedQueue.Places.{misplaced, wrong_call}
use evenk.LockedQueue.Notices.{
  coming_at, owes_one_at, owes_all_at, fresh, blocks, beyond, telling, coming, owes_one, owes_all,
  Served, IsServed, fresh_next, beyond_next, coming_next,
}
use evenk.LockedQueue.Served.{split-Served, join-Served, beside}

module _ {ℓ} {A : Type ℓ} where
  -- A value is put into the queue only by a thread that then owes a notice, and a consumer that does
  -- not take one has seen that there is none.
  pub record Accounts (f : ℕ) (c c' : Call A) (q q' : Queue A) : Type 0 where
    pub items :
        (length q'.items ≡ 0)
        ⊎ (length q'.items
              + (coming_at f (in_lock Lock.owner) c + owes_one_at (in_lock Lock.owner) c)
            ≤ length q.items
              + (coming_at f (in_lock Lock.owner) c' + owes_one_at (in_lock Lock.owner) c'))
    pub closed : (q'.is_closed ≡ q.is_closed) ⊎ (0 < owes_all_at (in_lock Lock.owner) c')
    pub all : owes_all_at (in_lock Lock.owner) c ≤ owes_all_at (in_lock Lock.owner) c'

  take_front-Accounts :
      (f : ℕ) (q : Queue A) (xs : List A)
      → q.items ≡ xs
      → Accounts f pop_take (take_front xs q).0 q (take_front xs q).1
  take_front-Accounts f q [] e = ground arith
  take_front-Accounts f q (x ∷ xs) e = ground arith

  access-Accounts :
      (f : ℕ) (c : Call A) (q : Queue A)
      → is_access c ≡ true
      → wrong_call q c ≡ 0
      → Accounts f c (access c q).0 q (access c q).1
  unfolding access
  access-Accounts f (push_test value) q is right = ground arith
  access-Accounts f (push_store value) q is right =
      ground (arith, length-append q.items (value ∷ []))
  access-Accounts f close_store q is right = ground arith
  access-Accounts f (pop_test waits) q is right = ground arith
  access-Accounts f pop_take q is right = take_front-Accounts f q q.items refl
  access-Accounts f (pop_closed waits) q is right = ground arith
  access-Accounts f c q is right = absurd (cc)

  Accounts-Served :
      {c c' : Call A} {q q' : Queue A} (futex f b y t k o l : ℕ)
      → Accounts futex c c' q q'
      → Served q
          (0 + f)
          (0 + b)
          (0 + y)
          (0 + t)
          (coming_at futex (in_lock Lock.owner) c + k)
          (owes_one_at (in_lock Lock.owner) c + o)
          (owes_all_at (in_lock Lock.owner) c + l)
      → Served q'
          (0 + f)
          (0 + b)
          (0 + y)
          (0 + t)
          (coming_at futex (in_lock Lock.owner) c' + k)
          (owes_one_at (in_lock Lock.owner) c' + o)
          (owes_all_at (in_lock Lock.owner) c' + l)
  Accounts-Served futex f b y t k o l a i = record {
    known = i.known;
    quiet = i.quiet;
    served = λ some_wait. elim a.items [
      | inl none_left ↦ omega (arith, none_left)
      | inr kept ↦ omega (arith, kept, i.served some_wait)
    ];
    opened = λ some_wait. elim a.closed [
      | inl same ↦ ground (arith, same, i.opened some_wait, a.all)
      | inr owed ↦ inr (omega (arith, owed))
    ];
  }

  pub access-Served :
      (futex : ℕ) (before after : List (Thread A)) (q : Queue A) (c : Call A)
      → is_access c ≡ true
      → wrong_call q c ≡ 0
      → IsServed futex q (before ++ at (in_lock Lock.owner) c ∷ after)
      → IsServed futex (access c q).1 (before ++ at (in_lock Lock.owner) (access c q).0 ∷ after)
  access-Served futex before after q c is right i =
      join-Served futex (access c q).1 before after (at (in_lock Lock.owner) (access c q).0) (
        Accounts-Served futex (rest (fresh futex) before after) (rest blocks before after)
          (rest (beyond futex) before after) (rest telling before after)
          (rest (coming futex) before after) (rest owes_one before after)
          (rest owes_all before after) (access-Accounts futex c q is right)
          (split-Served futex q before after (at (in_lock Lock.owner) c) i))

  -- A consumer begins to wait: it knows that the queue is empty and open, and that no notice is on its
  -- way.
  wait-Served :
      (q : Queue A) (f b y t k o l : ℕ)
      → wrong_call q pop_wait ≡ 0
      → t ≡ 0
      → Served q (0 + f) (0 + b) (0 + y) (0 + t) (0 + k) (0 + o) (0 + l)
      → Served q (1 + f) (0 + b) (0 + y) (0 + t) (0 + k) (0 + o) (0 + l)
  wait-Served q f b y t k o l right silent i = ground (arith, i)

  pub begin_wait-Served :
      (before after : List (Thread A)) (m : Words) (q : Queue A)
      → wrong_call q pop_wait ≡ 0
      → IsSound m (before ++ at (in_lock Lock.owner) pop_wait ∷ after)
      → tally misplaced (before ++ at (in_lock Lock.owner) pop_wait ∷ after) ≡ 0
      → IsServed m.futex q (before ++ at (in_lock Lock.owner) pop_wait ∷ after)
      → IsServed m.futex q (before ++ at storing (pop_test true) ∷ after)
  begin_wait-Served before after m q right s e i =
      let z = beside before after m (in_lock Lock.owner) pop_wait s e in
      join-Served m.futex q before after (at storing (pop_test true)) (
        wait-Served q (rest (fresh m.futex) before after) (rest blocks before after)
          (rest (beyond m.futex) before after) (rest telling before after)
          (rest (coming m.futex) before after) (rest owes_one before after)
          (rest owes_all before after) right (omega (arith, z.one_holder, z.told))
          (split-Served m.futex q before after (at (in_lock Lock.owner) pop_wait) i))

  -- A notice begins: whoever waits and is not blocked is told by the new value.
  next-Served :
      (q : Queue A) (f f' b y y' t k k' o l : ℕ)
      → f' ≤ y
      → y' ≤ y
      → k ≤ k' + y
      → Served q (0 + f) (0 + b) (0 + y) (0 + t) (0 + k) o l
      → Served q (0 + f') (0 + b) (0 + y') (1 + t) (0 + k') o l
  next-Served q f f' b y y' t k k' o l new bound coming i = ground (arith, i)

  next-others :
      (before after : List (Thread A)) (futex : ℕ) (q : Queue A) (o l : ℕ)
      → rest holding before after ≡ 0
      → Served q
          (0 + rest (fresh futex) before after)
          (0 + rest blocks before after)
          (0 + rest (beyond futex) before after)
          (0 + rest telling before after)
          (0 + rest (coming futex) before after)
          o
          l
      → Served q
          (0 + rest (fresh (futex + 1)) before after)
          (0 + rest blocks before after)
          (0 + rest (beyond (futex + 1)) before after)
          (1 + rest telling before after)
          (0 + rest (coming (futex + 1)) before after)
          o
          l
  next-others before after futex q o l alone i =
      let f =
        rest-le_add (fresh (futex + 1)) holding (beyond futex) (fresh_next futex) before after in
      next-Served q (rest (fresh futex) before after) (rest (fresh (futex + 1)) before after)
        (rest blocks before after) (rest (beyond futex) before after)
        (rest (beyond (futex + 1)) before after) (rest telling before after)
        (rest (coming futex) before after) (rest (coming (futex + 1)) before after) o l
        (omega (arith, alone, f))
        (rest-le (beyond (futex + 1)) (beyond futex) (beyond_next futex) before after)
        (rest-le_add (coming futex) (coming (futex + 1)) (beyond futex) (coming_next futex) before
          after)
        i

  notify_add-Served :
      (before after : List (Thread A)) (futex : ℕ) (q : Queue A) (all : Bool)
      → rest holding before after ≡ 0
      → IsServed futex q (before ++ at (in_lock Lock.owner) (Call.notify all) ∷ after)
      → IsServed (futex + 1) q (before ++ at (added all true) (leaving success none) ∷ after)
  notify_add-Served before after futex q true alone i =
      join-Served (futex + 1) q before after (at (added true true) (leaving success none)) (
        next-others before after futex q (0 + rest owes_one before after)
          (1 + rest owes_all before after) alone
          (split-Served futex q before after (at (in_lock Lock.owner) (Call.notify true)) i))
  notify_add-Served before after futex q false alone i =
      join-Served (futex + 1) q before after (at (added false true) (leaving success none)) (
        next-others before after futex q (1 + rest owes_one before after)
          (0 + rest owes_all before after) alone
          (split-Served futex q before after (at (in_lock Lock.owner) (Call.notify false)) i))

  pub begin_notify-Served :
      (before after : List (Thread A)) (m : Words) (q : Queue A) (all : Bool)
      → (notify_add all true m).0.notified < 2 ^ 32
      → IsSound m (before ++ at (in_lock Lock.owner) (Call.notify all) ∷ after)
      → IsServed m.futex q (before ++ at (in_lock Lock.owner) (Call.notify all) ∷ after)
      → IsServed
          (notify_add all true m).0.futex
          q
          (before ++ at (notify_add all true m).1 (leaving success none) ∷ after)
  unfolding notify_add
  begin_notify-Served before after m q all few s i =
      let e : u32 (m.futex + 1) ≡ m.futex + 1 = ground (arith, s) in
      rw e (
        notify_add-Served before after m.futex q all
          (omega (
            arith,
            s.one_holder,
            tally-at holding before after (at (in_lock Lock.owner) (Call.notify all)),
          ))
          i)
