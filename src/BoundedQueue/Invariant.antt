-- ===== src/BoundedQueue/Invariant.antt =====
-- The invariant of a ring of evenk/bounded_queue.h and its threads, and what a step has to show.
use evenk.Prelude.{
  ℕ, ◌+◌, ◌-◌, ◌%◌, ◌^◌, ◌≤◌, ◌<◌, ◌≡◌, ◌≢◌, true, false, Option, none, update, update-elim, sym,
  arith,
}
use mathlib.Core.Path.{subst}
use evenk.BoundedQueue.Encoding.{number}
use evenk.BoundedQueue.Ring.{Ring, Slot}
use evenk.BoundedQueue.Moves.{
  Local, push_load, push_test, push_backoff, push_wait, push_put, push_wake, pop_load, pop_test,
  pop_wait, status_load, pop_status, status_wait, pop_get, pop_wake, pop_skip, try_load, try_test,
  try_take,
}
use evenk.BoundedQueue.Steps.{System}
use evenk.BoundedQueue.Roles.{
  Role, free, producer, consumer, trier, count_of, AreApart, AreApart-sym, SlotAt, RoleAt,
}

-- A token that is not of the ticket of a count.
abbrev pub unseen : ℕ → ℕ
unseen count = count + 16

module _ {ℓ} {A : Type ℓ} where
  abbrev pub role : Local A → Role A
  role (push_load p v waiting) = producer p v (unseen p) false
  role (push_test p v waiting t) = producer p v t false
  role (push_backoff p v) = producer p v (unseen p) false
  role (push_wait p v t) = producer p v (unseen p) false
  role (push_put p v t) = producer p v t false
  role (push_wake p v t stored) = producer p v t stored
  role (pop_load c) = consumer c (unseen c) false none
  role (pop_test c t) = consumer c t false none
  role (pop_wait c t) = consumer c (unseen c) false none
  role (status_load c t) = consumer c t false none
  role (pop_status c t) = consumer c t false none
  role (status_wait c t) = consumer c t false none
  role (pop_get c t) = consumer c t false none
  role (pop_wake c t result) = consumer c t true result
  role (pop_skip c t retries) = consumer c t false none
  role (try_load c) = trier c (unseen c)
  role (try_test c t) = trier c t
  role (try_take c t) = trier c t
  role _ = free

  -- What the tests of a thread have established about the token that it saw.
  abbrev pub IsChecked : Local A → Type 0
  IsChecked (push_test p v waiting t) = t < 2 ^ 32
  IsChecked (push_put p v t) = number p t ≡ p
  IsChecked (push_wake p v t stored) = number p t ≡ p
  IsChecked (pop_test c t) = (t < 2 ^ 32) × (t % 4 ≤ 2)
  IsChecked (status_load c t) = number c t ≡ c
  IsChecked (pop_status c t) = (number c t ≡ c) × (t % 4 ≤ 2)
  IsChecked (status_wait c t) = number c t ≡ c
  IsChecked (pop_get c t) = (number c t ≡ c) × (t % 4 ≡ 1)
  IsChecked (pop_wake c t result) = (number c t ≡ c) × (t % 4 ≡ 1)
  IsChecked (pop_skip c t retries) = (number c t ≡ c) × (t % 4 ≡ 2)
  IsChecked (try_test c t) = (t < 2 ^ 32) × (t % 4 ≤ 2)
  IsChecked (try_take c t) = (number c t ≡ c) × (t % 4 ≢ 0) × (t % 4 ≤ 2)
  IsChecked _ = Unit

  module _ (put get : A → Option A) (k : ℕ) where
    -- A thread in its role, at the slot of its count.
    abbrev pub IsPlaced : Ring A → (ℕ → A) → Role A → Type ℓ
    IsPlaced r log role =
        RoleAt put get r.tail r.head (log (count_of role)) role
          (r.slots (count_of role % 2 ^ k)).token (r.slots (count_of role % 2 ^ k)).value

    abbrev pub IsSlot : Ring A → (ℕ → A) → ℕ → Slot A → Type ℓ
    IsSlot r log i s = SlotAt put get (2 ^ k) r.tail r.head log i s.token s.value

    pub record Invariant (n : ℕ) (s : System A) : Type ℓ where
      pub mask_eq : s.ring.mask ≡ 2 ^ k - 1
      pub tail_le : s.ring.tail ≤ n
      pub head_le : s.ring.head ≤ n
      pub slot_at : (i : ℕ) → i < 2 ^ k → IsSlot s.ring s.log i (s.ring.slots i)
      pub placed : (j : ℕ) → IsPlaced s.ring s.log (role (s.threads j))
      pub checked : (j : ℕ) → IsChecked (s.threads j)
      pub apart : (i j : ℕ) → i ≢ j → AreApart (role (s.threads i)) (role (s.threads j))

    -- What the thread `j` owes in a place: its part in the invariant.
    abbrev pub Fits : Ring A → (ℕ → A) → (ℕ → Local A) → ℕ → Local A → Type ℓ
    Fits r log threads j l =
        IsPlaced r log (role l)
        × IsChecked l
        × ((m : ℕ) → j ≢ m → AreApart (role (threads m)) (role l))

    -- A step of the thread `j` keeps the invariant if the slots keep theirs, and the other threads
    -- and the thread in its new place.
    pub Invariant-step :
        (s : System A) (n n' j : ℕ) (r : Ring A) (log : ℕ → A) (l : Local A)
        → Invariant n s
        → r.mask ≡ 2 ^ k - 1
        → r.tail ≤ n'
        → r.head ≤ n'
        → ((i : ℕ) → i < 2 ^ k → IsSlot r log i (r.slots i))
        → ((m : ℕ) → j ≢ m → IsPlaced r log (role (s.threads m)))
        → Fits r log s.threads j l
        → Invariant n' (record { ring = r; threads = update s.threads j l; log = log })
    Invariant-step s n n' j r log l inv mask_eq tail_le head_le slots others (own, checked, apart) =
        record {
          mask_eq = mask_eq;
          tail_le = tail_le;
          head_le = head_le;
          slot_at = slots;
          placed = λ m.
              update-elim (λ l'. IsPlaced r log (role l')) s.threads j l m (λ e. own) (others m);
          checked = λ m.
              update-elim (λ l'. IsChecked l') s.threads j l m (λ e. checked) (λ e. inv.checked m);
          apart = λ i m d.
              update-elim (λ a. AreApart (role a) (role (update s.threads j l m))) s.threads j l i
                (λ e.
                  update-elim (λ b. AreApart (role l) (role b)) s.threads j l m
                    (λ e'. absurd (d (ground arith)))
                    (λ e'. AreApart-sym (role (s.threads m)) (role l) (apart m e')))
                (λ e.
                  update-elim (λ b. AreApart (role (s.threads i)) (role b)) s.threads j l m
                    (λ e'. apart i e) (λ e'. inv.apart i m d));
        }

    -- A thread at a slot, when one slot changes.
    pub IsPlaced-update :
        (r : Ring A) (log : ℕ → A) (i : ℕ) (a : Slot A) (role : Role A)
        → (i ≡ count_of role % 2 ^ k
            → RoleAt put get r.tail r.head (log (count_of role)) role a.token a.value)
        → (i ≢ count_of role % 2 ^ k → IsPlaced r log role)
        → IsPlaced (record r { slots = update r.slots i a }) log role
    IsPlaced-update r log i a role here there =
        update-elim
          (λ (b : Slot A). RoleAt put get r.tail r.head (log (count_of role)) role b.token b.value)
          r.slots i a (count_of role % 2 ^ k) here there

    -- A step of the thread `j` that changes one slot.
    pub Invariant-slot :
        (s : System A) (n j i : ℕ) (a : Slot A) (l : Local A)
        → Invariant n s
        → IsSlot s.ring s.log i a
        → ((m : ℕ)
            → j ≢ m
            → i ≡ count_of (role (s.threads m)) % 2 ^ k
            → RoleAt put get s.ring.tail s.ring.head
                (s.log (count_of (role (s.threads m))))
                (role (s.threads m))
                (s.ring.slots i).token
                (s.ring.slots i).value
            → RoleAt put get s.ring.tail s.ring.head
                (s.log (count_of (role (s.threads m))))
                (role (s.threads m))
                a.token
                a.value)
        → Fits (record s.ring { slots = update s.ring.slots i a }) s.log s.threads j l
        → Invariant (n + 0) (record {
          ring = record s.ring { slots = update s.ring.slots i a };
          threads = update s.threads j l;
          log = s.log;
        })
    Invariant-slot s n j i a l inv slot others own =
        let r : Ring A = record s.ring { slots = update s.ring.slots i a } in
        Invariant-step s n (n + 0) j r s.log l inv inv.mask_eq (ground arith) (ground arith)
          (λ m below.
            update-elim (λ (b : Slot A). IsSlot s.ring s.log m b) s.ring.slots i a m
              (λ e. subst (λ (i' : ℕ). IsSlot s.ring s.log i' a) e slot) (λ e. inv.slot_at m below))
          (λ m d.
            IsPlaced-update s.ring s.log i a (role (s.threads m))
              (λ e. others m d e (
                subst
                  (λ (i' : ℕ).
                    RoleAt put get s.ring.tail s.ring.head (s.log (count_of (role (s.threads m))))
                      (role (s.threads m)) (s.ring.slots i').token (s.ring.slots i').value)
                  (sym e) (inv.placed m)))
              (λ e. inv.placed m))
          own

    -- A step of the thread `j` that changes nothing but its place.
    pub Invariant-quiet :
        (s : System A) (n j : ℕ) (l : Local A)
        → Invariant n s
        → Fits s.ring s.log s.threads j l
        → Invariant (n + 0) (record { ring = s.ring; threads = update s.threads j l; log = s.log })
    Invariant-quiet s n j l inv own =
        Invariant-step s n (n + 0) j s.ring s.log l inv inv.mask_eq (ground arith) (ground arith)
          inv.slot_at (λ m d. inv.placed m) own
