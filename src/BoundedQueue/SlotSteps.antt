-- ===== src/BoundedQueue/SlotSteps.antt =====
-- The accesses to evenk/bounded_queue.h that write a slot keep the invariant.
use evenk.Prelude.{
  ℕ, ◌+◌, ◌-◌, ◌%◌, ◌^◌, ◌≤◌, ◌<◌, ◌≡◌, ◌≢◌, Bool, Option, some, update, arith, sym, ap, u32, ◌∙◌,
}
use mathlib.Core.Path.{subst}
use native.Mathlib.Nat.{add-mod_right, mod-lt}
use evenk.Prelude.Bits.{pow-pos}
use evenk.BoundedQueue.Encoding.{number, index, index-eq, ticket, ticket-eq}
use evenk.BoundedQueue.Slot.{IsMarked}
use evenk.BoundedQueue.Ring.{Slot, set_token, set_value, slot_of}
use evenk.BoundedQueue.Moves.{Local, wake_next}
use evenk.BoundedQueue.Steps.{System}
use evenk.BoundedQueue.Roles.{Role, count_of, producer, consumer, AreApart, RoleAt}
use evenk.BoundedQueue.Others.{RoleAt-mark, RoleAt-put, RoleAt-wake, RoleAt-get, RoleAt-next}
use evenk.BoundedQueue.SlotLaws.{SlotAt-mark, SlotAt-put, SlotAt-wake, SlotAt-get, SlotAt-next}
use evenk.BoundedQueue.Laps.{lap, size_round, slot_bits}
use evenk.BoundedQueue.Invariant.{
  role, Fits, IsPlaced, IsSlot, Invariant, Invariant-slot, IsPlaced-update,
}

module _ {ℓ} {A : Type ℓ} (put get : A → Option A) (k : ℕ) (low : 4 ≤ k) (s : System A) (n j : ℕ)
    (inv : Invariant put get k n s) where
  -- The index of a slot in the invariant.
  pub slot_index : (c : ℕ) → index s.ring.mask c ≡ c % 2 ^ k
  slot_index c = rw inv.mask_eq (index-eq k c)

  pub slot_below : (c : ℕ) → index s.ring.mask c < 2 ^ k
  slot_below c = rw (slot_index c) (mod-lt c (pow-pos k))

  same_bits : (c c' : ℕ) → index s.ring.mask c ≡ c' % 2 ^ k → c % 16 ≡ c' % 16
  same_bits c c' e = ground (
    arith,
    ap (λ (i : ℕ). i % 16) (sym (slot_index c) ∙ e),
    slot_bits k c low,
    slot_bits k c' low,
  )

  pub at_slot :
      (role : Role A)
      → IsPlaced put get k s.ring s.log role
      → RoleAt put get s.ring.tail s.ring.head
          (s.log (count_of role))
          role
          (slot_of s.ring (count_of role)).token
          (slot_of s.ring (count_of role)).value
  unfolding slot_of
  at_slot role h =
      subst
        (λ (i : ℕ).
          RoleAt put get s.ring.tail s.ring.head (s.log (count_of role)) role (s.ring.slots i).token
            (s.ring.slots i).value)
        (sym (slot_index (count_of role))) h

  -- A thread at a slot that it changes itself.
  pub IsPlaced-here :
      (role : Role A) (a : Slot A)
      → RoleAt put get s.ring.tail s.ring.head (s.log (count_of role)) role a.token a.value
      → IsPlaced put get k
          (record s.ring { slots = update s.ring.slots (index s.ring.mask (count_of role)) a })
          s.log
          role
  IsPlaced-here role a h =
      IsPlaced-update put get k s.ring s.log (index s.ring.mask (count_of role)) a role (λ e. h)
        (λ e. absurd (e (slot_index (count_of role))))

  pub IsSlot-here : (c : ℕ) → IsSlot put get k s.ring s.log (index s.ring.mask c) (slot_of s.ring c)
  unfolding slot_of
  IsSlot-here c = inv.slot_at (index s.ring.mask c) (slot_below c)

  -- A mark by `wait` or `close`.
  pub Invariant-mark :
      (l : Local A) (c t' : ℕ)
      → IsMarked (slot_of s.ring c).token t'
      → Fits put get k s.ring s.log s.threads j l
      → Invariant put get k
          (n + 0)
          (record { ring = set_token s.ring c t'; threads = update s.threads j l; log = s.log })
  unfolding set_token slot_of index
  Invariant-mark l c t' m (placed, checked, apart) =
      let x = slot_of s.ring c in
      Invariant-slot put get k s n j (index s.ring.mask c) (record { token = t'; value = x.value })
        l inv
        (SlotAt-mark put get (2 ^ k) s.ring.tail s.ring.head s.log (index s.ring.mask c) x.token
          x.value (IsSlot-here c) t' m)
        (λ m' d e h.
          RoleAt-mark put get s.ring.tail s.ring.head _ x.token x.value (role (s.threads m')) t' m
            h)
        (
          IsPlaced-update put get k s.ring s.log (index s.ring.mask c)
              (record { token = t'; value = x.value }) (role l)
              (λ e. RoleAt-mark put get s.ring.tail s.ring.head _ x.token x.value (role l) t' m (
                subst
                  (λ (i : ℕ).
                    RoleAt put get s.ring.tail s.ring.head (s.log (count_of (role l))) (role l)
                      (s.ring.slots i).token (s.ring.slots i).value)
                  (sym e) placed))
              (λ e. placed),
          checked,
          apart,
        )

  -- A write of the value by the producer with the count `q`.
  pub Invariant-put :
      (l : Local A) (q : ℕ) (v : A) (seen : ℕ) (stored : Bool) (y : A)
      → number q (slot_of s.ring q).token ≡ q
      → (slot_of s.ring q).token % 4 ≡ 0
      → ((m : ℕ) → j ≢ m → AreApart (role (s.threads m)) (producer q v seen stored))
      → Fits put get k (set_value s.ring q y) s.log s.threads j l
      → Invariant put get k
          (n + 0)
          (record { ring = set_value s.ring q y; threads = update s.threads j l; log = s.log })
  unfolding set_value slot_of index
  Invariant-put l q v seen stored y turn pending apart own =
      let x = slot_of s.ring q in
      Invariant-slot put get k s n j (index s.ring.mask q) (record { token = x.token; value = y }) l
        inv
        (SlotAt-put put get (2 ^ k) s.ring.tail s.ring.head s.log (index s.ring.mask q) x.token
          x.value (IsSlot-here q) y pending)
        (λ m d e h.
          RoleAt-put put get s.ring.tail s.ring.head _ x.token x.value (role (s.threads m)) q v seen
            stored y (same_bits q _ e) (apart m d) turn pending h)
        own

  -- Its mark that the value is there, or that there is none.
  pub Invariant-wake :
      (l : Local A) (q flag : ℕ) (v : A) (seen : ℕ) (stored : Bool)
      → number q (slot_of s.ring q).token ≡ q
      → (slot_of s.ring q).token % 4 ≡ 0
      → q < s.ring.tail
      → flag ≤ 2
      → flag ≢ 0
      → (flag ≡ 1 → put (s.log q) ≡ some (slot_of s.ring q).value)
      → ((m : ℕ) → j ≢ m → AreApart (role (s.threads m)) (producer q v seen stored))
      → Fits put get k (set_token s.ring q (q - q % 16 + flag)) s.log s.threads j l
      → Invariant put get k (n + 0) (record {
        ring = set_token s.ring q (q - q % 16 + flag);
        threads = update s.threads j l;
        log = s.log;
      })
  unfolding set_token slot_of index
  Invariant-wake l q flag v seen stored turn pending below few some_flag value apart own =
      let x = slot_of s.ring q in
      Invariant-slot put get k s n j (index s.ring.mask q)
        (record { token = q - q % 16 + flag; value = x.value }) l inv
        (SlotAt-wake put get (2 ^ k) s.ring.tail s.ring.head s.log (index s.ring.mask q) x.token
          x.value (IsSlot-here q) q flag
          (ground (arith, ap (λ (i : ℕ). i % 16) (slot_index q), slot_bits k q low)) turn below few
          value)
        (λ m d e h.
          RoleAt-wake put get s.ring.tail s.ring.head _ x.token x.value (role (s.threads m)) q flag
            v seen stored (same_bits q _ e) (apart m d) turn pending few some_flag
            (λ f c. ground (arith, value f, ap s.log c)) h)
        own

  -- A move out of the value by the consumer with the count `d`.
  pub Invariant-get :
      (l : Local A) (d seen : ℕ) (taken : Bool) (result : Option A) (y : A)
      → number d (slot_of s.ring d).token ≡ d
      → (slot_of s.ring d).token % 4 ≢ 0
      → d < s.ring.head
      → ((m : ℕ) → j ≢ m → AreApart (role (s.threads m)) (consumer d seen taken result))
      → Fits put get k (set_value s.ring d y) s.log s.threads j l
      → Invariant put get k
          (n + 0)
          (record { ring = set_value s.ring d y; threads = update s.threads j l; log = s.log })
  unfolding set_value slot_of index
  Invariant-get l d seen taken result y turn full below apart own =
      let x = slot_of s.ring d in
      Invariant-slot put get k s n j (index s.ring.mask d) (record { token = x.token; value = y }) l
        inv
        (SlotAt-get put get (2 ^ k) s.ring.tail s.ring.head s.log (index s.ring.mask d) x.token
          x.value (IsSlot-here d) d y
          (ground (arith, ap (λ (i : ℕ). i % 16) (slot_index d), slot_bits k d low)) turn below)
        (λ m d' e h.
          RoleAt-get put get s.ring.tail s.ring.head _ x.token x.value (role (s.threads m)) d seen
            taken result y (same_bits d _ e) (apart m d') turn full h)
        own

  -- Its step to the next ticket of the slot.
  pub Invariant-next :
      (l : Local A) (d seen : ℕ) (taken : Bool) (result : Option A)
      → d + 2 ^ k < 2 ^ 32
      → number d (slot_of s.ring d).token ≡ d
      → (slot_of s.ring d).token % 4 ≢ 0
      → d < s.ring.head
      → ((m : ℕ) → j ≢ m → AreApart (role (s.threads m)) (consumer d seen taken result))
      → Fits put get k (wake_next d s.ring) s.log s.threads j l
      → Invariant put get k
          (n + 0)
          (record { ring = wake_next d s.ring; threads = update s.threads j l; log = s.log })
  unfolding wake_next set_token slot_of index
  Invariant-next l d seen taken result fits turn full below apart own =
      let x = slot_of s.ring d in
      let e : u32 (ticket d + s.ring.mask + 1) ≡ d - d % 16 + 2 ^ k =
        ground (arith, ticket-eq d (omega arith), inv.mask_eq, pow-pos k) in
      Invariant-slot put get k s n j (index s.ring.mask d)
        (record { token = u32 (ticket d + s.ring.mask + 1); value = x.value }) l inv
        (subst
          (λ t.
            IsSlot put get k s.ring s.log (index s.ring.mask d)
              (record { token = t; value = x.value }))
          (sym e)
          (SlotAt-next put get (2 ^ k) s.ring.tail s.ring.head s.log (index s.ring.mask d) x.token
            x.value (IsSlot-here d) d (size_round k low)
            (ground (arith, ap (λ (i : ℕ). i % 16) (slot_index d), slot_bits k d low))
            (sym (slot_index d)) (add-mod_right d (2 ^ k)) fits turn below full))
        (λ m d' e' h.
          subst
            (λ t.
              RoleAt put get s.ring.tail s.ring.head (s.log (count_of (role (s.threads m))))
                (role (s.threads m)) t x.value)
            (sym e)
            (RoleAt-next put get s.ring.tail s.ring.head _ x.token x.value (role (s.threads m))
              (2 ^ k) d seen taken result (size_round k low) (same_bits d _ e')
              (lap (2 ^ k) d _ (sym (slot_index d) ∙ e')) (apart m d') below turn full h))
        own
