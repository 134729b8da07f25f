-- ===== src/BoundedQueue/Tickets.antt =====
-- The class `ring` of evenk/bounded_queue.h: who has the tickets that are due, in a ring that nobody
-- closes.
use evenk.Prelude.{
  ℕ, ◌+◌, ◌%◌, ◌^◌, ◌≤◌, ◌<◌, ◌≡◌, ◌≢◌, ◌⊎◌, inl, inr, Bool, true, false, some, update, update-elim,
  ◌==◌, if◌then◌else◌, refl, sym, subst,
}
use evenk.BoundedQueue.Encoding.{open_state, number}
use evenk.BoundedQueue.Ring.{Ring, Slot}
use evenk.BoundedQueue.Moves.{Local, close_begin, close_taking, close_storing, close_loop}
use evenk.BoundedQueue.Steps.{System}
use evenk.BoundedQueue.Roles.{push_ticket, pop_ticket}
use evenk.BoundedQueue.Invariant.{role}

-- The flag that a producer has been there.
abbrev pub is_filled : ℕ → ℕ
is_filled t = if t % 4 == 0 then 0 else 1

-- The slot of a count waits for its producer, or for one before it; and so for the consumer.
abbrev pub PushDue : (p t : ℕ) → Type 0
PushDue p t = number p t + is_filled t ≤ p

abbrev pub PopDue : (c t : ℕ) → Type 0
PopDue c t = number c t ≤ c

module _ {ℓ} {A : Type ℓ} where
  abbrev pub token : ℕ → Ring A → ℕ → ℕ
  token k r count = (r.slots (count % 2 ^ k)).token

  abbrev pub is_closing : Local A → Bool
  is_closing close_begin = true
  is_closing close_taking = true
  is_closing close_storing = true
  is_closing (close_loop i) = true
  is_closing _ = false

  -- Some thread has the ticket.
  abbrev pub HasPush : (ℕ → Local A) → ℕ → Type 0
  HasPush threads p = (j : ℕ) × (push_ticket (role (threads j)) ≡ some p)

  abbrev pub HasPop : (ℕ → Local A) → ℕ → Type 0
  HasPop threads c = (j : ℕ) × (pop_ticket (role (threads j)) ≡ some c)

  pub record Held (k : ℕ) (s : System A) : Type ℓ where
    pub opened : s.ring.closed ≡ open_state
    pub none_closes : (j : ℕ) → is_closing (s.threads j) ≡ false
    pub pushes : (p : ℕ) → p < s.ring.tail → PushDue p (token k s.ring p) → HasPush s.threads p
    pub pops : (c : ℕ) → c < s.ring.head → PopDue c (token k s.ring c) → HasPop s.threads c

  -- After an access of the thread `j`.
  abbrev pub HeldAfter : (k : ℕ) (s : System A) (j : ℕ) → Ring A × Local A → Type ℓ
  HeldAfter k s j next =
      Held k (record { ring = next.0; threads = update s.threads j next.1; log = s.log })

  -- A thread keeps its ticket, or the ticket is not that of the thread that moves.
  HasPush-update :
      (threads : ℕ → Local A) (j p : ℕ) (l' : Local A)
      → (push_ticket (role (threads j)) ≡ some p → push_ticket (role l') ≡ some p)
      → HasPush threads p
      → HasPush (update threads j l') p
  HasPush-update threads j p l' keeps (i, e) = (
    i,
    update-elim (λ l. push_ticket (role l) ≡ some p) threads j l' i
        (λ same. keeps (subst (λ m. push_ticket (role (threads m)) ≡ some p) (sym same) e))
        (λ differ. e),
  )

  HasPop-update :
      (threads : ℕ → Local A) (j c : ℕ) (l' : Local A)
      → (pop_ticket (role (threads j)) ≡ some c → pop_ticket (role l') ≡ some c)
      → HasPop threads c
      → HasPop (update threads j l') c
  HasPop-update threads j c l' keeps (i, e) = (
    i,
    update-elim (λ l. pop_ticket (role l) ≡ some c) threads j l' i
        (λ same. keeps (subst (λ m. pop_ticket (role (threads m)) ≡ some c) (sym same) e))
        (λ differ. e),
  )

  update-here : (threads : ℕ → Local A) (j : ℕ) (l' : Local A) → update threads j l' j ≡ l'
  update-here threads j l' =
      update-elim (λ l. l ≡ l') threads j l' j (λ same. refl) (λ differ. absurd (differ refl))

  -- What a step of the thread `j` has to show: a ticket that is due was due, and its holder keeps it, or
  -- the thread has it now.
  abbrev pub PushKept : ℕ → System A → ℕ → Ring A → Local A → ℕ → Type 0
  PushKept k s j r l' p =
      ((p < s.ring.tail)
        × PushDue p (token k s.ring p)
        × (push_ticket (role (s.threads j)) ≡ some p → push_ticket (role l') ≡ some p))
      ⊎ (push_ticket (role l') ≡ some p)

  abbrev pub PopKept : ℕ → System A → ℕ → Ring A → Local A → ℕ → Type 0
  PopKept k s j r l' c =
      ((c < s.ring.head)
        × PopDue c (token k s.ring c)
        × (pop_ticket (role (s.threads j)) ≡ some c → pop_ticket (role l') ≡ some c))
      ⊎ (pop_ticket (role l') ≡ some c)

  pub Held-step :
      (k : ℕ) (s : System A) (j : ℕ) (r : Ring A) (l' : Local A) (log : ℕ → A)
      → r.closed ≡ open_state
      → is_closing l' ≡ false
      → ((p : ℕ) → p < r.tail → PushDue p (token k r p) → PushKept k s j r l' p)
      → ((c : ℕ) → c < r.head → PopDue c (token k r c) → PopKept k s j r l' c)
      → Held k s
      → Held k (record { ring = r; threads = update s.threads j l'; log = log })
  Held-step k s j r l' log opened stays push pop h = record {
    opened = opened;
    none_closes = λ i.
        update-elim (λ l. is_closing l ≡ false) s.threads j l' i (λ same. stays)
          (λ differ. h.none_closes i);
    pushes = λ p below due. elim (push p below due) [
      | inl (below', due', keeps) ↦ HasPush-update s.threads j p l' keeps (h.pushes p below' due')
      | inr mine ↦
          (j, subst (λ l. push_ticket (role l) ≡ some p) (sym (update-here s.threads j l')) mine)
    ];
    pops = λ c below due. elim (pop c below due) [
      | inl (below', due', keeps) ↦ HasPop-update s.threads j c l' keeps (h.pops c below' due')
      | inr mine ↦
          (j, subst (λ l. pop_ticket (role l) ≡ some c) (sym (update-here s.threads j l')) mine)
    ];
  }

  -- The ring stays as it is.
  pub Held-quiet :
      (k : ℕ) (s : System A) (j : ℕ) (l' : Local A)
      → is_closing l' ≡ false
      → ((p : ℕ) → push_ticket (role (s.threads j)) ≡ some p → push_ticket (role l') ≡ some p)
      → ((c : ℕ) → pop_ticket (role (s.threads j)) ≡ some c → pop_ticket (role l') ≡ some c)
      → Held k s
      → Held k (record { ring = s.ring; threads = update s.threads j l'; log = s.log })
  Held-quiet k s j l' stays push pop h =
      Held-step k s j s.ring l' s.log h.opened stays (λ p below due. inl (below, due, push p))
        (λ c below due. inl (below, due, pop c)) h

  -- One slot changes, and tickets that are due there were due before.
  pub Held-slot :
      (k : ℕ) (s : System A) (j i : ℕ) (a : Slot A) (l' : Local A)
      → is_closing l' ≡ false
      → ((p : ℕ)
          → i ≡ p % 2 ^ k
          → PushDue p a.token
          → PushDue p (s.ring.slots i).token
            × (push_ticket (role (s.threads j)) ≡ some p → push_ticket (role l') ≡ some p))
      → ((p : ℕ)
          → i ≢ p % 2 ^ k
          → push_ticket (role (s.threads j)) ≡ some p
          → push_ticket (role l') ≡ some p)
      → ((c : ℕ)
          → i ≡ c % 2 ^ k
          → PopDue c a.token
          → PopDue c (s.ring.slots i).token
            × (pop_ticket (role (s.threads j)) ≡ some c → pop_ticket (role l') ≡ some c))
      → ((c : ℕ)
          → i ≢ c % 2 ^ k
          → pop_ticket (role (s.threads j)) ≡ some c
          → pop_ticket (role l') ≡ some c)
      → Held k s
      → Held k (record {
        ring = record s.ring { slots = update s.ring.slots i a };
        threads = update s.threads j l';
        log = s.log;
      })
  Held-slot k s j i a l' stays push push_there pop pop_there h =
      let r : Ring A = record s.ring { slots = update s.ring.slots i a } in
      Held-step k s j r l' s.log h.opened stays
        (λ p below due. inl (
          update-elim
            (λ (b : Slot A).
              PushDue p b.token
              → (p < s.ring.tail)
                × PushDue p (token k s.ring p)
                × (push_ticket (role (s.threads j)) ≡ some p → push_ticket (role l') ≡ some p))
            s.ring.slots i a (p % 2 ^ k)
            (λ same due'.
              let (was, keeps) = push p same due' in
              (below, subst (λ m. PushDue p (s.ring.slots m).token) same was, keeps))
            (λ differ due'. (below, due', push_there p differ)) due))
        (λ c below due. inl (
          update-elim
            (λ (b : Slot A).
              PopDue c b.token
              → (c < s.ring.head)
                × PopDue c (token k s.ring c)
                × (pop_ticket (role (s.threads j)) ≡ some c → pop_ticket (role l') ≡ some c))
            s.ring.slots i a (c % 2 ^ k)
            (λ same due'.
              let (was, keeps) = pop c same due' in
              (below, subst (λ m. PopDue c (s.ring.slots m).token) same was, keeps))
            (λ differ due'. (below, due', pop_there c differ)) due))
        h
