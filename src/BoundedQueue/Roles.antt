-- ===== src/BoundedQueue/Roles.antt =====
-- What a slot of evenk/bounded_queue.h and a thread at the slot owe each other: the ticket that a
-- thread holds, the last token that it saw, and the value behind the token.
use evenk.Prelude.{ℕ, ◌+◌, ◌%◌, ◌^◌, ◌≤◌, ◌<◌, ◌≡◌, ◌≢◌, Bool, true, false, Option, some, none, sym}
use evenk.BoundedQueue.Encoding.{number}

-- A thread with a ticket, the last token that it saw, and whether it is done with the value.
pub data Role {ℓ} (A : Type ℓ) : Type ℓ where
  free : Role A
  producer : (p : ℕ) (v : A) (seen : ℕ) (stored : Bool) → Role A
  consumer : (c seen : ℕ) (taken : Bool) (result : Option A) → Role A
  trier : (c seen : ℕ) → Role A

abbrev pub DoDiffer : Option ℕ → Option ℕ → Type 0
DoDiffer (some a) (some b) = a ≢ b
DoDiffer _ _ = Unit

pub DoDiffer-none : (a : Option ℕ) → DoDiffer a none
DoDiffer-none none = tt
DoDiffer-none (some a) = tt

pub DoDiffer-sym : (a b : Option ℕ) → DoDiffer a b → DoDiffer b a
DoDiffer-sym none none h = tt
DoDiffer-sym none (some b) h = tt
DoDiffer-sym (some a) none h = tt
DoDiffer-sym (some a) (some b) h = λ e. h (sym e)

module _ {ℓ} {A : Type ℓ} where
  -- The count whose slot the thread is at.
  abbrev pub count_of : Role A → ℕ
  count_of free = 0
  count_of (producer p v seen stored) = p
  count_of (consumer c seen taken result) = c
  count_of (trier c seen) = c

  abbrev pub push_ticket : Role A → Option ℕ
  push_ticket (producer p v seen stored) = some p
  push_ticket _ = none

  abbrev pub pop_ticket : Role A → Option ℕ
  pop_ticket (consumer c seen taken result) = some c
  pop_ticket _ = none

  -- Two threads do not hold the same ticket.
  abbrev pub AreApart : Role A → Role A → Type 0
  AreApart role role' =
      DoDiffer (push_ticket role) (push_ticket role')
      × DoDiffer (pop_ticket role) (pop_ticket role')

  pub AreApart-sym : (role role' : Role A) → AreApart role role' → AreApart role' role
  AreApart-sym role role' h = (
    DoDiffer-sym (push_ticket role) (push_ticket role') h.0,
    DoDiffer-sym (pop_ticket role) (pop_ticket role') h.1,
  )

  pub AreApart-free : (role : Role A) → AreApart role free
  AreApart-free role = (DoDiffer-none (push_ticket role), DoDiffer-none (pop_ticket role))

module _ {ℓ} {A : Type ℓ} (put get : A → Option A) where
  -- A slot with the token `t` and the value `x`.
  pub record SlotAt (size tail head : ℕ) (log : ℕ → A) (i t : ℕ) (x : A) : Type ℓ where
    pub fits : t < 2 ^ 32
    pub own : number i t % size ≡ i
    pub near_tail : number i t < tail + size
    pub near_head : number i t < head + size
    pub pushed : t % 4 ≢ 0 → number i t < tail
    pub one_flag : t % 4 ≤ 2
    pub holds : t % 2 ≡ 1 → head ≤ number i t → put (log (number i t)) ≡ some x

  -- `w` is the value in the log.
  pub record ProducerAt (tail : ℕ) (w : A) (p : ℕ) (v : A) (seen : ℕ) (stored : Bool) (t : ℕ)
      (x : A) : Type ℓ where
    pub below : p < tail
    pub behind : number p t ≤ p
    pub pending : number p t ≡ p → t % 4 ≡ 0
    pub stays : number p seen ≡ p → number p t ≡ p
    pub logged : w ≡ v
    pub stored_here : stored ≡ true → number p seen ≡ p
    pub stored_value : stored ≡ true → put w ≡ some x

  pub record ConsumerAt (head : ℕ) (w : A) (c seen : ℕ) (taken : Bool) (result : Option A) (t : ℕ)
      (x : A) : Type ℓ where
    pub below : c < head
    pub behind : number c t ≤ c
    pub stays : number c seen ≡ c → number c t ≡ c
    pub keeps : number c seen ≡ c → seen % 4 ≢ 0 → t % 4 ≡ seen % 4
    pub kept : taken ≡ false → number c t ≡ c → t % 2 ≡ 1 → put w ≡ some x
    pub taken_here : taken ≡ true → number c seen ≡ c
    pub taken_valid : taken ≡ true → seen % 4 ≡ 1
    pub delivered : taken ≡ true → (y : A) × (put w ≡ some y) × (result ≡ get y)

  -- A trier, which loads the head, has the ticket only once it moves the head on.
  pub record TrierAt (head c seen t : ℕ) (x : A) : Type ℓ where
    pub reached : c ≤ head
    pub stays : head ≡ c → number c seen ≡ c → seen % 4 ≢ 0 → number c t ≡ c
    pub keeps : head ≡ c → number c seen ≡ c → seen % 4 ≢ 0 → t % 4 ≡ seen % 4

  abbrev pub RoleAt : (tail head : ℕ) (w : A) → Role A → (t : ℕ) (x : A) → Type ℓ
  RoleAt tail head w free t x = x ≡ x
  RoleAt tail head w (producer p v seen stored) t x = ProducerAt tail w p v seen stored t x
  RoleAt tail head w (consumer c seen taken result) t x = ConsumerAt head w c seen taken result t x
  RoleAt tail head w (trier c seen) t x = TrierAt head c seen t x
