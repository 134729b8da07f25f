-- ===== src/SharedTicketLock/Order.antt =====
-- The tickets of `shared_ticket_lock` of evenk/spinlock.h, in the order in which they were taken.
use evenk.Prelude.{ℕ, ◌+◌, ◌*◌, ◌^◌, ◌%◌, ◌≤◌, ◌<◌, ◌≡◌, List, [], ◌∷◌, ◌++◌, u32, length, arith}
use mathlib.Core.Path.{subst}
use evenk.Prelude.{refl}
use evenk.Prelude.Threads.{tally}
use evenk.SharedTicketLock.Moves.{Local, waiting, owner, leaving, shared_waiting, shared_owner}

abbrev pub exclusive : Local → ℕ
exclusive (shared_waiting tail) = 0
exclusive shared_owner = 0
exclusive _ = 1

abbrev pub shared : Local → ℕ
shared (shared_waiting tail) = 1
shared shared_owner = 1
shared _ = 0

-- What a thread knows, with `e` exclusive and `s` shared tickets before its own.
abbrev pub Knows : (head e s : ℕ) → Local → Type 0
Knows head e s (waiting tail) = tail ≡ u32 (head + e + 2 ^ 16 * s)
Knows head e s owner = (e ≡ 0) × (s ≡ 0)
Knows head e s (leaving head') = (e ≡ 0) × (s ≡ 0) × (head' ≡ head)
Knows head e s (shared_waiting tail) = tail ≡ (head + e) % 2 ^ 16
Knows head e s shared_owner = e ≡ 0

abbrev pub IsOrdered : (head e s : ℕ) → List Local → Type 0
IsOrdered head e s [] = Unit
IsOrdered head e s (p ∷ ts) = Knows head e s p × IsOrdered head (exclusive p + e) (shared p + s) ts

pub IsOrdered-split :
    (head e s e' s' : ℕ) (before after : List Local)
    → e' ≡ tally exclusive before + e
    → s' ≡ tally shared before + s
    → IsOrdered head e s (before ++ after)
    → IsOrdered head e s before × IsOrdered head e' s' after
IsOrdered-split head e s e' s' [] after p q h =
    let p' : e ≡ e' = omega arith in
    let q' : s ≡ s' = omega arith in
    (tt, subst (λ x. IsOrdered head x s' after) p' (subst (λ x. IsOrdered head e x after) q' h))
IsOrdered-split head e s e' s' (t ∷ before) after p q (k, h) =
    let (first, last) =
      IsOrdered-split head (exclusive t + e) (shared t + s) e' s' before after (omega arith)
        (omega arith) h in
    ((k, first), last)

pub IsOrdered-join :
    (head e s e' s' : ℕ) (before after : List Local)
    → e' ≡ tally exclusive before + e
    → s' ≡ tally shared before + s
    → IsOrdered head e s before
    → IsOrdered head e' s' after
    → IsOrdered head e s (before ++ after)
IsOrdered-join head e s e' s' [] after p q h h' =
    let p' : e' ≡ e = omega arith in
    let q' : s' ≡ s = omega arith in
    subst (λ x. IsOrdered head x s after) p' (subst (λ x. IsOrdered head e' x after) q' h')
IsOrdered-join head e s e' s' (t ∷ before) after p q (k, h) h' = (
  k,
  IsOrdered-join head (exclusive t + e) (shared t + s) e' s' before after (omega arith)
      (omega arith) h h',
)

-- One ticket less stands before a thread, and the head has moved by the same step.
Knows-later :
    (head head' e e' s s' : ℕ) (p : Local)
    → 0 < e + s
    → e' ≤ e
    → (head + e) % 2 ^ 16 ≡ (head' + e') % 2 ^ 16
    → u32 (head + e + 2 ^ 16 * s) ≡ u32 (head' + e' + 2 ^ 16 * s')
    → Knows head e s p
    → Knows head' e' s' p
Knows-later head head' e e' s s' (waiting tail) some_before fewer low all k = ground arith
Knows-later head head' e e' s s' owner some_before fewer low all k = ground arith
Knows-later head head' e e' s s' (leaving h) some_before fewer low all k = ground arith
Knows-later head head' e e' s s' (shared_waiting tail) some_before fewer low all k = ground arith
Knows-later head head' e e' s s' shared_owner some_before fewer low all k = ground arith

pub IsOrdered-later :
    (head head' e e' s s' : ℕ) (ts : List Local)
    → 0 < e + s
    → e' ≤ e
    → (head + e) % 2 ^ 16 ≡ (head' + e') % 2 ^ 16
    → u32 (head + e + 2 ^ 16 * s) ≡ u32 (head' + e' + 2 ^ 16 * s')
    → IsOrdered head e s ts
    → IsOrdered head' e' s' ts
IsOrdered-later head head' e e' s s' [] some_before fewer low all h = tt
IsOrdered-later head head' e e' s s' (p ∷ ts) some_before fewer low all (k, h) = (
  Knows-later head head' e e' s s' p some_before fewer low all k,
  IsOrdered-later head head' (exclusive p + e) (exclusive p + e') (shared p + s) (shared p + s') ts
      (omega arith) (omega arith) (omega arith) (omega arith) h,
)

-- Before a reader stand readers only, which look at the low half of the head.
pub IsOrdered-readers :
    (head head' s : ℕ) (ts : List Local)
    → head % 2 ^ 16 ≡ head' % 2 ^ 16
    → tally exclusive ts ≡ 0
    → IsOrdered head 0 s ts
    → IsOrdered head' 0 s ts
IsOrdered-readers head head' s [] low none h = tt
IsOrdered-readers head head' s (shared_waiting tail ∷ ts) low none (k, h) =
    (omega arith, IsOrdered-readers head head' (1 + s) ts low (omega arith) h)
IsOrdered-readers head head' s (shared_owner ∷ ts) low none (k, h) =
    (k, IsOrdered-readers head head' (1 + s) ts low (omega arith) h)
IsOrdered-readers head head' s (waiting tail ∷ ts) low none h = absurd (omega arith)
IsOrdered-readers head head' s (owner ∷ ts) low none h = absurd (omega arith)
IsOrdered-readers head head' s (leaving l ∷ ts) low none h = absurd (omega arith)

pub tally-split : (ts : List Local) → tally exclusive ts + tally shared ts ≡ length ts
tally-split [] = refl
tally-split (waiting tail ∷ ts) = omega (arith, tally-split ts)
tally-split (owner ∷ ts) = omega (arith, tally-split ts)
tally-split (leaving l ∷ ts) = omega (arith, tally-split ts)
tally-split (shared_waiting tail ∷ ts) = omega (arith, tally-split ts)
tally-split (shared_owner ∷ ts) = omega (arith, tally-split ts)
