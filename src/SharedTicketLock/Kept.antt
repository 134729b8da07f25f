-- ===== src/SharedTicketLock/Kept.antt =====
-- `shared_ticket_lock` of evenk/spinlock.h keeps its threads in the order of their tickets.
use evenk.Prelude.{
  ℕ, ◌+◌, ◌*◌, ◌^◌, ◌%◌, ◌≤◌, ◌<◌, ◌≡◌, List, [], ◌∷◌, ◌++◌, u32, length, length-append, arith,
  refl, bit_and, if-elim, ◌==◌, sym,
}
use mathlib.Core.Path.{subst}
use evenk.Prelude.Threads.{tally, tally-at, tally-append}
use evenk.Prelude.Bits.{bit_and-mask}
use evenk.SharedTicketLock.Moves.{
  Local, waiting, owner, leaving, shared_waiting, shared_owner, Words, System, Step, Reach, start,
  later, begin_lock, begin_lock_shared, poll, load, store, shared_poll, shared_leave, lock_take,
  lock_poll, unlock_store, lock_shared_take, lock_shared_poll, unlock_shared, exclusive_mask,
}
use evenk.SharedTicketLock.Order.{
  exclusive, shared, Knows, IsOrdered, IsOrdered-split, IsOrdered-join, IsOrdered-later,
  IsOrdered-readers, tally-split,
}

pub record IsKept (limit : ℕ) (s : System) : Type 0 where
  pub head_fits : s.words.head < 2 ^ 32
  pub few : length s.inside ≤ limit
  pub tail_eq :
      s.words.tail ≡ u32 (s.words.head + tally exclusive s.inside + 2 ^ 16 * tally shared s.inside)
  pub ordered : IsOrdered s.words.head 0 0 s.inside

pub low_half : (n : ℕ) → bit_and n exclusive_mask ≡ n % 2 ^ 16
low_half n = bit_and-mask 16 n

-- A thread with the tickets before it, in the middle of the list.
middle :
    (head : ℕ) (before after : List Local) (p : Local)
    → IsOrdered head 0 0 (before ++ p ∷ after)
    → IsOrdered head 0 0 before
      × (Knows head (tally exclusive before) (tally shared before) p
          × IsOrdered head
              (exclusive p + tally exclusive before)
              (shared p + tally shared before)
              after)
middle head before after p h =
    IsOrdered-split head 0 0 (tally exclusive before) (tally shared before) before (p ∷ after)
      (omega arith) (omega arith) h

-- The thread in the middle moves on and keeps its ticket.
Step-place :
    (limit : ℕ) (m : Words) (before after : List Local) (p p' : Local)
    → exclusive p' ≡ exclusive p
    → shared p' ≡ shared p
    → (Knows m.head (tally exclusive before) (tally shared before) p
        → Knows m.head (tally exclusive before) (tally shared before) p')
    → IsKept limit (record { words = m; inside = before ++ p ∷ after })
    → IsKept limit (record { words = m; inside = before ++ p' ∷ after })
Step-place limit m before after p p' e s knows i =
    let (first, (k, last)) = middle m.head before after p i.ordered in
    record {
      head_fits = i.head_fits;
      few =
          ground
            (arith, i.few, length-append before (p ∷ after), length-append before (p' ∷ after));
      tail_eq = ground (
        arith,
        i.tail_eq,
        tally-at exclusive before after p,
        tally-at exclusive before after p',
        tally-at shared before after p,
        tally-at shared before after p',
      );
      ordered =
          IsOrdered-join m.head 0 0 (tally exclusive before) (tally shared before) before
            (p' ∷ after) (omega arith) (omega arith) first
            (
              knows k,
              subst
                  (λ x.
                    IsOrdered m.head (x + tally exclusive before) (shared p' + tally shared before)
                      after)
                  (sym e)
                  (subst
                    (λ x.
                      IsOrdered m.head (exclusive p + tally exclusive before)
                        (x + tally shared before) after)
                    (sym s) last),
            );
    }

-- A thread takes a ticket.
pub Step-take :
    (limit : ℕ) (m m' : Words) (ts : List Local) (p : Local)
    → length ts < limit
    → m'.head ≡ m.head
    → m'.tail ≡ u32 (m.tail + exclusive p + 2 ^ 16 * shared p)
    → Knows m'.head (tally exclusive ts) (tally shared ts) p
    → IsKept limit (record { words = m; inside = ts })
    → IsKept limit (record { words = m'; inside = ts ++ p ∷ [] })
Step-take limit m m' ts p room same next knows i = record {
  head_fits = ground (arith, i.head_fits);
  few = ground (arith, length-append ts (p ∷ []));
  tail_eq =
      ground
        (arith, i.tail_eq, tally-append exclusive ts (p ∷ []), tally-append shared ts (p ∷ []));
  ordered =
      IsOrdered-join m'.head 0 0 (tally exclusive ts) (tally shared ts) ts (p ∷ []) (omega arith)
        (omega arith) (subst (λ h. IsOrdered h 0 0 ts) (sym same) i.ordered) (knows, tt);
}

Step-unlock :
    (limit : ℕ) (m : Words) (head : ℕ) (before after : List Local)
    → IsKept limit (record { words = m; inside = before ++ leaving head ∷ after })
    → IsKept limit (record { words = unlock_store m head; inside = before ++ after })
unfolding unlock_store
Step-unlock limit m head [] after i =
    let ((e, s, same), last) = i.ordered in
    record {
      head_fits = omega arith;
      few = omega (arith, i.few);
      tail_eq = ground (arith, i.tail_eq, i.head_fits);
      ordered =
          IsOrdered-later m.head (u32 (head + 1)) 1 0 0 0 after (omega arith) (omega arith)
            (ground arith) (ground arith) last;
    }
Step-unlock limit m head (t ∷ before) after i =
    let (first, (k, last)) = middle m.head (t ∷ before) after (leaving head) i.ordered in
    absurd (ground (arith, tally-split (t ∷ before)))

Step-unlock_shared :
    (limit : ℕ) (m : Words) (before after : List Local)
    → IsKept limit (record { words = m; inside = before ++ shared_owner ∷ after })
    → IsKept limit (record { words = unlock_shared m; inside = before ++ after })
unfolding unlock_shared
Step-unlock_shared limit m before after i =
    let (first, (k, last)) = middle m.head before after shared_owner i.ordered in
    let e = tally exclusive before in
    let s = tally shared before in
    let head' = u32 (m.head + 2 ^ 16) in
    record {
      head_fits = omega arith;
      few =
          ground
            (arith, i.few, length-append before (shared_owner ∷ after), length-append before after);
      tail_eq = ground (
        arith,
        i.tail_eq,
        i.head_fits,
        tally-at exclusive before after shared_owner,
        tally-at shared before after shared_owner,
        tally-append exclusive before after,
        tally-append shared before after,
      );
      ordered =
          IsOrdered-join head' 0 0 e s before after (omega arith) (omega arith)
            (IsOrdered-readers m.head head' 0 before (omega arith) k first)
            (IsOrdered-later m.head head' (0 + e) e (1 + s) s after (omega arith) (omega arith)
              (omega arith) (omega arith) last);
    }

pub Step-IsKept :
    {limit : ℕ} {s t : System} → limit < 2 ^ 16 → Step limit s t → IsKept limit s → IsKept limit t
unfolding lock_take lock_poll lock_shared_take lock_shared_poll
Step-IsKept {limit} small (begin_lock m ts room) i =
    Step-take limit m (lock_take m).0 ts (waiting m.tail) room refl (omega arith) i.tail_eq i
Step-IsKept {limit} small (begin_lock_shared m ts room) i =
    Step-take limit m (lock_shared_take m).0 ts (shared_waiting (bit_and m.tail exclusive_mask))
      room refl (omega arith) (ground (arith, low_half m.tail, i.tail_eq)) i
Step-IsKept {limit} small (poll m before after tail) i =
    if-elim (λ l. IsKept limit (record { words = m; inside = before ++ l ∷ after }))
      (tail == m.head) _ _
      (λ e.
        Step-place limit m before after (waiting tail) owner refl refl
          (λ k. ground (
            arith,
            i.few,
            i.head_fits,
            tally-split before,
            length-append before (waiting tail ∷ after),
          ))
          i)
      (λ e. i)
Step-IsKept {limit} small (load m before after) i =
    Step-place limit m before after owner (leaving m.head) refl refl (λ k. (k.0, k.1, refl)) i
Step-IsKept {limit} small (store m before after head) i = Step-unlock limit m head before after i
Step-IsKept {limit} small (shared_poll m before after tail) i =
    if-elim (λ l. IsKept limit (record { words = m; inside = before ++ l ∷ after }))
      (tail == bit_and m.head exclusive_mask) _ _
      (λ e.
        Step-place limit m before after (shared_waiting tail) shared_owner refl refl
          (λ k. ground (
            arith,
            i.few,
            i.head_fits,
            low_half m.head,
            tally-split before,
            length-append before (shared_waiting tail ∷ after),
          ))
          i)
      (λ e. i)
Step-IsKept {limit} small (shared_leave m before after) i =
    Step-unlock_shared limit m before after i

pub Reach-IsKept : {limit : ℕ} {s : System} → limit < 2 ^ 16 → Reach limit s → IsKept limit s
Reach-IsKept small (start h fits) = record {
  head_fits = fits;
  few = omega arith;
  tail_eq = omega arith;
  ordered = tt;
}
Reach-IsKept small (later reach step) = Step-IsKept small step (Reach-IsKept small reach)
