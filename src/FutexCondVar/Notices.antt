-- ===== src/FutexCondVar/Notices.antt =====
-- No notice is lost by `futex_cond_var` of evenk/synch.h.
use evenk.Prelude.{ℕ, ◌<◌, ◌≤◌, ◌≡◌, Bool, List, ◌∷◌, ◌++◌, arith, refl}
use evenk.Prelude.Threads.{tally, rest, tally-at, rest-le}
use evenk.FutexCondVar.Moves.{Local, in_lock, Words, resume_lock, resume_cond, resume}
use evenk.FutexCondVar.Steps.{System, Move}
use evenk.FutexCondVar.Kept.{is_counted, is_past_owner, is_stale, is_broadcasting, Kept, Move-Kept}
use evenk.FutexCondVar.Weights.{tally-resume, tally-resume-le}

abbrev pub one : Local → ℕ
one p = 1

abbrev pub IsKept : System → Type 0
IsKept s =
    Kept s.words (tally one s.threads) (tally is_counted s.threads) (tally is_past_owner s.threads)
      (tally (is_stale s.words.broadcast) s.threads) (tally is_broadcasting s.threads)

stale_counted : (k : ℕ) (p : Local) → is_stale k p ≤ is_counted p
stale_counted k p = ground arith

counted_past : (p : Local) → is_counted p ≤ is_past_owner p
counted_past p = ground arith

counted_one : (p : Local) → is_counted p ≤ one p
counted_one p = ground arith

resume_lock-counted : (p : Local) → is_counted (resume_lock p) ≡ is_counted p
resume_lock-counted (in_lock p) = ground arith
resume_lock-counted p = ground arith

resume_lock-past : (p : Local) → is_past_owner (resume_lock p) ≡ is_past_owner p
resume_lock-past (in_lock p) = ground arith
resume_lock-past p = ground arith

resume_lock-stale : (k : ℕ) (p : Local) → is_stale k (resume_lock p) ≡ is_stale k p
resume_lock-stale k (in_lock p) = ground arith
resume_lock-stale k p = ground arith

resume_lock-broadcasting : (p : Local) → is_broadcasting (resume_lock p) ≡ is_broadcasting p
resume_lock-broadcasting (in_lock p) = ground arith
resume_lock-broadcasting p = ground arith

-- The same weights but for those that are stale, which become no more.
same-Kept :
    (m : Words) (ts us : List Local)
    → tally one us ≡ tally one ts
    → tally is_counted us ≡ tally is_counted ts
    → tally is_past_owner us ≤ tally is_past_owner ts
    → (0 < tally (is_stale m.broadcast) us
        → (0 < tally (is_stale m.broadcast) ts)
          × (tally is_broadcasting us ≡ tally is_broadcasting ts))
    → IsKept (record { words = m; threads = ts })
    → IsKept (record { words = m; threads = us })
same-Kept m ts us n c o st i = ground (arith, i)

pub resume_lock-Kept :
    (m : Words) (bs : List Bool) (ts : List Local)
    → IsKept (record { words = m; threads = ts })
    → IsKept (record { words = m; threads = resume resume_lock bs ts })
resume_lock-Kept m bs ts i = ground (
  arith,
  i,
  tally-resume one resume_lock (λ p. refl) bs ts,
  tally-resume is_counted resume_lock resume_lock-counted bs ts,
  tally-resume is_past_owner resume_lock resume_lock-past bs ts,
  tally-resume (is_stale m.broadcast) resume_lock (resume_lock-stale m.broadcast) bs ts,
  tally-resume is_broadcasting resume_lock resume_lock-broadcasting bs ts,
)

pub resume_cond-Kept :
    (m : Words) (bs : List Bool) (ts : List Local)
    → IsKept (record { words = m; threads = ts })
    → IsKept (record { words = m; threads = resume resume_cond bs ts })
resume_cond-Kept m bs ts i = ground (
  arith,
  i,
  tally-resume one resume_cond (λ p. refl) bs ts,
  tally-resume is_counted resume_cond (λ p. ground arith) bs ts,
  tally-resume is_past_owner resume_cond (λ p. ground arith) bs ts,
  tally-resume-le (is_stale m.broadcast) resume_cond (λ p. ground arith) bs ts,
  tally-resume is_broadcasting resume_cond (λ p. ground arith) bs ts,
)

-- One thread goes from one place to another with the same weights, or with smaller ones that the
-- members do not count.
pub place-Kept :
    (m : Words) (before after : List Local) (p p' : Local)
    → is_counted p' ≡ is_counted p
    → is_past_owner p' ≤ is_past_owner p
    → is_stale m.broadcast p' ≤ is_stale m.broadcast p
    → is_broadcasting p' ≡ is_broadcasting p
    → IsKept (record { words = m; threads = before ++ p ∷ after })
    → IsKept (record { words = m; threads = before ++ p' ∷ after })
place-Kept m before after p p' c o st b i = ground (
  arith,
  i,
  tally-at one before after p,
  tally-at one before after p',
  tally-at is_counted before after p,
  tally-at is_counted before after p',
  tally-at is_past_owner before after p,
  tally-at is_past_owner before after p',
  tally-at (is_stale m.broadcast) before after p,
  tally-at (is_stale m.broadcast) before after p',
  tally-at is_broadcasting before after p,
  tally-at is_broadcasting before after p',
)

pub move-Kept :
    (before after : List Local) (m m' : Words) (p p' : Local)
    → Move m p m' p'
    → IsKept (record { words = m; threads = before ++ p ∷ after })
    → IsKept (record { words = m'; threads = before ++ p' ∷ after })
move-Kept before after m m' p p' mv i =
    rw
      (
        tally-at one before after p',
        tally-at is_counted before after p',
        tally-at is_past_owner before after p',
        tally-at (is_stale m'.broadcast) before after p',
        tally-at is_broadcasting before after p',
      )
      (Move-Kept (rest one before after) (rest is_counted before after)
        (rest is_past_owner before after) (rest is_broadcasting before after)
        (λ k. rest (is_stale k) before after) (rest-le is_counted one counted_one before after)
        (rest-le is_counted is_past_owner counted_past before after)
        (λ k. rest-le (is_stale k) is_counted (stale_counted k) before after) mv
        (rw
          (
            tally-at one before after p,
            tally-at is_counted before after p,
            tally-at is_past_owner before after p,
            tally-at (is_stale m.broadcast) before after p,
            tally-at is_broadcasting before after p,
          )
          at i))
