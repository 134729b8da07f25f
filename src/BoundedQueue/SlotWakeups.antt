-- ===== src/BoundedQueue/SlotWakeups.antt =====
-- No wake-up is lost in the slot class `futex` of evenk/bounded_queue.h.
use evenk.Prelude.{
  ℕ, ◌+◌, ◌-◌, ◌/◌, ◌%◌, ◌≤◌, ◌<◌, ◌≡◌, ◌⊎◌, Bool, true, false, List, [], ◌∷◌, ◌++◌, map, ◌==◌,
  if◌then◌else◌, arith, refl,
}
use evenk.Prelude.Threads.{tally, rest, tally-at, tally-le}
use evenk.Prelude.Bits.{bit_or_four, bit_and_four, bit_or_eight}
use evenk.Kernel.{Kernel}
use evenk.BoundedQueue.Slot.{futex_wait, futex_blocks, futex_wakes, futex_close}
use evenk.BoundedQueue.FutexSlot.{
  Local, idle, blocking, blocked, waking, begin_wait, begin_wake, begin_close, is_blocked_there,
  resume, System, Move, do_wait, do_wake, do_close, wait_returns, interrupted, is_inside, Step,
  move, sleep, wake_all, Reach, start, later,
}

abbrev pub is_blocked : Local → ℕ
is_blocked (blocked x) = 1
is_blocked _ = 0

-- Blocked with another token than that of the slot.
abbrev pub is_stale : (token : ℕ) → Local → ℕ
is_stale token (blocked x) = if x == token then 0 else 1
is_stale token _ = 0

abbrev pub is_waking : Local → ℕ
is_waking waking = 1
is_waking _ = 0

-- Waits with a token that does not say so.
abbrev unmarked : Local → ℕ
unmarked (blocking x) = 1 - x / 4 % 2
unmarked (blocked x) = 1 - x / 4 % 2
unmarked _ = 0

pub record IsAwake (token blocked_ stale waking_ unmarked_ : ℕ) : Type 0 where
  pub marked : unmarked_ ≡ 0
  pub told : 0 < stale → 0 < waking_
  pub asked : 0 < blocked_ → (0 < waking_) ⊎ (token / 4 % 2 ≡ 1)

-- With the weights of the other threads.
Move-IsAwake :
    (token b w u : ℕ) (stale : ℕ → ℕ) {p : Local} {next : ℕ × Local}
    → ((t : ℕ) → stale t ≤ b)
    → Move token p next
    → IsAwake token
        (is_blocked p + b)
        (is_stale token p + stale token)
        (is_waking p + w)
        (unmarked p + u)
    → IsAwake next.0
        (is_blocked next.1 + b)
        (is_stale next.0 next.1 + stale next.0)
        (is_waking next.1 + w)
        (unmarked next.1 + u)
unfolding begin_wait begin_wake begin_close futex_wait futex_blocks futex_wakes futex_close
Move-IsAwake token b w u stale bound (do_wait t) i =
    ground (arith, i, bit_or_four t, bound (begin_wait t token).0, bound token)
Move-IsAwake token b w u stale bound (do_wake t) i = ground (arith, i, bit_and_four token, bound t)
Move-IsAwake token b w u stale bound do_close i =
    ground (arith, i, bit_and_four token, bit_or_eight token, bound (begin_close token).0)
Move-IsAwake token b w u stale bound (wait_returns x) i = ground (arith, i)
Move-IsAwake token b w u stale bound (interrupted x) i = ground (arith, i)

stale_blocked : (t : ℕ) (p : Local) → is_stale t p ≤ is_blocked p
stale_blocked t p = ground arith

rest-le :
    (t : ℕ) (before after : List Local)
    → rest (is_stale t) before after ≤ rest is_blocked before after
rest-le t before after = omega (
  arith,
  tally-le (is_stale t) is_blocked (stale_blocked t) before,
  tally-le (is_stale t) is_blocked (stale_blocked t) after,
)

abbrev IsAwakeAt : System → Type 0
IsAwakeAt s =
    IsAwake s.token (tally is_blocked s.threads) (tally (is_stale s.token) s.threads)
      (tally is_waking s.threads) (tally unmarked s.threads)

-- After the wake-up nobody is blocked.
resume-none :
    (ts : List Local) (bs : List Bool)
    → bs ≡ map (λ x. false) (map is_blocked_there ts)
    → (tally is_blocked (resume bs ts) ≡ 0) × (tally unmarked (resume bs ts) ≤ tally unmarked ts)
resume-none [] [] e = (refl, omega arith)
resume-none [] (b ∷ bs) e = absurd (cc)
resume-none (p ∷ ts) [] e = absurd (cc)
resume-none (blocked x ∷ ts) (b ∷ bs) e = ground (arith, resume-none ts bs (cc))
resume-none (p ∷ ts) (b ∷ bs) e = ground (arith, resume-none ts bs (cc))

module _ {kernel : Kernel} where
  Step-IsAwake : {s t : System} → Step kernel s t → IsAwakeAt s → IsAwakeAt t
  Step-IsAwake (move before after token {p} {next} mv) i =
      rw
        (
          tally-at is_blocked before after next.1,
          tally-at (is_stale next.0) before after next.1,
          tally-at is_waking before after next.1,
          tally-at unmarked before after next.1,
        )
        (Move-IsAwake token (rest is_blocked before after) (rest is_waking before after)
          (rest unmarked before after) (λ t. rest (is_stale t) before after)
          (λ t. rest-le t before after) mv
          (rw
            (
              tally-at is_blocked before after p,
              tally-at (is_stale token) before after p,
              tally-at is_waking before after p,
              tally-at unmarked before after p,
            )
            at i))
  Step-IsAwake (sleep before after token x b) i = ground (
    arith,
    i,
    kernel.blocks_if_equal token x b,
    tally-at is_blocked before after (blocking x),
    tally-at is_blocked before after (blocked x),
    tally-at (is_stale token) before after (blocking x),
    tally-at (is_stale token) before after (blocked x),
    tally-at is_waking before after (blocking x),
    tally-at is_waking before after (blocked x),
    tally-at unmarked before after (blocking x),
    tally-at unmarked before after (blocked x),
  )
  Step-IsAwake (wake_all before after token bs k) i =
      let us = before ++ idle ∷ after in
      ground (
        arith,
        i,
        resume-none us bs (kernel.wakes_all (map is_blocked_there us) bs k),
        tally-le (is_stale token) is_blocked (stale_blocked token) (resume bs us),
        tally-at unmarked before after waking,
        tally-at unmarked before after idle,
      )

  Reach-IsAwake : {s : System} → Reach kernel s → IsAwakeAt s
  Reach-IsAwake (start token ts out) = ground (
    arith,
    out,
    tally-le is_blocked is_inside (λ p. ground arith) ts,
    tally-le (is_stale token) is_blocked (stale_blocked token) ts,
    tally-le unmarked is_inside (λ p. ground arith) ts,
  )
  Reach-IsAwake (later r st) = Step-IsAwake st (Reach-IsAwake r)

  -- At a slot of the class `futex`, whatever threads do there: if a thread is blocked with another token
  -- than that of the slot, a thread is about to wake all. And if a thread is blocked at all, either one
  -- is about to wake all, or the token says that there are waiters, so that the next `wake` or `close`
  -- will.
  pub slot_wakeups :
      {s : System}
      → Reach kernel s
      → ((tally (is_stale s.token) s.threads ≡ 0) ⊎ (0 < tally is_waking s.threads))
        × ((tally is_blocked s.threads ≡ 0)
            ⊎ (0 < tally is_waking s.threads)
            ⊎ (futex_wakes s.token ≡ true))
  unfolding futex_wakes
  slot_wakeups {s} r = let i = Reach-IsAwake r in ground (arith, i, bit_and_four s.token)
