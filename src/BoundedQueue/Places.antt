-- ===== src/BoundedQueue/Places.antt =====
-- The tests and the loads of evenk/bounded_queue.h lead a thread to places that it fits.
use evenk.Prelude.{
  ℕ, ◌^◌, ◌<◌, ◌≡◌, Bool, true, Option, none, if-elim, if◌then◌else◌, arith, refl, not, ◌||◌, ◌==◌,
}
use evenk.Status.{Status}
use evenk.BoundedQueue.Encoding.{
  number, ticket, ticket-eq, status, status-eq, is_valid, is_valid_iff,
}
use evenk.BoundedQueue.Ring.{Ring, is_past_last}
use evenk.BoundedQueue.Moves.{
  Local, finished, push_test, push_put, pop_test, pop_status, try_test, wait_tail, wait_head,
  wait_status, try_check,
}
use evenk.BoundedQueue.Roles.{AreApart-free}
use evenk.BoundedQueue.Invariant.{role, Fits}

same_ticket : (c t : ℕ) → c < 2 ^ 32 → t < 2 ^ 32 → (ticket t == ticket c) ≡ true → number c t ≡ c
same_ticket c t h h' e = ground (arith, ticket-eq c h, ticket-eq t h')

module _ {ℓ} {A : Type ℓ} (put get : A → Option A) (k : ℕ) (r : Ring A) (log : ℕ → A)
    (threads : ℕ → Local A) (j : ℕ) where
  pub Fits-finished :
      (status : Status) (v : Option A) → Fits put get k r log threads j (finished status v)
  Fits-finished status v = (refl, tt, λ m d. AreApart-free (role (threads m)))

  pub Fits-wait_tail :
      (p : ℕ) (v : A) (waiting : Bool) (t : ℕ)
      → p < 2 ^ 32
      → Fits put get k r log threads j (push_test p v waiting t)
      → Fits put get k r log threads j (wait_tail p v waiting t r)
  unfolding wait_tail
  Fits-wait_tail p v waiting t small (placed, checked, apart) =
      if-elim (λ l. Fits put get k r log threads j l) (ticket t == ticket p) (push_put p v t) _
        (λ e. (placed, same_ticket p t small checked e, apart))
        (λ e.
          if-elim (λ l. Fits put get k r log threads j l) (is_past_last r p) _ _
            (λ e. Fits-finished Status.closed none)
            (λ e.
              if-elim (λ l. Fits put get k r log threads j l) waiting _ _
                (λ e. (ground arith, tt, apart)) (λ e. (ground arith, tt, apart))))

  pub Fits-wait_head :
      (c t : ℕ)
      → c < 2 ^ 32
      → Fits put get k r log threads j (pop_test c t)
      → Fits put get k r log threads j (wait_head c t r)
  unfolding wait_head
  Fits-wait_head c t small (placed, (fits, one_flag), apart) =
      if-elim (λ l. Fits put get k r log threads j l) (ticket t == ticket c) (pop_status c t) _
        (λ e. (placed, (same_ticket c t small fits e, one_flag), apart))
        (λ e.
          if-elim (λ l. Fits put get k r log threads j l) (is_past_last r c) _ _
            (λ e. Fits-finished Status.closed none)
            (λ e. (ground (arith, placed.delivered), tt, apart)))

  pub Fits-wait_status :
      (c t : ℕ)
      → Fits put get k r log threads j (pop_status c t)
      → Fits put get k r log threads j (wait_status c t r)
  unfolding wait_status
  Fits-wait_status c t (placed, (turn, one_flag), apart) =
      if-elim (λ l. Fits put get k r log threads j l) (status t == 0) _ _
        (λ e.
          if-elim (λ l. Fits put get k r log threads j l) (is_past_last r c) _ _
            (λ e. Fits-finished Status.closed none) (λ e. (placed, turn, apart)))
        (λ e.
          if-elim (λ l. Fits put get k r log threads j l) (is_valid t) _ _
            (λ e'. (placed, (turn, ground (arith, is_valid_iff t)), apart))
            (λ e'. (placed, (turn, ground (arith, is_valid_iff t, status-eq t)), apart)))

  pub Fits-try_check :
      (c t : ℕ)
      → c < 2 ^ 32
      → Fits put get k r log threads j (try_test c t)
      → Fits put get k r log threads j (try_check c t r)
  unfolding try_check
  Fits-try_check c t small (placed, (fits, one_flag), apart) =
      if-elim (λ l. Fits put get k r log threads j l) (not (ticket t == ticket c) || status t == 0)
        _ _ (λ e. Fits-finished (if is_past_last r c then Status.closed else Status.empty) none)
        (λ e. (
          placed,
          (same_ticket c t small fits (ground arith), ground (arith, status-eq t), one_flag),
          apart,
        ))
