-- ===== src/ThreadPool/Crashing.antt =====
-- A thread pool of evenk/thread_pool.h with tasks whose move assignment does not return.
use evenk.Prelude.{◌≡◌, Bool, false, []}
use evenk.Prelude.Threads.{tally}
use evenk.ThreadPool.Steps.{System}
use evenk.ThreadPool.Invariant.{is_running}

module _ {ℓ} {A : Type ℓ} where
  pub record HasNotBegun (s : System A) : Type ℓ where
    pub none_started : s.started ≡ []
    pub none_runs : tally is_running s.workers ≡ 0

  abbrev FailsAlways : (A → Bool) → Type ℓ
  FailsAlways assigns = (x : A) → assigns x ≡ false
