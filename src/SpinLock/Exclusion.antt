-- ===== src/SpinLock/Exclusion.antt =====
-- Mutual exclusion of the two classes of evenk/spinlock.h that are one flag.
use evenk.Prelude.{◌≡◌, if◌then◌else◌}
use evenk.Prelude.Threads.{tally}
use evenk.SpinLock.Flag.{is_owner, System, Reach, owners-eq-flag}
use evenk.SpinLock.Spin.{spin_lock}
use evenk.SpinLock.Tatas.{tatas_lock}

-- In every state that threads using one `spin_lock`, or one `tatas_lock`, reach through `lock`,
-- `try_lock` and `unlock`, the number of owners is 1 if the flag is set and 0 if it is clear.
pub flag_lock_exclusion :
    {s t : System}
    → Reach spin_lock s
    → Reach tatas_lock t
    → (tally is_owner s.threads ≡ (if s.flag then 1 else 0))
      × (tally is_owner t.threads ≡ (if t.flag then 1 else 0))
flag_lock_exclusion r q = (owners-eq-flag r, owners-eq-flag q)
