-- ===== src/Thread/Defs.antt =====
-- The class `thread` of evenk/thread.h. A set of processors of the system is a function that says which
-- ones are in it. The system calls are arguments: `pthread_setaffinity_np` and `pthread_getaffinity_np`,
-- which give an error number, 0 for none.
use evenk.Prelude.{
  ℕ, zero, suc, ◌+◌, ◌^◌, Bool, true, false, Option, none, some, List, [], ◌∷◌, ◌==◌, leb, ltb, u32,
  update, length, if◌then◌else◌,
}

-- A return, or the error number of the system error that is thrown.
pub data Result {ℓ} (A : Type ℓ) : Type ℓ where
  returns : A → Result A
  throws : (error : ℕ) → Result A

abbrev pub einval : ℕ
einval = 22

-- `CPU_SETSIZE` of Linux.
abbrev pub cpu_set_size : ℕ
cpu_set_size = 1024

-- The thread that an object stands for: `none` for one that is not joinable.
unfoldable pub move_construct {ℓ} : {H : Type ℓ} → Option H → Option H × Option H
move_construct other = (other, none)

-- The new states of the object and of `other`.
unfoldable pub move_assign {ℓ} : {H : Type ℓ} → Option H → Option H → Option H × Option H
move_assign self other = (other, self)

-- A `size_t` that becomes an `int` of 32 bits, and no more than `CPU_SETSIZE`; a negative one makes the
-- loops run no round.
unfoldable pub cpu_num : ℕ → ℕ
cpu_num size =
    let n = u32 size in if leb (2 ^ 31) n then 0 else if ltb cpu_set_size n then cpu_set_size else n

-- The loop over the processors from `cpu` on that sets the bits, `n` rounds of it.
unfoldable pub set_cpus : (n cpu : ℕ) → List Bool → (ℕ → Bool) → ℕ → Bool
set_cpus zero cpu bits native = native
set_cpus (suc n) cpu [] native = native
set_cpus (suc n) cpu (bit ∷ bits) native =
    set_cpus n (cpu + 1) bits (if bit then update native cpu true else native)

unfoldable pub to_native : List Bool → ℕ → Bool
unfolding set_cpus cpu_num
to_native cpuset = set_cpus (cpu_num (length cpuset)) 0 cpuset (λ cpu. false)

-- The loop with `push_back`.
unfoldable pub from_native : (n cpu : ℕ) → (ℕ → Bool) → List Bool
from_native zero cpu native = []
from_native (suc n) cpu native = native cpu ∷ from_native n (cpu + 1) native

module _ {ℓ ℓ'} {H : Type ℓ} {S : Type ℓ'} where
  unfoldable pub set_affinity :
      (setaffinity : H → (ℕ → Bool) → S → ℕ × S) → Option H → List Bool → S → Result S
  unfolding to_native
  set_affinity setaffinity none cpuset s = throws einval
  set_affinity setaffinity (some handle) cpuset s =
      let (rc, s') = setaffinity handle (to_native cpuset) s in
      if rc == 0 then returns s' else throws rc

  -- `concurrency`: the result of `hardware_concurrency`.
  unfoldable pub get_affinity :
      (getaffinity : H → S → ℕ × (ℕ → Bool)) (concurrency : ℕ) → Option H → S → Result (List Bool)
  unfolding from_native cpu_num
  get_affinity getaffinity concurrency none s = throws einval
  get_affinity getaffinity concurrency (some handle) s =
      let (rc, native) = getaffinity handle s in
      if rc == 0 then returns (from_native (cpu_num concurrency) 0 native) else throws rc

  -- The two without system calls, where the system does not have them.
  unfoldable pub set_no_affinity : Option H → List Bool → S → Result S
  set_no_affinity none cpuset s = throws einval
  set_no_affinity (some handle) cpuset s = returns s

  unfoldable pub get_no_affinity : Option H → S → Result (List Bool)
  get_no_affinity none s = throws einval
  get_no_affinity (some handle) s = returns []
