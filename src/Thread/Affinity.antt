-- ===== src/Thread/Affinity.antt =====
-- What `affinity` of evenk/thread.h reads back after it has set the processors of a thread.
use evenk.Prelude.{
  ℕ, zero, suc, ◌+◌, ◌^◌, ◌<◌, ◌≤◌, min, ◌≡◌, Bool, true, false, ◌&&◌, some, List, [], ◌∷◌, update,
  length, if◌then◌else◌, arith, refl, ◌⊎◌, ◌∙◌,
}
use evenk.Thread.Defs.{
  returns, cpu_set_size, cpu_num, set_cpus, to_native, from_native, set_affinity, get_affinity,
}

-- Whether a processor is in a set that is written as a list.
abbrev pub has_cpu : List Bool → ℕ → Bool
has_cpu [] cpu = false
has_cpu (bit ∷ bits) zero = bit
has_cpu (bit ∷ bits) (suc cpu) = has_cpu bits cpu

set_cpus-below :
    (n cpu : ℕ) (bits : List Bool) (native : ℕ → Bool) (i : ℕ)
    → i < cpu
    → set_cpus n cpu bits native i ≡ native i
unfolding set_cpus
set_cpus-below zero cpu bits native i h = refl
set_cpus-below (suc n) cpu [] native i h = refl
set_cpus-below (suc n) cpu (bit ∷ bits) native i h = ground (
  arith,
  set_cpus-below n (cpu + 1) bits (if bit then update native cpu true else native) i (omega arith),
)

-- So many rounds from `cpu` on put the list into a set that has none of these processors yet.
set_cpus-has :
    (n cpu : ℕ) (bits : List Bool) (native : ℕ → Bool) (i : ℕ)
    → (i < n) ⊎ (length bits ≤ n)
    → ((j : ℕ) → native (cpu + j) ≡ false)
    → set_cpus n cpu bits native (cpu + i) ≡ has_cpu bits i
unfolding set_cpus
set_cpus-has zero cpu [] native i h new = new i
set_cpus-has zero cpu (bit ∷ bits) native i h new = absurd (ground arith)
set_cpus-has (suc n) cpu [] native i h new = new i
set_cpus-has (suc n) cpu (bit ∷ bits) native zero h new =
    let native' = if bit then update native cpu true else native in
    let e : cpu + 0 ≡ cpu = omega arith in
    rw e (ground (arith, set_cpus-below n (cpu + 1) bits native' cpu (omega arith), new 0))
set_cpus-has (suc n) cpu (bit ∷ bits) native (suc i) h new =
    let native' = if bit then update native cpu true else native in
    let e : cpu + suc i ≡ cpu + 1 + i = omega arith in
    rw e (set_cpus-has n (cpu + 1) bits native' i (ground arith) later_new)
  where
    later_new : (j : ℕ) → (if bit then update native cpu true else native) (cpu + 1 + j) ≡ false
    later_new j =
        let e : cpu + 1 + j ≡ cpu + suc j = omega arith in rw e (ground (arith, new (suc j)))

from_native-has :
    (n cpu : ℕ) (native : ℕ → Bool) (i : ℕ)
    → i < n
    → has_cpu (from_native n cpu native) i ≡ native (cpu + i)
unfolding from_native
from_native-has zero cpu native i h = absurd (omega arith)
from_native-has (suc n) cpu native zero h = let e : cpu + 0 ≡ cpu = omega arith in rw e refl
from_native-has (suc n) cpu native (suc i) h =
    let e : cpu + suc i ≡ cpu + 1 + i = omega arith in
    rw e (from_native-has n (cpu + 1) native i (omega arith))

length-from_native : (n cpu : ℕ) (native : ℕ → Bool) → length (from_native n cpu native) ≡ n
unfolding from_native
length-from_native zero cpu native = refl
length-from_native (suc n) cpu native = omega (arith, length-from_native n (cpu + 1) native)

cpu_num-eq : (size : ℕ) → size < 2 ^ 31 → cpu_num size ≡ min size cpu_set_size
unfolding cpu_num
cpu_num-eq size h = ground arith

to_native-has :
    (cpuset : List Bool) (cpu : ℕ)
    → length cpuset < 2 ^ 31
    → cpu < cpu_set_size
    → to_native cpuset cpu ≡ has_cpu cpuset cpu
unfolding to_native
to_native-has cpuset cpu few h =
    let zero_left : 0 + cpu ≡ cpu = omega arith in
    rw (cpu_num-eq (length cpuset) few) (
      rw zero_left at (
        set_cpus-has (min (length cpuset) cpu_set_size) 0 cpuset (λ c. false) cpu (ground arith)
          (λ j. refl)))

-- The system calls, with what their documentation says: after a call that sets the processors of a
-- thread, reading them gives those of the set that the thread is allowed to run on.
pub record Processors {ℓ ℓ'} (H : Type ℓ) (S : Type ℓ') : Type (ℓ ⊔ ℓ') where
  pub setaffinity : H → (ℕ → Bool) → S → ℕ × S
  pub getaffinity : H → S → ℕ × (ℕ → Bool)
  pub allowed : H → S → ℕ → Bool
  pub get_after_set :
      (handle : H) (set : ℕ → Bool) (s : S)
      → (setaffinity handle set s).0 ≡ 0
      → (getaffinity handle (setaffinity handle set s).1).0 ≡ 0
  pub get_what_is_set :
      (handle : H) (set : ℕ → Bool) (s : S) (cpu : ℕ)
      → (setaffinity handle set s).0 ≡ 0
      → cpu < cpu_set_size
      → (getaffinity handle (setaffinity handle set s).1).1 cpu ≡ (set cpu && allowed handle s cpu)

module _ {ℓ ℓ'} {H : Type ℓ} {S : Type ℓ'} (system : Processors H S) where
  set-works :
      (handle : H) (cpuset : List Bool) (s t : S)
      → set_affinity system.setaffinity (some handle) cpuset s ≡ returns t
      → ((system.setaffinity handle (to_native cpuset) s).0 ≡ 0)
        × ((system.setaffinity handle (to_native cpuset) s).1 ≡ t)
  unfolding set_affinity
  set-works handle cpuset s t e = ground (arith, e)

  -- After a call of `affinity` with a set of fewer than 2 ^ 31 processors that returns, a call of
  -- `affinity` with no argument returns a list of as many processors as the hardware has, or of
  -- `CPU_SETSIZE` if that is less; and a processor that the list is long enough for is in it if it was in
  -- the set and the thread is allowed to run on it, and in no other case.
  pub affinity_roundtrip :
      (handle : H) (cpuset : List Bool) (s t : S) (concurrency cpu : ℕ)
      → set_affinity system.setaffinity (some handle) cpuset s ≡ returns t
      → length cpuset < 2 ^ 31
      → concurrency < 2 ^ 31
      → cpu < min concurrency cpu_set_size
      → (cpus : List Bool) × (get_affinity system.getaffinity concurrency (some handle) t
          ≡ returns cpus)
        × (length cpus ≡ min concurrency cpu_set_size)
        × (has_cpu cpus cpu ≡ (has_cpu cpuset cpu && system.allowed handle s cpu))
  unfolding get_affinity
  affinity_roundtrip handle cpuset s t concurrency cpu e few few' h =
      let (worked, t-eq) = set-works handle cpuset s t e in
      let zero_left : 0 + cpu ≡ cpu = omega arith in
      let native = (system.getaffinity handle t).1 in
      let rc : (system.getaffinity handle t).0 ≡ 0 =
        rw t-eq at (system.get_after_set handle (to_native cpuset) s worked) in
      let bit : native cpu ≡ (to_native cpuset cpu && system.allowed handle s cpu) =
        rw t-eq at (system.get_what_is_set handle (to_native cpuset) s cpu worked (omega arith)) in
      (
        from_native (cpu_num concurrency) 0 native,
        rw rc refl,
        length-from_native (cpu_num concurrency) 0 native ∙ cpu_num-eq concurrency few',
        rw
            (
              cpu_num-eq concurrency few',
              from_native-has (min concurrency cpu_set_size) 0 native cpu h,
              zero_left,
              bit,
              to_native-has cpuset cpu few (omega arith),
            )
            refl,
      )
