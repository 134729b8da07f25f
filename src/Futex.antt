-- ===== src/Futex.antt =====
-- The functions of evenk/futex.h: what each asks of the Linux kernel and what it makes of the answer, in
-- the assembly for x86-64 and by way of `syscall` of the C library. Addresses are numbers.
use evenk.Prelude.{
  ℕ, ◌+◌, ◌-◌, ◌^◌, ◌<◌, ◌≡◌, Option, none, some, refl, arith, ltb, u32, dec_lt, ◌≤◌, ◌==◌,
  if◌then◌else◌,
}

pub data Op : Type 0 where
  wait_private wake_private requeue_private cmp_requeue_private : Op

-- The arguments of the system call after its number. `none`: the register is left as it is.
pub record Request : Type 0 where
  pub word : ℕ
  pub op : Op
  pub value : ℕ
  pub fourth : Option ℕ
  pub fifth : Option ℕ
  pub sixth : Option ℕ

-- A call of one of the functions.
pub data Call : Type 0 where
  futex_wait : (futex value : ℕ) → Call
  futex_wake : (futex count : ℕ) → Call
  futex_requeue : (futex futex_count queue_count queue : ℕ) → Call
  futex_cmp_requeue : (futex futex_count queue_count queue futex_value : ℕ) → Call

-- The assembly.
unfoldable pub assembly : Call → Request
assembly (futex_wait futex value) = record {
  word = futex;
  op = wait_private;
  value = value;
  fourth = some 0;
  fifth = none;
  sixth = none;
}
assembly (futex_wake futex count) = record {
  word = futex;
  op = wake_private;
  value = count;
  fourth = none;
  fifth = none;
  sixth = none;
}
assembly (futex_requeue futex futex_count queue_count queue) = record {
  word = futex;
  op = requeue_private;
  value = futex_count;
  fourth = some queue_count;
  fifth = some queue;
  sixth = none;
}
assembly (futex_cmp_requeue futex futex_count queue_count queue futex_value) = record {
  word = futex;
  op = cmp_requeue_private;
  value = futex_count;
  fourth = some queue_count;
  fifth = some queue;
  sixth = some futex_value;
}

-- The arguments of `syscall`.
unfoldable pub syscall : Call → Request
syscall (futex_wait futex value) = record {
  word = futex;
  op = wait_private;
  value = value;
  fourth = some 0;
  fifth = some 0;
  sixth = some 0;
}
syscall (futex_wake futex count) = record {
  word = futex;
  op = wake_private;
  value = count;
  fourth = some 0;
  fifth = some 0;
  sixth = some 0;
}
syscall (futex_requeue futex futex_count queue_count queue) = record {
  word = futex;
  op = requeue_private;
  value = futex_count;
  fourth = some queue_count;
  fifth = some queue;
  sixth = some 0;
}
syscall (futex_cmp_requeue futex futex_count queue_count queue futex_value) = record {
  word = futex;
  op = cmp_requeue_private;
  value = futex_count;
  fourth = some queue_count;
  fifth = some queue;
  sixth = some futex_value;
}

-- An `int` is its 32 bits.
abbrev pub negated : ℕ → ℕ
negated n = u32 (2 ^ 32 - n)

-- `(result > (unsigned) -4096) ? (int) result : 0`
unfoldable pub assembly_result : (result : ℕ) → ℕ
assembly_result result = if ltb (negated 4096) result then result else 0

-- `syscall(...) == -1 ? -errno : 0`
unfoldable pub syscall_result : (returned errno : ℕ) → ℕ
syscall_result returned errno = if returned == negated 1 then negated errno else 0

-- On other systems: `-ENOSYS`.
unfoldable pub no_system : (enosys : ℕ) → ℕ
no_system enosys = negated enosys

-- What the C library makes of the kernel's answer, as it documents it: the last 4095 numbers are errors.
pub record CLibrary : Type 0 where
  pub returned : (result : ℕ) → ℕ
  pub errno : (result : ℕ) → ℕ
  pub on_error :
      (result : ℕ)
      → negated 4095 ≤ result
      → result < 2 ^ 32
      → (returned result ≡ negated 1) × (errno result + result ≡ 2 ^ 32)
  pub on_success : (result : ℕ) → result < negated 4095 → returned result ≡ result

-- What the kernel reads of a request.
abbrev pub read : Op → Request → ℕ × Option ℕ × Option ℕ × Option ℕ
read wait_private r = (r.value, r.fourth, none, none)
read wake_private r = (r.value, none, none, none)
read requeue_private r = (r.value, r.fourth, r.fifth, none)
read cmp_requeue_private r = (r.value, r.fourth, r.fifth, r.sixth)

results_agree :
    (library : CLibrary) (result : ℕ)
    → result < 2 ^ 32
    → assembly_result result ≡ syscall_result (library.returned result) (library.errno result)
unfolding assembly_result syscall_result
results_agree library result small = elim (dec_lt result (negated 4095)) [
  | yes good ↦ ground (arith, library.on_success result good)
  | no bad ↦ ground (arith, library.on_error result (omega arith) small)
]

-- Whichever way a function takes, it asks the same of the kernel, but for what the kernel does not read,
-- and makes the same `int` of each answer of 32 bits.
pub futex_calls_agree :
    (library : CLibrary) (call : Call) (result : ℕ)
    → result < 2 ^ 32
    → ((assembly call).word ≡ (syscall call).word)
      × ((assembly call).op ≡ (syscall call).op)
      × (read (assembly call).op (assembly call) ≡ read (syscall call).op (syscall call))
      × (assembly_result result ≡ syscall_result (library.returned result) (library.errno result))
unfolding assembly syscall
futex_calls_agree library (futex_wait futex value) result small =
    (refl, refl, refl, results_agree library result small)
futex_calls_agree library (futex_wake futex count) result small =
    (refl, refl, refl, results_agree library result small)
futex_calls_agree library (futex_requeue futex futex_count queue_count queue) result small =
    (refl, refl, refl, results_agree library result small)
futex_calls_agree library (futex_cmp_requeue futex futex_count queue_count queue value) result
      small =
    (refl, refl, refl, results_agree library result small)
