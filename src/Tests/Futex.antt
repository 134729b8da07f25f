-- ===== src/Tests/Futex.antt =====
-- The calls of evenk/futex.h, with a C library as it is documented.
use evenk.Prelude.{◌-◌, ◌^◌, ◌≡◌, refl, arith, ltb, if◌then◌else◌}
use evenk.Futex.{
  Call, futex_wait, assembly, syscall, assembly_result, syscall_result, negated, read, CLibrary,
  futex_calls_agree,
}

c_library : CLibrary
c_library = record {
  returned = λ result. if ltb result (negated 4095) then result else negated 1;
  errno = λ result. 2 ^ 32 - result;
  on_error = λ result large small. (ground arith, omega arith);
  on_success = λ result good. ground arith;
}

-- The kernel answers that the word has another value: EAGAIN is 11.
again : (assembly_result (negated 11) ≡ negated 11) × (assembly_result 1 ≡ 0)
unfolding assembly_result
again = (refl, refl)

abbrev waiting : Call
waiting = futex_wait 4096 7

futex_calls_agree_example :
    ((assembly waiting).word ≡ (syscall waiting).word)
    × ((assembly waiting).op ≡ (syscall waiting).op)
    × (read (assembly waiting).op (assembly waiting) ≡ read (syscall waiting).op (syscall waiting))
    × (assembly_result (negated 11)
        ≡ syscall_result (c_library.returned (negated 11)) (c_library.errno (negated 11)))
futex_calls_agree_example = futex_calls_agree c_library waiting (negated 11) (omega arith)
