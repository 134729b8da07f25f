-- ===== src/Basic.antt =====
-- The allocation functions and the system errors of evenk/basic.h.
use evenk.Prelude.{ℕ, ◌==◌, if◌then◌else◌}

-- The end of a call: it returns, throws `std::bad_alloc`, or throws `std::system_error` with the number of
-- an error of the system category.
pub data End {ℓ} (A : Type ℓ) : Type ℓ where
  returns : A → End A
  bad_alloc : End A
  system_error : (err_num : ℕ) → End A

abbrev pub cache_line_size : ℕ
cache_line_size = 64

-- With or without a text, of any type.
unfoldable pub throw_system_error {ℓ} : {A : Type ℓ} → (err_num : ℕ) → End A
throw_system_error err_num = system_error err_num

-- `posix_memalign`: what it returns, with what it leaves in `*result`, from an alignment and a size.
module _ (posix_memalign : (alignment size : ℕ) → ℕ × ℕ) where
  unfoldable pub aligned_alloc : (alignment size : ℕ) → End ℕ
  aligned_alloc alignment size =
      let (rc, result) = posix_memalign alignment size in
      if rc == 0 then returns result else bad_alloc

  unfoldable pub cache_aligned_alloc : (size : ℕ) → End ℕ
  unfolding aligned_alloc
  cache_aligned_alloc size = aligned_alloc cache_line_size size
