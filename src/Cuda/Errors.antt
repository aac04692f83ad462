-- ===== src/Cuda/Errors.antt =====
-- cuda/error.go: the errors of the package cuda, without their texts. A status code is a number.
use simtgo.Base.{ℕ, Bool, false, ◌==◌, ℤ}
use simtgo.Cuda.Arch.{Str}

-- One constructor for each error type and sentinel, and one for what BuildArgs refuses. Only `failed`
-- (Error) and `poisoned` (ContextPoisonedError) unwrap to a Result.
pub data CudaError : Type 0 where
  failed : Str → ℕ → Str → CudaError  -- op, code, desc
  poisoned : Str → ℕ → CudaError  -- op, code
  context_closed : CudaError
  length_mismatch : Str → ℕ → ℤ → CudaError  -- op, want, got
  too_large : Str → ℤ → ℕ → CudaError  -- op, elements, size
  unsupported_arg : ℕ → CudaError
  compile_failed : Str → ℕ → Str → CudaError  -- name, code, log

-- The codes that the modelled code tests for.
abbrev pub success : ℕ
success = 0

abbrev pub err_invalid_image : ℕ
err_invalid_image = 200

abbrev pub err_no_binary_for_gpu : ℕ
err_no_binary_for_gpu = 209

abbrev pub err_invalid_ptx : ℕ
err_invalid_ptx = 218

abbrev pub err_unsupported_ptx_version : ℕ
err_unsupported_ptx_version = 222

abbrev pub err_illegal_address : ℕ
err_illegal_address = 700

abbrev pub err_launch_timeout : ℕ
err_launch_timeout = 702

abbrev pub err_illegal_instruction : ℕ
err_illegal_instruction = 715

abbrev pub err_misaligned_address : ℕ
err_misaligned_address = 716

abbrev pub err_launch_failed : ℕ
err_launch_failed = 719

-- errors.Is(err, code)
unfoldable pub has_code : CudaError → ℕ → Bool
has_code (failed op c desc) code = c == code
has_code (poisoned op c) code = c == code
has_code _ code = false
