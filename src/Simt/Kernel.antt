-- ===== src/Simt/Kernel.antt =====
-- simt/kernel.go: a kernel and what a launch of it may be refused with; Param of internal/lower/lower.go.
use simtgo.Base.{ℕ, ℤ, Bool, List}
use simtgo.Cuda.Arch.{Str}
use simtgo.Cuda.Errors.{CudaError}

pub record Param : Type 0 where
  pub name : Str
  pub slice : Bool
  pub read_only : Bool

-- The fields that a launch reads.
pub record Kernel : Type 0 where
  pub name : Str
  pub bounds_checks : Bool
  pub required_block : ℕ
  pub shared_bytes : ℕ
  pub dyn_shared_width : ℕ
  pub params : List Param
  pub max_shared : ℕ

-- One constructor for each error type of the package, for each message of LaunchOnDim and
-- LaunchSharedDim, and one for the errors of the package cuda.
pub data LaunchError : Type 0 where
  cuda : CudaError → LaunchError
  trap : Str → CudaError → LaunchError
  shared_memory : Str → ℕ → ℕ → LaunchError  -- kernel, bytes, limit
  block_size : Str → ℕ → ℤ → LaunchError  -- kernel, want, got
  dynamic_shared : Str → Bool → LaunchError  -- kernel, whether it declares a tile
  alias : Str → Str → Str → LaunchError  -- kernel, write, other
  arg_count : Str → ℕ → ℤ → LaunchError  -- kernel, want, got
  needs_stream : Str → LaunchError
  not_a_size : Str → ℤ → LaunchError
  too_wide : Str → ℤ → ℕ → LaunchError  -- kernel, elements, width
