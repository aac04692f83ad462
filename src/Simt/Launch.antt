-- ===== src/Simt/Launch.antt =====
-- simt/kernel.go: the launches, from Launch to LaunchSharedDim, checkArgs and diagnose; Dim3 and D1 of
-- cuda/cuda.go. The driver is a parameter: a state and what its two launches do to it.
use simtgo.Base.{
  ℕ, zero, suc, ◌+◌, ◌-◌, ◌*◌, ◌/◌, ◌%◌, ◌^◌, ℤ, pos, negsuc, sub_ℕ, ◌+ℤ◌, ◌-ℤ◌, pos_part, neg_part,
  eq_ℤ, is_neg, to_bits, signed, Bool, true, false, not, ◌&&◌, ◌||◌, List, [], ◌∷◌, ◌++◌, Option,
  some, none, ltb, leb, ◌==◌, if◌then◌else◌, length,
}
use simtgo.Cuda.Args.{Arg, Value, i32, Built, flat, unsupported, build_args}
use simtgo.Cuda.Errors.{
  CudaError, failed, poisoned, unsupported_arg, err_launch_failed, err_illegal_address,
}
use simtgo.Simt.Kernel.{
  Param, Kernel, LaunchError, cuda, trap, shared_memory, block_size, dynamic_shared, arg_count,
  needs_stream, not_a_size, too_wide,
}
use simtgo.Simt.Alias.{or_else, check_aliasing}
pub mod Guarded
pub mod Traps
pub mod Tiles

pub record Dim3 : Type 0 where
  pub x : ℕ
  pub y : ℕ
  pub z : ℕ

unfoldable pub d1 : ℤ → Dim3
d1 x = record { x = to_bits 32 x; y = 1; z = 1 }

-- Function.LaunchSync and Function.Launch of the kernel's function; a stream is a number.
pub record Driver (S : Type 0) : Type 0 where
  pub launch_sync : Dim3 → Dim3 → ℕ → List Arg → S → S × Option CudaError
  pub launch_on : ℕ → Dim3 → Dim3 → ℕ → List Arg → S → S × Option CudaError

-- The product of three uint32 values, in an int.
unfoldable pub threads_of : Dim3 → ℤ
threads_of b = signed 64 (b.x * b.y * b.z % 2 ^ 64)

unfoldable pub check_block : Kernel → Dim3 → Option LaunchError
unfolding threads_of
check_block k block =
    if not (k.required_block == 0) && not (eq_ℤ (threads_of block) (pos k.required_block))
    then some (block_size k.name k.required_block (threads_of block))
    else none

unfoldable pub check_args : Kernel → List Value → Option LaunchError
check_args k args =
    let extra = if k.dyn_shared_width == 0 then 0 else 1 in
    let got = sub_ℕ (length args) extra in
    if eq_ℤ got (pos (length k.params)) then none else some (arg_count k.name (length k.params) got)

unfoldable pub faulted : ℕ → Bool
faulted code = code == err_launch_failed || code == err_illegal_address

-- diagnose of an error; the first clause is the errors.As on a poisoned context.
unfoldable pub diagnose_error : Kernel → CudaError → LaunchError
unfolding faulted
diagnose_error k (poisoned op code) = cuda (poisoned op code)
diagnose_error k (failed op code desc) =
    if faulted code then trap k.name (failed op code desc) else cuda (failed op code desc)
diagnose_error k e = cuda e

unfoldable pub diagnose : Kernel → Option CudaError → Option LaunchError
unfolding diagnose_error
diagnose k none = none
diagnose k (some e) = if k.bounds_checks then some (diagnose_error k e) else some (cuda e)

-- What LaunchSharedDim refuses a tile of n elements with.
unfoldable pub check_tile : Kernel → ℕ → Option LaunchError
check_tile k n =
    let width = k.dyn_shared_width in
    let total = k.shared_bytes + n * width in
    if ltb ((2 ^ 31 - 1) / width) n
    then some (too_wide k.name (pos n) width)
    else if ltb 0 k.max_shared && ltb k.max_shared total
    then some (shared_memory k.name total k.max_shared)
    else none

module _ {S : Type 0} (d : Driver S) where
  -- A nil stream is `none`.
  unfoldable pub dispatch : Option ℕ → Dim3 → Dim3 → ℕ → List Arg → S → S × Option CudaError
  dispatch none grid block bytes l st = d.launch_sync grid block bytes l st
  dispatch (some s) grid block bytes l st = d.launch_on s grid block bytes l st

  -- What follows the checks and BuildArgs.
  unfoldable pub launch_built :
      Kernel → Option ℕ → Dim3 → Dim3 → ℕ → S → Option LaunchError → Built → S × Option LaunchError
  unfolding dispatch diagnose
  launch_built k s grid block bytes st (some e) b = (st, some e)
  launch_built k s grid block bytes st none (unsupported i) = (st, some (cuda (unsupported_arg i)))
  launch_built k s grid block bytes st none (flat l) =
      let r = dispatch s grid block bytes l st in (r.0, diagnose k r.1)

  unfoldable pub checks : Kernel → Dim3 → List Value → Option LaunchError
  unfolding check_block check_args
  checks k block args =
      or_else (check_block k block) (or_else (check_args k args) (check_aliasing k args))

  -- Kernel.launch
  unfoldable pub launch :
      Kernel → Option ℕ → Dim3 → Dim3 → ℕ → List Value → S → S × Option LaunchError
  unfolding launch_built checks
  launch k s grid block bytes args st =
      launch_built k s grid block bytes st (checks k block args) (build_args args)

  unfoldable pub launch_dim : Kernel → Dim3 → Dim3 → List Value → S → S × Option LaunchError
  unfolding launch
  launch_dim k grid block args st =
      if not (k.dyn_shared_width == 0)
      then (st, some (dynamic_shared k.name true))
      else launch k none grid block 0 args st

  -- Kernel.Launch
  unfoldable pub launch_1d : Kernel → ℤ → ℤ → List Value → S → S × Option LaunchError
  unfolding launch_dim d1
  launch_1d k grid block args st = launch_dim k (d1 grid) (d1 block) args st

  unfoldable pub launch_on_dim :
      Kernel → Option ℕ → Dim3 → Dim3 → List Value → S → S × Option LaunchError
  unfolding launch
  launch_on_dim k none grid block args st = (st, some (needs_stream k.name))
  launch_on_dim k (some s) grid block args st =
      if not (k.dyn_shared_width == 0)
      then (st, some (dynamic_shared k.name true))
      else launch k (some s) grid block 0 args st

  unfoldable pub launch_on : Kernel → Option ℕ → ℤ → ℤ → List Value → S → S × Option LaunchError
  unfolding launch_on_dim d1
  launch_on k s grid block args st = launch_on_dim k s (d1 grid) (d1 block) args st

  -- The end of LaunchSharedDim, for a count n that is not negative.
  unfoldable pub launch_tile : Kernel → Dim3 → Dim3 → ℕ → List Value → S → S × Option LaunchError
  unfolding launch check_tile
  launch_tile k grid block n args st = elim (check_tile k n) [
    | some e ↦ (st, some e)
    | none ↦ launch k none grid block (n * k.dyn_shared_width) (args ++ (i32 (pos n) ∷ [])) st
  ]

  unfoldable pub launch_shared_dim :
      Kernel → Dim3 → Dim3 → ℤ → List Value → S → S × Option LaunchError
  unfolding launch_tile
  launch_shared_dim k grid block (pos n) args st =
      if k.dyn_shared_width == 0
      then (st, some (dynamic_shared k.name false))
      else launch_tile k grid block n args st
  launch_shared_dim k grid block (negsuc n) args st =
      if k.dyn_shared_width == 0
      then (st, some (dynamic_shared k.name false))
      else (st, some (not_a_size k.name (negsuc n)))

  unfoldable pub launch_shared : Kernel → ℤ → ℤ → ℤ → List Value → S → S × Option LaunchError
  unfolding launch_shared_dim d1
  launch_shared k grid block n args st = launch_shared_dim k (d1 grid) (d1 block) n args st

-- The quotient of two ints, which Go rounds towards zero; none is the panic on zero.
abbrev pub quotient : ℤ → ℤ → Option ℤ
quotient a (pos zero) = none
quotient (pos a) (pos (suc b)) = some (pos (a / suc b))
quotient (negsuc a) (pos (suc b)) = some (sub_ℕ 0 (suc a / suc b))
quotient (pos a) (negsuc b) = some (sub_ℕ 0 (a / suc b))
quotient (negsuc a) (negsuc b) = some (pos (suc a / suc b))

-- The grid of LaunchN, `(n+block-1)/block`.
unfoldable pub grid_for : ℤ → ℤ → Option ℤ
unfolding ◌+ℤ◌ ◌-ℤ◌
grid_for n block = quotient (n +ℤ block -ℤ pos 1) block

module _ {S : Type 0} (d : Driver S) where
  -- LaunchN; none is the panic.
  unfoldable pub launch_n : Kernel → ℤ → ℤ → List Value → S → Option (S × Option LaunchError)
  unfolding grid_for launch_1d
  launch_n k n block args st = elim (grid_for n block) [
    | none ↦ none
    | some grid ↦ some (launch_1d d k grid block args st)
  ]
