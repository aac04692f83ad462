-- ===== src/Cuda/Args.antt =====
-- cuda/cuda.go: Arg and its constructors, Argser, Ranger and BuildArgs; Slice of cuda/slice_cuda.go as an
-- argument. An Arg is its raw bytes. A float is carried as its bits.
use simtgo.Base.{
  ℕ, zero, suc, ◌+◌, ◌-◌, ◌*◌, ◌/◌, ◌%◌, ◌^◌, ℤ, pos, negsuc, to_bits, Bool, true, false, List, [],
  ◌∷◌, ◌++◌, Option, some, none,
}
pub mod Bytes
pub mod Flat

abbrev pub Arg : Type 0
Arg = List ℕ

-- binary.LittleEndian's PutUint32 and PutUint64, w bytes of them.
unfoldable pub le_bytes : ℕ → ℕ → Arg
le_bytes zero v = []
le_bytes (suc w) v = v % 256 ∷ le_bytes w (v / 256)

unfoldable pub arg_dev : ℕ → Arg
unfolding le_bytes
arg_dev p = le_bytes 8 p

unfoldable pub arg_i32 : ℤ → Arg
unfolding le_bytes to_bits
arg_i32 v = le_bytes 4 (to_bits 32 v)

unfoldable pub arg_f32 : ℕ → Arg
unfolding le_bytes
arg_f32 bits = le_bytes 4 bits

unfoldable pub arg_u32 : ℕ → Arg
unfolding le_bytes
arg_u32 v = le_bytes 4 v

unfoldable pub arg_i64 : ℤ → Arg
unfolding le_bytes to_bits
arg_i64 v = le_bytes 8 (to_bits 64 v)

unfoldable pub arg_u64 : ℕ → Arg
unfolding le_bytes
arg_u64 v = le_bytes 8 v

unfoldable pub arg_f64 : ℕ → Arg
unfolding le_bytes
arg_f64 bits = le_bytes 8 bits

unfoldable pub arg_bool : Bool → Arg
arg_bool false = 0 ∷ []
arg_bool true = 1 ∷ []

-- A device buffer: its address, its length, and the size of an element.
pub record Slice : Type 0 where
  pub ptr : ℕ
  pub n : ℕ
  pub size : ℕ

unfoldable pub kernel_args : Slice → List Arg
unfolding arg_dev arg_i32
kernel_args s = arg_dev s.ptr ∷ arg_i32 (pos s.n) ∷ []

-- The base and the size in bytes, the size as the bits of the int that the product is computed in.
unfoldable pub device_range : Slice → ℕ × ℕ
device_range s = (s.ptr, s.n * s.size % 2 ^ 64)

-- What a launch may be given: a constructor for each case of BuildArgs. `argser` is an Argser that is not
-- a Slice and reports no range, and `other` is a value of any type that no case names.
pub data Value : Type 0 where
  slice : Slice → Value
  argser : List Arg → Value
  f32 f64 u32 u64 : ℕ → Value
  i32 int i64 : ℤ → Value
  boolean : Bool → Value
  arg : Arg → Value
  other : Value

pub data Built : Type 0 where
  flat : List Arg → Built
  unsupported : ℕ → Built  -- the argument's index

-- One round of the loop: the parameters that a value becomes.
unfoldable pub expand : Value → Option (List Arg)
unfolding kernel_args arg_dev arg_i32 arg_f32 arg_u32 arg_i64 arg_u64 arg_f64 arg_bool
expand (slice s) = some (kernel_args s)
expand (argser l) = some l
expand (f32 v) = some (arg_f32 v ∷ [])
expand (f64 v) = some (arg_f64 v ∷ [])
expand (u32 v) = some (arg_u32 v ∷ [])
expand (u64 v) = some (arg_u64 v ∷ [])
expand (i32 v) = some (arg_i32 v ∷ [])
expand (int v) = some (arg_i32 v ∷ [])
expand (i64 v) = some (arg_i64 v ∷ [])
expand (boolean v) = some (arg_bool v ∷ [])
expand (arg a) = some (a ∷ [])
expand other = none

-- From argument i on, after `out`.
unfoldable pub build_from : ℕ → List Arg → List Value → Built
unfolding expand
build_from i out [] = flat out
build_from i out (v ∷ vs) = elim (expand v) [
  | none ↦ unsupported i
  | some l ↦ build_from (i + 1) (out ++ l) vs
]

unfoldable pub build_args : List Value → Built
unfolding build_from
build_args vs = build_from 0 [] vs
