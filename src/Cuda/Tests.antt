-- ===== src/Cuda/Tests.antt =====
-- cuda/: the theorems about the package at concrete values.
use simtgo.Base.{
  All, false, Option, none, zero, ◌≢◌, ℕ, ◌+◌, ◌%◌, ◌≤◌, ◌<◌, ◌≡◌, refl, List, [], ◌∷◌, ◌++◌, true,
  some, arith, length, tally, get_elem?, pos,
}
use simtgo.Cuda.Arch.{Str, capability, max_int, prefix, is_digits, value_from, parse_arch, arch}
use simtgo.Cuda.Arch.RoundTrip.{parse_arch-arch}
use simtgo.Cuda.Arch.Accepted.{parse_arch-capability}
use simtgo.Cuda.Args.{Arg, Value, slice, i32, other, build_args}
use simtgo.Cuda.Args.Flat.{width, build_args-length}
use simtgo.Cuda.Context.{Request, synchronize, mem_alloc, Driver, Device, Context, call}
use simtgo.Cuda.Errors.{context_closed}
use simtgo.Cuda.Modules.{got, refused, load_ptx_cached, load_ptx_locked, close}
use simtgo.Cuda.Modules.Once.{load_ptx_cached-again}
use simtgo.Cuda.Modules.Closed.{Unloaded, close-Unloaded}
use simtgo.Cuda.Context.Poison.{Honest, calls, calls-Honest}
use simtgo.Cuda.Elements.{
  int_kind, pointer_kind, GoType, of_kind, array, struct, no_fields, field, has_pointer, check_elem,
}
use simtgo.Cuda.Elements.Pointers.{pointers_in, inhabited, check_elem-pointers_in}
use simtgo.Cuda.Marshal.{marshal}
use simtgo.Cuda.Marshal.Layout.{read, marshal-read}

-- compute_120, whose minor number is its last digit.
parse_arch-arch_example : parse_arch (arch 12 0) ≡ capability 12 0
unfolding max_int
parse_arch-arch_example = parse_arch-arch 12 0 (omega arith) (omega arith)

abbrev turing : Str
turing = 99 ∷ 111 ∷ 109 ∷ 112 ∷ 117 ∷ 116 ∷ 101 ∷ 95 ∷ 55 ∷ 53 ∷ []

parse_arch-capability_example :
    (t : Str) × (turing ≡ prefix ++ (t ++ ((48 + 5) ∷ [])))
    × (is_digits t ≡ true)
    × (value_from 0 t ≡ 7)
    × (7 ≤ max_int)
    × (5 < 10)
unfolding parse_arch
parse_arch-capability_example = parse_arch-capability turing 7 5 refl

abbrev mixed : List Value
mixed = slice (record { ptr = 4096; n = 16; size = 4 }) ∷ i32 (pos 3) ∷ other ∷ other ∷ []

abbrev two_values : List Value
two_values = slice (record { ptr = 1; n = 2; size = 4 }) ∷ i32 (pos 3) ∷ []

abbrev three_params : List Arg
three_params =
    (1 ∷ 0 ∷ 0 ∷ 0 ∷ 0 ∷ 0 ∷ 0 ∷ 0 ∷ []) ∷ (2 ∷ 0 ∷ 0 ∷ 0 ∷ []) ∷ (3 ∷ 0 ∷ 0 ∷ 0 ∷ []) ∷ []

build_args-length_example : length three_params ≡ tally width two_values
unfolding build_args
build_args-length_example = build_args-length two_values three_params refl

abbrev second_param : Arg
second_param = 2 ∷ 0 ∷ 0 ∷ 0 ∷ []

marshal-read_example :
    (o : ℕ) × (get_elem? (marshal three_params).1 1 ≡ some o)
    × (o % 8 ≡ 0)
    × (o + length second_param ≤ length (marshal three_params).0)
    × (read (marshal three_params).0 o (length second_param) ≡ second_param)
marshal-read_example = marshal-read three_params 1 second_param refl

-- A driver whose synchronisation fails with a trap's code.
abbrev trapping_answer : Request → ℕ
trapping_answer synchronize = 719
trapping_answer _ = 0

abbrev trapping : Driver
trapping = record {
  answer = λ l q. trapping_answer q;
  handle = λ l. 1;
  name_of = λ q. [];
  text_of = λ c. [];
}

abbrev fresh_device : Device
fresh_device = record { trace = []; poison = none }

calls-Honest_example :
    Honest trapping (calls trapping (mem_alloc 64 ∷ synchronize ∷ mem_alloc 64 ∷ []) fresh_device)
calls-Honest_example =
    calls-Honest trapping (mem_alloc 64 ∷ synchronize ∷ mem_alloc 64 ∷ []) fresh_device tt

-- The bind and the call of the allocation and of the synchronisation, and no more.
trapped_after_four :
    length (calls trapping (mem_alloc 64 ∷ synchronize ∷ mem_alloc 64 ∷ []) fresh_device).trace ≡ 4
unfolding calls call
trapped_after_four = refl

-- A struct with a number and an array of pointers.
abbrev header : GoType
header = struct (
    field (110 ∷ []) (of_kind int_kind)
      (field (112 ∷ []) (array 2 (of_kind pointer_kind)) no_fields))

check_elem-pointers_in_example :
    (check_elem header 24 ≡ none → (pointers_in header ≡ 0) × (24 ≢ zero))
    × (inhabited header ≡ true → pointers_in header ≡ 0 → 24 ≢ zero → check_elem header 24 ≡ none)
check_elem-pointers_in_example = check_elem-pointers_in header 24

-- An array of no pointers is refused all the same.
empty_array_is_refused :
    check_elem (array 0 (of_kind pointer_kind)) 0 ≡ some (has_pointer (91 ∷ 93 ∷ []) pointer_kind)
unfolding check_elem
empty_array_is_refused = refl

-- A context on a driver that gives a handle to every image.
abbrev fresh_context : Context
fresh_context = record { modules = []; cache = []; closed = false; handles = [] }

abbrev loading_driver : Driver
loading_driver = record { answer = λ l q. 0; handle = λ l. 5; name_of = λ q. []; text_of = λ c. [] }

-- A build that counts its runs.
abbrev counted : ℕ → ℕ × Option Str
counted n = (n + 1, some (46 ∷ []))

first_load :
    (load_ptx_cached loading_driver (107 ∷ []) counted 0 fresh_context fresh_device).3 ≡ got 0
unfolding load_ptx_cached call
first_load = refl

load_ptx_cached-again_example :
    load_ptx_cached loading_driver
      (107 ∷ [])
      counted
      1
      (load_ptx_cached loading_driver (107 ∷ []) counted 0 fresh_context fresh_device).1
      fresh_device
    ≡ (
      1,
      (load_ptx_cached loading_driver (107 ∷ []) counted 0 fresh_context fresh_device).1,
      fresh_device,
      got 0,
    )
load_ptx_cached-again_example =
    load_ptx_cached-again loading_driver (107 ∷ []) counted counted 0 1 fresh_context fresh_device
      fresh_device 0 first_load

-- Two modules, one of them unloaded before.
abbrev two_modules : Context
two_modules = record { modules = 0 ∷ 1 ∷ []; cache = []; closed = false; handles = 7 ∷ 0 ∷ [] }

close-Unloaded_example :
    All (Unloaded (close trapping two_modules fresh_device).0) (0 ∷ 1 ∷ [])
    × ((w' : Device)
        → close trapping (close trapping two_modules fresh_device).0 w'
          ≡ ((close trapping two_modules fresh_device).0, w', none))
    × ((ptx : Str) (w' : Device)
        → load_ptx_locked trapping ptx (close trapping two_modules fresh_device).0 w'
          ≡ ((close trapping two_modules fresh_device).0, w', refused context_closed))
close-Unloaded_example = close-Unloaded trapping two_modules fresh_device refl
