-- ===== src/Simt/Tests.antt =====
-- simt/: the theorems about launches at a concrete kernel and driver.
use simtgo.Base.{
  inl, eq_list, get_elem?, if◌then◌else◌, ℕ, ◌+◌, ◌-◌, ◌*◌, ◌^◌, ◌≤◌, ◌<◌, ◌≡◌, ◌≢◌, ◌⊎◌, ◌↔◌, refl,
  List, [], ◌∷◌, ◌++◌, true, false, some, none, arith, length, pos, signed,
}
use simtgo.Cuda.Arch.{Str, parse_arch}
use simtgo.Cuda.Args.{Arg, Value, slice, i32, flat, build_args, arg_i32}
use simtgo.Cuda.Errors.{CudaError, failed}
use simtgo.Simt.Kernel.{Param, Kernel, alias, trap}
use simtgo.Simt.Alias.{Span, check_aliasing, range_of}
use simtgo.Simt.Alias.Sound.{Bound, Within, check_aliasing-none}
use simtgo.Simt.Alias.Witnessed.{check_aliasing-some}
use simtgo.Simt.Launch.{
  Dim3, Driver, launch, launch_dim, launch_n, launch_shared_dim, dispatch, diagnose,
}
use simtgo.Simt.Launch.Guarded.{
  Passed, launch-none, launch_dim-none, launch_dim-restrict, launch_n-covers,
}
use simtgo.Simt.Launch.Traps.{IsFault, diagnose-trap_iff}
use simtgo.Simt.Launch.Tiles.{launch_shared_dim-none}
use simtgo.Simt.Prebuilt.{Prebuilt, Registry, register_prebuilt, pick_prebuilt}
use simtgo.Simt.Prebuilt.Registered.{Sound, register_prebuilt-some, register_prebuilt-none_iff}
use simtgo.Simt.Prebuilt.Newest.{Filed, AtMost, pick_prebuilt-newest, pick_prebuilt-some}

abbrev written : Param
written = record { name = 99 ∷ []; slice = true; read_only = false }

abbrev first_read : Param
first_read = record { name = 97 ∷ []; slice = true; read_only = true }

abbrev second_read : Param
second_read = record { name = 98 ∷ []; slice = true; read_only = true }

-- Three slices, of which the first is written, for blocks of 256 threads.
abbrev vec_add : Kernel
vec_add = record {
  name = 118 ∷ [];
  bounds_checks = true;
  required_block = 256;
  shared_bytes = 0;
  dyn_shared_width = 0;
  params = written ∷ first_read ∷ second_read ∷ [];
  max_shared = 0;
}

-- The same with a dynamic tile of floats.
abbrev tiled : Kernel
tiled = record {
  name = 116 ∷ [];
  bounds_checks = false;
  required_block = 0;
  shared_bytes = 1024;
  dyn_shared_width = 4;
  params = written ∷ first_read ∷ second_read ∷ [];
  max_shared = 49152;
}

abbrev buffer : ℕ → Value
buffer p = slice (record { ptr = p; n = 16; size = 4 })

-- The two that are read are one buffer.
abbrev shared_reads : List Value
shared_reads = buffer 4096 ∷ buffer 8192 ∷ buffer 8192 ∷ []

-- The last is the one that is written, from its ninth element on.
abbrev overlap : List Value
overlap = buffer 4096 ∷ buffer 8192 ∷ buffer 4128 ∷ []

-- A driver that counts its launches.
abbrev counting : Driver ℕ
counting = record {
  launch_sync = λ g b n l st. (st + 1, none);
  launch_on = λ s g b n l st. (st + 1, none);
}

abbrev grid_of : ℕ → Dim3
grid_of n = record { x = n; y = 1; z = 1 }

check_aliasing-none_example : (first_read.read_only ≡ true) × (second_read.read_only ≡ true)
unfolding check_aliasing range_of
check_aliasing-none_example =
    check_aliasing-none vec_add shared_reads 1 2 first_read second_read 8192 64 8192 64 8200 refl
      (omega arith) (λ e. omega (arith, e)) (refl, refl, buffer 8192, refl, refl)
      (refl, refl, buffer 8192, refl, refl) (omega arith) (omega arith) (omega arith, omega arith)
      (omega arith, omega arith)

check_aliasing-some_example :
    (i : ℕ) × (j : ℕ) × (a : Span) × (c : Span) × (x : ℕ) × (i ≢ j)
    × Bound vec_add.params overlap i a.param a.base a.bytes
    × Bound vec_add.params overlap j c.param c.base c.bytes
    × Within x a.base a.bytes
    × Within x c.base c.bytes
    × (a.param.read_only ≡ false)
    × (alias (118 ∷ []) (99 ∷ []) (98 ∷ []) ≡ alias (118 ∷ []) a.param.name c.param.name)
unfolding check_aliasing range_of
check_aliasing-some_example =
    check_aliasing-some vec_add overlap (alias (118 ∷ []) (99 ∷ []) (98 ∷ [])) refl (omega arith)
      (omega arith, (omega arith, (omega arith, tt)))

launch-none_example :
    (l : List Arg) × Passed vec_add (grid_of 256) shared_reads l
    × (dispatch counting none (grid_of 4) (grid_of 256) 0 l 0 ≡ (1, none))
unfolding launch signed check_aliasing build_args
launch-none_example =
    launch-none counting vec_add none (grid_of 4) (grid_of 256) 0 shared_reads 0 1 refl

launch_dim-none_example :
    (vec_add.dyn_shared_width ≡ 0)
    × (length shared_reads ≡ 3)
    × (l : List Arg) × Passed vec_add (grid_of 256) shared_reads l
    × (counting.launch_sync (grid_of 4) (grid_of 256) 0 l 0 ≡ (1, none))
unfolding launch_dim signed check_aliasing build_args
launch_dim-none_example =
    launch_dim-none counting vec_add (grid_of 4) (grid_of 256) shared_reads 0 1 refl

launch_dim-restrict_example : (first_read.read_only ≡ true) × (second_read.read_only ≡ true)
unfolding launch_dim range_of signed check_aliasing build_args
launch_dim-restrict_example =
    launch_dim-restrict counting vec_add (grid_of 4) (grid_of 256) shared_reads 0 1 1 2 first_read
      second_read 8192 64 8192 64 8200 refl (λ e. omega (arith, e))
      (refl, refl, buffer 8192, refl, refl) (refl, refl, buffer 8192, refl, refl) (omega arith)
      (omega arith) (omega arith, omega arith) (omega arith, omega arith)

launch_n-covers_example :
    (grid : ℕ) × (1000 ≤ grid * 256)
    × (grid * 256 < 1000 + 256)
    × (launch_n counting vec_add (pos 1000) (pos 256) shared_reads 0
        ≡ some (launch_dim counting vec_add (grid_of grid) (grid_of 256) shared_reads 0))
launch_n-covers_example =
    launch_n-covers counting vec_add 1000 256 shared_reads 0 (omega arith) (omega arith)
      (omega arith)

abbrev trapped : CudaError
trapped = failed [] 719 []

diagnose-trap_iff_example : (diagnose vec_add (some trapped) ≡ some (trap (118 ∷ []) trapped)) ↔ (
    (vec_add.bounds_checks ≡ true)
    × (vec_add.name ≡ vec_add.name)
    × (trapped ≡ trapped)
    × IsFault trapped)
diagnose-trap_iff_example = diagnose-trap_iff vec_add trapped trapped (118 ∷ [])

launch_shared_dim-none_example :
    (m : ℕ) × (l : List Arg) × (pos 100 ≡ pos m)
    × (tiled.dyn_shared_width ≢ 0)
    × (m * 4 ≤ 2 ^ 31 - 1)
    × ((tiled.max_shared ≡ 0) ⊎ (1024 + m * 4 ≤ 49152))
    × (length shared_reads ≡ 3)
    × Passed tiled (grid_of 64) (shared_reads ++ (i32 (pos m) ∷ [])) (l ++ (arg_i32 (pos m) ∷ []))
    × (build_args shared_reads ≡ flat l)
    × (counting.launch_sync (grid_of 4) (grid_of 64) (m * 4) (l ++ (arg_i32 (pos m) ∷ [])) 0
        ≡ (1, none))
unfolding launch_shared_dim signed check_aliasing build_args
launch_shared_dim-none_example =
    launch_shared_dim-none counting tiled (grid_of 4) (grid_of 64) (pos 100) shared_reads 0 1 refl

abbrev image : Str → List ℕ → Prebuilt
image a p = record {
  name = 107 ∷ [];
  source_sha256 = 104 ∷ [];
  arch = a;
  ptx = p;
  required_block = 0;
  shared_bytes = 0;
  dyn_shared_width = 0;
  log = [];
}

-- compute_70 and compute_75.
abbrev volta : Str
volta = 99 ∷ 111 ∷ 109 ∷ 112 ∷ 117 ∷ 116 ∷ 101 ∷ 95 ∷ 55 ∷ 48 ∷ []

abbrev turing : Str
turing = 99 ∷ 111 ∷ 109 ∷ 112 ∷ 117 ∷ 116 ∷ 101 ∷ 95 ∷ 55 ∷ 53 ∷ []

abbrev both : Registry
both h = image volta (1 ∷ []) ∷ image turing (2 ∷ []) ∷ []

-- A device of capability 8.9.
pick_prebuilt-newest_example :
    (p : Prebuilt) × (a : ℕ) × (b : ℕ) × (pick_prebuilt both (104 ∷ []) 8 9 ≡ some p)
    × Filed (both (104 ∷ [])) p a b
    × AtMost a b 8 9
    × AtMost 7 0 a b
unfolding parse_arch
pick_prebuilt-newest_example =
    pick_prebuilt-newest both (104 ∷ []) 8 9 (image volta (1 ∷ [])) 7 0 (0, refl, refl)
      (inl (omega arith))

pick_prebuilt-some_example :
    (a : ℕ) × (b : ℕ) × Filed (both (104 ∷ [])) (image turing (2 ∷ [])) a b × AtMost a b 8 9
unfolding pick_prebuilt parse_arch
pick_prebuilt-some_example = pick_prebuilt-some both (104 ∷ []) 8 9 (image turing (2 ∷ [])) refl

abbrev nothing_filed : Registry
nothing_filed h = []

nothing_filed-Sound : Sound nothing_filed
nothing_filed-Sound h = ((λ i j p q e f a. cc), (λ i p e. cc))

abbrev first_filed : Registry
first_filed h =
    if eq_list h (104 ∷ [])
    then nothing_filed h ++ (image turing (2 ∷ []) ∷ [])
    else nothing_filed h

register_prebuilt-some_example :
    Sound first_filed
    × (register_prebuilt (image turing (2 ∷ [])) first_filed ≡ some first_filed)
    × (i : ℕ) × (q : Prebuilt) × (get_elem? (first_filed (104 ∷ [])) i ≡ some q)
    × (q.arch ≡ turing)
    × (q.ptx ≡ 2 ∷ [])
unfolding register_prebuilt
register_prebuilt-some_example =
    register_prebuilt-some (image turing (2 ∷ [])) nothing_filed first_filed nothing_filed-Sound
      refl

register_prebuilt-none_iff_example :
    (register_prebuilt (image turing (3 ∷ [])) first_filed ≡ none) ↔ (
      (i : ℕ) × (q : Prebuilt) × (get_elem? (first_filed (104 ∷ [])) i ≡ some q)
      × (q.arch ≡ turing)
      × (q.ptx ≢ 3 ∷ []))
register_prebuilt-none_iff_example =
    register_prebuilt-none_iff (image turing (3 ∷ [])) first_filed register_prebuilt-some_example.0
