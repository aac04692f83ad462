-- ===== src/Simt/Launch/Guarded.antt =====
-- simt/kernel.go: what holds of a launch that succeeds, and the grid of LaunchN.
use simtgo.Base.{
  ℕ, zero, suc, ◌+◌, ◌-◌, ◌*◌, ◌/◌, ◌%◌, ◌^◌, ◌≤◌, ◌<◌, ◌≡◌, ◌≢◌, refl, sym, ◌∙◌, ap, ℤ, pos, sub_ℕ,
  ◌+ℤ◌, ◌-ℤ◌, eq_ℤ, to_bits, signed, true, false, List, Option, some, none, ltb, leb, ltb→lt, ◌==◌,
  if◌then◌else◌, length, arith, Bool-cases, ==_iff, inl, inr, ◌⊎◌,
}
use native.Mathlib.Nat.{div-add-mod', mod-lt, mul-le-mul_right}
use simtgo.Cuda.Args.{Arg, Value, Built, flat, unsupported, build_args}
use simtgo.Cuda.Errors.{CudaError}
use simtgo.Simt.Kernel.{Param, Kernel, LaunchError, block_size, arg_count, dynamic_shared}
use simtgo.Simt.Alias.{or_else, check_aliasing}
use simtgo.Simt.Alias.Sound.{Bound, Within, check_aliasing-none}
use simtgo.Simt.Launch.{
  Dim3, d1, Driver, threads_of, check_block, check_args, diagnose, dispatch, launch_built, checks,
  launch, launch_dim, launch_1d, grid_for, launch_n,
}

-- The arguments that a kernel with a dynamic tile has besides its parameters'.
abbrev pub extra_args : Kernel → ℕ
extra_args k = if k.dyn_shared_width == 0 then 0 else 1

-- Everything that a launch has passed before the driver is called.
abbrev pub Passed : Kernel → Dim3 → List Value → List Arg → Type 0
Passed k block args l =
    ((k.required_block ≡ 0) ⊎ (block.x * block.y * block.z % 2 ^ 64 ≡ k.required_block))
    × (length args ≡ length k.params + extra_args k)
    × (check_aliasing k args ≡ none)
    × (build_args args ≡ flat l)

signed-pos : (v r : ℕ) → eq_ℤ (signed 64 v) (pos r) ≡ true → v ≡ r
unfolding signed
signed-pos v r h = elim (Bool-cases (ltb v (2 ^ 63))) [
  | inl e ↦ let h' : (v == r) ≡ true = sym (rw e refl) ∙ h in ground arith
  | inr e ↦ let h' : false ≡ true = sym (rw e refl) ∙ h in cc
]

sub_ℕ-pos : (a b c : ℕ) → eq_ℤ (sub_ℕ a b) (pos c) ≡ true → a ≡ c + b
sub_ℕ-pos a b c h = elim (Bool-cases (leb b a)) [
  | inl e ↦ let h' : (a - b == c) ≡ true = sym (rw e refl) ∙ h in ground arith
  | inr e ↦ let h' : false ≡ true = sym (rw e refl) ∙ h in cc
]

check_block-none :
    (k : Kernel) (b : Dim3)
    → check_block k b ≡ none
    → (k.required_block ≡ 0) ⊎ (b.x * b.y * b.z % 2 ^ 64 ≡ k.required_block)
unfolding check_block threads_of
check_block-none k b h = elim (Bool-cases (k.required_block == 0)) [
  | inl z ↦ inl ((==_iff _ _).0 z)
  | inr r ↦ inr (
      signed-pos _ _ (elim (Bool-cases (eq_ℤ (threads_of b) (pos k.required_block))) [
        | inl e ↦ e
        | inr e ↦
            let h' : some (block_size k.name k.required_block (threads_of b)) ≡ none =
              sym (rw (r, e) refl) ∙ h in
            cc
      ]))
]

check_args-none :
    (k : Kernel) (args : List Value)
    → check_args k args ≡ none
    → length args ≡ length k.params + extra_args k
unfolding check_args
check_args-none k args h =
    let got = sub_ℕ (length args) (extra_args k) in
    sub_ℕ-pos _ _ _ (elim (Bool-cases (eq_ℤ got (pos (length k.params)))) [
      | inl e ↦ e
      | inr e ↦
          let h' : some (arg_count k.name (length k.params) got) ≡ none = sym (rw e refl) ∙ h in cc
    ])

or_else-none : (e f : Option LaunchError) → or_else e f ≡ none → (e ≡ none) × (f ≡ none)
or_else-none none f h = (refl, h)
or_else-none (some e) f h = cc

diagnose-none : (k : Kernel) (e : Option CudaError) → diagnose k e ≡ none → e ≡ none
unfolding diagnose
diagnose-none k none h = refl
diagnose-none k (some e) h = ground arith

module _ {S : Type 0} (d : Driver S) where
  launch_built-none :
      (k : Kernel) (s : Option ℕ) (grid block : Dim3) (bytes : ℕ) (st st' : S)
      (c : Option LaunchError) (b : Built)
      → launch_built d k s grid block bytes st c b ≡ (st', none)
      → (c ≡ none)
        × (l : List Arg) × (b ≡ flat l)
        × (dispatch d s grid block bytes l st ≡ (st', none))
  unfolding launch_built
  launch_built-none k s grid block bytes st st' (some e) b h = cc
  launch_built-none k s grid block bytes st st' none (unsupported i) h = cc
  launch_built-none k s grid block bytes st st' none (flat l) h =
      let r = dispatch d s grid block bytes l st in
      let e0 : r.0 ≡ st' = cc in
      let e1 : diagnose k r.1 ≡ none = cc in
      let e2 = diagnose-none k r.1 e1 in
      let pair : (r.0, r.1) ≡ (st', none) = rw (e0, e2) refl in (refl, l, refl, pair)

  launch-checks :
      (k : Kernel) (s : Option ℕ) (grid block : Dim3) (bytes : ℕ) (args : List Value) (st : S)
      → launch d k s grid block bytes args st
        ≡ launch_built d k s grid block bytes st (checks d k block args) (build_args args)
  unfolding launch
  launch-checks k s grid block bytes args st = refl

  checks-none :
      (k : Kernel) (block : Dim3) (args : List Value)
      → checks d k block args ≡ none
      → (check_block k block ≡ none) × (check_args k args ≡ none) × (check_aliasing k args ≡ none)
  unfolding checks
  checks-none k block args h =
      let (a, r) = or_else-none _ _ h in let (b, c) = or_else-none _ _ r in (a, b, c)

  -- A launch of any spelling that succeeds has passed every check, and the driver was called once,
  -- with what BuildArgs makes of the arguments, and reported no error.
  pub launch-none :
      (k : Kernel) (s : Option ℕ) (grid block : Dim3) (bytes : ℕ) (args : List Value) (st st' : S)
      → launch d k s grid block bytes args st ≡ (st', none)
      → (l : List Arg) × Passed k block args l × (dispatch d s grid block bytes l st ≡ (st', none))
  launch-none k s grid block bytes args st st' h =
      let h' = sym (launch-checks k s grid block bytes args st) ∙ h in
      let (c, l, b, r) = launch_built-none k s grid block bytes st st' _ _ h' in
      let (cb, ca, al) = checks-none k block args c in
      (l, (check_block-none k block cb, check_args-none k args ca, al, b), r)

  launch_dim-refused :
      (k : Kernel) (grid block : Dim3) (args : List Value) (st : S)
      → (k.dyn_shared_width == 0) ≡ false
      → launch_dim d k grid block args st ≡ (st, some (dynamic_shared k.name true))
  unfolding launch_dim
  launch_dim-refused k grid block args st e = rw (launch_dim, e) refl

  launch_dim-plain :
      (k : Kernel) (grid block : Dim3) (args : List Value) (st : S)
      → (k.dyn_shared_width == 0) ≡ true
      → launch_dim d k grid block args st ≡ launch d k none grid block 0 args st
  unfolding launch_dim
  launch_dim-plain k grid block args st e = rw (launch_dim, e) refl

  -- A Launch or LaunchDim that succeeds is of a kernel without a dynamic tile, and it has called the
  -- driver's synchronous launch once, without dynamic shared memory: the block has the number of
  -- threads that the kernel declared, if it declared one, there is one argument for each parameter,
  -- checkAliasing found nothing, and the driver was given what BuildArgs makes of the arguments.
  pub launch_dim-none :
      (k : Kernel) (grid block : Dim3) (args : List Value) (st st' : S)
      → launch_dim d k grid block args st ≡ (st', none)
      → (k.dyn_shared_width ≡ 0)
        × (length args ≡ length k.params)
        × (l : List Arg) × Passed k block args l
        × (d.launch_sync grid block 0 l st ≡ (st', none))
  unfolding dispatch
  launch_dim-none k grid block args st st' h = elim (Bool-cases (k.dyn_shared_width == 0)) [
    | inl e ↦
        let h' = sym (launch_dim-plain k grid block args st e) ∙ h in
        let (l, p, r) = launch-none k none grid block 0 args st st' h' in
        let n : length args ≡ length k.params + extra_args k = p.1 in
        let z : extra_args k ≡ 0 = rw e refl in ((==_iff _ _).0 e, omega (arith, n, z), l, p, r)
    | inr e ↦ let bad = sym (launch_dim-refused k grid block args st e) ∙ h in cc
  ]

  -- When a Launch or LaunchDim succeeds, two different slice parameters whose buffers have an address
  -- in common are both only read, as the __restrict__ of the generated C promises. No buffer is to
  -- reach past the end of the address space.
  pub launch_dim-restrict :
      (k : Kernel) (grid block : Dim3) (args : List Value) (st st' : S) (i j : ℕ) (p q : Param)
      (b m c n x : ℕ)
      → launch_dim d k grid block args st ≡ (st', none)
      → i ≢ j
      → Bound k.params args i p b m
      → Bound k.params args j q c n
      → b + m < 2 ^ 64
      → c + n < 2 ^ 64
      → Within x b m
      → Within x c n
      → (p.read_only ≡ true) × (q.read_only ≡ true)
  launch_dim-restrict k grid block args st st' i j p q b m c n x h ne bi bj lm ln wm wn =
      let (z, len, l, (t, len', al, bu), r) = launch_dim-none k grid block args st st' h in
      let long : length k.params ≤ length args = omega (arith, len) in
      check_aliasing-none k args i j p q b m c n x al long ne bi bj lm ln wm wn

d1-small : (n : ℕ) → n < 2 ^ 32 → d1 (pos n) ≡ record { x = n; y = 1; z = 1 }
unfolding d1 to_bits
d1-small n h = let e : n % 2 ^ 32 ≡ n = omega arith in rw e refl

div_up : (n b : ℕ) → 1 ≤ b → (n ≤ (n + b - 1) / b * b) × ((n + b - 1) / b * b < n + b)
div_up n b h =
    let s = div-add-mod' (n + b - 1) b in let l = mod-lt (n + b - 1) h in omega (arith, s, l)

few_blocks : (g n b : ℕ) → n < 2 ^ 32 → 1 ≤ b → g * b < n + b → g < 2 ^ 32
few_blocks g n b hn hb lt = elim (Bool-cases (ltb g (2 ^ 32))) [
  | inl e ↦ ltb→lt g (2 ^ 32) e
  | inr e ↦ let ge : 2 ^ 32 ≤ g = ground arith in let m = mul-le-mul_right b ge in omega (arith, m)
]

grid_for-pos : (n b : ℕ) → 1 ≤ b → grid_for (pos n) (pos b) ≡ some (pos ((n + b - 1) / b))
unfolding grid_for ◌+ℤ◌ ◌-ℤ◌
grid_for-pos n zero h = elim h [ ]
grid_for-pos n (suc b) h =
    let e : leb 0 (n + suc b) ≡ true = ground arith in
    let f : leb 1 (n + suc b - 0 + 0) ≡ true = ground arith in
    let v : n + suc b - 0 + 0 - 1 ≡ n + suc b - 1 = omega arith in rw (e, f, v) refl

launch_n-grid :
    {S : Type 0} (d : Driver S) (k : Kernel) (n block grid : ℤ) (args : List Value) (st : S)
    → grid_for n block ≡ some grid
    → launch_n d k n block args st ≡ some (launch_1d d k grid block args st)
unfolding launch_n
launch_n-grid d k n block grid args st e = rw (launch_n, e) refl

launch_1d-dim :
    {S : Type 0} (d : Driver S) (k : Kernel) (grid block : ℤ) (args : List Value) (st : S)
    → launch_1d d k grid block args st ≡ launch_dim d k (d1 grid) (d1 block) args st
unfolding launch_1d
launch_1d-dim d k grid block args st = refl

-- For a count and a block size that a uint32 holds, LaunchN launches blocks of the given size, as many
-- as it takes for their threads to be at least n, and no block more.
pub launch_n-covers :
    {S : Type 0} (d : Driver S) (k : Kernel) (n block : ℕ) (args : List Value) (st : S)
    → n < 2 ^ 32
    → 1 ≤ block
    → block < 2 ^ 32
    → (grid : ℕ) × (n ≤ grid * block)
      × (grid * block < n + block)
      × (launch_n d k (pos n) (pos block) args st
          ≡ some (
              launch_dim d k
                (record { x = grid; y = 1; z = 1 })
                (record { x = block; y = 1; z = 1 })
                args
                st))
launch_n-covers d k n block args st hn hb hb' =
    let g = (n + block - 1) / block in
    let (ge, lt) = div_up n block hb in
    let e = launch_n-grid d k (pos n) (pos block) (pos g) args st (grid_for-pos n block hb) in
    let small : g < 2 ^ 32 = few_blocks g n block hn hb lt in
    (
      g,
      ge,
      lt,
      e
          ∙ ap some (
              launch_1d-dim d k (pos g) (pos block) args st
              ∙ rw (d1-small g small, d1-small block hb') refl),
    )
