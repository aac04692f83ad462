-- ===== src/Simt/Launch/Tiles.antt =====
-- simt/kernel.go: LaunchSharedDim, which sizes a kernel's dynamic tile.
use native.Mathlib.Nat.{div-add-mod', mul-le-mul_right}
use simtgo.Base.{
  ℕ, ◌+◌, ◌-◌, ◌*◌, ◌/◌, ◌^◌, ◌≤◌, ◌≡◌, ◌≢◌, refl, sym, ◌∙◌, ℤ, pos, negsuc, true, false, List, [],
  ◌∷◌, ◌++◌, some, none, ◌==◌, length, length-append, subst, arith, Bool-cases, Option-cases, inl,
  inr, ◌⊎◌, ==_iff, ltb,
}
use simtgo.Cuda.Args.{Arg, Value, i32, arg_i32, flat, build_args}
use simtgo.Cuda.Args.Flat.{build_args-snoc}
use simtgo.Simt.Kernel.{Kernel, LaunchError, dynamic_shared, not_a_size}
use simtgo.Simt.Launch.{Dim3, Driver, dispatch, launch, check_tile, launch_tile, launch_shared_dim}
use simtgo.Simt.Launch.Guarded.{Passed, extra_args, launch-none}

-- A count within the quotient of the largest int32 has a size that an int32 holds.
size_fits : (n w : ℕ) → n ≤ (2 ^ 31 - 1) / w → n * w ≤ 2 ^ 31 - 1
size_fits n w h =
    let m = mul-le-mul_right w h in let s = div-add-mod' (2 ^ 31 - 1) w in omega (arith, m, s)

nonzero : (w : ℕ) → (w == 0) ≡ false → w ≢ 0
nonzero w h = ground arith

check_tile-none :
    (k : Kernel) (n : ℕ)
    → check_tile k n ≡ none
    → (n ≤ (2 ^ 31 - 1) / k.dyn_shared_width)
      × ((k.max_shared ≡ 0) ⊎ (k.shared_bytes + n * k.dyn_shared_width ≤ k.max_shared))
unfolding check_tile
check_tile-none k n h = elim (Bool-cases (k.max_shared == 0)) [
  | inl z ↦ (ground arith, inl ((==_iff _ _).0 z))
  | inr z ↦ let lt : ltb 0 k.max_shared ≡ true = ground arith in (ground arith, inr (ground arith))
]

module _ {S : Type 0} (d : Driver S) where
  launch_tile-some :
      (k : Kernel) (grid block : Dim3) (n : ℕ) (args : List Value) (st : S) (e : LaunchError)
      → check_tile k n ≡ some e
      → launch_tile d k grid block n args st ≡ (st, some e)
  unfolding launch_tile
  launch_tile-some k grid block n args st e h = rw (launch_tile, h) refl

  launch_tile-fits :
      (k : Kernel) (grid block : Dim3) (n : ℕ) (args : List Value) (st : S)
      → check_tile k n ≡ none
      → launch_tile d k grid block n args st
        ≡ launch d k none grid block (n * k.dyn_shared_width) (args ++ (i32 (pos n) ∷ [])) st
  unfolding launch_tile
  launch_tile-fits k grid block n args st h = rw (launch_tile, h) refl

  launch_tile-none :
      (k : Kernel) (grid block : Dim3) (n : ℕ) (args : List Value) (st st' : S)
      → launch_tile d k grid block n args st ≡ (st', none)
      → (check_tile k n ≡ none)
        × (launch d k none grid block (n * k.dyn_shared_width) (args ++ (i32 (pos n) ∷ [])) st
            ≡ (st', none))
  launch_tile-none k grid block n args st st' h = elim (Option-cases (check_tile k n)) [
    | inl e ↦ (e, sym (launch_tile-fits k grid block n args st e) ∙ h)
    | inr (e, q) ↦ let bad = sym (launch_tile-some k grid block n args st e q) ∙ h in cc
  ]

  shared_dim-static :
      (k : Kernel) (grid block : Dim3) (n : ℤ) (args : List Value) (st : S)
      → (k.dyn_shared_width == 0) ≡ true
      → launch_shared_dim d k grid block n args st ≡ (st, some (dynamic_shared k.name false))
  unfolding launch_shared_dim
  shared_dim-static k grid block (pos m) args st e = rw (launch_shared_dim, e) refl
  shared_dim-static k grid block (negsuc m) args st e = rw (launch_shared_dim, e) refl

  shared_dim-negative :
      (k : Kernel) (grid block : Dim3) (m : ℕ) (args : List Value) (st : S)
      → (k.dyn_shared_width == 0) ≡ false
      → launch_shared_dim d k grid block (negsuc m) args st
        ≡ (st, some (not_a_size k.name (negsuc m)))
  unfolding launch_shared_dim
  shared_dim-negative k grid block m args st e = rw (launch_shared_dim, e) refl

  shared_dim-tile :
      (k : Kernel) (grid block : Dim3) (m : ℕ) (args : List Value) (st : S)
      → (k.dyn_shared_width == 0) ≡ false
      → launch_shared_dim d k grid block (pos m) args st ≡ launch_tile d k grid block m args st
  unfolding launch_shared_dim
  shared_dim-tile k grid block m args st e = rw (launch_shared_dim, e) refl

  shared_dim-none :
      (k : Kernel) (grid block : Dim3) (n : ℤ) (args : List Value) (st st' : S)
      → launch_shared_dim d k grid block n args st ≡ (st', none)
      → (m : ℕ) × (n ≡ pos m)
        × ((k.dyn_shared_width == 0) ≡ false)
        × (launch_tile d k grid block m args st ≡ (st', none))
  shared_dim-none k grid block n args st st' h = elim (Bool-cases (k.dyn_shared_width == 0)) [
    | inl e ↦ let bad = sym (shared_dim-static k grid block n args st e) ∙ h in cc
    | inr e ↦ go n e h
  ]
    where
      go :
          (n : ℤ)
          → (k.dyn_shared_width == 0) ≡ false
          → launch_shared_dim d k grid block n args st ≡ (st', none)
          → (m : ℕ) × (n ≡ pos m)
            × ((k.dyn_shared_width == 0) ≡ false)
            × (launch_tile d k grid block m args st ≡ (st', none))
      go (pos m) e h = (m, refl, e, sym (shared_dim-tile k grid block m args st e) ∙ h)
      go (negsuc m) e h = let bad = sym (shared_dim-negative k grid block m args st e) ∙ h in cc

  -- A LaunchShared or LaunchSharedDim that succeeds has sized the tile of a kernel that has one. Its
  -- size in bytes is what the driver was given, it fits an int32, and together with the static
  -- tiles it keeps within the device's limit, where that is known. There is one argument for each
  -- parameter, the checks of every launch have passed, and the driver was given what BuildArgs makes
  -- of the arguments and, after them, the number of elements as an int32.
  pub launch_shared_dim-none :
      (k : Kernel) (grid block : Dim3) (n : ℤ) (args : List Value) (st st' : S)
      → launch_shared_dim d k grid block n args st ≡ (st', none)
      → (m : ℕ) × (l : List Arg) × (n ≡ pos m)
        × (k.dyn_shared_width ≢ 0)
        × (m * k.dyn_shared_width ≤ 2 ^ 31 - 1)
        × ((k.max_shared ≡ 0) ⊎ (k.shared_bytes + m * k.dyn_shared_width ≤ k.max_shared))
        × (length args ≡ length k.params)
        × Passed k block (args ++ (i32 (pos m) ∷ [])) (l ++ (arg_i32 (pos m) ∷ []))
        × (build_args args ≡ flat l)
        × (d.launch_sync grid block (m * k.dyn_shared_width) (l ++ (arg_i32 (pos m) ∷ [])) st
            ≡ (st', none))
  unfolding dispatch
  launch_shared_dim-none k grid block n args st st' h =
      let (m, en, w, h1) = shared_dim-none k grid block n args st st' h in
      let (c, h2) = launch_tile-none k grid block m args st st' h1 in
      let (fits, limit) = check_tile-none k m c in
      let all = args ++ (i32 (pos m) ∷ []) in
      let (l', p, r) = launch-none d k none grid block (m * k.dyn_shared_width) all st st' h2 in
      let (l, b, el) = build_args-snoc args l' (pos m) p.3 in
      let n1 : length all ≡ length k.params + extra_args k = p.1 in
      let n2 = length-append args (i32 (pos m) ∷ []) in
      let x : extra_args k ≡ 1 = rw w refl in
      (
        m,
        l,
        en,
        nonzero k.dyn_shared_width w,
        size_fits m k.dyn_shared_width fits,
        limit,
        omega (arith, n1, n2, x),
        subst (λ t. Passed k block all t) el p,
        b,
        subst (λ t. d.launch_sync grid block (m * k.dyn_shared_width) t st ≡ (st', none)) el r,
      )
