-- ===== src/Cuda/Args/Flat.antt =====
-- cuda/cuda.go: what BuildArgs builds, and what it refuses.
use simtgo.Base.{
  ℕ, zero, suc, ◌+◌, ◌<◌, ◌≡◌, refl, ap, List, [], ◌∷◌, ◌++◌, ℤ, arith, length, length-append,
  tally, some, none, sym, ◌∙◌, subst, Option-cases, inl, inr, ◌↔◌, ◌≢◌, get_elem?,
}
use simtgo.Cuda.Args.{
  Arg, Value, slice, argser, f32, f64, u32, u64, i32, int, i64, boolean, arg, arg_i32, kernel_args,
  other, flat, unsupported, expand, build_from, build_args,
}

-- BuildArgs has a case for every value but `other`.
expand-other : (v : Value) → (expand v ≡ none) ↔ (v ≡ other)
unfolding expand
expand-other (slice x) = ((λ h. cc), (λ h. cc))
expand-other (argser x) = ((λ h. cc), (λ h. cc))
expand-other (f32 x) = ((λ h. cc), (λ h. cc))
expand-other (f64 x) = ((λ h. cc), (λ h. cc))
expand-other (u32 x) = ((λ h. cc), (λ h. cc))
expand-other (u64 x) = ((λ h. cc), (λ h. cc))
expand-other (i32 x) = ((λ h. cc), (λ h. cc))
expand-other (int x) = ((λ h. cc), (λ h. cc))
expand-other (i64 x) = ((λ h. cc), (λ h. cc))
expand-other (boolean x) = ((λ h. cc), (λ h. cc))
expand-other (arg x) = ((λ h. cc), (λ h. cc))
expand-other other = ((λ h. refl), (λ h. refl))

-- Argument j is the first one of a type that no case names.
abbrev pub IsFirstOther : List Value → ℕ → Type 0
IsFirstOther vs j = (get_elem? vs j ≡ some other) × ((m : ℕ) → m < j → get_elem? vs m ≢ some other)

build_from-none :
    (i : ℕ) (out : List Arg) (v : Value) (vs : List Value)
    → expand v ≡ none
    → build_from i out (v ∷ vs) ≡ unsupported i
unfolding build_from
build_from-none i out v vs e = rw (build_from, e) refl

build_from-some :
    (i : ℕ) (out : List Arg) (v : Value) (vs : List Value) (l : List Arg)
    → expand v ≡ some l
    → build_from i out (v ∷ vs) ≡ build_from (i + 1) (out ++ l) vs
unfolding build_from
build_from-some i out v vs l e = rw (build_from, e) refl

build_from-nil : (i : ℕ) (out : List Arg) → build_from i out [] ≡ flat out
unfolding build_from
build_from-nil i out = refl

earlier :
    (v : Value) (vs : List Value) (j m : ℕ) (l : List Arg)
    → expand v ≡ some l
    → ((m : ℕ) → m < j → get_elem? vs m ≢ some other)
    → m < suc j
    → get_elem? (v ∷ vs) m ≢ some other
earlier v vs j zero l e q lt h = let o : v ≡ other = cc in let n = (expand-other v).1 o in cc
earlier v vs j (suc m) l e q lt h = q m (omega arith) h

build_from-unsupported :
    (vs : List Value) (i : ℕ) (out : List Arg) (k : ℕ)
    → build_from i out vs ≡ unsupported k
    → (j : ℕ) × (k ≡ i + j) × IsFirstOther vs j
build_from-unsupported [] i out k h = let e = build_from-nil i out in cc
build_from-unsupported (v ∷ vs) i out k h = elim (Option-cases (expand v)) [
  | inl e ↦
      let e' : unsupported i ≡ unsupported k = sym (build_from-none i out v vs e) ∙ h in
      let k' : k ≡ i = cc in
      (0, omega (arith, k'), (ap some ((expand-other v).0 e), λ m lt. elim lt [ ]))
  | inr (l, e) ↦
      let h' = sym (build_from-some i out v vs l e) ∙ h in
      let (j, ek, (p, q)) = build_from-unsupported vs (i + 1) (out ++ l) k h' in
      (suc j, omega (arith, ek), (p, λ m lt. earlier v vs j m l e q lt))
]

other-build_from :
    (vs : List Value) (i : ℕ) (out : List Arg) (j : ℕ)
    → IsFirstOther vs j
    → build_from i out vs ≡ unsupported (i + j)
other-build_from [] i out j h = let (a, b) = h in cc
other-build_from (v ∷ vs) i out zero (p, q) =
    let o : v ≡ other = cc in
    build_from-none i out v vs ((expand-other v).1 o) ∙ ap unsupported (omega arith)
other-build_from (v ∷ vs) i out (suc j) (p, q) = elim (Option-cases (expand v)) [
  | inl e ↦ absurd (q 0 (omega arith) (ap some ((expand-other v).0 e)))
  | inr (l, e) ↦
      let rec = other-build_from vs (i + 1) (out ++ l) j (p, λ m lt. q (suc m) (omega arith)) in
      build_from-some i out v vs l e ∙ rec ∙ ap unsupported (omega arith)
]

build_args-from : (vs : List Value) → build_args vs ≡ build_from 0 [] vs
unfolding build_args
build_args-from vs = refl

-- BuildArgs refuses argument k exactly when it is the first argument whose type it has no case for.
pub build_args-unsupported :
    (vs : List Value) (k : ℕ) → (build_args vs ≡ unsupported k) ↔ IsFirstOther vs k
build_args-unsupported vs k = (
  λ h.
      let (j, e, f) = build_from-unsupported vs 0 [] k (sym (build_args-from vs) ∙ h) in
      let e' : j ≡ k = omega (arith, e) in subst (λ m. IsFirstOther vs m) e' f,
  λ f. build_args-from vs ∙ other-build_from vs 0 [] k f ∙ ap unsupported (omega arith),
)

-- The number of C parameters that a value becomes.
abbrev pub width : Value → ℕ
width (slice s) = 2
width (argser l) = length l
width _ = 1

expand-width : (v : Value) (l : List Arg) → expand v ≡ some l → length l ≡ width v
unfolding expand kernel_args
expand-width (slice x) l h = cc
expand-width (argser x) l h = cc
expand-width (f32 x) l h = cc
expand-width (f64 x) l h = cc
expand-width (u32 x) l h = cc
expand-width (u64 x) l h = cc
expand-width (i32 x) l h = cc
expand-width (int x) l h = cc
expand-width (i64 x) l h = cc
expand-width (boolean x) l h = cc
expand-width (arg x) l h = cc
expand-width other l h = cc

build_from-length :
    (vs : List Value) (i : ℕ) (out l : List Arg)
    → build_from i out vs ≡ flat l
    → length l ≡ length out + tally width vs
unfolding tally
build_from-length [] i out l h =
    let e : flat out ≡ flat l = sym (build_from-nil i out) ∙ h in
    let e' : out ≡ l = cc in rw e' (omega arith)
build_from-length (v ∷ vs) i out l h = elim (Option-cases (expand v)) [
  | inl e ↦ let e' = sym (build_from-none i out v vs e) ∙ h in cc
  | inr (a, e) ↦
      let rec =
        build_from-length vs (i + 1) (out ++ a) l (sym (build_from-some i out v vs a e) ∙ h) in
      omega (arith, rec, length-append out a, expand-width v a e)
]

-- What BuildArgs builds has two parameters for each slice, as many as it expands to for another
-- Argser, and one for any other value.
pub build_args-length :
    (vs : List Value) (l : List Arg) → build_args vs ≡ flat l → length l ≡ tally width vs
build_args-length vs l h =
    let e = build_from-length vs 0 [] l (sym (build_args-from vs) ∙ h) in omega (arith, e)

expand-i32 : (v : ℤ) → expand (i32 v) ≡ some (arg_i32 v ∷ [])
unfolding expand
expand-i32 v = refl

build_from-snoc :
    (vs : List Value) (i : ℕ) (out l : List Arg) (v : ℤ)
    → build_from i out (vs ++ (i32 v ∷ [])) ≡ flat l
    → (k : List Arg) × (build_from i out vs ≡ flat k) × (l ≡ k ++ (arg_i32 v ∷ []))
build_from-snoc [] i out l v h =
    let e = build_from-some i out (i32 v) [] (arg_i32 v ∷ []) (expand-i32 v) in
    let h' = sym (build_from-nil (i + 1) (out ++ (arg_i32 v ∷ []))) ∙ sym e ∙ h in
    (out, build_from-nil i out, cc)
build_from-snoc (w ∷ vs) i out l v h = elim (Option-cases (expand w)) [
  | inl e ↦ let h' = sym (build_from-none i out w (vs ++ (i32 v ∷ [])) e) ∙ h in cc
  | inr (a, e) ↦
      let h' = sym (build_from-some i out w (vs ++ (i32 v ∷ [])) a e) ∙ h in
      let (k, b, r) = build_from-snoc vs (i + 1) (out ++ a) l v h' in
      (k, build_from-some i out w vs a e ∙ b, r)
]

-- An int32 after the other arguments is one more parameter after theirs.
pub build_args-snoc :
    (vs : List Value) (l : List Arg) (v : ℤ)
    → build_args (vs ++ (i32 v ∷ [])) ≡ flat l
    → (k : List Arg) × (build_args vs ≡ flat k) × (l ≡ k ++ (arg_i32 v ∷ []))
build_args-snoc vs l v h =
    let (k, e, r) = build_from-snoc vs 0 [] l v (sym (build_args-from (vs ++ (i32 v ∷ []))) ∙ h) in
    (k, build_args-from vs ∙ e, r)
