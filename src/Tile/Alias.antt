-- ===== src/Tile/Alias.antt =====
-- tile/alias.go: checkAliasing of the output buffer, the first argument, against the inputs.
use simtgo.Base.{
  ℕ, zero, suc, ◌+◌, ◌%◌, ◌^◌, ◌≤◌, ◌<◌, ◌≡◌, ◌↔◌, refl, sym, ◌∙◌, ap, Bool, true, false, not, ◌&&◌,
  ◌||◌, List, [], ◌∷◌, Option, some, none, leb, ◌==◌, if◌then◌else◌, get_elem?, All, arith,
  Bool-cases, Option-cases, inl, inr, subst,
}
use simtgo.Cuda.Args.{Value}
use simtgo.Simt.Alias.{range_of}
use simtgo.Simt.Alias.Sound.{Within}
use simtgo.Simt.Alias.Witnessed.{Fits, RangeFits, common_address}

-- One input against the output's range.
abbrev pub overlaps : ℕ → ℕ → Option (ℕ × ℕ) → Bool
overlaps base bytes none = false
overlaps base bytes (some (b, m)) =
    not (m == 0) && not (leb ((b + m) % 2 ^ 64) base || leb ((base + bytes) % 2 ^ 64) b)

-- From input i on: the number of the first that overlaps, which AliasError names.
unfoldable pub check_inputs : ℕ → ℕ → ℕ → List Value → Option ℕ
unfolding range_of
check_inputs base bytes i [] = none
check_inputs base bytes i (v ∷ vs) =
    let rest = check_inputs base bytes (i + 1) vs in
    if overlaps base bytes (range_of v) then some i else rest

abbrev pub against : Option (ℕ × ℕ) → List Value → Option ℕ
against none vs = none
against (some (base, bytes)) vs = if bytes == 0 then none else check_inputs base bytes 0 vs

unfoldable pub check_aliasing : List Value → Option ℕ
unfolding check_inputs range_of
check_aliasing [] = none
check_aliasing (out ∷ ins) = against (range_of out) ins

-- The two stretches of memory have an address in common.
abbrev pub Meet : ℕ → ℕ → ℕ → ℕ → Type 0
Meet b m c n = (x : ℕ) × Within x b m × Within x c n

overlaps_iff :
    (b m c n : ℕ)
    → b + m < 2 ^ 64
    → c + n < 2 ^ 64
    → 0 < m
    → (overlaps b m (some (c, n)) ≡ true) ↔ Meet b m c n
overlaps_iff b m c n fb fc pos =
    let eb : (b + m) % 2 ^ 64 ≡ b + m = omega arith in
    let ec : (c + n) % 2 ^ 64 ≡ c + n = omega arith in
    (
      λ h.
          let nz : 0 < n = ground arith in
          let l1 : b < c + n = ground arith in
          let l2 : c < b + m = ground arith in common_address b m c n l1 l2 pos nz,
      λ (x, p, q).
          let nz : (n == 0) ≡ false = ground arith in
          let l1 : leb (c + n) b ≡ false = ground arith in
          let l2 : leb (b + m) c ≡ false = ground arith in rw (eb, ec, nz, l1, l2) refl,
    )

-- Input j shares an address with the output.
abbrev pub MeetsAt : ℕ → ℕ → List Value → ℕ → Type 0
MeetsAt b m vs j =
    (v : Value) × (c : ℕ) × (n : ℕ) × (get_elem? vs j ≡ some v)
    × (range_of v ≡ some (c, n))
    × Meet b m c n

meets_head :
    (b m : ℕ) (v : Value)
    → b + m < 2 ^ 64
    → 0 < m
    → Fits v
    → (overlaps b m (range_of v) ≡ true)
      ↔ ((c : ℕ) × (n : ℕ) × (range_of v ≡ some (c, n)) × Meet b m c n)
meets_head b m v fb pos fv = elim (Option-cases (range_of v)) [
  | inl e ↦ (
    (λ h. let bad : false ≡ true = sym (ap (overlaps b m) e) ∙ h in cc),
    (λ (c, n, r, q). let bad = sym e ∙ r in cc),
  )
  | inr ((c, n), e) ↦
      let fc : RangeFits (some (c, n)) = subst RangeFits e fv in
      let one = overlaps_iff b m c n fb fc pos in
      (
        (λ h. (c, n, e, one.0 (sym (ap (overlaps b m) e) ∙ h))),
        (λ (c', n', r, q).
            let e2 : some (c', n') ≡ some (c, n) = sym r ∙ e in
            let two = overlaps_iff b m c' n' fb (subst RangeFits r fv) pos in
            ap (overlaps b m) r ∙ two.1 q),
      )
]

check_inputs-some :
    (b m i : ℕ) (vs : List Value) (k : ℕ)
    → b + m < 2 ^ 64
    → 0 < m
    → All Fits vs
    → check_inputs b m i vs ≡ some k
    → (j : ℕ) × (k ≡ i + j) × MeetsAt b m vs j
unfolding check_inputs
check_inputs-some b m i [] k fb pos fs h = cc
check_inputs-some b m i (v ∷ vs) k fb pos fs h = elim (Bool-cases (overlaps b m (range_of v))) [
  | inl e ↦
      let h' : some i ≡ some k = sym (rw e refl) ∙ h in
      let k' : i ≡ k = cc in
      let (c, n, r, q) = (meets_head b m v fb pos fs.0).0 e in
      (0, omega (arith, k'), (v, c, n, refl, r, q))
  | inr e ↦
      let h' : check_inputs b m (i + 1) vs ≡ some k = sym (rw e refl) ∙ h in
      let (j, ek, mt) = check_inputs-some b m (i + 1) vs k fb pos fs.1 h' in
      (suc j, omega (arith, ek), mt)
]

meets-check_inputs :
    (b m i : ℕ) (vs : List Value) (j : ℕ)
    → b + m < 2 ^ 64
    → 0 < m
    → All Fits vs
    → MeetsAt b m vs j
    → (k : ℕ) × (check_inputs b m i vs ≡ some k) × (k ≤ i + j)
unfolding check_inputs
meets-check_inputs b m i [] j fb pos fs (v, c, n, g, r, q) = cc
meets-check_inputs b m i (w ∷ vs) zero fb pos fs (v, c, n, g, r, q) =
    let wv : w ≡ v = cc in
    let e = (meets_head b m w fb pos fs.0).1 (c, n, ap range_of wv ∙ r, q) in
    (i, rw e refl, omega arith)
meets-check_inputs b m i (w ∷ vs) (suc j) fb pos fs mt =
    elim (Bool-cases (overlaps b m (range_of w))) [
      | inl e ↦ (i, rw e refl, omega arith)
      | inr e ↦
          let (k, h, le) = meets-check_inputs b m (i + 1) vs j fb pos fs.1 mt in
          (k, rw e h, omega (arith, le))
    ]

check_aliasing-inputs :
    (out : Value) (vs : List Value) (b m : ℕ)
    → range_of out ≡ some (b, m)
    → 0 < m
    → check_aliasing (out ∷ vs) ≡ check_inputs b m 0 vs
unfolding check_aliasing
check_aliasing-inputs out vs b m r pos = let z : (m == 0) ≡ false = ground arith in rw r (rw z refl)

-- For an output buffer that is not empty, and buffers that lie within the 64-bit address space: when an
-- input shares an address with the output, checkAliasing refuses the launch, and the input that it
-- names is no later than that one and shares an address with the output too.
pub check_aliasing-meets :
    (out : Value) (vs : List Value) (b m j : ℕ)
    → range_of out ≡ some (b, m)
    → 0 < m
    → b + m < 2 ^ 64
    → All Fits vs
    → MeetsAt b m vs j
    → (k : ℕ) × (check_aliasing (out ∷ vs) ≡ some k) × (k ≤ j) × MeetsAt b m vs k
check_aliasing-meets out vs b m j r pos fb fs mt =
    let (k, h, le) = meets-check_inputs b m 0 vs j fb pos fs mt in
    let (i, e, at) = check_inputs-some b m 0 vs k fb pos fs h in
    let ik : i ≡ k = omega (arith, e) in
    (k, check_aliasing-inputs out vs b m r pos ∙ h, omega (arith, le), subst (MeetsAt b m vs) ik at)
