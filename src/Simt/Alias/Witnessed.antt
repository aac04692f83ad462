-- ===== src/Simt/Alias/Witnessed.antt =====
-- simt/kernel.go: what an AliasError names.
use simtgo.Base.{
  ℕ, suc, ◌+◌, ◌%◌, ◌^◌, ◌≤◌, ◌<◌, ◌≡◌, ◌≢◌, refl, sym, ◌∙◌, ap, true, false, List, [], ◌∷◌, Option,
  some, none, ltb, length, arith, Bool-cases, inl, inr, ◌⊎◌, All, subst,
}
use simtgo.Cuda.Args.{Value}
use simtgo.Simt.Kernel.{Param, Kernel, LaunchError, alias}
use simtgo.Simt.Alias.{
  Span, range_of, spans, disjoint, check_pair, or_else, check_against, check_spans, check_aliasing,
}
use simtgo.Simt.Alias.Sound.{
  Bound, Within, spans-tail, check_against-cons, check_spans-cons, check_aliasing-spans,
}

-- The buffer, if the argument is one, does not reach past the end of the address space.
abbrev pub RangeFits : Option (ℕ × ℕ) → Type 0
RangeFits none = Unit
RangeFits (some (b, m)) = b + m < 2 ^ 64

abbrev pub Fits : Value → Type 0
Fits v = RangeFits (range_of v)

-- Parameter i is a slice bound to a buffer that is not empty.
abbrev Held : List Param → List Value → ℕ → Span → Type 0
Held ps vs i a = Bound ps vs i a.param a.base a.bytes × (0 < a.bytes) × (a.base + a.bytes < 2 ^ 64)

-- Two spans that share an address, and what names them in the order written, other.
abbrev Shares : Kernel → Span → Span → LaunchError → Type 0
Shares k a b e =
    (x : ℕ) × Within x a.base a.bytes
    × Within x b.base b.bytes
    × (((a.param.read_only ≡ false) × (e ≡ alias k.name a.param.name b.param.name))
        ⊎ ((b.param.read_only ≡ false) × (e ≡ alias k.name b.param.name a.param.name)))

pub common_address :
    (b m c n : ℕ) → b < c + n → c < b + m → 0 < m → 0 < n → (x : ℕ) × Within x b m × Within x c n
common_address b m c n p q hm hn = elim (Bool-cases (ltb b c)) [
  | inl e ↦ (c, (ground arith, q), (omega arith, omega arith))
  | inr e ↦ (b, (omega arith, omega arith), (ground arith, p))
]

check_pair-some :
    (k : Kernel) (a b : Span) (e : LaunchError)
    → check_pair k a b ≡ some e
    → 0 < a.bytes
    → 0 < b.bytes
    → a.base + a.bytes < 2 ^ 64
    → b.base + b.bytes < 2 ^ 64
    → Shares k a b e
unfolding check_pair disjoint
check_pair-some k a b e h pa pb fa fb =
    let ea : (a.base + a.bytes) % 2 ^ 64 ≡ a.base + a.bytes = omega arith in
    let eb : (b.base + b.bytes) % 2 ^ 64 ≡ b.base + b.bytes = omega arith in
    let la : a.base < b.base + b.bytes = ground arith in
    let lb : b.base < a.base + a.bytes = ground arith in
    let (x, wa, wb) = common_address a.base a.bytes b.base b.bytes la lb pa pb in
    (x, wa, wb, ground arith)

or_else-some :
    (f g : Option LaunchError) (e : LaunchError)
    → or_else f g ≡ some e
    → (f ≡ some e) ⊎ (g ≡ some e)
or_else-some none g e h = inr h
or_else-some (some d) g e h = inl h

held :
    (p : Param) (ps : List Param) (w : Value) (vs : List Value) (b m : ℕ)
    → p.slice ≡ true
    → range_of w ≡ some (b, m)
    → 0 < m
    → Fits w
    → Held (p ∷ ps) (w ∷ vs) 0 (record { base = b; bytes = m; param = p })
held p ps w vs b m s r lt f =
    let f' : RangeFits (some (b, m)) = subst RangeFits r f in ((refl, s, w, refl, r), lt, f')

check_against-some :
    (k : Kernel) (a : Span) (ps : List Param) (vs : List Value) (e : LaunchError)
    → check_against k a (spans ps vs) ≡ some e
    → All Fits vs
    → (j : ℕ) × (c : Span) × Held ps vs j c × (check_pair k a c ≡ some e)
unfolding check_against spans
check_against-some k a [] vs e h f = cc
check_against-some k a (p ∷ ps) [] e h f = cc
check_against-some k a (p ∷ ps) (w ∷ vs) e h f = elim (spans-tail p ps w vs) [
  | inl z ↦
      let (j, c, g, r) = check_against-some k a ps vs e (ap (check_against k a) (sym z) ∙ h) f.1 in
      (suc j, c, g, r)
  | inr (b, m, s, r, lt, z) ↦
      let c0 : Span = record { base = b; bytes = m; param = p } in
      let h' = sym (check_against-cons k a c0 (spans ps vs)) ∙ ap (check_against k a) (sym z) ∙ h in
      elim (or_else-some _ _ e h') [
        | inl pair ↦
            (0, record { base = b; bytes = m; param = p }, held p ps w vs b m s r lt f.0, pair)
        | inr more ↦ let (j, c, g, r) = check_against-some k a ps vs e more f.1 in (suc j, c, g, r)
      ]
]

check_spans-some :
    (k : Kernel) (ps : List Param) (vs : List Value) (e : LaunchError)
    → check_spans k (spans ps vs) ≡ some e
    → All Fits vs
    → (i : ℕ) × (j : ℕ) × (i < j)
      × (a : Span) × (c : Span) × Held ps vs i a
      × Held ps vs j c
      × (check_pair k a c ≡ some e)
unfolding check_spans spans
check_spans-some k [] vs e h f = cc
check_spans-some k (p ∷ ps) [] e h f = cc
check_spans-some k (p ∷ ps) (w ∷ vs) e h f = elim (spans-tail p ps w vs) [
  | inl z ↦
      let (i, j, lt, a, c, g, g', r) =
        check_spans-some k ps vs e (ap (check_spans k) (sym z) ∙ h) f.1 in
      (suc i, suc j, omega arith, a, c, g, g', r)
  | inr (b, m, s, r, lt, z) ↦
      let c0 : Span = record { base = b; bytes = m; param = p } in
      let h' = sym (check_spans-cons k c0 (spans ps vs)) ∙ ap (check_spans k) (sym z) ∙ h in
      elim (or_else-some _ _ e h') [
        | inl first ↦
            let (j, c, g, r') = check_against-some k c0 ps vs e first f.1 in
            (
              0,
              suc j,
              omega arith,
              record { base = b; bytes = m; param = p },
              c,
              held p ps w vs b m s r lt f.0,
              g,
              r',
            )
        | inr more ↦
            let (i, j, lt', a, c, g, g', r') = check_spans-some k ps vs e more f.1 in
            (suc i, suc j, omega arith, a, c, g, g', r')
      ]
]

-- If checkAliasing refuses a launch none of whose buffers reaches past the end of the address space,
-- there are two different slice parameters whose buffers have an address in common, and the error
-- names them: as Write one that the kernel writes, and as Other the second.
pub check_aliasing-some :
    (k : Kernel) (vs : List Value) (e : LaunchError)
    → check_aliasing k vs ≡ some e
    → length k.params ≤ length vs
    → All Fits vs
    → (i : ℕ) × (j : ℕ) × (a : Span) × (c : Span) × (x : ℕ) × (i ≢ j)
      × Bound k.params vs i a.param a.base a.bytes
      × Bound k.params vs j c.param c.base c.bytes
      × Within x a.base a.bytes
      × Within x c.base c.bytes
      × (a.param.read_only ≡ false)
      × (e ≡ alias k.name a.param.name c.param.name)
check_aliasing-some k vs e h long f =
    let h' = sym (check_aliasing-spans k vs long) ∙ h in
    let (i, j, lt, a, c, (ba, pa, fa), (bc, pc, fc), r) = check_spans-some k k.params vs e h' f in
    let (x, wa, wc, names) = check_pair-some k a c e r pa pc fa fc in
    elim names [
      | inl (w, n) ↦ (
        i,
        j,
        a,
        c,
        x,
        (λ q. let bad : i < i = omega (arith, q, lt) in omega (arith, bad)),
        ba,
        bc,
        wa,
        wc,
        w,
        n,
      )
      | inr (w, n) ↦ (j, i, c, a, x, (λ q. omega (arith, q, lt)), bc, ba, wc, wa, w, n)
    ]
