-- ===== src/Simt/Alias/Sound.antt =====
-- simt/kernel.go: a launch that checkAliasing lets through keeps the promise of __restrict__.
use simtgo.Base.{
  ℕ, zero, suc, ◌+◌, ◌%◌, ◌^◌, ◌≤◌, ◌<◌, ◌≡◌, ◌≢◌, refl, sym, ◌∙◌, ap, true, false, List, [], ◌∷◌,
  Option, some, none, ltb, leb, ◌==◌, length, get_elem?, arith, Bool-cases, Option-cases, inl, inr,
  ◌⊎◌, ltb→lt,
}
use simtgo.Cuda.Args.{Value}
use simtgo.Simt.Kernel.{Param, Kernel, LaunchError}
use simtgo.Simt.Alias.{
  Span, range_of, spans, disjoint, check_pair, or_else, check_against, check_spans, check_aliasing,
}

-- Parameter i is a slice, and the launch gives it this stretch of device memory.
abbrev pub Bound : List Param → List Value → ℕ → Param → ℕ → ℕ → Type 0
Bound ps vs i p base bytes =
    (get_elem? ps i ≡ some p)
    × (p.slice ≡ true)
    × (v : Value) × (get_elem? vs i ≡ some v)
    × (range_of v ≡ some (base, bytes))

abbrev pub Within : ℕ → ℕ → ℕ → Type 0
Within x base bytes = (base ≤ x) × (x < base + bytes)

pub spans-head :
    (p : Param) (ps : List Param) (v : Value) (vs : List Value) (base bytes : ℕ)
    → p.slice ≡ true
    → range_of v ≡ some (base, bytes)
    → 0 < bytes
    → spans (p ∷ ps) (v ∷ vs) ≡ record { base = base; bytes = bytes; param = p } ∷ spans ps vs
unfolding spans
spans-head p ps v vs base bytes s r pos =
    let nz : (bytes == 0) ≡ false = ground arith in rw (s, r, nz) refl

or_else-none : (e f : Option LaunchError) → or_else e f ≡ none → (e ≡ none) × (f ≡ none)
or_else-none none f h = (refl, h)
or_else-none (some e) f h = cc

-- A pair that may share no address, unless both are only read.
pub check_pair-none :
    (k : Kernel) (a b : Span) (x : ℕ)
    → check_pair k a b ≡ none
    → a.base + a.bytes < 2 ^ 64
    → b.base + b.bytes < 2 ^ 64
    → Within x a.base a.bytes
    → Within x b.base b.bytes
    → (a.param.read_only ≡ true) × (b.param.read_only ≡ true)
unfolding check_pair disjoint
check_pair-none k a b x h la lb wa wb =
    let ea : (a.base + a.bytes) % 2 ^ 64 ≡ a.base + a.bytes = omega arith in
    let eb : (b.base + b.bytes) % 2 ^ 64 ≡ b.base + b.bytes = omega arith in
    let da : leb ((b.base + b.bytes) % 2 ^ 64) a.base ≡ false = ground arith in
    let db : leb ((a.base + a.bytes) % 2 ^ 64) b.base ≡ false = ground arith in ground arith

-- The first parameter adds no span, or its own.
pub spans-tail :
    (p : Param) (ps : List Param) (v : Value) (vs : List Value)
    → (spans (p ∷ ps) (v ∷ vs) ≡ spans ps vs)
      ⊎ ((b : ℕ) × (m : ℕ) × (p.slice ≡ true)
          × (range_of v ≡ some (b, m))
          × (0 < m)
          × (spans (p ∷ ps) (v ∷ vs) ≡ record { base = b; bytes = m; param = p } ∷ spans ps vs))
unfolding spans
spans-tail p ps v vs = elim (Bool-cases p.slice) [
  | inl s ↦ elim (Option-cases (range_of v)) [
    | inl e ↦ inl (rw (s, e) refl)
    | inr ((base, bytes), e) ↦ elim (Bool-cases (bytes == 0)) [
      | inl z ↦ inl (rw (s, e, z) refl)
      | inr z ↦ inr (base, bytes, s, e, ground arith, rw (s, e, z) refl)
    ]
  ]
  | inr s ↦ inl (rw s refl)
]

pub check_against-cons :
    (k : Kernel) (a b : Span) (bs : List Span)
    → check_against k a (b ∷ bs) ≡ or_else (check_pair k a b) (check_against k a bs)
unfolding check_against
check_against-cons k a b bs = refl

pub check_spans-cons :
    (k : Kernel) (a : Span) (l : List Span)
    → check_spans k (a ∷ l) ≡ or_else (check_against k a l) (check_spans k l)
unfolding check_spans
check_spans-cons k a l = refl

-- A span that stands against those of the parameters stands against each.
check_against-none :
    (k : Kernel) (a : Span) (ps : List Param) (vs : List Value) (j : ℕ) (q : Param) (base bytes : ℕ)
    → check_against k a (spans ps vs) ≡ none
    → Bound ps vs j q base bytes
    → 0 < bytes
    → check_pair k a (record { base = base; bytes = bytes; param = q }) ≡ none
check_against-none k a [] vs j q base bytes h (b, s, v, e, r) lt = cc
check_against-none k a (p ∷ ps) [] j q base bytes h (b, s, v, e, r) lt = cc
check_against-none k a (p ∷ ps) (w ∷ vs) zero q base bytes h (b, s, v, e, r) lt =
    let ep : p ≡ q = cc in
    let ew : w ≡ v = cc in
    let head = spans-head p ps w vs base bytes (ap (λ t. t.slice) ep ∙ s) (ap range_of ew ∙ r) lt in
    let h' = sym (check_against-cons k a _ _) ∙ ap (check_against k a) (sym head) ∙ h in
    rw (sym ep) (or_else-none _ _ h').0
check_against-none k a (p ∷ ps) (w ∷ vs) (suc j) q base bytes h b lt = elim (spans-tail p ps w vs) [
  | inl e ↦ check_against-none k a ps vs j q base bytes (ap (check_against k a) (sym e) ∙ h) b lt
  | inr (c, m, s, r, pos, e) ↦
      let h' = sym (check_against-cons k a _ _) ∙ ap (check_against k a) (sym e) ∙ h in
      check_against-none k a ps vs j q base bytes (or_else-none _ _ h').1 b lt
]

check_spans-none :
    (k : Kernel) (ps : List Param) (vs : List Value) (i j : ℕ) (p q : Param) (b m c n : ℕ)
    → check_spans k (spans ps vs) ≡ none
    → i < j
    → Bound ps vs i p b m
    → 0 < m
    → Bound ps vs j q c n
    → 0 < n
    → check_pair k
        (record { base = b; bytes = m; param = p })
        (record { base = c; bytes = n; param = q })
      ≡ none
check_spans-none k [] vs i j p q b m c n h lt (e, s, v, f, r) lm bj ln = cc
check_spans-none k (p' ∷ ps) [] i j p q b m c n h lt (e, s, v, f, r) lm bj ln = cc
check_spans-none k (p' ∷ ps) (w ∷ vs) i zero p q b m c n h lt bi lm bj ln = elim lt [ ]
check_spans-none k (p' ∷ ps) (w ∷ vs) zero (suc j) p q b m c n h lt (e, s, v, f, r) lm bj ln =
    let ep : p' ≡ p = cc in
    let ew : w ≡ v = cc in
    let head = spans-head p' ps w vs b m (ap (λ t. t.slice) ep ∙ s) (ap range_of ew ∙ r) lm in
    let h' = sym (check_spans-cons k _ _) ∙ ap (check_spans k) (sym head) ∙ h in
    rw (sym ep) (check_against-none k _ ps vs j q c n (or_else-none _ _ h').0 bj ln)
check_spans-none k (p' ∷ ps) (w ∷ vs) (suc i) (suc j) p q b m c n h lt bi lm bj ln =
    elim (spans-tail p' ps w vs) [
      | inl e ↦
          let h' = ap (check_spans k) (sym e) ∙ h in
          check_spans-none k ps vs i j p q b m c n h' (omega arith) bi lm bj ln
      | inr (a, o, s, r, pos, e) ↦
          let h' = sym (check_spans-cons k _ _) ∙ ap (check_spans k) (sym e) ∙ h in
          check_spans-none k ps vs i j p q b m c n (or_else-none _ _ h').1 (omega arith) bi lm bj ln
    ]

pub check_aliasing-spans :
    (k : Kernel) (vs : List Value)
    → length k.params ≤ length vs
    → check_aliasing k vs ≡ check_spans k (spans k.params vs)
unfolding check_aliasing
check_aliasing-spans k vs h =
    let e : ltb (length vs) (length k.params) ≡ false = ground arith in rw e refl

-- If checkAliasing passes the arguments of a launch that gives one to every parameter, then two
-- different slice parameters whose buffers have an address in common are both only read. No buffer
-- is to reach past the end of the 64-bit address space.
pub check_aliasing-none :
    (k : Kernel) (vs : List Value) (i j : ℕ) (p q : Param) (b m c n x : ℕ)
    → check_aliasing k vs ≡ none
    → length k.params ≤ length vs
    → i ≢ j
    → Bound k.params vs i p b m
    → Bound k.params vs j q c n
    → b + m < 2 ^ 64
    → c + n < 2 ^ 64
    → Within x b m
    → Within x c n
    → (p.read_only ≡ true) × (q.read_only ≡ true)
check_aliasing-none k vs i j p q b m c n x h long ne bi bj lm ln wm wn =
    let h' = sym (check_aliasing-spans k vs long) ∙ h in
    let m' : 0 < m = omega arith in
    let n' : 0 < n = omega arith in
    elim (Bool-cases (ltb i j)) [
      | inl e ↦
          let pair = check_spans-none k k.params vs i j p q b m c n h' (ltb→lt i j e) bi m' bj n' in
          check_pair-none k _ _ x pair lm ln wm wn
      | inr e ↦
          let lt : j < i = ground arith in
          let pair = check_spans-none k k.params vs j i q p c n b m h' lt bj n' bi m' in
          let r = check_pair-none k _ _ x pair ln lm wn wm in (r.1, r.0)
    ]
