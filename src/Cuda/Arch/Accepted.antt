-- ===== src/Cuda/Arch/Accepted.antt =====
-- cuda/cuda.go: what ParseArch accepts.
use simtgo.Base.{
  ℕ, ◌+◌, ◌-◌, ◌≤◌, ◌<◌, ◌≡◌, refl, ap, sym, ◌∙◌, true, [], ◌∷◌, ◌++◌, some, arith, length,
  length-append, Option-cases, inl, inr, &&-true,
}
use simtgo.Cuda.Arch.{
  Str, capability, refused, no_prefix, max_int, prefix, cut_prefix, is_digit, all_digits, is_digits,
  value_from, atoi, parse_digits, parse_rest, parse_arch, front, last,
}
use simtgo.Cuda.Arch.RoundTrip.{is_digits-long}

cut_prefix-some : (p s t : Str) → cut_prefix p s ≡ some t → s ≡ p ++ t
unfolding cut_prefix
cut_prefix-some [] s t h = cc
cut_prefix-some (c ∷ p) [] t h = cc
cut_prefix-some (c ∷ p) (d ∷ s) t h =
    let rec : cut_prefix p s ≡ some t → s ≡ p ++ t = cut_prefix-some p s t in ground arith

atoi-some : (s : Str) (v : ℕ) → atoi s ≡ some v → (value_from 0 s ≡ v) × (v ≤ max_int)
unfolding atoi
atoi-some s v h = ground arith

parse_digits-capability :
    (s : Str) (major minor : ℕ)
    → parse_digits s ≡ capability major minor
    → (is_digits s ≡ true) × (2 ≤ length s) × (atoi (front s) ≡ some major) × (last s - 48 ≡ minor)
unfolding parse_digits
parse_digits-capability s major minor h = ground arith

front-last : (s : Str) → 0 < length s → s ≡ front s ++ (last s ∷ [])
front-last [] h = elim h [ ]
front-last (c ∷ []) h = refl
front-last (c ∷ d ∷ s) h = ap (λ t. c ∷ t) (front-last (d ∷ s) (omega arith))

-- All but the last of digits are digits, and so is the last.
digits-split :
    (s : Str)
    → 0 < length s
    → all_digits s ≡ true
    → (all_digits (front s) ≡ true) × (48 ≤ last s) × (last s ≤ 57)
unfolding all_digits is_digit
digits-split [] h d = elim h [ ]
digits-split (c ∷ []) h d = ground arith
digits-split (c ∷ e ∷ s) h d =
    let p = &&-true (is_digit c) (all_digits (e ∷ s)) d in
    let rec = digits-split (e ∷ s) (omega arith) p.1 in ground arith

is_digits-all : (s : Str) → is_digits s ≡ true → all_digits s ≡ true
unfolding is_digits
is_digits-all [] h = cc
is_digits-all (c ∷ s) h = h

parse_arch-rest : (s : Str) → parse_arch s ≡ parse_rest (cut_prefix prefix s)
unfolding parse_arch
parse_arch-rest s = refl

parse_arch-digits :
    (s : Str) (major minor : ℕ)
    → parse_arch s ≡ capability major minor
    → (t : Str) × (s ≡ prefix ++ t) × (parse_digits t ≡ capability major minor)
parse_arch-digits s major minor h =
    let rest = sym (parse_arch-rest s) ∙ h in
    elim (Option-cases (cut_prefix prefix s)) [
      | inl e ↦
          let bad : refused no_prefix ≡ capability major minor = sym (ap parse_rest e) ∙ rest in cc
      | inr (t, e) ↦ (t, cut_prefix-some prefix s t e, sym (ap parse_rest e) ∙ rest)
    ]

-- What ParseArch accepts is the prefix, then at least one digit, which spell the major number, which
-- an int holds, and one more digit, which is the minor number.
pub parse_arch-capability :
    (s : Str) (major minor : ℕ)
    → parse_arch s ≡ capability major minor
    → (t : Str) × (s ≡ prefix ++ (t ++ ((48 + minor) ∷ [])))
      × (is_digits t ≡ true)
      × (value_from 0 t ≡ major)
      × (major ≤ max_int)
      × (minor < 10)
parse_arch-capability s major minor h =
    let (t, e, p) = parse_arch-digits s major minor h in
    let (d, two, a, m) = parse_digits-capability t major minor p in
    let (d', ge, le) = digits-split t (omega (arith, two)) (is_digits-all t d) in
    let (v, fits) = atoi-some (front t) major a in
    let split = front-last t (omega (arith, two)) in
    let c : last t ≡ 48 + minor = omega (arith, m, ge) in
    let long = ap length split ∙ length-append (front t) (last t ∷ []) in
    (
      front t,
      e ∙ ap (λ u. prefix ++ u) (split ∙ ap (λ b. front t ++ (b ∷ [])) c),
      is_digits-long (front t) d' (omega (arith, two, long)),
      v,
      fits,
      omega (arith, c, le),
    )
