-- ===== src/Cuda/Arch/RoundTrip.antt =====
-- cuda/driver_cuda.go, cuda/cuda.go: ParseArch reads back what Context.Arch prints.
use simtgo.Base.{
  ℕ, ◌+◌, ◌≤◌, ◌<◌, ◌≡◌, refl, true, false, [], ◌∷◌, ◌++◌, some, ltb, ==_refl, ◌==◌, arith, length,
  length-append,
}
use simtgo.Cuda.Arch.{
  Str, capability, max_int, prefix, cut_prefix, all_digits, is_digits, value_from, atoi,
  parse_digits, parse_arch, arch, decimal,
}
use simtgo.Cuda.Arch.Numbers.{
  front-snoc, last-snoc, all_digits-snoc, is_digit-digit, decimal-digits, decimal-digit,
}

cut_prefix-append : (p s : Str) → cut_prefix p (p ++ s) ≡ some s
unfolding cut_prefix
cut_prefix-append [] s = refl
cut_prefix-append (c ∷ p) s = rw (==_refl c) (cut_prefix-append p s)

pub is_digits-long : (s : Str) → all_digits s ≡ true → 0 < length s → is_digits s ≡ true
unfolding is_digits
is_digits-long [] h lt = elim lt [ ]
is_digits-long (c ∷ s) h lt = h

-- Digits with a last one below ten are read as the capability that they spell.
parse_digits-snoc :
    (s : Str) (minor : ℕ)
    → all_digits s ≡ true
    → 0 < length s
    → value_from 0 s ≤ max_int
    → minor < 10
    → parse_digits (s ++ ((48 + minor) ∷ [])) ≡ capability (value_from 0 s) minor
unfolding parse_digits atoi
parse_digits-snoc s minor h lt le small =
    let c = 48 + minor in
    let digits = s ++ (c ∷ []) in
    let long = length-append s (c ∷ []) in
    let all = all_digits-snoc s c h (is_digit-digit minor small) in
    let d = is_digits-long digits all (omega (arith, long)) in
    let not_a : (c == 97) ≡ false = ground arith in
    let not_f : (c == 102) ≡ false = ground arith in
    let two : ltb (length digits) 2 ≡ false = ground (arith, long) in
    let fits : ltb max_int (value_from 0 s) ≡ false = ground arith in
    rw (last-snoc s c, front-snoc s c, not_a, not_f, d, two, fits) (ground arith)

parse_arch-prefix : (s : Str) → parse_arch (prefix ++ s) ≡ parse_digits s
unfolding parse_arch
parse_arch-prefix s = refl

arch-digits : (major minor : ℕ) → arch major minor ≡ prefix ++ (decimal major ++ decimal minor)
unfolding arch
arch-digits major minor = refl

-- For a capability whose major number an int holds and whose minor one is a digit, ParseArch reads
-- from what Arch prints that capability.
pub parse_arch-arch :
    (major minor : ℕ)
    → major ≤ max_int
    → minor < 10
    → parse_arch (arch major minor) ≡ capability major minor
parse_arch-arch major minor le small =
    let d = decimal-digits major in
    let fits : value_from 0 (decimal major) ≤ max_int = rw d.1 le in
    rw
      (
        arch-digits major minor,
        decimal-digit minor small,
        parse_arch-prefix (decimal major ++ ((48 + minor) ∷ [])),
        parse_digits-snoc (decimal major) minor d.0 d.2 fits small,
        d.1,
      )
      refl
