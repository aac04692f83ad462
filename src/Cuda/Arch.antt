-- ===== src/Cuda/Arch.antt =====
-- cuda/cuda.go: ParseArch and isDigits, and Context.Arch of cuda/driver_cuda.go, which prints what
-- ParseArch reads. A string is the list of its bytes; a refusal carries what its message quotes.
use simtgo.Base.{
  ℕ, zero, suc, ◌+◌, ◌-◌, ◌*◌, ◌/◌, ◌%◌, ◌^◌, Bool, true, false, not, ◌&&◌, ◌||◌, List, [], ◌∷◌,
  ◌++◌, Option, some, none, ltb, leb, ◌==◌, if◌then◌else◌, length,
}
pub mod Numbers
pub mod RoundTrip
pub mod Accepted

abbrev pub Str : Type 0
Str = List ℕ

-- The largest value of a Go int.
unfoldable pub max_int : ℕ
max_int = 2 ^ 63 - 1

-- "compute_"
unfoldable pub prefix : Str
prefix = 99 ∷ 111 ∷ 109 ∷ 112 ∷ 117 ∷ 116 ∷ 101 ∷ 95 ∷ []

-- strings.CutPrefix
unfoldable pub cut_prefix : Str → Str → Option Str
cut_prefix [] s = some s
cut_prefix (p ∷ ps) [] = none
cut_prefix (p ∷ ps) (c ∷ s) = let rest = cut_prefix ps s in if p == c then rest else none

-- '0' is 48 and '9' is 57.
unfoldable pub is_digit : ℕ → Bool
is_digit c = not (ltb c 48 || ltb 57 c)

unfoldable pub all_digits : Str → Bool
unfolding is_digit
all_digits [] = true
all_digits (c ∷ s) = is_digit c && all_digits s

unfoldable pub is_digits : Str → Bool
unfolding all_digits
is_digits [] = false
is_digits (c ∷ s) = all_digits (c ∷ s)

-- digits[:n-1] and digits[n-1].
abbrev pub front : Str → Str
front [] = []
front (c ∷ []) = []
front (c ∷ d ∷ s) = c ∷ front (d ∷ s)

abbrev pub last : Str → ℕ
last [] = 0
last (c ∷ []) = c
last (c ∷ d ∷ s) = last (d ∷ s)

-- The number that digits spell, after the digits that spell v.
unfoldable pub value_from : ℕ → Str → ℕ
value_from v [] = v
value_from v (c ∷ s) = value_from (v * 10 + (c - 48)) s

-- strconv.Atoi on digits: none where the number is out of an int's range.
unfoldable pub atoi : Str → Option ℕ
unfolding value_from max_int
atoi s = if ltb max_int (value_from 0 s) then none else some (value_from 0 s)

pub data ArchError : Type 0 where
  no_prefix : ArchError
  conditional : Str → ArchError
  not_digits : Str → ArchError
  no_minor out_of_range : ArchError

pub data Arch : Type 0 where
  capability : ℕ → ℕ → Arch
  refused : ArchError → Arch

-- 'a' is 97 and 'f' is 102.
abbrev pub is_conditional : Str → Bool
is_conditional digits =
    ltb 1 (length digits)
    && ((last digits == 97) || (last digits == 102))
    && is_digits (front digits)

abbrev pub with_major : Option ℕ → ℕ → Arch
with_major none minor = refused out_of_range
with_major (some major) minor = capability major minor

unfoldable pub parse_digits : Str → Arch
unfolding is_digits atoi
parse_digits digits =
    if is_conditional digits
    then refused (conditional (front digits))
    else if not (is_digits digits)
    then refused (not_digits digits)
    else if ltb (length digits) 2
    then refused no_minor
    else with_major (atoi (front digits)) (last digits - 48)

abbrev pub parse_rest : Option Str → Arch
parse_rest none = refused no_prefix
parse_rest (some digits) = parse_digits digits

unfoldable pub parse_arch : Str → Arch
unfolding cut_prefix prefix parse_digits
parse_arch s = parse_rest (cut_prefix prefix s)

-- The verb %d for a number that is not negative; a number has fewer digits than its own value plus
-- one, which is the fuel.
unfoldable pub decimal_from : ℕ → ℕ → Str
decimal_from zero n = []
decimal_from (suc f) n =
    let rest = decimal_from f (n / 10) in
    if ltb n 10 then (48 + n) ∷ [] else rest ++ ((48 + n % 10) ∷ [])

unfoldable pub decimal : ℕ → Str
unfolding decimal_from
decimal n = decimal_from (suc n) n

unfoldable pub arch : ℕ → ℕ → Str
unfolding prefix decimal
arch major minor = prefix ++ (decimal major ++ decimal minor)
