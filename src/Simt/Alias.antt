-- ===== src/Simt/Alias.antt =====
-- simt/kernel.go: checkAliasing. A span carries its parameter, where the source's carries its index.
use simtgo.Base.{
  ℕ, zero, suc, ◌+◌, ◌%◌, ◌^◌, Bool, true, false, not, ◌||◌, List, [], ◌∷◌, Option, some, none, ltb,
  leb, ◌==◌, if◌then◌else◌, length,
}
use simtgo.Cuda.Args.{Value, slice, device_range}
use simtgo.Simt.Kernel.{Param, Kernel, LaunchError, alias}
pub mod Sound
pub mod Witnessed

pub record Span : Type 0 where
  pub base : ℕ
  pub bytes : ℕ
  pub param : Param

-- The assertion `args[i].(cuda.Ranger)` and its DeviceRange.
unfoldable pub range_of : Value → Option (ℕ × ℕ)
unfolding device_range
range_of (slice s) = some (device_range s)
range_of _ = none

-- What one slice parameter adds before the spans of those after it.
abbrev pub add_span : Param → Option (ℕ × ℕ) → List Span → List Span
add_span p none rest = rest
add_span p (some (base, bytes)) rest =
    if bytes == 0 then rest else record { base = base; bytes = bytes; param = p } ∷ rest

unfoldable pub spans : List Param → List Value → List Span
unfolding range_of
spans [] args = []
spans (p ∷ ps) [] = []
spans (p ∷ ps) (v ∷ vs) =
    let rest = spans ps vs in if p.slice then add_span p (range_of v) rest else rest

-- `a.base >= b.base+DevPtr(b.bytes) || b.base >= a.base+DevPtr(a.bytes)`, on 64-bit addresses.
unfoldable pub disjoint : Span → Span → Bool
disjoint a b = leb ((b.base + b.bytes) % 2 ^ 64) a.base || leb ((a.base + a.bytes) % 2 ^ 64) b.base

-- The body of the inner loop: what the pair is refused with.
unfoldable pub check_pair : Kernel → Span → Span → Option LaunchError
unfolding disjoint
check_pair k a b =
    if disjoint a b
    then none
    else if not a.param.read_only
    then some (alias k.name a.param.name b.param.name)
    else if not b.param.read_only
    then some (alias k.name b.param.name a.param.name)
    else none

abbrev pub or_else : Option LaunchError → Option LaunchError → Option LaunchError
or_else none f = f
or_else (some e) f = some e

unfoldable pub check_against : Kernel → Span → List Span → Option LaunchError
unfolding check_pair
check_against k a [] = none
check_against k a (b ∷ bs) = or_else (check_pair k a b) (check_against k a bs)

unfoldable pub check_spans : Kernel → List Span → Option LaunchError
unfolding check_against
check_spans k [] = none
check_spans k (a ∷ l) = or_else (check_against k a l) (check_spans k l)

unfoldable pub check_aliasing : Kernel → List Value → Option LaunchError
unfolding spans check_spans
check_aliasing k args =
    if ltb (length args) (length k.params) then none else check_spans k (spans k.params args)
