-- ===== src/Simt/Prebuilt.antt =====
-- simt/prebuilt.go: the registry of PTX that was compiled ahead of time, RegisterPrebuilt and
-- pickPrebuilt.
use simtgo.Base.{
  ℕ, ◌+◌, Bool, true, false, not, ◌&&◌, ◌||◌, List, [], ◌∷◌, ◌++◌, Option, some, none, ltb, ◌==◌,
  if◌then◌else◌, eq_list,
}
use simtgo.Cuda.Arch.{Str, Arch, capability, refused, parse_arch}
pub mod Registered
pub mod Newest

pub record Prebuilt : Type 0 where
  pub name : Str
  pub source_sha256 : Str
  pub arch : Str
  pub ptx : List ℕ
  pub required_block : ℕ
  pub shared_bytes : ℕ
  pub dyn_shared_width : ℕ
  pub log : Str

-- The map from source hashes; a hash without an entry has the empty list.
abbrev pub Registry : Type 0
Registry = Str → List Prebuilt

-- What the loop of RegisterPrebuilt ends with.
pub data Filed : Type 0 where
  fresh same conflict : Filed

unfoldable pub look_up : Prebuilt → List Prebuilt → Filed
look_up p [] = fresh
look_up p (old ∷ l) =
    let rest = look_up p l in
    if not (eq_list old.arch p.arch) then rest else if eq_list old.ptx p.ptx then same else conflict

-- RegisterPrebuilt; none is the panic.
unfoldable pub register_prebuilt : Prebuilt → Registry → Option Registry
unfolding look_up
register_prebuilt p r = elim (look_up p (r p.source_sha256)) [
  | fresh ↦ some (λ h. if eq_list h p.source_sha256 then r h ++ (p ∷ []) else r h)
  | same ↦ some r
  | conflict ↦ none
]

-- The best registration so far with its capability; none while `found` is false.
abbrev pub Best : Type 0
Best = Option (Prebuilt × ℕ × ℕ)

abbrev pub newer : ℕ → ℕ → ℕ → ℕ → Bool
newer a b c d = ltb c a || ((a == c) && ltb d b)

-- One round of pickPrebuilt's loop, for a registration of this architecture.
abbrev pub keep_best : ℕ → ℕ → Prebuilt → ℕ → ℕ → Best → Best
keep_best major minor p a b none = if newer a b major minor then none else some (p, a, b)
keep_best major minor p a b (some (q, c, d)) =
    if newer a b major minor
    then some (q, c, d)
    else if newer a b c d
    then some (p, a, b)
    else some (q, c, d)

abbrev pub consider : ℕ → ℕ → Prebuilt → Arch → Best → Best
consider major minor p (refused e) best = best
consider major minor p (capability a b) best = keep_best major minor p a b best

unfoldable pub pick_from : ℕ → ℕ → List Prebuilt → Best → Best
pick_from major minor [] best = best
pick_from major minor (p ∷ l) best =
    pick_from major minor l (consider major minor p (parse_arch p.arch) best)

abbrev pub drop_capability : Best → Option Prebuilt
drop_capability none = none
drop_capability (some (p, a, b)) = some p

unfoldable pub pick_prebuilt : Registry → Str → ℕ → ℕ → Option Prebuilt
unfolding pick_from
pick_prebuilt r hash major minor = drop_capability (pick_from major minor (r hash) none)
