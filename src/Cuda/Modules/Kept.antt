-- ===== src/Cuda/Modules/Kept.antt =====
-- cuda/driver_cuda.go: LoadPTXCached: what holds of the builder's state stays true, and every module that is
-- filed under a key, or given, was built under it.
use simtgo.Base.{
  ◌++◌, ℕ, ◌≡◌, refl, sym, subst, Bool, true, false, List, [], ◌∷◌, Option, some, none, Bool-cases,
  inl, inr, eq_list, eq_list_iff, All, if◌then◌else◌,
}
use simtgo.Cuda.Arch.{Str}
use simtgo.Cuda.Errors.{CudaError}
use simtgo.Cuda.Context.{Driver, Device, Context, module_load, call}
use simtgo.Cuda.Modules.{
  look, Cached, got, build_failed, refused, load_ptx_cached, loaded, load_ptx_locked, file_cached,
  after_build, find_or_build,
}

-- A list of entries by key, and what a look finds.
module _ {A : Type 0} where
  pub look-All :
      (P : Str × A → Type 0) (k : Str) (l : List (Str × A)) (a : A)
      → All P l
      → look k l ≡ some a
      → P (k, a)
  unfolding look
  look-All P k [] a h e = cc
  look-All P k ((j, b) ∷ l) a (p, h) e = elim (Bool-cases (eq_list k j)) [
    | inl t ↦
        let kj : k ≡ j = (eq_list_iff k j).0 t in
        let ba : b ≡ a = cc in subst (λ x. P (x, a)) (sym kj) (subst (λ x. P (j, x)) ba p)
    | inr n ↦ look-All P k l a h cc
  ]

  -- There is an entry under the key.
  abbrev pub Has : Str → List (Str × A) → Type 0
  Has k l = (a : A) × (look k l ≡ some a)

  -- An entry that is there stays there.
  pub Has-cons : (k j : Str) (a : A) (l : List (Str × A)) → Has k l → Has k ((j, a) ∷ l)
  unfolding look
  Has-cons k j a l (b, h) = elim (Bool-cases (eq_list k j)) [
    | inl t ↦ (a, rw t refl)
    | inr n ↦ (b, rw n h)
  ]

  pub Has-self : (k : Str) (a : A) (l : List (Str × A)) → Has k ((k, a) ∷ l)
  unfolding look
  Has-self k a l = (a, rw ((eq_list_iff k k).1 refl) refl)

-- What both sides of a test have, its value has.
pub if_either {ℓ κ} :
    {A : Type ℓ} (P : A → Type κ) (b : Bool) {x y : A} → P x → P y → P (if b then x else y)
if_either P false p q = q
if_either P true p q = p

pub if_split {ℓ κ} :
    {A : Type ℓ} (P : A → Type κ) (b : Bool) {x y : A}
    → (b ≡ true → P x)
    → (b ≡ false → P y)
    → P (if b then x else y)
if_split P false p q = q refl
if_split P true p q = p refl

pub All-map {ℓ} :
    {A : Type ℓ} (P Q : A → Type 0) (l : List A) → ((a : A) → P a → Q a) → All P l → All Q l
All-map P Q [] f h = h
All-map P Q (x ∷ l) f (p, h) = (f x p, All-map P Q l f h)

module _ (d : Driver) {S : Type 0} (Inv : S → Type 0) (Ready : Str → S → Type 0) where
  abbrev pub Kept : S → Context → Type 0
  Kept s c = Inv s × All (λ entry. Ready entry.0 s) c.cache

  abbrev pub ReadyIf : Str → S → Cached → Type 0
  ReadyIf k s (got m) = Ready k s
  ReadyIf k s build_failed = Unit
  ReadyIf k s (refused e) = Unit

  abbrev pub KeptAfter : Str → S × Context × Device × Cached → Type 0
  KeptAfter k (s, c, w, r) = Kept s c × ReadyIf k s r

  module _ (k : Str) (build : S → S × Option Str) (step : (s : S) → Inv s → Inv (build s).0)
      (mono : (s : S) (j : Str) → Ready j s → Ready j (build s).0)
      (made : (s : S) (ptx : Str) → (build s).1 ≡ some ptx → Ready k (build s).0) where
    filed :
        (s : S) (c : Context) (w : Device) (r : Device × Option CudaError)
        → Kept s c
        → Ready k s
        → KeptAfter k (file_cached d k s (loaded d c r))
    unfolding file_cached loaded
    filed s c w (w', some e) h ready = (h, tt)
    filed s c w (w', none) h ready = ((h.0, (ready, h.1)), ready)

    built :
        (s : S) (c : Context) (w : Device) (r : S × Option Str)
        → Kept r.0 c
        → ((ptx : Str) → r.1 ≡ some ptx → Ready k r.0)
        → KeptAfter k (after_build d k c w r)
    unfolding after_build load_ptx_locked file_cached
    built s c w (s', none) h ready = (h, tt)
    built s c w (s', some ptx) h ready =
        if_either (λ r. KeptAfter k (file_cached d k s' r)) c.closed (h, tt)
          (filed s' c w (call d (module_load (ptx ++ (0 ∷ []))) w) h (ready ptx refl))

    found :
        (s : S) (c : Context) (w : Device) (o : Option ℕ)
        → Kept s c
        → look k c.cache ≡ o
        → KeptAfter k (find_or_build d k build s c w o)
    unfolding find_or_build
    found s c w (some m) h e = (h, look-All (λ entry. Ready entry.0 s) k c.cache m h.1 e)
    found s c w none h e =
        built s c w (build s)
          (
            step s h.0,
            All-map (λ entry. Ready entry.0 s) (λ entry. Ready entry.0 (build s).0) c.cache
                (λ entry r. mono s entry.0 r) h.1,
          )
          (made s)

    pub load_ptx_cached-Kept :
        (s : S) (c : Context) (w : Device)
        → Kept s c
        → KeptAfter k (load_ptx_cached d k build s c w)
    unfolding load_ptx_cached
    load_ptx_cached-Kept s c w h =
        if_either (KeptAfter k) c.closed (h, tt) (found s c w (look k c.cache) h refl)
