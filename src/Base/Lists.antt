-- ===== src/Base/Lists.antt =====
-- Lists measured and indexed by native numbers, under the library's names.
use Prim.Native.Nat.{ℕ, zero, suc, ◌+◌, ◌<◌, ◌≤◌}
use mathlib.Core.Path.{◌≡◌, refl, ap}
use mathlib.Core.Logic.{◌≢◌, ◌↔◌, ◌⊎◌, inl, inr}
use mathlib.Core.Bool.{Bool, true, false, ◌&&◌}
use mathlib.Core.List.{List, [], ◌∷◌, ◌++◌}
use mathlib.Core.Option.{Option, none, some}
use native.Mathlib.Omega.{arith}
use simtgo.Base.Tests.{◌==◌, ==_iff, &&-true}

module _ {ℓ} {A : Type ℓ} where
  abbrev pub length : List A → ℕ
  length [] = 0
  length (x ∷ xs) = suc (length xs)

  abbrev pub get_elem? : List A → ℕ → Option A
  get_elem? [] i = none
  get_elem? (x ∷ xs) zero = some x
  get_elem? (x ∷ xs) (suc i) = get_elem? xs i

  -- A write out of bounds changes nothing.
  abbrev pub set : List A → ℕ → A → List A
  set [] i v = []
  set (x ∷ xs) zero v = v ∷ xs
  set (x ∷ xs) (suc i) v = x ∷ set xs i v

  abbrev pub All {κ} : (A → Type κ) → List A → Type κ
  All P [] = Unit
  All P (x ∷ xs) = P x × All P xs

  abbrev pub is_empty : List A → Bool
  is_empty [] = true
  is_empty (x ∷ xs) = false

module _ {ℓ} {A : Type ℓ} where
  pub length-append : (xs ys : List A) → length (xs ++ ys) ≡ length xs + length ys
  length-append [] ys = omega arith
  length-append (x ∷ xs) ys = omega (arith, length-append xs ys)

  pub length-set : (xs : List A) (i : ℕ) (v : A) → length (set xs i v) ≡ length xs
  length-set [] i v = refl
  length-set (x ∷ xs) zero v = refl
  length-set (x ∷ xs) (suc i) v = ap suc (length-set xs i v)

  pub get_elem?-set_self :
      (xs : List A) (i : ℕ) (v : A) → i < length xs → get_elem? (set xs i v) i ≡ some v
  get_elem?-set_self [] i v h = elim h [ ]
  get_elem?-set_self (x ∷ xs) zero v h = refl
  get_elem?-set_self (x ∷ xs) (suc i) v h = get_elem?-set_self xs i v (omega arith)

  pub get_elem?-set_ne :
      (xs : List A) (i j : ℕ) (v : A) → i ≢ j → get_elem? (set xs i v) j ≡ get_elem? xs j
  get_elem?-set_ne [] i j v h = refl
  get_elem?-set_ne (x ∷ xs) zero zero v h = absurd (h refl)
  get_elem?-set_ne (x ∷ xs) zero (suc j) v h = refl
  get_elem?-set_ne (x ∷ xs) (suc i) zero v h = refl
  get_elem?-set_ne (x ∷ xs) (suc i) (suc j) v h = get_elem?-set_ne xs i j v (λ e. h (ap suc e))

  pub get_elem?-lt : (xs : List A) (i : ℕ) (v : A) → get_elem? xs i ≡ some v → i < length xs
  get_elem?-lt [] i v h = cc
  get_elem?-lt (x ∷ xs) zero v h = omega arith
  get_elem?-lt (x ∷ xs) (suc i) v h = omega (arith, get_elem?-lt xs i v h)

  pub get_elem?-ge : (xs : List A) (i : ℕ) → length xs ≤ i → get_elem? xs i ≡ none
  get_elem?-ge [] i h = refl
  get_elem?-ge (x ∷ xs) zero h = elim h [ ]
  get_elem?-ge (x ∷ xs) (suc i) h = get_elem?-ge xs i (omega arith)

  -- An element that satisfies a predicate of a whole list.
  pub All-get_elem? {κ} :
      (P : A → Type κ) (xs : List A) (i : ℕ) (v : A) → All P xs → get_elem? xs i ≡ some v → P v
  All-get_elem? P [] i v h e = cc
  All-get_elem? P (x ∷ xs) zero v h e = let e' : x ≡ v = cc in rw (← e') h.0
  All-get_elem? P (x ∷ xs) (suc i) v h e = All-get_elem? P xs i v h.1 e

-- The sum of a measure over a list.
module _ {ℓ} {A : Type ℓ} where
  unfoldable pub tally : (A → ℕ) → List A → ℕ
  tally f [] = 0
  tally f (x ∷ xs) = f x + tally f xs

  pub tally-append : (f : A → ℕ) (xs ys : List A) → tally f (xs ++ ys) ≡ tally f xs + tally f ys
  unfolding tally
  tally-append f [] ys = omega arith
  tally-append f (x ∷ xs) ys = omega (arith, tally-append f xs ys)

  pub tally-set :
      (f : A → ℕ) (xs : List A) (t : ℕ) (a v : A)
      → get_elem? xs t ≡ some a
      → tally f (set xs t v) + f a ≡ tally f xs + f v
  unfolding tally
  tally-set f [] t a v h = cc
  tally-set f (x ∷ xs) zero a v h = let e : x ≡ a = cc in rw e (omega arith)
  tally-set f (x ∷ xs) (suc t) a v h = omega (arith, tally-set f xs t a v h)

-- Strings are lists of bytes.
unfoldable pub eq_list : List ℕ → List ℕ → Bool
eq_list [] [] = true
eq_list [] (d ∷ ds) = false
eq_list (c ∷ cs) [] = false
eq_list (c ∷ cs) (d ∷ ds) = (c == d) && eq_list cs ds

pub eq_list_iff : (s t : List ℕ) → (eq_list s t ≡ true) ↔ (s ≡ t)
unfolding eq_list
eq_list_iff [] [] = ((λ e. refl), (λ e. refl))
eq_list_iff [] (d ∷ ds) = ((λ e. cc), (λ e. cc))
eq_list_iff (c ∷ cs) [] = ((λ e. cc), (λ e. cc))
eq_list_iff (c ∷ cs) (d ∷ ds) = (
  λ e.
      let p = &&-true (c == d) (eq_list cs ds) e in
      let a = (==_iff c d).0 p.0 in let b = (eq_list_iff cs ds).0 p.1 in cc,
  λ e.
      let a : c ≡ d = cc in
      let b : cs ≡ ds = cc in
      let a' = (==_iff c d).1 a in let b' = (eq_list_iff cs ds).1 b in rw (a', b') refl,
)

-- An element of a list with one more at the end.
module _ {ℓ} {A : Type ℓ} where
  pub get_elem?-snoc :
      (xs : List A) (y : A) (i : ℕ) (x : A)
      → get_elem? (xs ++ (y ∷ [])) i ≡ some x
      → (get_elem? xs i ≡ some x) ⊎ ((i ≡ length xs) × (x ≡ y))
  get_elem?-snoc [] y zero x h = inr (refl, cc)
  get_elem?-snoc [] y (suc i) x h = cc
  get_elem?-snoc (z ∷ xs) y zero x h = inl h
  get_elem?-snoc (z ∷ xs) y (suc i) x h = elim (get_elem?-snoc xs y i x h) [
    | inl e ↦ inl e
    | inr (e, f) ↦ inr (ap suc e, f)
  ]

  pub get_elem?-append_left :
      (xs ys : List A) (i : ℕ) (x : A) → get_elem? xs i ≡ some x → get_elem? (xs ++ ys) i ≡ some x
  get_elem?-append_left [] ys i x h = cc
  get_elem?-append_left (z ∷ xs) ys zero x h = h
  get_elem?-append_left (z ∷ xs) ys (suc i) x h = get_elem?-append_left xs ys i x h

  pub get_elem?-append_end : (xs : List A) (y : A) → get_elem? (xs ++ (y ∷ [])) (length xs) ≡ some y
  get_elem?-append_end [] y = refl
  get_elem?-append_end (z ∷ xs) y = get_elem?-append_end xs y
