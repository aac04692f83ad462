-- ===== src/Gpu/Atomic/Sums.antt =====
-- gpu/atomic.go: a sequence of atomics on a buffer, element by element, and sums that do not depend on
-- the order of arrival.
use simtgo.Base.{
  ℕ, ◌+◌, ◌%◌, ◌<◌, ◌≡◌, refl, List, [], ◌∷◌, some, ◌==◌, ==_iff, if◌then◌else◌, get_elem?, set,
  get_elem?-set_self, get_elem?-set_ne, get_elem?-lt, ℤ, pos, negsuc, arith, ap, ◌∙◌, inl, inr,
  Bool-cases, >>=-eq-some,
}
use simtgo.Gpu.Atomic.{Atomic, add, i32_mod, stored, atomic, atomics}

-- What operations one after the other leave of a value, and the values that they find.
unfoldable pub cell_after : ℕ → List Atomic → ℕ
cell_after old [] = old
cell_after old (a ∷ ops) = cell_after (stored a old) ops

unfoldable pub cell_found : ℕ → List Atomic → List ℕ
cell_found old [] = []
cell_found old (a ∷ ops) = old ∷ cell_found (stored a old) ops

-- The operations of a sequence that name element i.
abbrev pub on_cell : ℕ → List (ℤ × Atomic) → List Atomic
on_cell i [] = []
on_cell i ((negsuc j, a) ∷ ops) = on_cell i ops
on_cell i ((pos j, a) ∷ ops) = let rest = on_cell i ops in if j == i then a ∷ rest else rest

atomic_parts :
    (s s' : List ℕ) (j : ℕ) (a : Atomic) (old : ℕ)
    → atomic s (pos j) a ≡ some (s', old)
    → (get_elem? s j ≡ some old) × (s' ≡ set s j (stored a old))
unfolding atomic
atomic_parts s s' j a old h = ground arith

atomic-negsuc :
    (s : List ℕ) (j : ℕ) (a : Atomic) (r : List ℕ × ℕ) → ¬ (atomic s (negsuc j) a ≡ some r)
unfolding atomic
atomic-negsuc s j a r h = cc

atomic-cell :
    (s s' : List ℕ) (j i : ℕ) (a : Atomic) (old v : ℕ)
    → atomic s (pos j) a ≡ some (s', old)
    → get_elem? s i ≡ some v
    → get_elem? s' i ≡ some (if j == i then stored a v else v)
atomic-cell s s' j i a old v h at =
    let (at', e) = atomic_parts s s' j a old h in
    elim (Bool-cases (j == i)) [
      | inl y ↦
          let ji : j ≡ i = (==_iff j i).0 y in
          let vo : v ≡ old = cc in
          rw (y, e, vo, ← ji) (get_elem?-set_self s j (stored a old) (get_elem?-lt s j old at'))
      | inr y ↦ rw (y, e) (get_elem?-set_ne s j i (stored a old) (λ ji. absurd (ground arith)) ∙ at)
    ]

atomics-cons :
    (s : List ℕ) (i : ℤ) (a : Atomic) (ops : List (ℤ × Atomic)) (s' : List ℕ) (olds : List ℕ)
    → atomics s ((i, a) ∷ ops) ≡ some (s', olds)
    → (s1 : List ℕ) × (old : ℕ) × (rest : List ℕ) × (atomic s i a ≡ some (s1, old))
      × (atomics s1 ops ≡ some (s', rest))
      × (olds ≡ old ∷ rest)
unfolding atomics
atomics-cons s i a ops s' olds h =
    let ((s1, old), first, h1) = >>=-eq-some (atomic s i a) _ h in
    let ((s2, rest), second, h2) = >>=-eq-some (atomics s1 ops) _ h1 in
    (s1, old, rest, first, ground (arith, second), ground arith)

-- What a sequence of atomics leaves in element i is what its operations on i alone leave there.
pub atomics-cell :
    (s : List ℕ) (ops : List (ℤ × Atomic)) (s' : List ℕ) (olds : List ℕ) (i v : ℕ)
    → atomics s ops ≡ some (s', olds)
    → get_elem? s i ≡ some v
    → get_elem? s' i ≡ some (cell_after v (on_cell i ops))
unfolding atomics cell_after
atomics-cell s [] s' olds i v h at = let e : s ≡ s' = ground arith in rw (← e) at
atomics-cell s ((negsuc j, a) ∷ ops) s' olds i v h at =
    let (s1, old, rest, first, _, _) = atomics-cons s (negsuc j) a ops s' olds h in
    absurd (atomic-negsuc s j a (s1, old) first)
atomics-cell s ((pos j, a) ∷ ops) s' olds i v h at =
    let (s1, old, rest, first, second, _) = atomics-cons s (pos j) a ops s' olds h in
    let at1 = atomic-cell s s1 j i a old v first at in
    elim (Bool-cases (j == i)) [
      | inl y ↦ rw y (atomics-cell s1 ops s' rest i (stored a v) second (rw y at at1))
      | inr y ↦ rw y (atomics-cell s1 ops s' rest i v second (rw y at at1))
    ]

-- Of the results of a sequence, those of its operations on element i.
abbrev pub returned_on : ℕ → List (ℤ × Atomic) → List ℕ → List ℕ
returned_on i ((pos j, a) ∷ ops) (old ∷ olds) =
    let rest = returned_on i ops olds in if j == i then old ∷ rest else rest
returned_on i ((negsuc j, a) ∷ ops) (old ∷ olds) = returned_on i ops olds
returned_on i ops olds = []

-- What the operations on element i return is what each of them finds there.
pub atomics-returned :
    (s : List ℕ) (ops : List (ℤ × Atomic)) (s' : List ℕ) (olds : List ℕ) (i v : ℕ)
    → atomics s ops ≡ some (s', olds)
    → get_elem? s i ≡ some v
    → returned_on i ops olds ≡ cell_found v (on_cell i ops)
unfolding atomics cell_found
atomics-returned s [] s' olds i v h at = refl
atomics-returned s ((negsuc j, a) ∷ ops) s' olds i v h at =
    let (s1, old, rest, first, _, _) = atomics-cons s (negsuc j) a ops s' olds h in
    absurd (atomic-negsuc s j a (s1, old) first)
atomics-returned s ((pos j, a) ∷ ops) s' olds i v h at =
    let (s1, old, rest, first, second, e) = atomics-cons s (pos j) a ops s' olds h in
    let at1 = atomic-cell s s1 j i a old v first at in
    let (at', _) = atomic_parts s s1 j a old first in
    elim (Bool-cases (j == i)) [
      | inl y ↦
          let ji : j ≡ i = (==_iff j i).0 y in
          let ov : old ≡ v = cc in
          rw (e, y, ov)
            (ap (λ (l : List ℕ). v ∷ l)
              (atomics-returned s1 ops s' rest i (stored a v) second (rw y at at1)))
      | inr y ↦ rw (e, y) (atomics-returned s1 ops s' rest i v second (rw y at at1))
    ]

-- The values that a sequence of additions adds to element i.
unfoldable pub added_to : ℕ → List (ℤ × ℕ) → ℕ
added_to i [] = 0
added_to i ((negsuc j, v) ∷ adds) = added_to i adds
added_to i ((pos j, v) ∷ adds) = let rest = added_to i adds in if j == i then v + rest else rest

abbrev pub as_adds : List (ℤ × ℕ) → List (ℤ × Atomic)
as_adds [] = []
as_adds ((i, v) ∷ adds) = (i, add v) ∷ as_adds adds

cell_after-adds :
    (i old : ℕ) (adds : List (ℤ × ℕ))
    → old < i32_mod
    → cell_after old (on_cell i (as_adds adds)) ≡ (old + added_to i adds) % i32_mod
unfolding cell_after added_to stored
cell_after-adds i old [] h = omega arith
cell_after-adds i old ((negsuc j, v) ∷ adds) h = cell_after-adds i old adds h
cell_after-adds i old ((pos j, v) ∷ adds) h = elim (Bool-cases (j == i)) [
  | inl y ↦ rw y (cell_after-adds i ((old + v) % i32_mod) adds (omega arith) ∙ omega arith)
  | inr y ↦ rw y (cell_after-adds i old adds h)
]

-- Atomic additions from any number of threads leave in each element its old value plus all that was
-- added to it, modulo 2 ^ 32, in whatever order the threads took the lock.
pub atomic_adds_total :
    (s : List ℕ) (adds : List (ℤ × ℕ)) (s' : List ℕ) (olds : List ℕ) (i v : ℕ)
    → atomics s (as_adds adds) ≡ some (s', olds)
    → get_elem? s i ≡ some v
    → v < i32_mod
    → get_elem? s' i ≡ some ((v + added_to i adds) % i32_mod)
atomic_adds_total s adds s' olds i v h at small =
    atomics-cell s (as_adds adds) s' olds i v h at ∙ ap some (cell_after-adds i v adds small)
