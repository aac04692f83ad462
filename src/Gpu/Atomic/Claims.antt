-- ===== src/Gpu/Atomic/Claims.antt =====
-- gpu/atomic.go: the value before the operation, which every atomic returns, is what tells threads
-- apart: tickets, exchanges and compare-and-swap.
use simtgo.Base.{
  ℕ, zero, suc, ◌+◌, ◌%◌, ◌<◌, ◌≡◌, ◌≢◌, refl, Bool, true, false, List, [], ◌∷◌, ◌++◌, ◌==◌,
  ==_refl, arith, map, ap, ◌∙◌, All, tally, some, get_elem?, ℤ,
}
use simtgo.Gpu.Atomic.{Atomic, add, exch, cas, i32_mod, stored, atomics}
use simtgo.Gpu.Atomic.Sums.{
  cell_after, cell_found, on_cell, returned_on, atomics-cell, atomics-returned,
}

-- The work queue: k threads that each add 1 to one element are handed k numbers in a row.
abbrev pub ones : ℕ → List Atomic
ones zero = []
ones (suc k) = add 1 ∷ ones k

abbrev pub tickets : ℕ → ℕ → List ℕ
tickets old zero = []
tickets old (suc k) = old ∷ tickets (old + 1) k

pub cell_found-ones : (old k : ℕ) → old + k < i32_mod → cell_found old (ones k) ≡ tickets old k
unfolding cell_found stored
cell_found-ones old zero h = refl
cell_found-ones old (suc k) h =
    let e : (old + 1) % i32_mod ≡ old + 1 = omega arith in
    rw e (ap (λ (xs : List ℕ). old ∷ xs) (cell_found-ones (old + 1) k (omega arith)))

-- Exchanges lose no value: what they return, with what is left, is what was there and what was stored.
pub exchange_chain :
    (old : ℕ) (vs : List ℕ)
    → cell_found old (map exch vs) ++ cell_after old (map exch vs) ∷ [] ≡ old ∷ vs
unfolding cell_found cell_after stored
exchange_chain old [] = refl
exchange_chain old (v ∷ vs) = ap (λ (xs : List ℕ). old ∷ xs) (exchange_chain v vs)

abbrev pub bit : Bool → ℕ
bit true = 1
bit false = 0

-- Whether a compare-and-swap against c won, as its caller finds out.
abbrev pub won : ℕ → ℕ → ℕ
won c old = bit (old == c)

cas_lost :
    (c old : ℕ) (vs : List ℕ)
    → (old == c) ≡ false
    → All (λ v. v ≢ c) vs
    → (cell_after old (map (cas c) vs) ≡ old)
      × (tally (won c) (cell_found old (map (cas c) vs)) ≡ 0)
unfolding cell_found cell_after stored tally
cas_lost c old [] ne all = (refl, refl)
cas_lost c old (v ∷ vs) ne all =
    let (p, q) = cas_lost c old vs ne all.1 in
    (rw (ne, cell_after) p, rw (ne, cell_found) (omega (arith, q)))

cell_one_winner :
    (c v : ℕ) (vs : List ℕ)
    → All (λ w. w ≢ c) (v ∷ vs)
    → (tally (won c) (cell_found c (map (cas c) (v ∷ vs))) ≡ 1)
      × (cell_after c (map (cas c) (v ∷ vs)) ≡ v)
unfolding cell_found cell_after stored tally
cell_one_winner c v vs all =
    let ne : (v == c) ≡ false = ground (arith, all.0) in
    let (p, q) = cas_lost c v vs ne all.1 in
    (rw (==_refl c, cell_found) (omega (arith, q)), rw (==_refl c, cell_after) p)

-- In a sequence of atomics that runs without a panic and that does no more to element i, which holds c,
-- than swap it from c to values of its callers' own, none of them c, at least one: exactly one of those
-- swaps returns c, which tells its caller that it won, and the element ends with the first one's value.
pub cas_one_winner :
    (s : List ℕ) (ops : List (ℤ × Atomic)) (s' : List ℕ) (olds : List ℕ) (i c v : ℕ) (vs : List ℕ)
    → atomics s ops ≡ some (s', olds)
    → get_elem? s i ≡ some c
    → on_cell i ops ≡ map (cas c) (v ∷ vs)
    → All (λ w. w ≢ c) (v ∷ vs)
    → (tally (won c) (returned_on i ops olds) ≡ 1) × (get_elem? s' i ≡ some v)
cas_one_winner s ops s' olds i c v vs h at same all =
    let (p, q) = cell_one_winner c v vs all in
    (
      ap (tally (won c)) (atomics-returned s ops s' olds i c h at ∙ ap (cell_found c) same) ∙ p,
      atomics-cell s ops s' olds i c h at ∙ ap some (ap (cell_after c) same ∙ q),
    )
