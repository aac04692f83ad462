-- ===== src/Gpu/Warp/Votes.antt =====
-- gpu/warp.go: what the votes of a warp say of the lanes that took part.
use simtgo.Base.{
  ℕ, zero, suc, ◌<◌, ◌≡◌, ◌≢◌, ◌↔◌, refl, Bool, true, false, ◌&&◌, ◌==◌, ==_iff, arith, Bool-cases,
  inl, inr,
}
use simtgo.Gpu.Launch.{warp_size}
use simtgo.Gpu.Warp.{Slots, ballot, any_below, all_below, any_lane, all_lanes, same}

all_below_iff : (n : ℕ) (p : ℕ → Bool) → (all_below n p ≡ true) ↔ ((l : ℕ) → l < n → p l ≡ true)
unfolding all_below
all_below_iff zero p = (λ h l lt. absurd (omega arith), λ h. refl)
all_below_iff (suc n) p =
    let (to, from) = all_below_iff n p in
    (
      λ h l lt. elim (Bool-cases (l == n)) [
        | inl y ↦ let e : l ≡ n = (==_iff l n).0 y in rw e (ground arith)
        | inr y ↦ to (ground arith) l (ground arith)
      ],
      λ h. rw (h n (omega arith)) (from (λ l lt. h l (omega arith))),
    )

any_below-false : (n : ℕ) (p : ℕ → Bool) → (any_below n p ≡ false) ↔ ((l : ℕ) → l < n → p l ≡ false)
unfolding any_below
any_below-false zero p = (λ h l lt. absurd (omega arith), λ h. refl)
any_below-false (suc n) p =
    let (to, from) = any_below-false n p in
    (
      λ h l lt. elim (Bool-cases (l == n)) [
        | inl y ↦ let e : l ≡ n = (==_iff l n).0 y in rw e (ground arith)
        | inr y ↦ to (ground arith) l (ground arith)
      ],
      λ h. rw (h n (omega arith)) (from (λ l lt. h l (omega arith))),
    )

-- A warp's predicates, as the slots hold them: 1 for true.
abbrev pub Votes : Slots → (ℕ → Bool) → Type 0
Votes w pred =
    (l : ℕ) → w.mask l ≡ true → (w.vals l ≡ 0 → pred l ≡ false) × (w.vals l ≢ 0 → pred l ≡ true)

ballot_bit :
    (w : Slots) (pred : ℕ → Bool) → Votes w pred → (l : ℕ) → ballot w l ≡ (w.mask l && pred l)
unfolding ballot
ballot_bit w pred votes l = elim (Bool-cases (w.mask l)) [
  | inr absent ↦ rw absent
  | inl here ↦ elim (Bool-cases (w.vals l == 0)) [
    | inl z ↦ ground (arith, here, z, (votes l here).0 ((==_iff _ _).0 z))
    | inr z ↦ ground (arith, here, z, (votes l here).1 (λ e. absurd (ground arith)))
  ]
]

-- All is true exactly when every lane that took part passed a true predicate.
pub all_lanes_iff :
    (w : Slots) (pred : ℕ → Bool)
    → Votes w pred
    → (all_lanes w ≡ true) ↔ ((l : ℕ) → l < warp_size → w.mask l ≡ true → pred l ≡ true)
unfolding all_lanes
all_lanes_iff w pred votes =
    let (to, from) = all_below_iff warp_size (λ l. same (ballot w l) (w.mask l)) in
    (
      λ h l lt here. ground (arith, to h l lt, ballot_bit w pred votes l),
      λ h. from (λ l lt. elim (Bool-cases (w.mask l)) [
        | inl here ↦ ground (arith, h l lt here, here, ballot_bit w pred votes l)
        | inr absent ↦ ground (arith, absent, ballot_bit w pred votes l)
      ]),
    )

-- Any is false exactly when every lane that took part passed a false one.
pub any_lane-false :
    (w : Slots) (pred : ℕ → Bool)
    → Votes w pred
    → (any_lane w ≡ false) ↔ ((l : ℕ) → l < warp_size → w.mask l ≡ true → pred l ≡ false)
unfolding any_lane
any_lane-false w pred votes =
    let (to, from) = any_below-false warp_size (ballot w) in
    (
      λ h l lt here. ground (arith, to h l lt, ballot_bit w pred votes l),
      λ h. from (λ l lt. elim (Bool-cases (w.mask l)) [
        | inl here ↦ ground (arith, h l lt here, here, ballot_bit w pred votes l)
        | inr absent ↦ ground (arith, absent, ballot_bit w pred votes l)
      ]),
    )
