-- ===== src/Cuda/Arch/Numbers.antt =====
-- cuda/cuda.go: decimal numbers, written and read back.
use simtgo.Base.{
  ℕ, zero, suc, ◌+◌, ◌-◌, ◌*◌, ◌/◌, ◌%◌, ◌≤◌, ◌<◌, ◌≡◌, refl, ap, true, [], ◌∷◌, ◌++◌, ltb, ltb→lt,
  arith, length, length-append, inl, inr, Bool-cases, &&-true,
}
use simtgo.Cuda.Arch.{Str, is_digit, all_digits, value_from, decimal_from, decimal, front, last}

pub front-snoc : (s : Str) (c : ℕ) → front (s ++ (c ∷ [])) ≡ s
front-snoc [] c = refl
front-snoc (d ∷ []) c = refl
front-snoc (d ∷ e ∷ s) c = ap (λ t. d ∷ t) (front-snoc (e ∷ s) c)

pub last-snoc : (s : Str) (c : ℕ) → last (s ++ (c ∷ [])) ≡ c
last-snoc [] c = refl
last-snoc (d ∷ []) c = refl
last-snoc (d ∷ e ∷ s) c = last-snoc (e ∷ s) c

pub value_from-snoc :
    (v : ℕ) (s : Str) (c : ℕ) → value_from v (s ++ (c ∷ [])) ≡ value_from v s * 10 + (c - 48)
unfolding value_from
value_from-snoc v [] c = refl
value_from-snoc v (d ∷ s) c = value_from-snoc (v * 10 + (d - 48)) s c

pub all_digits-snoc :
    (s : Str) (c : ℕ) → all_digits s ≡ true → is_digit c ≡ true → all_digits (s ++ (c ∷ [])) ≡ true
unfolding all_digits
all_digits-snoc [] c h hc = ground arith
all_digits-snoc (d ∷ s) c h hc =
    let p = &&-true (is_digit d) (all_digits s) h in
    let rec = all_digits-snoc s c p.1 hc in ground arith

pub is_digit-digit : (n : ℕ) → n < 10 → is_digit (48 + n) ≡ true
unfolding is_digit
is_digit-digit n h = ground arith

-- What is written for n, with enough fuel: digits, at least one, that spell n.
pub decimal_from_correct :
    (f n : ℕ)
    → n < f
    → (all_digits (decimal_from f n) ≡ true)
      × (value_from 0 (decimal_from f n) ≡ n)
      × (0 < length (decimal_from f n))
unfolding decimal_from all_digits value_from
decimal_from_correct zero n h = elim h [ ]
decimal_from_correct (suc f) n h = elim (Bool-cases (ltb n 10)) [
  | inl e ↦ (
    rw e (all_digits-snoc [] (48 + n) refl (is_digit-digit n (ltb→lt n 10 e))),
    rw e (omega arith),
    rw e (omega arith),
  )
  | inr e ↦
      let ge : 10 ≤ n = ground arith in
      let small : n % 10 < 10 = omega arith in
      let lt : n / 10 < f = ground arith in
      let rec = decimal_from_correct f (n / 10) lt in
      let s = decimal_from f (n / 10) in
      let snoc = value_from-snoc 0 s (48 + n % 10) in
      (
        rw e (all_digits-snoc s (48 + n % 10) rec.0 (is_digit-digit (n % 10) small)),
        rw e (omega (arith, snoc, rec.1)),
        rw e (omega (arith, length-append s ((48 + n % 10) ∷ []))),
      )
]

pub decimal-digits :
    (n : ℕ)
    → (all_digits (decimal n) ≡ true) × (value_from 0 (decimal n) ≡ n) × (0 < length (decimal n))
unfolding decimal
decimal-digits n = decimal_from_correct (suc n) n (omega arith)

pub decimal-digit : (n : ℕ) → n < 10 → decimal n ≡ (48 + n) ∷ []
unfolding decimal decimal_from
decimal-digit n h = let e : ltb n 10 ≡ true = ground arith in rw e refl
