-- ===== src/Gpu/Threads.antt =====
-- gpu/gpu.go, gpu/warp.go: what the threads of one rendezvous are doing, and how many do it. A
-- generation of a barrier is a fresh channel in the source and the number of its turn here.
use simtgo.Base.{
  ℕ, zero, suc, ◌+◌, ◌<◌, ◌≤◌, ◌≡◌, refl, Bool, true, false, not, List, [], ◌∷◌, some, arith, ltb,
  ◌==◌, get_elem?, set, Bool-cases, inl, inr,
}

-- A thread runs the kernel, is blocked in `wait` on a generation, or has left the kernel.
pub data Phase : Type 0 where
  running : Phase
  waiting : ℕ → Phase
  gone : Phase

abbrev pub is_present : Phase → Bool
is_present gone = false
is_present running = true
is_present (waiting g) = true

abbrev pub is_running : Phase → Bool
is_running running = true
is_running (waiting g) = false
is_running gone = false

abbrev pub waits_for : ℕ → Phase → Bool
waits_for c (waiting g) = g == c
waits_for c running = false
waits_for c gone = false

-- Blocked on a generation later than `c`.
abbrev pub waits_beyond : ℕ → Phase → Bool
waits_beyond c (waiting g) = ltb c g
waits_beyond c running = false
waits_beyond c gone = false

-- Blocked on a generation before `c`, so one that is closed.
abbrev pub is_released : ℕ → Phase → Bool
is_released c (waiting g) = ltb g c
is_released c running = false
is_released c gone = false

-- Still in the kernel, and not arrived at generation `c`.
abbrev pub is_behind : ℕ → Phase → Bool
is_behind c running = true
is_behind c (waiting g) = not (g == c)
is_behind c gone = false

abbrev pub bit : Bool → ℕ
bit true = 1
bit false = 0

unfoldable pub count_if : (Phase → Bool) → List Phase → ℕ
count_if p [] = 0
count_if p (x ∷ xs) = bit (p x) + count_if p xs

pub count_if-set :
    (p : Phase → Bool) (xs : List Phase) (t : ℕ) (a v : Phase)
    → get_elem? xs t ≡ some a
    → count_if p (set xs t v) + bit (p a) ≡ count_if p xs + bit (p v)
unfolding count_if
count_if-set p [] t a v h = ground arith
count_if-set p (x ∷ xs) zero a v h = let e : x ≡ a = ground arith in rw e (omega arith)
count_if-set p (x ∷ xs) (suc t) a v h = omega (arith, count_if-set p xs t a v h)

-- Where each phase counted on the left is counted on the right, the right count is no smaller.
pub count_if_mono :
    (p q : Phase → Bool) (xs : List Phase)
    → ((a : Phase) → bit (p a) ≤ bit (q a))
    → count_if p xs ≤ count_if q xs
unfolding count_if
count_if_mono p q [] h = omega arith
count_if_mono p q (x ∷ xs) h = omega (arith, h x, count_if_mono p q xs h)

-- Each thread still in the kernel is behind generation `c` or has arrived at it.
pub count_if_split :
    (c : ℕ) (xs : List Phase)
    → count_if is_present xs ≡ count_if (is_behind c) xs + count_if (waits_for c) xs
unfolding count_if
count_if_split c [] = omega arith
count_if_split c (running ∷ xs) = omega (arith, count_if_split c xs)
count_if_split c (gone ∷ xs) = omega (arith, count_if_split c xs)
count_if_split c (waiting g ∷ xs) = elim (Bool-cases (g == c)) [
  | inl e ↦ rw e (omega (arith, count_if_split c xs))
  | inr e ↦ rw e (omega (arith, count_if_split c xs))
]

-- A positive count has a thread to show.
pub count_if_find :
    (p : Phase → Bool) (xs : List Phase)
    → 0 < count_if p xs
    → (t : ℕ) × (a : Phase) × (get_elem? xs t ≡ some a) × (p a ≡ true)
unfolding count_if
count_if_find p [] h = absurd (omega arith)
count_if_find p (x ∷ xs) h = elim (Bool-cases (p x)) [
  | inl e ↦ (0, x, refl, e)
  | inr e ↦
      let (t, a, at, holds) = count_if_find p xs (omega (arith, rw e at h)) in (suc t, a, at, holds)
]

-- A thread that is counted makes the count positive.
pub count_if-pos :
    (p : Phase → Bool) (xs : List Phase) (t : ℕ) (a : Phase)
    → get_elem? xs t ≡ some a
    → bit (p a) ≤ count_if p xs
unfolding count_if
count_if-pos p [] t a h = ground arith
count_if-pos p (x ∷ xs) zero a h = let e : x ≡ a = ground arith in rw e (omega arith)
count_if-pos p (x ∷ xs) (suc t) a h = omega (arith, count_if-pos p xs t a h)

-- Where one thread is counted, no other is.
pub count_if_only :
    (p : Phase → Bool) (xs : List Phase) (t l : ℕ) (a v : Phase)
    → count_if p xs ≡ 1
    → get_elem? xs t ≡ some a
    → p a ≡ true
    → get_elem? xs l ≡ some v
    → (l == t) ≡ false
    → p v ≡ false
unfolding count_if
count_if_only p [] t l a v one at ha al ne = cc
count_if_only p (x ∷ xs) zero zero a v one at ha al ne = cc
count_if_only p (x ∷ xs) zero (suc l) a v one at ha al ne =
    let e : x ≡ a = ground arith in ground (arith, e, count_if-pos p xs l v al)
count_if_only p (x ∷ xs) (suc t) zero a v one at ha al ne =
    let e : x ≡ v = ground arith in ground (arith, e, count_if-pos p xs t a at)
count_if_only p (x ∷ xs) (suc t) (suc l) a v one at ha al ne =
    count_if_only p xs t l a v (ground (arith, count_if-pos p xs t a at)) at ha al (ground arith)
