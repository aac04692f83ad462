-- ===== src/Jit/Keys.antt =====
-- internal/jit: cacheKey of jit.go and diskKey of diskcache.go: what two equal keys have in common.
use simtgo.Base.{
  ℕ, ◌≡◌, refl, sym, ap, ◌∙◌, Bool, true, false, ◌||◌, [], ◌∷◌, ◌++◌, ◌==◌, arith, length, &&-true,
  ||-false, ==_iff, ◌<◌,
}
use mathlib.Core.List.{append_assoc}
use simtgo.Cuda.Arch.{Str, is_digit, all_digits, value_from, decimal}
use simtgo.Cuda.Arch.Numbers.{decimal-digits}
use simtgo.Jit.{nvrtc_origin, prebuilt_origin, key_text, term_text, disk_text}

abbrev pub has_byte : ℕ → Str → Bool
has_byte c [] = false
has_byte c (d ∷ s) = (c == d) || has_byte c s

-- What stands before the first separator, and what follows it.
pub split_at_byte :
    (c : ℕ) (a b x y : Str)
    → has_byte c a ≡ false
    → has_byte c b ≡ false
    → a ++ (c ∷ x) ≡ b ++ (c ∷ y)
    → (a ≡ b) × (x ≡ y)
split_at_byte c [] [] x y ha hb e = (refl, cc)
split_at_byte c [] (d ∷ b) x y ha hb e =
    let n = (||-false (c == d) (has_byte c b) hb).0 in
    let h : c ≡ d = cc in let t = (==_iff c d).1 h in cc
split_at_byte c (d ∷ a) [] x y ha hb e =
    let n = (||-false (c == d) (has_byte c a) ha).0 in
    let h : c ≡ d = cc in let t = (==_iff c d).1 h in cc
split_at_byte c (d ∷ a) (d' ∷ b) x y ha hb e =
    let na = (||-false (c == d) (has_byte c a) ha).1 in
    let nb = (||-false (c == d') (has_byte c b) hb).1 in
    let t : a ++ (c ∷ x) ≡ b ++ (c ∷ y) = cc in
    let h : d ≡ d' = cc in let rec = split_at_byte c a b x y na nb t in let l = rec.0 in (cc, rec.1)

-- Pieces of one length, and what follows them.
pub split_at_length : (a b x y : Str) → length a ≡ length b → a ++ x ≡ b ++ y → (a ≡ b) × (x ≡ y)
split_at_length [] [] x y h e = (refl, e)
split_at_length [] (d ∷ b) x y h e = let z : 0 < 0 = omega (arith, h) in elim z [ ]
split_at_length (c ∷ a) [] x y h e = let z : 0 < 0 = omega (arith, h) in elim z [ ]
split_at_length (c ∷ a) (d ∷ b) x y h e =
    let t : a ++ x ≡ b ++ y = cc in
    let p : c ≡ d = cc in
    let rec = split_at_length a b x y (omega (arith, h)) t in let l = rec.0 in (cc, rec.1)

pub digits-no_colon : (s : Str) → all_digits s ≡ true → has_byte 58 s ≡ false
unfolding all_digits is_digit
digits-no_colon [] h = refl
digits-no_colon (c ∷ s) h =
    let p = &&-true (is_digit c) (all_digits s) h in let rec = digits-no_colon s p.1 in ground arith

-- A term and what follows it are read back from their text.
pub term_text-split : (s t x y : Str) → term_text s ++ x ≡ term_text t ++ y → (s ≡ t) × (x ≡ y)
unfolding term_text
term_text-split s t x y e =
    let ds = decimal-digits (length s) in
    let dt = decimal-digits (length t) in
    let f : decimal (length s) ++ (58 ∷ (s ++ x)) ≡ decimal (length t) ++ (58 ∷ (t ++ y)) =
      sym (append_assoc (decimal (length s)) (58 ∷ s) x)
      ∙ e
      ∙ append_assoc (decimal (length t)) (58 ∷ t) y in
    let p =
      split_at_byte 58 (decimal (length s)) (decimal (length t)) (s ++ x) (t ++ y)
        (digits-no_colon (decimal (length s)) ds.0) (digits-no_colon (decimal (length t)) dt.0) f in
    let v : value_from 0 (decimal (length s)) ≡ value_from 0 (decimal (length t)) =
      ap (value_from 0) p.0 in
    let n : length s ≡ length t = sym ds.1 ∙ v ∙ dt.1 in split_at_length s t x y n p.1

-- The text of the disk's key tells its three terms apart, whatever bytes they hold.
pub disk_text-injective :
    (src arch nvrtc src' arch' nvrtc' : Str)
    → disk_text src arch nvrtc ≡ disk_text src' arch' nvrtc'
    → (src ≡ src') × (arch ≡ arch') × (nvrtc ≡ nvrtc')
unfolding disk_text
disk_text-injective src arch nvrtc src' arch' nvrtc' e =
    let p =
      term_text-split src src' (term_text arch ++ term_text nvrtc)
        (term_text arch' ++ term_text nvrtc') e in
    let q = term_text-split arch arch' (term_text nvrtc) (term_text nvrtc') p.1 in
    let r = term_text-split nvrtc nvrtc' [] [] (ap (λ t. t ++ []) q.1) in (p.0, q.0, r.0)

-- The origins of a module: prebuilt and compiled are told apart, and two prebuilt ones by their architecture.
pub origin_of-prebuilt :
    (arch arch' : Str) → prebuilt_origin arch ≡ prebuilt_origin arch' → arch ≡ arch'
origin_of-prebuilt arch arch' e = cc

pub origin_of-nvrtc {ℓ} :
    {A : Type ℓ} (b : Bool) (arch : Str) → nvrtc_origin b ≡ prebuilt_origin arch → A
origin_of-nvrtc false arch e = cc
origin_of-nvrtc true arch e = cc

-- The text of a module's key tells the source and the origin apart, where no term holds the separator.
pub key_text-injective :
    (src src' arch origin origin' : Str)
    → has_byte 0 src ≡ false
    → has_byte 0 src' ≡ false
    → has_byte 0 arch ≡ false
    → key_text src arch origin ≡ key_text src' arch origin'
    → (src ≡ src') × (origin ≡ origin')
unfolding key_text
key_text-injective src src' arch origin origin' hs hs' ha e =
    let p = split_at_byte 0 src src' (arch ++ (0 ∷ origin)) (arch ++ (0 ∷ origin')) hs hs' e in
    let q = split_at_byte 0 arch arch origin origin' ha ha p.1 in (p.0, q.1)
