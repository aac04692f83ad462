-- ===== src/Simt/Prebuilt/Newest.antt =====
-- simt/prebuilt.go: pickPrebuilt finds the newest registration that the device can load.
use simtgo.Base.{
  ℕ, zero, suc, ◌≤◌, ◌<◌, ◌≡◌, ◌⊎◌, refl, false, List, [], ◌∷◌, some, none, get_elem?, arith, inl,
  inr, Bool-cases, sym, ◌∙◌, ap,
}
use simtgo.Cuda.Arch.{Str, Arch, capability, refused, parse_arch}
use simtgo.Simt.Prebuilt.{
  Prebuilt, Registry, Best, newer, consider, pick_from, drop_capability, pick_prebuilt,
}

-- The capability (a, b) is at most (c, d).
abbrev pub AtMost : ℕ → ℕ → ℕ → ℕ → Type 0
AtMost a b c d = (a < c) ⊎ ((a ≡ c) × (b ≤ d))

-- Registered in the list, with this capability.
abbrev pub Filed : List Prebuilt → Prebuilt → ℕ → ℕ → Type 0
Filed l p a b = (i : ℕ) × (get_elem? l i ≡ some p) × (parse_arch p.arch ≡ capability a b)

AtMost-newer : (a b c d : ℕ) → newer a b c d ≡ false → AtMost a b c d
AtMost-newer a b c d h = ground arith

newer-AtMost : (a b c d : ℕ) → AtMost a b c d → newer a b c d ≡ false
newer-AtMost a b c d h = ground arith

AtMost-trans : (a b c d e f : ℕ) → AtMost a b c d → AtMost c d e f → AtMost a b e f
AtMost-trans a b c d e f h k = ground arith

AtMost-refl : (a b : ℕ) → AtMost a b a b
AtMost-refl a b = inr (refl, omega arith)

taken :
    (major minor : ℕ) (q : Prebuilt) (c d : ℕ) (p : Prebuilt) (a b : ℕ)
    → (q ≡ p) × (c ≡ a) × (d ≡ b)
    → AtMost c d major minor
    → (p ≡ q) × (capability c d ≡ capability a b) × AtMost a b major minor
taken major minor q c d p a b (eq, ea, eb) m = (sym eq, rw (ea, eb) refl, rw (sym ea, sym eb) m)

-- Which registration a round may leave as the best one.
consider-some :
    (major minor : ℕ) (q : Prebuilt) (t : Arch) (best : Best) (p : Prebuilt) (a b : ℕ)
    → consider major minor q t best ≡ some (p, a, b)
    → (best ≡ some (p, a, b)) ⊎ ((p ≡ q) × (t ≡ capability a b) × AtMost a b major minor)
consider-some major minor q (refused e) best p a b h = inl h
consider-some major minor q (capability c d) none p a b h =
    elim (Bool-cases (newer c d major minor)) [
      | inl n ↦ let bad : ◌≡◌ {A = Best} none (some (p, a, b)) = sym (rw n refl) ∙ h in cc
      | inr n ↦
          let e : ◌≡◌ {A = Best} (some (q, c, d)) (some (p, a, b)) = sym (rw n refl) ∙ h in
          let m = AtMost-newer c d major minor n in
          inr (taken major minor q c d p a b (cc, cc, cc) m)
    ]
consider-some major minor q (capability c d) (some (p', a', b')) p a b h =
    elim (Bool-cases (newer c d major minor)) [
      | inl n ↦ inl (sym (rw n refl) ∙ h)
      | inr n ↦
          let m = AtMost-newer c d major minor n in
          elim (Bool-cases (newer c d a' b')) [
            | inl w ↦
                let e : ◌≡◌ {A = Best} (some (q, c, d)) (some (p, a, b)) =
                  sym (rw (n, w) refl) ∙ h in
                inr (taken major minor q c d p a b (cc, cc, cc) m)
            | inr w ↦ inl (sym (rw (n, w) refl) ∙ h)
          ]
    ]

-- A round keeps a best one that is at least as new, and takes a usable one or keeps a newer one.
consider-keeps :
    (major minor : ℕ) (q : Prebuilt) (t : Arch) (p' : Prebuilt) (a' b' : ℕ)
    → (p : Prebuilt) × (a : ℕ) × (b : ℕ) × (consider major minor q t (some (p', a', b'))
        ≡ some (p, a, b))
      × AtMost a' b' a b
consider-keeps major minor q (refused e) p' a' b' = (p', a', b', refl, AtMost-refl a' b')
consider-keeps major minor q (capability c d) p' a' b' = elim (Bool-cases (newer c d major minor)) [
  | inl n ↦ (p', a', b', rw n refl, AtMost-refl a' b')
  | inr n ↦ elim (Bool-cases (newer c d a' b')) [
    | inl w ↦ (q, c, d, rw (n, w) refl, ground arith)
    | inr w ↦ (p', a', b', rw (n, w) refl, AtMost-refl a' b')
  ]
]

consider-takes :
    (major minor : ℕ) (q : Prebuilt) (c d : ℕ) (best : Best)
    → AtMost c d major minor
    → (p : Prebuilt) × (a : ℕ) × (b : ℕ) × (consider major minor q (capability c d) best
        ≡ some (p, a, b))
      × AtMost c d a b
consider-takes major minor q c d none m =
    let n = newer-AtMost c d major minor m in (q, c, d, rw n refl, AtMost-refl c d)
consider-takes major minor q c d (some (p', a', b')) m =
    let n = newer-AtMost c d major minor m in
    elim (Bool-cases (newer c d a' b')) [
      | inl w ↦ (q, c, d, rw (n, w) refl, AtMost-refl c d)
      | inr w ↦ (p', a', b', rw (n, w) refl, AtMost-newer c d a' b' w)
    ]

pick_from-cons :
    (major minor : ℕ) (p : Prebuilt) (l : List Prebuilt) (best : Best)
    → pick_from major minor (p ∷ l) best
      ≡ pick_from major minor l (consider major minor p (parse_arch p.arch) best)
unfolding pick_from
pick_from-cons major minor p l best = refl

pick_from-nil : (major minor : ℕ) (best : Best) → pick_from major minor [] best ≡ best
unfolding pick_from
pick_from-nil major minor best = refl

pick_from-some :
    (major minor : ℕ) (l : List Prebuilt) (best : Best) (p : Prebuilt) (a b : ℕ)
    → pick_from major minor l best ≡ some (p, a, b)
    → (best ≡ some (p, a, b)) ⊎ (Filed l p a b × AtMost a b major minor)
pick_from-some major minor [] best p a b h = inl (sym (pick_from-nil major minor best) ∙ h)
pick_from-some major minor (q ∷ l) best p a b h =
    let rec =
      pick_from-some major minor l _ p a b (sym (pick_from-cons major minor q l best) ∙ h) in
    elim rec [
      | inl e ↦ elim (consider-some major minor q (parse_arch q.arch) best p a b e) [
        | inl f ↦ inl f
        | inr (eq, t, m) ↦ inr ((0, ap some (sym eq), ap (λ x. parse_arch x.arch) eq ∙ t), m)
      ]
      | inr ((i, at, t), m) ↦ inr ((suc i, at, t), m)
    ]

pick_from-keeps :
    (major minor : ℕ) (l : List Prebuilt) (q : Prebuilt) (c d : ℕ)
    → (p : Prebuilt) × (a : ℕ) × (b : ℕ) × (pick_from major minor l (some (q, c, d))
        ≡ some (p, a, b))
      × AtMost c d a b
pick_from-keeps major minor [] q c d =
    (q, c, d, pick_from-nil major minor (some (q, c, d)), AtMost-refl c d)
pick_from-keeps major minor (x ∷ l) q c d =
    let (p, a, b, e, m) = consider-keeps major minor x (parse_arch x.arch) q c d in
    let (p', a', b', e', m') = pick_from-keeps major minor l p a b in
    (
      p',
      a',
      b',
      pick_from-cons major minor x l (some (q, c, d)) ∙ ap (pick_from major minor l) e ∙ e',
      AtMost-trans c d a b a' b' m m',
    )

pick_from-newest :
    (major minor : ℕ) (l : List Prebuilt) (best : Best) (q : Prebuilt) (c d : ℕ)
    → Filed l q c d
    → AtMost c d major minor
    → (p : Prebuilt) × (a : ℕ) × (b : ℕ) × (pick_from major minor l best ≡ some (p, a, b))
      × AtMost c d a b
pick_from-newest major minor [] best q c d (i, at, t) m = cc
pick_from-newest major minor (x ∷ l) best q c d (zero, at, t) m =
    let ex : x ≡ q = cc in
    let tx = ap (λ y. parse_arch y.arch) ex ∙ t in
    let (p, a, b, e, n) = consider-takes major minor x c d best m in
    let (p', a', b', e', n') = pick_from-keeps major minor l p a b in
    (
      p',
      a',
      b',
      pick_from-cons major minor x l best
          ∙ ap (λ y. pick_from major minor l (consider major minor x y best)) tx
          ∙ ap (pick_from major minor l) e
          ∙ e',
      AtMost-trans c d a b a' b' n n',
    )
pick_from-newest major minor (x ∷ l) best q c d (suc i, at, t) m =
    let (p, a, b, e, n) = pick_from-newest major minor l _ q c d (i, at, t) m in
    (p, a, b, pick_from-cons major minor x l best ∙ e, n)

pick_prebuilt-from :
    (r : Registry) (hash : Str) (major minor : ℕ)
    → pick_prebuilt r hash major minor ≡ drop_capability (pick_from major minor (r hash) none)
unfolding pick_prebuilt
pick_prebuilt-from r hash major minor = refl

-- If a registration for the hash has an architecture that parses to a capability which is at most the
-- device's, pickPrebuilt finds one, and the capability of what it finds is at most the device's and
-- at least that of the registration.
pub pick_prebuilt-newest :
    (r : Registry) (hash : Str) (major minor : ℕ) (q : Prebuilt) (c d : ℕ)
    → Filed (r hash) q c d
    → AtMost c d major minor
    → (p : Prebuilt) × (a : ℕ) × (b : ℕ) × (pick_prebuilt r hash major minor ≡ some p)
      × Filed (r hash) p a b
      × AtMost a b major minor
      × AtMost c d a b
pick_prebuilt-newest r hash major minor q c d f m =
    let (p, a, b, e, n) = pick_from-newest major minor (r hash) none q c d f m in
    elim (pick_from-some major minor (r hash) none p a b e) [
      | inl bad ↦ cc
      | inr (g, k) ↦
          (p, a, b, pick_prebuilt-from r hash major minor ∙ ap drop_capability e, g, k, n)
    ]

drop_capability-some :
    (best : Best) (p : Prebuilt)
    → drop_capability best ≡ some p
    → (a : ℕ) × (b : ℕ) × (best ≡ some (p, a, b))
drop_capability-some none p h = cc
drop_capability-some (some (q, a, b)) p h = (a, b, cc)

-- What pickPrebuilt finds is registered for the hash, and the device can load it: its architecture
-- parses to a capability which is at most the device's.
pub pick_prebuilt-some :
    (r : Registry) (hash : Str) (major minor : ℕ) (p : Prebuilt)
    → pick_prebuilt r hash major minor ≡ some p
    → (a : ℕ) × (b : ℕ) × Filed (r hash) p a b × AtMost a b major minor
pick_prebuilt-some r hash major minor p h =
    let h' = sym (pick_prebuilt-from r hash major minor) ∙ h in
    let (a, b, e) = drop_capability-some _ p h' in
    elim (pick_from-some major minor (r hash) none p a b e) [
      | inl bad ↦ cc
      | inr (g, k) ↦ (a, b, g, k)
    ]
