-- ===== src/Simt/Prebuilt/Registered.antt =====
-- simt/prebuilt.go: RegisterPrebuilt keeps one image for each source and architecture.
use simtgo.Base.{
  ℕ, zero, suc, ◌≡◌, ◌≢◌, ◌⊎◌, refl, false, List, [], ◌∷◌, ◌++◌, some, none, if◌then◌else◌,
  get_elem?, get_elem?-snoc, get_elem?-append_end, ◌↔◌, length, inl, inr, Bool-cases, eq_list,
  eq_list_iff, sym, ◌∙◌, ap, subst,
}
use simtgo.Cuda.Arch.{Str}
use simtgo.Simt.Prebuilt.{
  Prebuilt, Registry, Filed, fresh, same, conflict, look_up, register_prebuilt,
}

-- Of the registrations for one hash, two for the same architecture are one; and each is filed under
-- its own hash.
abbrev pub Distinct : List Prebuilt → Type 0
Distinct l =
    (i j : ℕ) (p q : Prebuilt)
    → get_elem? l i ≡ some p
    → get_elem? l j ≡ some q
    → p.arch ≡ q.arch
    → i ≡ j

abbrev pub OwnHash : Str → List Prebuilt → Type 0
OwnHash h l = (i : ℕ) (p : Prebuilt) → get_elem? l i ≡ some p → p.source_sha256 ≡ h

abbrev pub Sound : Registry → Type 0
Sound r = (h : Str) → Distinct (r h) × OwnHash h (r h)

eq_list-false : (s t : List ℕ) → eq_list s t ≡ false → s ≢ t
eq_list-false s t h e = let e' = (eq_list_iff s t).1 e in cc

-- One round of the loop.
look_up-step :
    (p old : Prebuilt) (l : List Prebuilt)
    → ((old.arch ≢ p.arch) × (look_up p (old ∷ l) ≡ look_up p l))
      ⊎ (((old.arch ≡ p.arch) × (old.ptx ≡ p.ptx) × (look_up p (old ∷ l) ≡ same))
          ⊎ ((old.arch ≡ p.arch) × (old.ptx ≢ p.ptx) × (look_up p (old ∷ l) ≡ conflict)))
unfolding look_up
look_up-step p old l = elim (Bool-cases (eq_list old.arch p.arch)) [
  | inl a ↦ elim (Bool-cases (eq_list old.ptx p.ptx)) [
    | inl b ↦ inr (inl ((eq_list_iff _ _).0 a, (eq_list_iff _ _).0 b, rw (a, b) refl))
    | inr b ↦ inr (inr ((eq_list_iff _ _).0 a, eq_list-false _ _ b, rw (a, b) refl))
  ]
  | inr a ↦ inl (eq_list-false _ _ a, rw a refl)
]

look_up-nil : (p : Prebuilt) → look_up p [] ≡ fresh
unfolding look_up
look_up-nil p = refl

look_up-fresh :
    (p : Prebuilt) (l : List Prebuilt) (i : ℕ) (q : Prebuilt)
    → look_up p l ≡ fresh
    → get_elem? l i ≡ some q
    → q.arch ≢ p.arch
look_up-fresh p [] i q h e = cc
look_up-fresh p (old ∷ l) zero q h e = elim (look_up-step p old l) [
  | inl (ne, s) ↦ let eq : old ≡ q = cc in λ a. ne (ap (λ x. x.arch) eq ∙ a)
  | inr (inl (a, b, s)) ↦ let bad = sym s ∙ h in cc
  | inr (inr (a, b, s)) ↦ let bad = sym s ∙ h in cc
]
look_up-fresh p (old ∷ l) (suc i) q h e = elim (look_up-step p old l) [
  | inl (ne, s) ↦ look_up-fresh p l i q (sym s ∙ h) e
  | inr (inl (a, b, s)) ↦ let bad = sym s ∙ h in cc
  | inr (inr (a, b, s)) ↦ let bad = sym s ∙ h in cc
]

-- The loop has found an image for the same architecture.
look_up-found :
    (p : Prebuilt) (l : List Prebuilt)
    → look_up p l ≢ fresh
    → (i : ℕ) × (q : Prebuilt) × (get_elem? l i ≡ some q)
      × (q.arch ≡ p.arch)
      × (((look_up p l ≡ same) × (q.ptx ≡ p.ptx)) ⊎ ((look_up p l ≡ conflict) × (q.ptx ≢ p.ptx)))
look_up-found p [] h = absurd (h (look_up-nil p))
look_up-found p (old ∷ l) h = elim (look_up-step p old l) [
  | inl (ne, s) ↦
      let (i, q, g, a, c) = look_up-found p l (λ f. h (s ∙ f)) in
      (suc i, q, g, a, elim c [ inl (k, e) ↦ inl (s ∙ k, e) | inr (k, e) ↦ inr (s ∙ k, e) ])
  | inr (inl (a, b, s)) ↦ (0, old, refl, a, inl (s, b))
  | inr (inr (a, b, s)) ↦ (0, old, refl, a, inr (s, b))
]

Distinct-snoc :
    (p : Prebuilt) (l : List Prebuilt) → Distinct l → look_up p l ≡ fresh → Distinct (l ++ (p ∷ []))
Distinct-snoc p l d f i j x y ex ey a = elim (get_elem?-snoc l p i x ex) [
  | inl ex' ↦ elim (get_elem?-snoc l p j y ey) [
    | inl ey' ↦ d i j x y ex' ey' a
    | inr (lj, e) ↦ absurd (look_up-fresh p l i x f ex' (a ∙ ap (λ q. q.arch) e))
  ]
  | inr (li, e) ↦ elim (get_elem?-snoc l p j y ey) [
    | inl ey' ↦ absurd (look_up-fresh p l j y f ey' (sym a ∙ ap (λ q. q.arch) e))
    | inr (lj, e') ↦ li ∙ sym lj
  ]
]

own-snoc :
    (h : Str) (p : Prebuilt) (l : List Prebuilt)
    → OwnHash h l
    → p.source_sha256 ≡ h
    → OwnHash h (l ++ (p ∷ []))
own-snoc h p l o e i x ex = elim (get_elem?-snoc l p i x ex) [
  | inl ex' ↦ o i x ex'
  | inr (li, q) ↦ ap (λ y. y.source_sha256) q ∙ e
]

-- The registry with one more registration.
file : Prebuilt → Registry → Registry
file p r h = if eq_list h p.source_sha256 then r h ++ (p ∷ []) else r h

register-fresh :
    (p : Prebuilt) (r : Registry)
    → look_up p (r p.source_sha256) ≡ fresh
    → register_prebuilt p r ≡ some (file p r)
unfolding register_prebuilt file
register-fresh p r e = rw (register_prebuilt, e) refl

register-same :
    (p : Prebuilt) (r : Registry)
    → look_up p (r p.source_sha256) ≡ same
    → register_prebuilt p r ≡ some r
unfolding register_prebuilt
register-same p r e = rw (register_prebuilt, e) refl

register-conflict :
    (p : Prebuilt) (r : Registry)
    → look_up p (r p.source_sha256) ≡ conflict
    → register_prebuilt p r ≡ none
unfolding register_prebuilt
register-conflict p r e = rw (register_prebuilt, e) refl

look_up-cases : (p : Prebuilt) (l : List Prebuilt) → (look_up p l ≡ fresh) ⊎ (look_up p l ≢ fresh)
look_up-cases p l = go (look_up p l)
  where
    go : (f : Filed) → (f ≡ fresh) ⊎ (f ≢ fresh)
    go fresh = inl refl
    go same = inr (λ e. cc)
    go conflict = inr (λ e. cc)

file-at : (p : Prebuilt) (r : Registry) → file p r p.source_sha256 ≡ r p.source_sha256 ++ (p ∷ [])
unfolding file
file-at p r = let e = (eq_list_iff p.source_sha256 p.source_sha256).1 refl in rw e refl

file-Sound :
    (p : Prebuilt) (r : Registry)
    → Sound r
    → look_up p (r p.source_sha256) ≡ fresh
    → Sound (file p r)
unfolding file
file-Sound p r s f h = elim (Bool-cases (eq_list h p.source_sha256)) [
  | inl e ↦
      let eh : h ≡ p.source_sha256 = (eq_list_iff h p.source_sha256).0 e in
      let f' : look_up p (r h) ≡ fresh = ap (λ x. look_up p (r x)) eh ∙ f in
      rw e (Distinct-snoc p (r h) (s h).0 f', own-snoc h p (r h) (s h).1 (sym eh))
  | inr e ↦ rw e (s h)
]

-- An image for p's architecture is filed under p's hash: with p's bytes, or with other ones.
look_up-image :
    (p : Prebuilt) (l : List Prebuilt) (i : ℕ) (q : Prebuilt)
    → Distinct l
    → get_elem? l i ≡ some q
    → q.arch ≡ p.arch
    → ((look_up p l ≡ same) × (q.ptx ≡ p.ptx)) ⊎ ((look_up p l ≡ conflict) × (q.ptx ≢ p.ptx))
look_up-image p l i q d at a =
    let (j, x, at', a', c) = look_up-found p l (λ f. look_up-fresh p l i q f at a) in
    let ij = d i j q x at at' (a ∙ sym a') in
    let e : some q ≡ some x = sym at ∙ ap (get_elem? l) ij ∙ at' in
    let e' : x ≡ q = cc in
    subst
      (λ y. ((look_up p l ≡ same) × (y.ptx ≡ p.ptx)) ⊎ ((look_up p l ≡ conflict) × (y.ptx ≢ p.ptx)))
      e' c

register-fresh_image :
    (p : Prebuilt) (r : Registry)
    → get_elem? (file p r p.source_sha256) (length (r p.source_sha256)) ≡ some p
register-fresh_image p r = rw (file-at p r) (get_elem?-append_end (r p.source_sha256) p)

some_inj : {a b : Registry} → some a ≡ some b → a ≡ b
some_inj h = cc

filed :
    (p : Prebuilt) (r : Registry) (i : ℕ) (q : Prebuilt)
    → Sound r
    → get_elem? (r p.source_sha256) i ≡ some q
    → q.arch ≡ p.arch
    → q.ptx ≡ p.ptx
    → Sound r
      × (register_prebuilt p r ≡ some r)
      × (i : ℕ) × (q : Prebuilt) × (get_elem? (r p.source_sha256) i ≡ some q)
      × (q.arch ≡ p.arch)
      × (q.ptx ≡ p.ptx)
filed p r i q s at a b = elim (look_up-image p _ i q (s p.source_sha256).0 at a) [
  | inl (k, e) ↦ (s, register-same p r k, i, q, at, a, b)
  | inr (k, ne) ↦ absurd (ne b)
]

-- A registry in which every image is filed under its own hash and no two images under one hash are for
-- the same architecture stays so when RegisterPrebuilt returns; then an image with the bytes and for
-- the architecture of what was registered is filed under its hash, and to register it again changes
-- nothing.
pub register_prebuilt-some :
    (p : Prebuilt) (r r' : Registry)
    → Sound r
    → register_prebuilt p r ≡ some r'
    → Sound r'
      × (register_prebuilt p r' ≡ some r')
      × (i : ℕ) × (q : Prebuilt) × (get_elem? (r' p.source_sha256) i ≡ some q)
      × (q.arch ≡ p.arch)
      × (q.ptx ≡ p.ptx)
register_prebuilt-some p r r' s h = elim (look_up-cases p (r p.source_sha256)) [
  | inl f ↦
      let e : file p r ≡ r' = some_inj (sym (register-fresh p r f) ∙ h) in
      let s' = subst Sound e (file-Sound p r s f) in
      let at =
        ap (λ x. get_elem? (x p.source_sha256) (length (r p.source_sha256))) (sym e)
        ∙ register-fresh_image p r in
      filed p r' _ p s' at refl refl
  | inr n ↦
      let (i, q, at, a, c) = look_up-found p (r p.source_sha256) n in
      elim c [
        | inl (k, b) ↦
            let e : r ≡ r' = some_inj (sym (register-same p r k) ∙ h) in
            filed p r' i q (subst Sound e s)
              (ap (λ x. get_elem? (x p.source_sha256) i) (sym e) ∙ at) a b
        | inr (k, b) ↦ let bad : none ≡ some r' = sym (register-conflict p r k) ∙ h in cc
      ]
]

-- For such a registry RegisterPrebuilt panics exactly when an image for the same source and the same
-- architecture is filed whose bytes are others.
pub register_prebuilt-none_iff :
    (p : Prebuilt) (r : Registry)
    → Sound r
    → (register_prebuilt p r ≡ none) ↔ (
        (i : ℕ) × (q : Prebuilt) × (get_elem? (r p.source_sha256) i ≡ some q)
        × (q.arch ≡ p.arch)
        × (q.ptx ≢ p.ptx))
register_prebuilt-none_iff p r s = (
  λ h. elim (look_up-cases p (r p.source_sha256)) [
    | inl f ↦ let bad : none ≡ some (file p r) = sym h ∙ register-fresh p r f in cc
    | inr n ↦
        let (i, q, at, a, c) = look_up-found p (r p.source_sha256) n in
        elim c [
          | inl (k, b) ↦ let bad : none ≡ some r = sym h ∙ register-same p r k in cc
          | inr (k, b) ↦ (i, q, at, a, b)
        ]
  ],
  λ (i, q, at, a, b). elim (look_up-image p _ i q (s p.source_sha256).0 at a) [
    | inl (k, e) ↦ absurd (b e)
    | inr (k, e) ↦ register-conflict p r k
  ],
)
