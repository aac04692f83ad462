-- ===== src/Tile/Codegen/Order.antt =====
-- tile/codegen.go: postorder lists every node that the root depends on.
use simtgo.Base.{
  ℕ, ◌+◌, ◌≤◌, ◌<◌, ◌≡◌, ◌⊎◌, refl, sym, ◌∙◌, ap, subst, true, false, List, [], ◌∷◌, ◌++◌, some,
  ◌==◌, get_elem?, get_elem?-append_left, get_elem?-append_end, arith, Bool-cases, inl, inr, ==_iff,
  length, ltb, ltb→lt,
}
use simtgo.Tile.Graph.{Node, input, unary, binary, fir, Op1, Op2, ref_of}
use simtgo.Tile.Graph.WellBuilt.{Recorded, Args}
use simtgo.Tile.Codegen.{member, postorder, order_of}

member-cons : (q r : ℕ) (l : List ℕ) → member q (r ∷ l) ≡ true → (q ≡ r) ⊎ (member q l ≡ true)
member-cons q r l h = elim (Bool-cases (q == r)) [
  | inl e ↦ inl ((==_iff q r).0 e)
  | inr e ↦ inr (ground arith)
]

module _ {F : Type 0} where
  -- A predicate of a node and of everything it depends on.
  abbrev pub Every : (Node F → Type 0) → Node F → Type 0
  Every P (input r n h) = P (input r n h)
  Every P (unary r n o a) = P (unary r n o a) × Every P a
  Every P (binary r n o a b) = P (binary r n o a b) × Every P a × Every P b
  Every P (fir r n s t) = P (fir r n s t) × Every P s × Every P t

  pub every_self : (P : Node F → Type 0) (m : Node F) → Every P m → P m
  every_self P (input r n h) e = e
  every_self P (unary r n o a) e = e.0
  every_self P (binary r n o a b) e = e.0
  every_self P (fir r n s t) e = e.0

  pub Every-map :
      (P Q : Node F → Type 0) → ((m : Node F) → P m → Q m) → (m : Node F) → Every P m → Every Q m
  Every-map P Q f (input r n h) e = f _ e
  Every-map P Q f (unary r n o a) e = (f _ e.0, Every-map P Q f a e.1)
  Every-map P Q f (binary r n o a b) e = (f _ e.0, Every-map P Q f a e.1, Every-map P Q f b e.2)
  Every-map P Q f (fir r n s t) e = (f _ e.0, Every-map P Q f s e.1, Every-map P Q f t e.2)

  abbrev pub In : Node F → List (Node F) → Type 0
  In m l = (i : ℕ) × (get_elem? l i ≡ some m)

  -- The list has the node and everything it depends on.
  abbrev pub Done : List (Node F) → Node F → Type 0
  Done l m = Every (λ s. In s l) m

  -- A node of the graph whose arguments stand before it.
  abbrev pub Placed : List (Node F) → Node F → Type 0
  Placed g m = Recorded g m × Args (λ a. ref_of a < ref_of m) m

  -- Of the nodes seen whose ref is below b, each is done.
  abbrev pub Seen : List (Node F) → ℕ → List (Node F) × List ℕ → Type 0
  Seen g b (out, seen) =
      (r : ℕ)
      → member r seen ≡ true
      → r < b
      → (m : Node F) × (ref_of m ≡ r) × Recorded g m × Done out m

  -- What a visit of a node with this ref does.
  abbrev pub Grown : ℕ → List (Node F) × List ℕ → List (Node F) × List ℕ → Type 0
  Grown r (out, seen) (out', seen') =
      ((m : Node F) → In m out → In m out')
      × ((q : ℕ) → member q seen' ≡ true → (member q seen ≡ true) ⊎ (q ≤ r))

  pub Recorded-unique :
      (g : List (Node F)) (m m' : Node F)
      → Recorded g m
      → Recorded g m'
      → ref_of m ≡ ref_of m'
      → m ≡ m'
  Recorded-unique g m m' h h' e = let q : some m ≡ some m' = sym h ∙ ap (get_elem? g) e ∙ h' in cc

  pub postorder-seen :
      (m : Node F) (v : List (Node F) × List ℕ) → member (ref_of m) v.1 ≡ true → postorder m v ≡ v
  unfolding postorder
  postorder-seen (input r n h) v e = rw e refl
  postorder-seen (unary r n o a) v e = rw e refl
  postorder-seen (binary r n o a b) v e = rw e refl
  postorder-seen (fir r n s t) v e = rw e refl

  In-snoc : (l : List (Node F)) (x m : Node F) → In m l → In m (l ++ (x ∷ []))
  In-snoc l x m (i, e) = (i, get_elem?-append_left l (x ∷ []) i m e)

  done-mono :
      (l l' : List (Node F))
      → ((m : Node F) → In m l → In m l')
      → (m : Node F) → Done l m
      → Done l' m
  done-mono l l' f m d = Every-map (λ s. In s l) (λ s. In s l') f m d

  -- A node that was seen, with all it depends on, is done.
  seen-done :
      (g : List (Node F)) (b : ℕ) (m : Node F) (v : List (Node F) × List ℕ)
      → Seen g b v
      → ref_of m < b
      → Recorded g m
      → member (ref_of m) v.1 ≡ true
      → Done v.0 m
  seen-done g b m (out, seen) k lt rec e =
      let (m', r, rec', d) = k (ref_of m) e lt in
      subst (Done out) (Recorded-unique g m' m rec' rec r) d

  done-args : (l : List (Node F)) (m : Node F) → In m l → Args (Done l) m → Done l m
  done-args l (input r n h) i p = i
  done-args l (unary r n o a) i p = (i, p)
  done-args l (binary r n o a b) i p = (i, p.0, p.1)
  done-args l (fir r n s t) i p = (i, p.0, p.1)

  Args-mono :
      (l l' : List (Node F)) (x : Node F)
      → ((m : Node F) → In m l → In m l')
      → Args (Done l) x
      → Args (Done l') x
  Args-mono l l' (input r n h) f p = p
  Args-mono l l' (unary r n o a) f p = done-mono l l' f a p
  Args-mono l l' (binary r n o a b) f p = (done-mono l l' f a p.0, done-mono l l' f b p.1)
  Args-mono l l' (fir r n s t) f p = (done-mono l l' f s p.0, done-mono l l' f t p.1)

  -- The end of a visit of a node that had not been seen, after those of its arguments.
  finish :
      (g : List (Node F)) (b : ℕ) (x : Node F) (out out1 : List (Node F)) (seen seen1 : List ℕ)
      → Recorded g x
      → ref_of x < b
      → Seen g b (out, seen)
      → Grown (ref_of x) (out, ref_of x ∷ seen) (out1, seen1)
      → Seen g (ref_of x) (out1, seen1)
      → Args (Done out1) x
      → Seen g b (out1 ++ (x ∷ []), seen1)
        × Grown (ref_of x) (out, seen) (out1 ++ (x ∷ []), seen1)
        × Done (out1 ++ (x ∷ [])) x
  finish g b x out out1 seen seen1 rec lt k (mono, grow) kr args =
      let out2 = out1 ++ (x ∷ []) in
      let here : In x out2 = (length out1, get_elem?-append_end out1 x) in
      let done : Done out2 x =
        done-args out2 x here (Args-mono out1 out2 x (λ m i. In-snoc out1 x m i) args) in
      let mono2 : (m : Node F) → In m out → In m out2 = λ m i. In-snoc out1 x m (mono m i) in
      let self : (q : ℕ)
          → q ≡ ref_of x
          → (m : Node F) × (ref_of m ≡ q) × Recorded g m × Done out2 m =
        λ q e. (x, sym e, rec, done) in
      (
        λ q mem small. elim (Bool-cases (ltb q (ref_of x))) [
          | inl l ↦
              let (m, r, re, d) = kr q mem (ltb→lt q (ref_of x) l) in
              (m, r, re, done-mono out1 out2 (λ y i. In-snoc out1 x y i) m d)
          | inr l ↦ elim (grow q mem) [
            | inl c ↦ elim (member-cons q (ref_of x) seen c) [
              | inl e ↦ self q e
              | inr old ↦
                  let (m, r, re, d) = k q old small in (m, r, re, done-mono out out2 mono2 m d)
            ]
            | inr le ↦ self q (ground arith)
          ]
        ],
        (
          mono2,
          λ q mem. elim (grow q mem) [
            | inl c ↦ elim (member-cons q (ref_of x) seen c) [
              | inl e ↦ inr (omega (arith, e))
              | inr old ↦ inl old
            ]
            | inr le ↦ inr le
          ],
        ),
        done,
      )

  -- The nodes being visited lie above.
  seen-cons :
      (g : List (Node F)) (b r : ℕ) (out : List (Node F)) (seen : List ℕ)
      → Seen g b (out, seen)
      → r < b
      → Seen g r (out, r ∷ seen)
  seen-cons g b r out seen k lt q mem small = elim (member-cons q r seen mem) [
    | inl e ↦ let bad : 1 ≤ 0 = omega (arith, e, small) in elim bad [ ]
    | inr old ↦ k q old (omega (arith, small, lt))
  ]

  grown-trans :
      (r s t : ℕ) (u v w : List (Node F) × List ℕ)
      → s ≤ r
      → t ≤ r
      → Grown s u v
      → Grown t v w
      → Grown r u w
  grown-trans r s t u v w hs ht (f, p) (g, q) = (
    λ m i. g m (f m i),
    λ x mem. elim (q x mem) [
      | inl old ↦ elim (p x old) [ inl o ↦ inl o | inr le ↦ inr (omega (arith, le, hs)) ]
      | inr le ↦ inr (omega (arith, le, ht))
    ],
  )

  -- What a visit gives.
  abbrev pub Visited : List (Node F) → ℕ → Node F → List (Node F) × List ℕ → Type 0
  Visited g b m v =
      Seen g b (postorder m v) × Grown (ref_of m) v (postorder m v) × Done (postorder m v).0 m

  Visited-at :
      (g : List (Node F)) (b : ℕ) (m : Node F) (v w : List (Node F) × List ℕ)
      → postorder m v ≡ w
      → Seen g b w × Grown (ref_of m) v w × Done w.0 m
      → Visited g b m v
  Visited-at g b m v w e p = subst (λ z. Seen g b z × Grown (ref_of m) v z × Done z.0 m) (sym e) p

  Visited-seen :
      (g : List (Node F)) (b : ℕ) (m : Node F) (v : List (Node F) × List ℕ)
      → Seen g b v
      → ref_of m < b
      → Recorded g m
      → member (ref_of m) v.1 ≡ true
      → Visited g b m v
  Visited-seen g b m v k lt rec e =
      rw (postorder-seen m v e) (k, ((λ y i. i), (λ q mem. inl mem)), seen-done g b m v k lt rec e)

  pub postorder-unary :
      (r n : ℕ) (o : Op1 F) (a : Node F) (out : List (Node F)) (seen : List ℕ)
      → member r seen ≡ false
      → postorder (unary r n o a) (out, seen)
        ≡ ((postorder a (out, r ∷ seen)).0 ++ (unary r n o a ∷ []), (postorder a (out, r ∷ seen)).1)
  unfolding postorder
  postorder-unary r n o a out seen e = rw e refl

  pub postorder-binary :
      (r n : ℕ) (o : Op2) (a b : Node F) (out : List (Node F)) (seen : List ℕ)
      → member r seen ≡ false
      → let v = postorder b (postorder a (out, r ∷ seen)) in
        postorder (binary r n o a b) (out, seen) ≡ (v.0 ++ (binary r n o a b ∷ []), v.1)
  unfolding postorder
  postorder-binary r n o a b out seen e = rw e refl

  pub postorder-fir :
      (r n : ℕ) (s t : Node F) (out : List (Node F)) (seen : List ℕ)
      → member r seen ≡ false
      → let v = postorder t (postorder s (out, r ∷ seen)) in
        postorder (fir r n s t) (out, seen) ≡ (v.0 ++ (fir r n s t ∷ []), v.1)
  unfolding postorder
  postorder-fir r n s t out seen e = rw e refl

  pub postorder-input :
      (r n : ℕ) (h : List F) (out : List (Node F)) (seen : List ℕ)
      → member r seen ≡ false
      → postorder (input r n h) (out, seen) ≡ (out ++ (input r n h ∷ []), r ∷ seen)
  unfolding postorder
  postorder-input r n h out seen e = rw e refl

  -- A visit of a node of the graph whose nodes have only arguments before them.
  pub visit :
      (g : List (Node F)) (b : ℕ) (m : Node F) (v : List (Node F) × List ℕ)
      → Every (Placed g) m
      → Seen g b v
      → ref_of m < b
      → Visited g b m v
  visit g b (input r n h) (out, seen) p k lt = elim (Bool-cases (member r seen)) [
    | inl e ↦ Visited-seen g b (input r n h) (out, seen) k lt p.0 e
    | inr e ↦
        Visited-at g b (input r n h) (out, seen) _ (postorder-input r n h out seen e)
          (finish g b (input r n h) out out seen (r ∷ seen) p.0 lt k
            ((λ y i. i), (λ q mem. inl mem)) (seen-cons g b r out seen k lt) tt)
  ]
  visit g b (unary r n o a) (out, seen) (p, pa) k lt = elim (Bool-cases (member r seen)) [
    | inl e ↦ Visited-seen g b (unary r n o a) (out, seen) k lt p.0 e
    | inr e ↦
        let va = visit g r a (out, r ∷ seen) pa (seen-cons g b r out seen k lt) p.1 in
        let w = postorder a (out, r ∷ seen) in
        Visited-at g b (unary r n o a) (out, seen) _ (postorder-unary r n o a out seen e)
          (finish g b (unary r n o a) out w.0 seen w.1 p.0 lt k
            (grown-trans r (ref_of a) r (out, r ∷ seen) w w (omega (arith, p)) (omega arith) va.1
              ((λ y i. i), (λ q mem. inl mem)))
            va.0 va.2)
  ]
  visit g b (binary r n o a c) (out, seen) (p, pa, pc) k lt = elim (Bool-cases (member r seen)) [
    | inl e ↦ Visited-seen g b (binary r n o a c) (out, seen) k lt p.0 e
    | inr e ↦
        let u : List (Node F) × List ℕ = (out, r ∷ seen) in
        let va = visit g r a u pa (seen-cons g b r out seen k lt) p.1.0 in
        let w = postorder a u in
        let vc = visit g r c w pc va.0 p.1.1 in
        let z = postorder c w in
        Visited-at g b (binary r n o a c) (out, seen) _ (postorder-binary r n o a c out seen e)
          (finish g b (binary r n o a c) out z.0 seen z.1 p.0 lt k
            (grown-trans r (ref_of a) (ref_of c) u w z (omega (arith, p)) (omega (arith, p)) va.1
              vc.1)
            vc.0 (done-mono w.0 z.0 vc.1.0 a va.2, vc.2))
  ]
  visit g b (fir r n s t) (out, seen) (p, ps, pt) k lt = elim (Bool-cases (member r seen)) [
    | inl e ↦ Visited-seen g b (fir r n s t) (out, seen) k lt p.0 e
    | inr e ↦
        let u : List (Node F) × List ℕ = (out, r ∷ seen) in
        let va = visit g r s u ps (seen-cons g b r out seen k lt) p.1.0 in
        let w = postorder s u in
        let vc = visit g r t w pt va.0 p.1.1 in
        let z = postorder t w in
        Visited-at g b (fir r n s t) (out, seen) _ (postorder-fir r n s t out seen e)
          (finish g b (fir r n s t) out z.0 seen z.1 p.0 lt k
            (grown-trans r (ref_of s) (ref_of t) u w z (omega (arith, p)) (omega (arith, p)) va.1
              vc.1)
            vc.0 (done-mono w.0 z.0 vc.1.0 s va.2, vc.2))
  ]

  -- The order that a kernel is generated from has the root and every node that the root depends on, for
  -- a root that with all these is a node of a graph whose nodes have only arguments before them.
  pub order_of-Done :
      (g : List (Node F)) (root : Node F) → Every (Placed g) root → Done (order_of root) root
  unfolding order_of
  order_of-Done g root p =
      (visit g (ref_of root + 1) root ([], []) p (λ q mem small. cc) (omega arith)).2
