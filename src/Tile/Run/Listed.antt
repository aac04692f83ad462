-- ===== src/Tile/Run/Listed.antt =====
-- tile/codegen.go: what holds of a node and of all it depends on holds of the order that is generated from.
use simtgo.Base.{
  ℕ, zero, suc, ◌≡◌, refl, sym, ◌∙◌, ap, subst, true, List, [], ◌∷◌, ◌++◌, some, ==_refl, arith,
  Bool-cases, inl, inr, get_elem?-snoc,
}
use simtgo.Tile.Graph.{Node, input, unary, binary, fir, ref_of, len_of, contains_fir}
use simtgo.Tile.Graph.WellBuilt.{Recorded, Shape, Sound}
use simtgo.Tile.Codegen.{member, postorder, order_of, locals_of}
use simtgo.Tile.Codegen.Order.{
  Every, In, Done, Placed, postorder-seen, postorder-input, postorder-unary, postorder-binary,
  postorder-fir,
}
use simtgo.Tile.Run.Buffers.{Local}
use simtgo.Tile.Run.Windows.{Ready, Every-zip}

pub self-member : (r : ℕ) (l : List ℕ) → member r (r ∷ l) ≡ true
self-member r l = rw (==_refl r) refl

module _ {F : Type 0} where
  some_inj : {a b : Node F} → some a ≡ some b → a ≡ b
  some_inj h = cc

  -- A node of a sound graph, with all it depends on, is placed and has its shape.
  pub Sound-Every :
      (g : List (Node F)) (m : Node F)
      → Sound g
      → Recorded g m
      → Every (λ x. Placed g x × Shape x) m
  Sound-Every g (input r n h) s rec = let (a, b, c) = s r (input r n h) rec in ((rec, tt), b)
  Sound-Every g (unary r n o a) s rec =
      let (e, b, c) = s r (unary r n o a) rec in (((rec, c.1), b), Sound-Every g a s c.0)
  Sound-Every g (binary r n o a b) s rec =
      let (e, sh, c) = s r (binary r n o a b) rec in
      (((rec, (c.0.1, c.1.1)), sh), Sound-Every g a s c.0.0, Sound-Every g b s c.1.0)
  Sound-Every g (fir r n s t) snd rec =
      let (e, sh, c) = snd r (fir r n s t) rec in
      (((rec, (c.0.1, c.1.1)), sh), Sound-Every g s snd c.0.0, Sound-Every g t snd c.1.0)

  Every-dup : (P : Node F → Type 0) (m : Node F) → Every P m → Every (Every P) m
  Every-dup P (input r n h) p = p
  Every-dup P (unary r n o a) p = (p, Every-dup P a p.1)
  Every-dup P (binary r n o a b) p = (p, Every-dup P a p.1, Every-dup P b p.2)
  Every-dup P (fir r n s t) p = (p, Every-dup P s p.1, Every-dup P t p.2)

  -- Windowed operations have the root's element count.
  sized :
      (N : ℕ) (m : Node F)
      → Every Shape m
      → len_of m ≡ N
      → Every (λ x. (contains_fir x ≡ true) → len_of x ≡ N) m
  unfolding contains_fir
  sized N (input r n h) sh e = λ c. e
  sized N (unary r n o a) sh e = ((λ c. e), sized N a sh.1 (sh.0 ∙ e))
  sized N (binary r n o a b) sh e =
      ((λ c. e), sized N a sh.1 (sh.0.0 ∙ e), sized N b sh.2 (sh.0.1 ∙ e))
  sized N (fir r n s (input q c h)) sh e = ((λ x. e), sized N s sh.1 (sh.0.0 ∙ e), (λ x. cc))
  sized N (fir r n s (unary q k o a)) sh e = elim sh.0 [ ]
  sized N (fir r n s (binary q k o a b)) sh e = elim sh.0 [ ]
  sized N (fir r n s (fir q k a b)) sh e = elim sh.0 [ ]

  listed-snoc :
      (P : Node F → Type 0) (l : List (Node F)) (m : Node F)
      → P m
      → ((x : Node F) → In x l → P x)
      → (x : Node F) → In x (l ++ (m ∷ []))
      → P x
  listed-snoc P l m p q x (i, e) = elim (get_elem?-snoc l m i x e) [
    | inl f ↦ q x (i, f)
    | inr (k, f) ↦ subst P (sym f) p
  ]

  -- A list that a visit gives, by the equation for it.
  listed-at :
      (P : Node F → Type 0) (v w : List (Node F) × List ℕ)
      → v ≡ w
      → ((x : Node F) → In x w.0 → P x)
      → (x : Node F) → In x v.0
      → P x
  listed-at P v w e q x i = q x (subst (λ z. In x z.0) e i)

  -- What holds of a node and of all it depends on holds of the nodes that a visit of it adds.
  listed :
      (P : Node F → Type 0) (m : Node F) (v : List (Node F) × List ℕ)
      → Every P m
      → ((x : Node F) → In x v.0 → P x)
      → (x : Node F) → In x (postorder m v).0
      → P x
  listed P (input r n h) (out, seen) p q = elim (Bool-cases (member r seen)) [
    | inl e ↦ listed-at P _ _ (postorder-seen (input r n h) (out, seen) e) q
    | inr e ↦
        listed-at P _ _ (postorder-input r n h out seen e) (listed-snoc P out (input r n h) p q)
  ]
  listed P (unary r n o a) (out, seen) p q = elim (Bool-cases (member r seen)) [
    | inl e ↦ listed-at P _ _ (postorder-seen (unary r n o a) (out, seen) e) q
    | inr e ↦
        let qa = listed P a (out, r ∷ seen) p.1 q in
        listed-at P _ _ (postorder-unary r n o a out seen e)
          (listed-snoc P _ (unary r n o a) p.0 qa)
  ]
  listed P (binary r n o a b) (out, seen) p q = elim (Bool-cases (member r seen)) [
    | inl e ↦ listed-at P _ _ (postorder-seen (binary r n o a b) (out, seen) e) q
    | inr e ↦
        let qa = listed P a (out, r ∷ seen) p.1 q in
        let qb = listed P b (postorder a (out, r ∷ seen)) p.2 qa in
        listed-at P _ _ (postorder-binary r n o a b out seen e)
          (listed-snoc P _ (binary r n o a b) p.0 qb)
  ]
  listed P (fir r n s t) (out, seen) p q = elim (Bool-cases (member r seen)) [
    | inl e ↦ listed-at P _ _ (postorder-seen (fir r n s t) (out, seen) e) q
    | inr e ↦
        let qa = listed P s (out, r ∷ seen) p.1 q in
        let qb = listed P t (postorder s (out, r ∷ seen)) p.2 qa in
        listed-at P _ _ (postorder-fir r n s t out seen e) (listed-snoc P _ (fir r n s t) p.0 qb)
  ]

  locals_of_mono :
      (k : List (Node F)) (locals : List ℕ) (r : ℕ)
      → member r locals ≡ true
      → member r (locals_of locals k) ≡ true
  unfolding locals_of
  locals_of_mono [] locals r e = e
  locals_of_mono (input q n h ∷ k) locals r e = locals_of_mono k locals r e
  locals_of_mono (unary q n o a ∷ k) locals r e = locals_of_mono k locals r e
  locals_of_mono (binary q n o a b ∷ k) locals r e = locals_of_mono k locals r e
  locals_of_mono (fir q n s t ∷ k) locals r e = locals_of_mono k (q ∷ locals) r (ground arith)

  locals_of-fir :
      (k : List (Node F)) (locals : List ℕ) (r n : ℕ) (s t : Node F)
      → In (fir r n s t) k
      → member r (locals_of locals k) ≡ true
  unfolding locals_of
  locals_of-fir [] locals r n s t (i, e) = cc
  locals_of-fir (input q c h ∷ k) locals r n s t (zero, e) = cc
  locals_of-fir (input q c h ∷ k) locals r n s t (suc i, e) = locals_of-fir k locals r n s t (i, e)
  locals_of-fir (unary q c o a ∷ k) locals r n s t (zero, e) = cc
  locals_of-fir (unary q c o a ∷ k) locals r n s t (suc i, e) =
      locals_of-fir k locals r n s t (i, e)
  locals_of-fir (binary q c o a b ∷ k) locals r n s t (zero, e) = cc
  locals_of-fir (binary q c o a b ∷ k) locals r n s t (suc i, e) =
      locals_of-fir k locals r n s t (i, e)
  locals_of-fir (fir q c a b ∷ k) locals r n s t (zero, e) =
      let qr : q ≡ r = ap ref_of (some_inj e) in
      locals_of_mono k (q ∷ locals) r (rw qr (self-member r locals))
  locals_of-fir (fir q c a b ∷ k) locals r n s t (suc i, e) =
      locals_of-fir k (q ∷ locals) r n s t (i, e)

  pub done-Local : (l : List (Node F)) (m : Node F) → Done l m → Local (locals_of [] l) m
  done-Local l (input r n h) d = tt
  done-Local l (unary r n o a) d = done-Local l a d.1
  done-Local l (binary r n o a b) d = (done-Local l a d.1, done-Local l b d.2)
  done-Local l (fir r n s t) d = locals_of-fir l [] r n s t d.0

  pub listed-order :
      (P : Node F → Type 0) (root : Node F)
      → Every P root
      → (x : Node F) → In x (order_of root)
      → P x
  unfolding order_of
  listed-order P root p = listed P root ([], []) p (λ x i. cc)

  pub Every-Ready :
      (l : List (Node F)) (root : Node F)
      → Done l root
      → Every Shape root
      → Every (Ready l (len_of root)) root
  Every-Ready l root done shapes =
      let done2 = Every-dup (λ s. In s l) root done in
      let shapes2 = Every-dup Shape root shapes in
      let sizes = sized (len_of root) root shapes refl in
      Every-zip (Done l) (λ x. Every Shape x × ((contains_fir x ≡ true) → len_of x ≡ len_of root))
        (Ready l (len_of root)) (λ x a b. (a, b.0, b.1)) root done2
        (Every-zip (Every Shape) (λ x. (contains_fir x ≡ true) → len_of x ≡ len_of root)
          (λ x. Every Shape x × ((contains_fir x ≡ true) → len_of x ≡ len_of root))
          (λ x a b. (a, b)) root shapes2 sizes)
