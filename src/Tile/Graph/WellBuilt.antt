-- ===== src/Tile/Graph/WellBuilt.antt =====
-- tile/tile.go: what every graph that the operations build satisfies.
use simtgo.Base.{
  ℕ, ◌≤◌, ◌<◌, ◌≡◌, refl, sym, ◌∙◌, ap, subst, true, false, List, [], ◌∷◌, ◌++◌, some, ltb, ◌==◌,
  length, get_elem?, get_elem?-lt, get_elem?-append_left, get_elem?-append_end, get_elem?-snoc,
  arith, Bool-cases, inl, inr, ◌⊎◌, ◌≢◌, ==_iff,
}
use simtgo.Tile.Graph.{
  TileError, different_graphs, length_mismatch, bad_taps, chained, Call, call_input, call_unary,
  call_binary, call_fir, build, Node, input, unary, binary, fir, Graph, Tensor, Op1, Op2, ref_of,
  len_of, contains_fir, add_node, fail, add_input, add_unary, add_binary, add_fir, max_taps,
}

module _ {F : Type 0} where
  -- The node stands in the list at its own ref.
  abbrev pub Recorded : List (Node F) → Node F → Type 0
  Recorded l m = get_elem? l (ref_of m) ≡ some m

  -- The arguments of a node satisfy a predicate.
  abbrev pub Args : (Node F → Type 0) → Node F → Type 0
  Args P (input r n h) = Unit
  Args P (unary r n o a) = P a
  Args P (binary r n o a b) = P a × P b
  Args P (fir r n s t) = P s × P t

  -- The element counts and the windows of one node.
  abbrev pub Shape : Node F → Type 0
  Shape (input r n h) = n ≡ length h
  Shape (unary r n o a) = len_of a ≡ n
  Shape (binary r n o a b) = (len_of a ≡ n) × (len_of b ≡ n)
  Shape (fir r n s (input q c h)) =
      (len_of s ≡ n) × (contains_fir s ≡ false) × (1 ≤ c) × (c ≤ max_taps)
  Shape (fir r n s t) = 1 ≤ 0

  -- Every node of the list stands at its ref, has the shape of its operation, and its arguments are
  -- nodes of the list before it.
  abbrev pub Sound : List (Node F) → Type 0
  Sound l =
      (i : ℕ) (m : Node F)
      → get_elem? l i ≡ some m
      → (ref_of m ≡ i) × Shape m × Args (λ a. Recorded l a × (ref_of a < i)) m

  -- A tensor of the graph.
  abbrev pub Of : Graph F → Tensor F → Type 0
  Of g t = (t.g ≡ g.key) × Recorded g.nodes t.node

  Recorded-snoc : (l : List (Node F)) (x m : Node F) → Recorded l m → Recorded (l ++ (x ∷ [])) m
  Recorded-snoc l x m h = get_elem?-append_left l (x ∷ []) (ref_of m) m h

  Args-snoc :
      (l : List (Node F)) (x m : Node F) (i : ℕ)
      → Args (λ a. Recorded l a × (ref_of a < i)) m
      → Args (λ a. Recorded (l ++ (x ∷ [])) a × (ref_of a < i)) m
  Args-snoc l x (input r n h) i p = p
  Args-snoc l x (unary r n o a) i p = (Recorded-snoc l x a p.0, p.1)
  Args-snoc l x (binary r n o a b) i p =
      ((Recorded-snoc l x a p.0.0, p.0.1), (Recorded-snoc l x b p.1.0, p.1.1))
  Args-snoc l x (fir r n s t) i p =
      ((Recorded-snoc l x s p.0.0, p.0.1), (Recorded-snoc l x t p.1.0, p.1.1))

  -- A sound list with one more node at its end.
  Sound-snoc :
      (l : List (Node F)) (x : Node F)
      → Sound l
      → ref_of x ≡ length l
      → Shape x
      → Args (λ a. Recorded l a × (ref_of a < length l)) x
      → Sound (l ++ (x ∷ []))
  Sound-snoc l x s r sh args i m h = elim (get_elem?-snoc l x i m h) [
    | inl e ↦ let (a, b, c) = s i m e in (a, b, Args-snoc l x m i c)
    | inr (e, q) ↦
        subst
          (λ y.
            (ref_of y ≡ i) × Shape y × Args (λ a. Recorded (l ++ (x ∷ [])) a × (ref_of a < i)) y)
          (sym q)
          (
            r ∙ sym e,
            sh,
            subst (λ j. Args (λ a. Recorded (l ++ (x ∷ [])) a × (ref_of a < j)) x) (sym e)
                (Args-snoc l x x (length l) args),
          )
  ]

  Recorded-lt : (l : List (Node F)) (m : Node F) → Recorded l m → ref_of m < length l
  Recorded-lt l m h = get_elem?-lt l (ref_of m) m h

  -- A graph and a tensor that an operation on g may give.
  abbrev pub Built : Graph F → Graph F × Tensor F → Type 0
  Built g (g', t) =
      Sound g'.nodes
      × Of g' t
      × (g'.key ≡ g.key)
      × ((m : Node F) → Recorded g.nodes m → Recorded g'.nodes m)

  add_node-Built :
      (make : ℕ → Node F) (g : Graph F)
      → Sound g.nodes
      → ref_of (make (length g.nodes)) ≡ length g.nodes
      → Shape (make (length g.nodes))
      → Args (λ a. Recorded g.nodes a × (ref_of a < length g.nodes)) (make (length g.nodes))
      → Built g (add_node make g)
  unfolding add_node
  add_node-Built make g s r sh args =
      let x = make (length g.nodes) in
      (
        Sound-snoc g.nodes x s r sh args,
        (refl, ap (get_elem? (g.nodes ++ (x ∷ []))) r ∙ get_elem?-append_end g.nodes x),
        refl,
        λ m h. Recorded-snoc g.nodes x m h,
      )

  fail-Built :
      (e : TileError) (g : Graph F) (t : Tensor F) → Sound g.nodes → Of g t → Built g (fail e g, t)
  unfolding fail
  fail-Built e g t s o = (s, o, refl, λ m h. h)

  add_input-Built : (xs : List F) (g : Graph F) → Sound g.nodes → Built g (add_input xs g)
  unfolding add_input
  add_input-Built xs g s = add_node-Built (λ r. input r (length xs) xs) g s refl refl tt

  add_unary-Built :
      (o : Op1 F) (a : Tensor F) (g : Graph F) → Sound g.nodes → Of g a → Built g (add_unary o a g)
  unfolding add_unary
  add_unary-Built o a g s h =
      add_node-Built (λ r. unary r (len_of a.node) o a.node) g s refl refl
        (h.1, Recorded-lt g.nodes a.node h.1)

  add_binary-Built :
      (o : Op2) (a b : Tensor F) (g : Graph F)
      → Sound g.nodes
      → Of g a
      → ((b.g ≡ g.key) → Of g b)
      → Built g (add_binary o a b g)
  unfolding add_binary
  add_binary-Built o a b g s ha hb = elim (Bool-cases (a.g == b.g)) [
    | inl e ↦ elim (Bool-cases (len_of a.node == len_of b.node)) [
      | inl f ↦
          let eg : b.g ≡ g.key = sym ((==_iff a.g b.g).0 e) ∙ ha.0 in
          let ob = hb eg in
          let n = (==_iff (len_of a.node) (len_of b.node)).0 f in
          rw (e, f)
            (add_node-Built (λ r. binary r (len_of a.node) o a.node b.node) g s refl (refl, sym n)
              ((ha.1, Recorded-lt g.nodes a.node ha.1), (ob.1, Recorded-lt g.nodes b.node ob.1)))
      | inr f ↦ rw (e, f) (fail-Built (length_mismatch o (len_of a.node) (len_of b.node)) g a s ha)
    ]
    | inr e ↦ rw e (fail-Built (different_graphs o) g a s ha)
  ]

  -- The two nodes that FIR adds.
  add_taps : List F → Graph F → Graph F × Tensor F
  add_taps h g = add_node (λ r. input r (length h) h) g

  fir_shape :
      (h : List F)
      → (length h == 0) ≡ false
      → ltb max_taps (length h) ≡ false
      → (1 ≤ length h) × (length h ≤ max_taps)
  fir_shape h e f = (ground arith, ground arith)

  add_fir-taken :
      (a : Tensor F) (h : List F) (g : Graph F)
      → (length h == 0) ≡ false
      → ltb max_taps (length h) ≡ false
      → contains_fir a.node ≡ false
      → let g' = (add_taps h g).0 in
        let taps = input (length g.nodes) (length h) h in
        add_fir a h g ≡ add_node (λ r. fir r (len_of a.node) a.node taps) g'
  unfolding add_fir add_taps
  add_fir-taken a h g e f c = rw (e, f, c) refl

  add_fir-empty :
      (a : Tensor F) (h : List F) (g : Graph F)
      → (length h == 0) ≡ true
      → add_fir a h g ≡ (fail (bad_taps (length h)) g, a)
  unfolding add_fir
  add_fir-empty a h g e = rw e refl

  add_fir-long :
      (a : Tensor F) (h : List F) (g : Graph F)
      → (length h == 0) ≡ false
      → ltb max_taps (length h) ≡ true
      → add_fir a h g ≡ (fail (bad_taps (length h)) g, a)
  unfolding add_fir
  add_fir-long a h g e f = rw (e, f) refl

  add_fir-chained :
      (a : Tensor F) (h : List F) (g : Graph F)
      → (length h == 0) ≡ false
      → ltb max_taps (length h) ≡ false
      → contains_fir a.node ≡ true
      → add_fir a h g ≡ (fail chained g, a)
  unfolding add_fir
  add_fir-chained a h g e f c = rw (e, f, c) refl

  add_fir-Built :
      (a : Tensor F) (h : List F) (g : Graph F) → Sound g.nodes → Of g a → Built g (add_fir a h g)
  unfolding add_taps add_node
  add_fir-Built a h g s ha = elim (Bool-cases (length h == 0)) [
    | inl e ↦ rw (add_fir-empty a h g e) (fail-Built (bad_taps (length h)) g a s ha)
    | inr e ↦ elim (Bool-cases (ltb max_taps (length h))) [
      | inl f ↦ rw (add_fir-long a h g e f) (fail-Built (bad_taps (length h)) g a s ha)
      | inr f ↦ elim (Bool-cases (contains_fir a.node)) [
        | inl c ↦ rw (add_fir-chained a h g e f c) (fail-Built chained g a s ha)
        | inr c ↦
            let taps = input (length g.nodes) (length h) h in
            let g1 = (add_taps h g).0 in
            let (s1, o1, k1, keep1) = add_node-Built (λ r. input r (length h) h) g s refl refl tt in
            let lt = Recorded-lt g1.nodes taps o1.1 in
            let b =
              add_node-Built (λ r. fir r (len_of a.node) a.node taps) g1 s1 refl
                (refl, c, (fir_shape h e f).0, (fir_shape h e f).1)
                (
                  (keep1 a.node ha.1, Recorded-lt g1.nodes a.node (keep1 a.node ha.1)),
                  (o1.1, lt),
                ) in
            rw (add_fir-taken a h g e f c) (b.0, b.1, b.2 ∙ k1, λ m r. b.3 m (keep1 m r))
      ]
    ]
  ]

  -- What a call to build with is given: each operand is a tensor of the graph, but for a second one
  -- that comes from another graph.
  abbrev pub Operands : Graph F → Call F → Type 0
  Operands g (call_input xs) = Unit
  Operands g (call_unary o a) = Of g a
  Operands g (call_binary o a b) = Of g a × (Of g b ⊎ (b.g ≢ g.key))
  Operands g (call_fir a h) = Of g a

  Of-own : (g : Graph F) (b : Tensor F) → Of g b ⊎ (b.g ≢ g.key) → b.g ≡ g.key → Of g b
  Of-own g b (inl o) e = o
  Of-own g b (inr n) e = absurd (n e)

  -- Whatever operation is called on a graph that is sound, with operands of the graph or a second one of
  -- another, the graph stays sound: every node stands at its ref and has only arguments before it,
  -- the operands of a node have its element count, and a windowed operation has 1 to 64 taps and
  -- no windowed operation in its signal. The tensor that is returned is one of the graph, and so is
  -- every tensor that was.
  pub build-Built : (c : Call F) (g : Graph F) → Sound g.nodes → Operands g c → Built g (build c g)
  unfolding build
  build-Built (call_input xs) g s p = add_input-Built xs g s
  build-Built (call_unary o a) g s p = add_unary-Built o a g s p
  build-Built (call_binary o a b) g s p = add_binary-Built o a b g s p.0 (Of-own g b p.1)
  build-Built (call_fir a h) g s p = add_fir-Built a h g s p
