-- ===== src/Tile/Run/Buffers.antt =====
-- tile/codegen.go: a rendered expression computes the value of its node.
use simtgo.Base.{
  ℕ, zero, suc, ◌≡◌, ◌⊎◌, refl, sym, ◌∙◌, ap, true, false, List, [], ◌∷◌, some, ◌==◌, ==_iff,
  get_elem?, Bool-cases, inl, inr, map,
}
use simtgo.Tile.Graph.{Node, input, unary, binary, fir, ref_of, Op1, scale, sqrtf, fabsf}
use simtgo.Tile.Graph.WellBuilt.{Recorded}
use simtgo.Tile.Codegen.{member, index_of, local, inputs_of, param_of, expr}
use simtgo.Tile.Codegen.Order.{Every, In, Done, Recorded-unique}
use simtgo.Tile.Run.{Arith, value, host_of, host_at, buffer, run_expr, or_zero, do_op1, run_op1}

module _ {F : Type 0} where
  -- The lookup of a node's parameter finds a node with the same ref.
  index_of-map :
      (l : List (Node F)) (r : ℕ) (i : ℕ) (m : Node F)
      → get_elem? l i ≡ some m
      → ref_of m ≡ r
      → (x : Node F) × (get_elem? l (index_of r (map ref_of l)) ≡ some x) × (ref_of x ≡ r)
  index_of-map [] r i m h e = cc
  index_of-map (x ∷ l) r zero m h e =
      let q : x ≡ m = cc in
      let b : (r == ref_of x) ≡ true = (==_iff r (ref_of x)).1 (sym (ap ref_of q ∙ e)) in
      (x, rw b refl, ap ref_of q ∙ e)
  index_of-map (x ∷ l) r (suc i) m h e = elim (Bool-cases (r == ref_of x)) [
    | inl b ↦ (x, rw b refl, sym ((==_iff r (ref_of x)).0 b))
    | inr b ↦ let (y, g, f) = index_of-map l r i m h e in (y, rw b g, f)
  ]

  inputs_of-In :
      (l : List (Node F)) (r n : ℕ) (h : List F)
      → In (input r n h) l
      → In (input r n h) (inputs_of l)
  unfolding inputs_of
  inputs_of-In [] r n h (i, e) = cc
  inputs_of-In (input q k g ∷ l) r n h (zero, e) = (0, e)
  inputs_of-In (input q k g ∷ l) r n h (suc i, e) =
      let (j, f) = inputs_of-In l r n h (i, e) in (suc j, f)
  inputs_of-In (unary q k o a ∷ l) r n h (zero, e) = cc
  inputs_of-In (unary q k o a ∷ l) r n h (suc i, e) = inputs_of-In l r n h (i, e)
  inputs_of-In (binary q k o a b ∷ l) r n h (zero, e) = cc
  inputs_of-In (binary q k o a b ∷ l) r n h (suc i, e) = inputs_of-In l r n h (i, e)
  inputs_of-In (fir q k s t ∷ l) r n h (zero, e) = cc
  inputs_of-In (fir q k s t ∷ l) r n h (suc i, e) = inputs_of-In l r n h (i, e)

  In-inputs_of : (l : List (Node F)) (m : Node F) → In m (inputs_of l) → In m l
  unfolding inputs_of
  In-inputs_of [] m (i, e) = cc
  In-inputs_of (input q k g ∷ l) m (zero, e) = (0, e)
  In-inputs_of (input q k g ∷ l) m (suc i, e) = let (j, f) = In-inputs_of l m (i, e) in (suc j, f)
  In-inputs_of (unary q k o a ∷ l) m p = let (j, f) = In-inputs_of l m p in (suc j, f)
  In-inputs_of (binary q k o a b ∷ l) m p = let (j, f) = In-inputs_of l m p in (suc j, f)
  In-inputs_of (fir q k s t ∷ l) m p = let (j, f) = In-inputs_of l m p in (suc j, f)

  -- The constant of a Scale is what its text stands for.
  abbrev pub ReadsAs : Arith F → Op1 F → Type 0
  ReadsAs A (scale k) = A.literal k ≡ k
  ReadsAs A sqrtf = Unit
  ReadsAs A fabsf = Unit

  abbrev pub Reads : Arith F → Node F → Type 0
  Reads A (input r n h) = Unit
  Reads A (unary r n o a) = ReadsAs A o
  Reads A (binary r n o a b) = Unit
  Reads A (fir r n s t) = Unit

  run_op1-Reads : (A : Arith F) (o : Op1 F) (x : F) → ReadsAs A o → run_op1 A o x ≡ do_op1 A o x
  run_op1-Reads A (scale k) x h = ap (λ y. A.times y x) h
  run_op1-Reads A sqrtf x h = refl
  run_op1-Reads A fabsf x h = refl

  -- Every node of the list is one of the graph, and its constant is what its text stands for.
  abbrev pub AllRecorded : Arith F → List (Node F) → List (Node F) → Type 0
  AllRecorded A g l = (m : Node F) → In m l → Recorded g m × Reads A m

  -- The parameter of an input of the order is bound to its data.
  pub buffer-param :
      (A : Arith F) (g l : List (Node F)) (r n : ℕ) (h : List F)
      → AllRecorded A g l
      → In (input r n h) l
      → buffer A (inputs_of l) (param_of (inputs_of l) (input r n h)) ≡ h
  unfolding param_of
  buffer-param A g l r n h rec p =
      let (i, e) = inputs_of-In l r n h p in
      let (x, at, q) = index_of-map (inputs_of l) r i (input r n h) e refl in
      let recx = (rec x (In-inputs_of l x (_, at))).0 in
      let same = Recorded-unique g x (input r n h) recx (rec (input r n h) p).0 q in
      ap (host_at A) at ∙ ap (host_of A) same

  -- Every windowed operation that the rendering meets has a local.
  abbrev pub Local : List ℕ → Node F → Type 0
  Local locals (input r n h) = Unit
  Local locals (unary r n o a) = Local locals a
  Local locals (binary r n o a b) = Local locals a × Local locals b
  Local locals (fir r n s t) = member r locals ≡ true

  -- A local of a node's ref holds the node's value at the index.
  abbrev pub Holds : Arith F → List ℕ → (ℕ → F) → ℕ → Node F → Type 0
  Holds A locals env i m = (member (ref_of m) locals ≡ false) ⊎ (env (ref_of m) ≡ value A m i)

  expr-local :
      (ins : List (Node F)) (locals : List ℕ) (m : Node F)
      → member (ref_of m) locals ≡ true
      → expr ins locals m ≡ local (ref_of m)
  unfolding expr
  expr-local ins locals (input r n h) e = rw e refl
  expr-local ins locals (unary r n o a) e = rw e refl
  expr-local ins locals (binary r n o a b) e = rw e refl
  expr-local ins locals (fir r n s t) e = rw e refl

  run_expr-local :
      (A : Arith F) (ins : List (Node F)) (locals : List ℕ) (env : ℕ → F) (i : ℕ) (m : Node F)
      → Holds A locals env i m
      → member (ref_of m) locals ≡ true
      → run_expr A ins env i (expr ins locals m) ≡ value A m i
  unfolding run_expr
  run_expr-local A ins locals env i m (inl f) e = cc
  run_expr-local A ins locals env i m (inr v) e = rw (expr-local ins locals m e) v

  -- Where the locals that it may read hold the values of their nodes, a rendered expression computes the
  -- value of its node.
  pub run_expr-expr :
      (A : Arith F) (g l : List (Node F)) (locals : List ℕ) (env : ℕ → F) (i : ℕ) (m : Node F)
      → AllRecorded A g l
      → Done l m
      → Local locals m
      → Every (Holds A locals env i) m
      → run_expr A (inputs_of l) env i (expr (inputs_of l) locals m) ≡ value A m i
  unfolding run_expr expr value
  run_expr-expr A g l locals env i (input r n h) rec d loc hold =
      elim (Bool-cases (member r locals)) [
        | inl e ↦ run_expr-local A (inputs_of l) locals env i (input r n h) hold e
        | inr e ↦ rw e (ap (λ x. or_zero A (get_elem? x i)) (buffer-param A g l r n h rec d))
      ]
  run_expr-expr A g l locals env i (unary r n o a) rec d loc hold =
      let ih = run_expr-expr A g l locals env i a rec d.1 loc hold.1 in
      elim (Bool-cases (member r locals)) [
        | inl e ↦ run_expr-local A (inputs_of l) locals env i (unary r n o a) hold.0 e
        | inr e ↦ rw e (ap (run_op1 A o) ih ∙ run_op1-Reads A o (value A a i) (rec _ d.0).1)
      ]
  run_expr-expr A g l locals env i (binary r n o a b) rec d loc hold =
      let ia = run_expr-expr A g l locals env i a rec d.1 loc.0 hold.1 in
      let ib = run_expr-expr A g l locals env i b rec d.2 loc.1 hold.2 in
      elim (Bool-cases (member r locals)) [
        | inl e ↦ run_expr-local A (inputs_of l) locals env i (binary r n o a b) hold.0 e
        | inr e ↦ rw (e, ia, ib) refl
      ]
  run_expr-expr A g l locals env i (fir r n s t) rec d loc hold =
      run_expr-local A (inputs_of l) locals env i (fir r n s t) hold.0 loc
