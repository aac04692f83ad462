-- ===== src/Tile/Codegen.antt =====
-- tile/codegen.go: generate, windowed, expr and postorder. The C text is modelled as what it says: an
-- expression, a window for each windowed operation, and the parameters. An expression names the
-- index it is rendered with nowhere but in its reads, so it is a function of that index when it runs. Scale's
-- constant is written by cfloat; what that text stands for is a matter of the run.
use simtgo.Base.{
  ℕ, zero, suc, ◌+◌, Bool, true, false, ◌||◌, List, [], ◌∷◌, ◌++◌, ◌==◌, if◌then◌else◌, map,
}
use simtgo.Tile.Graph.{Node, input, unary, binary, fir, Op1, Op2, ref_of}
pub mod Order

abbrev pub member : ℕ → List ℕ → Bool
member r [] = false
member r (q ∷ l) = (r == q) || member r l

-- The index of the first r, or the length.
abbrev pub index_of : ℕ → List ℕ → ℕ
index_of r [] = 0
index_of r (q ∷ l) = if r == q then 0 else suc (index_of r l)

-- `p0[i]` and so on; a local is named by the ref of its windowed operation.
pub data CExpr (F : Type 0) : Type 0 where
  read : ℕ → CExpr F
  apply1 : Op1 F → CExpr F → CExpr F
  apply2 : Op2 → CExpr F → CExpr F → CExpr F
  local : ℕ → CExpr F
  zero_literal : CExpr F

-- What windowed emits: the local it ends in, the expression that it stages, and its taps' parameter.
pub record Window (F : Type 0) : Type 0 where
  pub acc : ℕ
  pub signal : CExpr F
  pub taps : ℕ

pub record Source (F : Type 0) : Type 0 where
  pub inputs : List (Node F)
  pub windows : List (Window F)
  pub body : CExpr F

module _ {F : Type 0} where
  -- It threads the slice `out` and the set `seen`, as a list.
  unfoldable pub postorder : Node F → List (Node F) × List ℕ → List (Node F) × List ℕ
  postorder (input r n h) (out, seen) =
      if member r seen then (out, seen) else (out ++ (input r n h ∷ []), r ∷ seen)
  postorder (unary r n o a) (out, seen) =
      let v = postorder a (out, r ∷ seen) in
      if member r seen then (out, seen) else (v.0 ++ (unary r n o a ∷ []), v.1)
  postorder (binary r n o a b) (out, seen) =
      let v = postorder b (postorder a (out, r ∷ seen)) in
      if member r seen then (out, seen) else (v.0 ++ (binary r n o a b ∷ []), v.1)
  postorder (fir r n s t) (out, seen) =
      let v = postorder t (postorder s (out, r ∷ seen)) in
      if member r seen then (out, seen) else (v.0 ++ (fir r n s t ∷ []), v.1)

  -- The parameters: the inputs of the order.
  unfoldable pub inputs_of : List (Node F) → List (Node F)
  inputs_of [] = []
  inputs_of (input r n h ∷ l) = input r n h ∷ inputs_of l
  inputs_of (unary r n o a ∷ l) = inputs_of l
  inputs_of (binary r n o a b ∷ l) = inputs_of l
  inputs_of (fir r n s t ∷ l) = inputs_of l

  -- pname: a parameter is named by its position.
  unfoldable pub param_of : List (Node F) → Node F → ℕ
  param_of ins m = index_of (ref_of m) (map ref_of ins)

  -- expr, with the windowed operations that have a local so far.
  unfoldable pub expr : List (Node F) → List ℕ → Node F → CExpr F
  unfolding param_of
  expr ins locals (input r n h) =
      if member r locals then local r else read (param_of ins (input r n h))
  expr ins locals (unary r n o a) =
      let e = expr ins locals a in if member r locals then local r else apply1 o e
  expr ins locals (binary r n o a b) =
      let e = expr ins locals a in
      let f = expr ins locals b in if member r locals then local r else apply2 o e f
  expr ins locals (fir r n s t) = if member r locals then local r else zero_literal

  -- The windows of the order, each with the locals of those before it.
  unfoldable pub windows_of : List (Node F) → List ℕ → List (Node F) → List (Window F)
  unfolding expr
  windows_of ins locals [] = []
  windows_of ins locals (fir r n s t ∷ l) =
      record { acc = r; signal = expr ins locals s; taps = param_of ins t }
      ∷ windows_of ins (r ∷ locals) l
  windows_of ins locals (input r n h ∷ l) = windows_of ins locals l
  windows_of ins locals (unary r n o a ∷ l) = windows_of ins locals l
  windows_of ins locals (binary r n o a b ∷ l) = windows_of ins locals l

  -- The locals that there are after the windows.
  unfoldable pub locals_of : List ℕ → List (Node F) → List ℕ
  locals_of locals [] = locals
  locals_of locals (fir r n s t ∷ l) = locals_of (r ∷ locals) l
  locals_of locals (input r n h ∷ l) = locals_of locals l
  locals_of locals (unary r n o a ∷ l) = locals_of locals l
  locals_of locals (binary r n o a b ∷ l) = locals_of locals l

  unfoldable pub order_of : Node F → List (Node F)
  unfolding postorder
  order_of root = (postorder root ([], [])).0

  unfoldable pub generate : Node F → Source F
  unfolding order_of inputs_of windows_of locals_of expr
  generate root =
      let order = order_of root in
      let ins = inputs_of order in
      record {
        inputs = ins;
        windows = windows_of ins [] order;
        body = expr ins (locals_of [] order) root;
      }
