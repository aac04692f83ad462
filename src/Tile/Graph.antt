-- ===== src/Tile/Graph.antt =====
-- tile/tile.go: nodes, graphs, and the operations that build them. A node is never changed once it is
-- in a graph, so it is modelled as its value, its arguments' values in it. What tells two nodes
-- apart, in the source their address, is `ref`, the index that Graph.add gives it as `id`.
use simtgo.Base.{
  ℕ, Bool, true, false, not, ◌||◌, List, [], ◌∷◌, ◌++◌, Option, some, none, ltb, ◌==◌,
  if◌then◌else◌, length,
}
pub mod WellBuilt

-- opScale with its factor, and opUnary with the function that it calls.
pub data Op1 (F : Type 0) : Type 0 where
  scale : F → Op1 F
  sqrtf fabsf : Op1 F

-- opAdd, opMul and opHypot.
pub data Op2 : Type 0 where
  add mul hypot : Op2

-- Each constructor's first two arguments are the node's ref and its element count.
pub data Node (F : Type 0) : Type 0 where
  input : ℕ → ℕ → List F → Node F
  unary : ℕ → ℕ → Op1 F → Node F → Node F
  binary : ℕ → ℕ → Op2 → Node F → Node F → Node F
  fir : ℕ → ℕ → Node F → Node F → Node F  -- signal, taps

pub data TileError : Type 0 where
  different_graphs : Op2 → TileError
  length_mismatch : Op2 → ℕ → ℕ → TileError
  bad_taps : ℕ → TileError
  chained : TileError

-- `key` tells graphs apart.
pub record Graph (F : Type 0) : Type 0 where
  pub key : ℕ
  pub nodes : List (Node F)
  pub err : Option TileError

pub record Tensor (F : Type 0) : Type 0 where
  pub g : ℕ
  pub node : Node F

abbrev pub keep_error : Option TileError → TileError → Option TileError
keep_error none e = some e
keep_error (some d) e = some d

unfoldable pub max_taps : ℕ
max_taps = 64

unfoldable pub block_width : ℕ
block_width = 256

module _ {F : Type 0} where
  abbrev pub ref_of : Node F → ℕ
  ref_of (input r n h) = r
  ref_of (unary r n o a) = r
  ref_of (binary r n o a b) = r
  ref_of (fir r n s t) = r

  abbrev pub len_of : Node F → ℕ
  len_of (input r n h) = n
  len_of (unary r n o a) = n
  len_of (binary r n o a b) = n
  len_of (fir r n s t) = n

  unfoldable pub contains_fir : Node F → Bool
  contains_fir (input r n h) = false
  contains_fir (unary r n o a) = contains_fir a
  contains_fir (binary r n o a b) = contains_fir a || contains_fir b
  contains_fir (fir r n s t) = true

  unfoldable pub new_graph : ℕ → Graph F
  new_graph key = record { key = key; nodes = []; err = none }

  -- Graph.add, of a node that wants its ref.
  unfoldable pub add_node : (ℕ → Node F) → Graph F → Graph F × Tensor F
  add_node make g =
      let m = make (length g.nodes) in
      (record g { nodes = g.nodes ++ (m ∷ []) }, record { g = g.key; node = m })

  -- Graph.fail: the first error stays.
  unfoldable pub fail : TileError → Graph F → Graph F
  fail e g = record g { err = keep_error g.err e }

  -- Graph.Input
  unfoldable pub add_input : List F → Graph F → Graph F × Tensor F
  unfolding add_node
  add_input xs g = add_node (λ r. input r (length xs) xs) g

  -- The graph is the first operand's; Add, Mul and Hypot are this with their operation.
  unfoldable pub add_binary : Op2 → Tensor F → Tensor F → Graph F → Graph F × Tensor F
  unfolding add_node fail
  add_binary o a b g =
      if not (a.g == b.g)
      then (fail (different_graphs o) g, a)
      else if not (len_of a.node == len_of b.node)
      then (fail (length_mismatch o (len_of a.node) (len_of b.node)) g, a)
      else add_node (λ r. binary r (len_of a.node) o a.node b.node) g

  -- Scale, Sqrt and Abs.
  unfoldable pub add_unary : Op1 F → Tensor F → Graph F → Graph F × Tensor F
  unfolding add_node
  add_unary o a g = add_node (λ r. unary r (len_of a.node) o a.node) g

  unfoldable pub add_fir : Tensor F → List F → Graph F → Graph F × Tensor F
  unfolding add_node fail contains_fir max_taps
  add_fir a h g =
      if length h == 0 || ltb max_taps (length h)
      then (fail (bad_taps (length h)) g, a)
      else if contains_fir a.node
      then (fail chained g, a)
      else let (g', taps) = add_node (λ r. input r (length h) h) g in
        add_node (λ r. fir r (len_of a.node) a.node taps.node) g'

-- A call of an operation on a graph.
pub data Call (F : Type 0) : Type 0 where
  call_input : List F → Call F
  call_unary : Op1 F → Tensor F → Call F
  call_binary : Op2 → Tensor F → Tensor F → Call F
  call_fir : Tensor F → List F → Call F

module _ {F : Type 0} where
  unfoldable pub build : Call F → Graph F → Graph F × Tensor F
  unfolding add_input add_unary add_binary add_fir
  build (call_input xs) g = add_input xs g
  build (call_unary o a) g = add_unary o a g
  build (call_binary o a b) g = add_binary o a b g
  build (call_fir a h) g = add_fir a h g
