-- ===== src/Tile/Run.antt =====
-- tile/codegen.go, tile/run.go: what the generated kernel does when it is launched over a grid of blocks
-- of 256 threads, and what a node means. The arithmetic of float32 is a parameter, each operation by itself,
-- and so is what a constant's text stands for; an int has 32 bits. The threads of a
-- block run each part between barriers one after the other, in any order; so do the blocks.
use simtgo.Base.{
  ℕ, zero, suc, ◌+◌, ◌-◌, ◌*◌, ◌/◌, ◌%◌, ◌^◌, ◌≡◌, Bool, true, false, not, ◌&&◌, List, [], ◌∷◌,
  Option, some, none, ltb, leb, ◌==◌, if◌then◌else◌, length, get_elem?,
}
use simtgo.Tile.Graph.{
  Node, input, unary, binary, fir, Op1, scale, sqrtf, fabsf, Op2, add, mul, hypot, len_of,
  block_width, max_taps,
}
use simtgo.Tile.Codegen.{CExpr, read, apply1, apply2, local, zero_literal, Window, Source, generate}
pub mod Ints
pub mod Buffers
pub mod Staging
pub mod Windows
pub mod Listed
pub mod Writes
pub mod Fused

-- An int of the generated C: its bits, and their order.
abbrev pub int_mod : ℕ
int_mod = 2 ^ 32

abbrev pub c_int : ℕ → ℕ
c_int n = n % int_mod

unfoldable pub int_lt : ℕ → ℕ → Bool
int_lt a b = ltb ((a + 2 ^ 31) % int_mod) ((b + 2 ^ 31) % int_mod)

-- The extent of a shared tile, BlockSize + MaxTaps.
unfoldable pub tile_extent : ℕ
unfolding block_width max_taps
tile_extent = block_width + max_taps

pub record Arith (F : Type 0) : Type 0 where
  pub zero_f : F
  pub plus : F → F → F
  pub times : F → F → F
  pub hypot_of : F → F → F
  pub sqrt_of : F → F
  pub abs_of : F → F
  pub literal : F → F  -- what the text that cfloat writes for a constant stands for

module _ {F : Type 0} (A : Arith F) where
  abbrev pub do_op1 : Op1 F → F → F
  do_op1 (scale k) x = A.times k x
  do_op1 sqrtf x = A.sqrt_of x
  do_op1 fabsf x = A.abs_of x

  -- An operation as it is rendered: Scale's constant is the text that cfloat writes.
  abbrev pub run_op1 : Op1 F → F → F
  run_op1 (scale k) x = A.times (A.literal k) x
  run_op1 sqrtf x = A.sqrt_of x
  run_op1 fabsf x = A.abs_of x

  abbrev pub do_op2 : Op2 → F → F → F
  do_op2 add x y = A.plus x y
  do_op2 mul x y = A.times x y
  do_op2 hypot x y = A.hypot_of x y

  abbrev pub or_zero : Option F → F
  or_zero none = A.zero_f
  or_zero (some x) = x

  -- n rounds, from k on, of `acc += h[k] * x[k]`.
  unfoldable pub tap_loop : (ℕ → F) → (ℕ → F) → ℕ → ℕ → F → F
  tap_loop h x k zero acc = acc
  tap_loop h x k (suc n) acc = tap_loop h x (k + 1) n (A.plus acc (A.times (h k) (x k)))

  -- What a node means at an index: an input its data, an operation that of its arguments at the same
  -- index, and FIR, as its comment says, y[n] = sum(h[k] * a[n-k]), with a zero before the first
  -- sample.
  unfoldable pub value : Node F → ℕ → F
  unfolding tap_loop
  value (input r n h) i = or_zero (get_elem? h i)
  value (unary r n o a) i = do_op1 o (value a i)
  value (binary r n o a b) i = do_op2 o (value a i) (value b i)
  value (fir r n s t) i =
      tap_loop (λ k. value t k)
        (λ k. if leb k i && ltb (i - k) n then value s (i - k) else A.zero_f) 0 (len_of t) A.zero_f

  abbrev pub host_of : Node F → List F
  host_of (input r n h) = h
  host_of (unary r n o a) = []
  host_of (binary r n o a b) = []
  host_of (fir r n s t) = []

  abbrev pub host_at : Option (Node F) → List F
  host_at none = []
  host_at (some m) = host_of m

  -- The data that parameter p is bound to.
  abbrev pub buffer : List (Node F) → ℕ → List F
  buffer ins p = host_at (get_elem? ins p)

  -- An expression at an index, with a thread's locals.
  unfoldable pub run_expr : List (Node F) → (ℕ → F) → ℕ → CExpr F → F
  run_expr ins env i (read p) = or_zero (get_elem? (buffer ins p) i)
  run_expr ins env i (apply1 o e) = run_op1 o (run_expr ins env i e)
  run_expr ins env i (apply2 o e f) = do_op2 o (run_expr ins env i e) (run_expr ins env i f)
  run_expr ins env i (local r) = env r
  run_expr ins env i zero_literal = A.zero_f

  -- What is staged at k: `int src = base + k - (count - 1)`, guarded by 0 <= src < out_len.
  abbrev pub source_of : ℕ → ℕ → ℕ → ℕ
  source_of base k count = (base + k + int_mod + 1 - count) % int_mod

  unfoldable pub staged : List (Node F) → (ℕ → F) → CExpr F → ℕ → ℕ → ℕ → ℕ → F
  unfolding run_expr int_lt
  staged ins env e count base out_len k =
      let src = source_of base k count in
      if not (int_lt src 0) && int_lt src out_len then run_expr ins env src e else A.zero_f

  abbrev pub update : (ℕ → F) → ℕ → F → ℕ → F
  update f k v j = if j == k then v else f j

  -- A write to the shared tile; beyond its extent there is nothing of it.
  unfoldable pub store_tile : (ℕ → F) → ℕ → F → ℕ → F
  unfolding tile_extent
  store_tile tile k v = if ltb k tile_extent then update tile k v else tile

  -- `for (k = ...; k < limit; k += blockDim.x) tile[k] = v[k]`, on fuel.
  unfoldable pub stage_loop : (ℕ → F) → ℕ → ℕ → ℕ → (ℕ → F) → ℕ → F
  unfolding block_width store_tile
  stage_loop v limit zero k tile = tile
  stage_loop v limit (suc f) k tile =
      let rest = stage_loop v limit f (k + block_width) (store_tile tile k (v k)) in
      if ltb k limit then rest else tile

  -- The threads of a block stage their parts; the loop of each makes at most `limit` rounds.
  unfoldable pub stage : (ℕ → ℕ → F) → ℕ → List ℕ → (ℕ → F) → ℕ → F
  unfolding stage_loop
  stage v limit [] tile = tile
  stage v limit (t ∷ ts) tile = stage v limit ts (stage_loop (v t) limit limit t tile)

  -- One window, for a block: the staging, the barrier, and each thread's taps into its local. The tile
  -- holds anything before.
  unfoldable pub run_window :
      List (Node F) → ℕ → ℕ → List ℕ → (ℕ → F) → Window F → (ℕ → ℕ → F) → ℕ → ℕ → F
  unfolding staged stage tap_loop
  run_window ins base out_len ts junk w envs t =
      let h = buffer ins w.taps in
      let count = c_int (length h) in
      let v = λ (u : ℕ). staged ins (envs u) w.signal count base out_len in
      let tile = stage v (block_width + count - 1) ts junk in
      update (envs t) w.acc
        (tap_loop (λ k. or_zero (get_elem? h k)) (λ k. tile (t + count - 1 - k)) 0 count A.zero_f)

  unfoldable pub run_windows :
      List (Node F) → ℕ → ℕ → List ℕ → (ℕ → F) → List (Window F) → (ℕ → ℕ → F) → ℕ → ℕ → F
  unfolding run_window
  run_windows ins base out_len ts junk [] envs = envs
  run_windows ins base out_len ts junk (w ∷ ws) envs =
      run_windows ins base out_len ts junk ws (run_window ins base out_len ts junk w envs)

  -- `if (i < out_len) out[i] = body`, by each thread.
  unfoldable pub write_out : Source F → ℕ → ℕ → (ℕ → ℕ → F) → List ℕ → (ℕ → F) → ℕ → F
  unfolding run_expr int_lt
  write_out src base out_len envs [] out = out
  write_out src base out_len envs (t ∷ ts) out =
      let i = c_int (base + t) in
      let v = run_expr src.inputs (envs t) i src.body in
      write_out src base out_len envs ts (if int_lt i out_len then update out i v else out)

  unfoldable pub run_block : Source F → ℕ → List ℕ → (ℕ → F) → ℕ → (ℕ → F) → ℕ → F
  unfolding run_windows write_out block_width
  run_block src out_len ts junk b out =
      let base = c_int (b * block_width) in
      let envs = run_windows src.inputs base out_len ts junk src.windows (λ t r. A.zero_f) in
      write_out src base out_len envs ts out

  unfoldable pub run_blocks : Source F → ℕ → List ℕ → (ℕ → F) → List ℕ → (ℕ → F) → ℕ → F
  unfolding run_block
  run_blocks src out_len ts junk [] out = out
  run_blocks src out_len ts junk (b ∷ bs) out =
      run_blocks src out_len ts junk bs (run_block src out_len ts junk b out)

-- The grid of Tensor.run, `(n + BlockSize - 1) / BlockSize`.
unfoldable pub grid_of : ℕ → ℕ
unfolding block_width
grid_of n = (n + block_width - 1) / block_width

module _ {F : Type 0} (A : Arith F) where
  -- The output of the launch: threads ts of the blocks bs.
  unfoldable pub materialize : Node F → List ℕ → List ℕ → (ℕ → F) → (ℕ → F) → ℕ → F
  unfolding run_blocks generate
  materialize root ts bs junk out =
      run_blocks A (generate root) (c_int (len_of root)) ts junk bs out
