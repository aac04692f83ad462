-- ===== src/Tile/Run/Fused.antt =====
-- tile/codegen.go, tile/run.go: the fused kernel computes what the graph means.
use simtgo.Base.{
  ℕ, ◌+◌, ◌-◌, ◌*◌, ◌/◌, ◌%◌, ◌≤◌, ◌<◌, ◌≡◌, refl, ◌∙◌, ap, subst, true, List, [], ◌∷◌, ◌==◌,
  ==_iff, arith, Bool-cases, inl, inr,
}
use simtgo.Tile.Graph.{Node, ref_of, len_of, block_width}
use simtgo.Tile.Graph.WellBuilt.{Recorded, Shape, Sound}
use simtgo.Tile.Codegen.{member, order_of, inputs_of, expr, windows_of, locals_of, generate}
use simtgo.Tile.Codegen.Order.{Every, Every-map, In, Placed, order_of-Done}
use simtgo.Tile.Run.{
  Arith, value, run_expr, run_windows, run_block, run_blocks, grid_of, materialize,
}
use simtgo.Tile.Run.Buffers.{Reads, AllRecorded, Holds, run_expr-expr}
use simtgo.Tile.Run.Windows.{AllThreads, LocalsHold, Ready, Every-zip, windows-step}
use simtgo.Tile.Run.Listed.{self-member, Sound-Every, done-Local, listed-order, Every-Ready}
use simtgo.Tile.Run.Writes.{
  write_plain, write_out-write_plain, write_plain-keeps, write_plain-writes,
}

-- The threads are those of a block, all of them, in some order.
abbrev pub Block : List ℕ → Type 0
Block ts = AllThreads ts × ((t : ℕ) → member t ts ≡ true → t < 256)

-- The blocks are those of the grid, all of them, in some order.
abbrev pub Grid : ℕ → List ℕ → Type 0
Grid n bs =
    ((b : ℕ) → b < grid_of n → member b bs ≡ true) × ((b : ℕ) → member b bs ≡ true → b < grid_of n)

module _ {F : Type 0} where
  -- The threads of a block compute the values at their indices.
  block-body :
      (A : Arith F) (g : List (Node F)) (root : Node F) (base : ℕ) (ts : List ℕ) (junk : ℕ → F)
      (u : ℕ)
      → Sound g
      → Recorded g root
      → Block ts
      → Every (Reads A) root
      → base + 512 ≤ 2147483648
      → len_of root < 2147483648
      → u < 256
      → let l = order_of root in
        let envs =
          run_windows A
            (inputs_of l)
            base
            (len_of root)
            ts
            junk
            (windows_of (inputs_of l) [] l)
            (λ t r. A.zero_f) in
        run_expr A (inputs_of l) (envs u) (base + u) (expr (inputs_of l) (locals_of [] l) root)
        ≡ value A root (base + u)
  block-body A g root base ts junk u snd rec (all, below) reads hb hn lt =
      let l = order_of root in
      let start : ℕ → ℕ → F = λ t r. A.zero_f in
      let envs : ℕ → ℕ → F =
        run_windows A (inputs_of l) base (len_of root) ts junk (windows_of (inputs_of l) [] l)
          start in
      let every = Sound-Every g root snd rec in
      let placed = Every-map (λ x. Placed g x × Shape x) (Placed g) (λ x p. p.0) root every in
      let shapes = Every-map (λ x. Placed g x × Shape x) Shape (λ x p. p.1) root every in
      let done = order_of-Done g root placed in
      let recorded : AllRecorded A g l =
        listed-order (λ x. Recorded g x × Reads A x) root
          (Every-zip (Placed g) (Reads A) (λ x. Recorded g x × Reads A x) (λ x p q. (p.0, q)) root
            placed reads) in
      let ready : (m : Node F) → In m l → Ready l (len_of root) m =
        listed-order (Ready l (len_of root)) root (Every-Ready l root done shapes) in
      let none : LocalsHold A g [] base (λ t r. A.zero_f) = λ t f a b c. cc in
      let (of, hold) =
        windows-step A g l l [] base (len_of root) ts junk start recorded (all, hb, hn) ready
          (λ q m. cc) none in
      let holds =
        Every-map (λ s. In s l) (Holds A (locals_of [] l) (envs u) (base + u))
          (λ x i. elim (Bool-cases (member (ref_of x) (locals_of [] l))) [
            | inl e ↦ inr (hold u x lt (recorded x i).0 e)
            | inr e ↦ inl e
          ])
          root done in
      run_expr-expr A g l (locals_of [] l) (envs u) (base + u) root recorded done
        (done-Local l root done) holds

  generate-parts :
      (root : Node F)
      → generate root ≡ record {
        inputs = inputs_of (order_of root);
        windows = windows_of (inputs_of (order_of root)) [] (order_of root);
        body = expr (inputs_of (order_of root)) (locals_of [] (order_of root)) root;
      }
  unfolding generate
  generate-parts root = refl

  run_block-parts :
      (A : Arith F) (root : Node F) (n : ℕ) (ts : List ℕ) (junk : ℕ → F) (b : ℕ) (out : ℕ → F)
      → b * 256 + 512 ≤ 2147483648
      → n < 2147483648
      → ((t : ℕ) → member t ts ≡ true → t < 256)
      → let src = generate root in
        run_block A src n ts junk b out
        ≡ write_plain A src
            (b * 256)
            n
            (run_windows A src.inputs (b * 256) n ts junk src.windows (λ t r. A.zero_f))
            ts
            out
  unfolding run_block block_width
  run_block-parts A root n ts junk b out hb hn below =
      let i : (b * 256) % 4294967296 ≡ b * 256 = omega (arith, hb) in
      rw i (write_out-write_plain A (generate root) (b * 256) n _ ts out hb hn below)

  -- What the threads of block b write.
  block-writes :
      (A : Arith F) (g : List (Node F)) (root : Node F) (b : ℕ) (ts : List ℕ) (junk : ℕ → F)
      → Sound g
      → Recorded g root
      → Block ts
      → Every (Reads A) root
      → b * 256 + 512 ≤ 2147483648
      → len_of root < 2147483648
      → let src = generate root in
        let envs =
          run_windows A src.inputs (b * 256) (len_of root) ts junk src.windows (λ t r. A.zero_f) in
        (t : ℕ)
        → member t ts ≡ true
        → b * 256 + t < len_of root
        → run_expr A src.inputs (envs t) (b * 256 + t) src.body ≡ value A root (b * 256 + t)
  unfolding generate
  block-writes A g root b ts junk snd rec blk reads hb hn t m lt =
      block-body A g root (b * 256) ts junk t snd rec blk reads hb hn (blk.1 t m)

  run_block-keeps :
      (A : Arith F) (g : List (Node F)) (root : Node F) (ts : List ℕ) (junk : ℕ → F) (b i : ℕ)
      (out : ℕ → F)
      → Sound g
      → Recorded g root
      → Block ts
      → Every (Reads A) root
      → b * 256 + 512 ≤ 2147483648
      → len_of root < 2147483648
      → out i ≡ value A root i
      → run_block A (generate root) (len_of root) ts junk b out i ≡ value A root i
  run_block-keeps A g root ts junk b i out snd rec blk reads hb hn h =
      ap (λ f. f i) (run_block-parts A root (len_of root) ts junk b out hb hn blk.1)
      ∙ write_plain-keeps A (generate root) (b * 256) (len_of root) _ ts (value A root) out i
          (block-writes A g root b ts junk snd rec blk reads hb hn) h

  run_block-writes :
      (A : Arith F) (g : List (Node F)) (root : Node F) (ts : List ℕ) (junk : ℕ → F) (b u : ℕ)
      (out : ℕ → F)
      → Sound g
      → Recorded g root
      → Block ts
      → Every (Reads A) root
      → b * 256 + 512 ≤ 2147483648
      → len_of root < 2147483648
      → u < 256
      → b * 256 + u < len_of root
      → run_block A (generate root) (len_of root) ts junk b out (b * 256 + u)
        ≡ value A root (b * 256 + u)
  run_block-writes A g root ts junk b u out snd rec blk reads hb hn lt small =
      ap (λ f. f (b * 256 + u)) (run_block-parts A root (len_of root) ts junk b out hb hn blk.1)
      ∙ write_plain-writes A (generate root) (b * 256) (len_of root) _ ts (value A root) out u
          (block-writes A g root b ts junk snd rec blk reads hb hn) (blk.0 u lt) small

  run_blocks-keeps :
      (A : Arith F) (g : List (Node F)) (root : Node F) (ts bs : List ℕ) (junk : ℕ → F) (i : ℕ)
      (out : ℕ → F)
      → Sound g
      → Recorded g root
      → Block ts
      → Every (Reads A) root
      → ((c : ℕ) → member c bs ≡ true → c * 256 + 512 ≤ 2147483648)
      → len_of root < 2147483648
      → out i ≡ value A root i
      → run_blocks A (generate root) (len_of root) ts junk bs out i ≡ value A root i
  unfolding run_blocks
  run_blocks-keeps A g root ts [] junk i out snd rec blk reads hb hn h = h
  run_blocks-keeps A g root ts (b ∷ bs) junk i out snd rec blk reads hb hn h =
      let later : (c : ℕ) → member c bs ≡ true → c * 256 + 512 ≤ 2147483648 =
        λ c m. hb c (ground arith) in
      run_blocks-keeps A g root ts bs junk i _ snd rec blk reads later hn
        (run_block-keeps A g root ts junk b i out snd rec blk reads (hb b (self-member b bs)) hn h)

  run_blocks-writes :
      (A : Arith F) (g : List (Node F)) (root : Node F) (ts bs : List ℕ) (junk : ℕ → F) (b u : ℕ)
      (out : ℕ → F)
      → Sound g
      → Recorded g root
      → Block ts
      → Every (Reads A) root
      → ((c : ℕ) → member c bs ≡ true → c * 256 + 512 ≤ 2147483648)
      → len_of root < 2147483648
      → member b bs ≡ true
      → u < 256
      → b * 256 + u < len_of root
      → run_blocks A (generate root) (len_of root) ts junk bs out (b * 256 + u)
        ≡ value A root (b * 256 + u)
  unfolding run_blocks
  run_blocks-writes A g root ts [] junk b u out snd rec blk reads hb hn m lt small = cc
  run_blocks-writes A g root ts (c ∷ bs) junk b u out snd rec blk reads hb hn m lt small =
      let later : (x : ℕ) → member x bs ≡ true → x * 256 + 512 ≤ 2147483648 =
        λ x mx. hb x (ground arith) in
      elim (Bool-cases (b == c)) [
        | inl e ↦
            let here =
              run_block-writes A g root ts junk b u out snd rec blk reads (hb b m) hn lt small in
            let here' =
              subst
                (λ x.
                  run_block A (generate root) (len_of root) ts junk x out (b * 256 + u)
                  ≡ value A root (b * 256 + u))
                ((==_iff b c).0 e) here in
            run_blocks-keeps A g root ts bs junk (b * 256 + u) _ snd rec blk reads later hn here'
        | inr e ↦
            run_blocks-writes A g root ts bs junk b u _ snd rec blk reads later hn (ground arith) lt
              small
      ]

  materialize-blocks :
      (A : Arith F) (root : Node F) (ts bs : List ℕ) (junk out : ℕ → F)
      → len_of root < 2147483648
      → materialize A root ts bs junk out
        ≡ run_blocks A (generate root) (len_of root) ts junk bs out
  unfolding materialize
  materialize-blocks A root ts bs junk out h =
      let i : len_of root % 4294967296 ≡ len_of root = omega (arith, h) in rw i refl

  -- The fused kernel of a node of a sound graph with at most 2 ^ 31 - 1024 elements, run by the 256 threads
  -- of each block of the grid in any order and by the blocks in any order, leaves at each index of the
  -- output the value of the node there, whatever was in the output and in the shared memory. The
  -- constant of each Scale is one that its text stands for, as a finite one is, and each operation of the
  -- text is taken by itself, as it is where the compiler contracts none.
  pub materialize-value :
      (A : Arith F) (g : List (Node F)) (root : Node F) (ts bs : List ℕ) (junk out : ℕ → F) (i : ℕ)
      → Sound g
      → Recorded g root
      → Every (Reads A) root
      → len_of root + 1024 ≤ 2147483648
      → Block ts
      → Grid (len_of root) bs
      → i < len_of root
      → materialize A root ts bs junk out i ≡ value A root i
  unfolding grid_of block_width
  materialize-value A g root ts bs junk out i snd rec reads fits blk grid lt =
      let b = i / 256 in
      let u = i % 256 in
      let at : b * 256 + u ≡ i = omega arith in
      let in_grid : b < (len_of root + 256 - 1) / 256 = omega (arith, lt) in
      let small : u < 256 = omega arith in
      let in_len : b * 256 + u < len_of root = omega (arith, lt) in
      let short : len_of root < 2147483648 = omega (arith, fits) in
      let starts : (c : ℕ) → member c bs ≡ true → c * 256 + 512 ≤ 2147483648 =
        λ c m. let below = grid.1 c m in omega (arith, below, fits) in
      let done =
        run_blocks-writes A g root ts bs junk b u out snd rec blk reads starts short
          (grid.0 b in_grid) small in_len in
      ap (λ f. f i) (materialize-blocks A root ts bs junk out short)
      ∙ subst (λ x. run_blocks A (generate root) (len_of root) ts junk bs out x ≡ value A root x) at
          done
