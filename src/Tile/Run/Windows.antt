-- ===== src/Tile/Run/Windows.antt =====
-- tile/codegen.go: after the windows each thread's locals hold the values of their windowed operations.
use simtgo.Base.{
  ℕ, zero, suc, ◌+◌, ◌-◌, ◌%◌, ◌≤◌, ◌<◌, ◌≡◌, refl, sym, ◌∙◌, ap, subst, true, false, ◌&&◌, List,
  [], ◌∷◌, ltb, leb, ◌==◌, ==_iff, ==_refl, if◌then◌else◌, length, arith, Bool-cases, inl, inr,
  ||-false, leb→le, leb-false,
}
use simtgo.Tile.Graph.{Node, input, unary, binary, fir, ref_of, len_of, contains_fir, block_width}
use simtgo.Tile.Graph.WellBuilt.{Recorded, Shape}
use simtgo.Tile.Codegen.{member, Window, inputs_of, param_of, expr, windows_of, locals_of}
use simtgo.Tile.Codegen.Order.{Every, In, Done, Recorded-unique}
use simtgo.Tile.Run.{Arith, value, tap_loop, staged, stage, run_window, run_windows, int_lt}
use simtgo.Tile.Run.Buffers.{AllRecorded, Local, Holds, buffer-param, run_expr-expr}
use simtgo.Tile.Run.Staging.{stage-fills}
use simtgo.Tile.Run.Ints.{int_lt-small, int_lt-negative, source_of-inside, source_of-before}

-- Every thread of a block of 256.
abbrev pub AllThreads : List ℕ → Type 0
AllThreads ts = (t : ℕ) → t < 256 → member t ts ≡ true

-- The block begins where its ints do not wrap, and every thread of it is there.
abbrev pub Starts : ℕ → ℕ → List ℕ → Type 0
Starts base n ts = AllThreads ts × (base + 512 ≤ 2147483648) × (n < 2147483648)

module _ {F : Type 0} where
  pub Every-zip :
      (P Q R : Node F → Type 0)
      → ((m : Node F) → P m → Q m → R m)
      → (m : Node F) → Every P m
      → Every Q m
      → Every R m
  Every-zip P Q R f (input r n h) p q = f _ p q
  Every-zip P Q R f (unary r n o a) p q = (f _ p.0 q.0, Every-zip P Q R f a p.1 q.1)
  Every-zip P Q R f (binary r n o a b) p q =
      (f _ p.0 q.0, Every-zip P Q R f a p.1 q.1, Every-zip P Q R f b p.2 q.2)
  Every-zip P Q R f (fir r n s t) p q =
      (f _ p.0 q.0, Every-zip P Q R f s p.1 q.1, Every-zip P Q R f t p.2 q.2)

  abbrev FirFree : Node F → Type 0
  FirFree m = contains_fir m ≡ false

  FirFree-Every : (m : Node F) → FirFree m → Every FirFree m
  unfolding contains_fir
  FirFree-Every (input r n h) e = e
  FirFree-Every (unary r n o a) e = (e, FirFree-Every a e)
  FirFree-Every (binary r n o a b) e =
      let p = ||-false (contains_fir a) (contains_fir b) e in
      (e, FirFree-Every a p.0, FirFree-Every b p.1)
  FirFree-Every (fir r n s t) e = cc

  FirFree-Local : (locals : List ℕ) (m : Node F) → FirFree m → Local locals m
  unfolding contains_fir
  FirFree-Local locals (input r n h) e = tt
  FirFree-Local locals (unary r n o a) e = FirFree-Local locals a e
  FirFree-Local locals (binary r n o a b) e =
      let p = ||-false (contains_fir a) (contains_fir b) e in
      (FirFree-Local locals a p.0, FirFree-Local locals b p.1)
  FirFree-Local locals (fir r n s t) e = cc

  -- Each local is that of a windowed operation of the graph.
  abbrev pub OfFir : List (Node F) → List ℕ → Type 0
  OfFir g locals =
      (q : ℕ)
      → member q locals ≡ true
      → (f : Node F) × Recorded g f × (ref_of f ≡ q) × (contains_fir f ≡ true)

  -- A node with no windowed operation in it reads no local.
  FirFree-Holds :
      (A : Arith F) (g l : List (Node F)) (locals : List ℕ) (env : ℕ → F) (i : ℕ) (m : Node F)
      → AllRecorded A g l
      → OfFir g locals
      → Done l m
      → FirFree m
      → Every (Holds A locals env i) m
  FirFree-Holds A g l locals env i m rec of d e =
      Every-zip (λ s. In s l) FirFree (Holds A locals env i)
        (λ x p q. elim (Bool-cases (member (ref_of x) locals)) [
          | inl b ↦
              let (f, rf, ef, cf) = of (ref_of x) b in
              let same = Recorded-unique g f x rf (rec x p).0 ef in
              let cx = sym (ap contains_fir same) ∙ cf in cc
          | inr b ↦ inl b
        ])
        m d (FirFree-Every m e)

  tap_loop-same :
      (A : Arith F) (h h' x x' : ℕ → F) (k n : ℕ) (acc : F)
      → ((j : ℕ) → k ≤ j → j < k + n → (h j ≡ h' j) × (x j ≡ x' j))
      → tap_loop A h x k n acc ≡ tap_loop A h' x' k n acc
  unfolding tap_loop
  tap_loop-same A h h' x x' k zero acc e = refl
  tap_loop-same A h h' x x' k (suc n) acc e =
      let p = e k (omega arith) (omega arith) in
      rw (p.0, p.1)
        (tap_loop-same A h h' x x' (k + 1) n _ (λ j a b. e j (omega arith) (omega arith)))

  -- What a tile is to hold at k.
  wanted : Arith F → Node F → ℕ → ℕ → ℕ → ℕ → F
  wanted A s count base out_len k =
      if leb (count - 1) (base + k) && ltb (base + k - (count - 1)) out_len
      then value A s (base + k - (count - 1))
      else A.zero_f

  staged-wanted :
      (A : Arith F) (g l : List (Node F)) (locals : List ℕ) (env : ℕ → F) (s : Node F)
      (count base out_len k : ℕ)
      → AllRecorded A g l
      → OfFir g locals
      → Done l s
      → FirFree s
      → base + k < 2147483648
      → 1 ≤ count
      → count ≤ 64
      → out_len < 2147483648
      → staged A (inputs_of l) env (expr (inputs_of l) locals s) count base out_len k
        ≡ wanted A s count base out_len k
  unfolding staged wanted
  staged-wanted A g l locals env s count base out_len k rec of d e small one few short =
      elim (Bool-cases (leb (count - 1) (base + k))) [
        | inl c ↦
            let src = base + k - (count - 1) in
            let same =
              run_expr-expr A g l locals env src s rec d (FirFree-Local locals s e)
                (FirFree-Holds A g l locals env src s rec of d e) in
            let at = source_of-inside base k count small one (leb→le (count - 1) (base + k) c) in
            let lower : int_lt src 0 ≡ false =
              int_lt-small src 0 (omega (arith, small)) (omega arith) ∙ ground arith in
            let upper = int_lt-small src out_len (omega (arith, small)) short in
            rw (c, at, lower, upper, same) refl
        | inr c ↦
            let lower =
              int_lt-negative ((base + k + 4294967296 + 1 - count) % 4294967296)
                (source_of-before base k count small few (leb-false (count - 1) (base + k) c))
                (omega arith) in
            rw (c, lower) refl
      ]

  -- The sample that tap j of thread u reads.
  wanted-sample :
      (A : Arith F) (s : Node F) (count base out_len u j : ℕ)
      → j < count
      → wanted A s count base out_len (u + count - 1 - j) ≡ (
          if leb j (base + u) && ltb (base + u - j) out_len
          then value A s (base + u - j)
          else A.zero_f)
  unfolding wanted
  wanted-sample A s count base out_len u j lt = elim (Bool-cases (leb j (base + u))) [
    | inl e ↦
        let c : leb (count - 1) (base + (u + count - 1 - j)) ≡ true = ground arith in
        let q : base + (u + count - 1 - j) - (count - 1) ≡ base + u - j = ground arith in
        rw (e, c, q) refl
    | inr e ↦
        let c : leb (count - 1) (base + (u + count - 1 - j)) ≡ false = ground arith in
        rw (e, c) refl
  ]

  window_tile :
      (A : Arith F) (g l : List (Node F)) (locals : List ℕ) (base n c : ℕ) (ts : List ℕ)
      (junk : ℕ → F) (envs : ℕ → ℕ → F) (s : Node F) (u j : ℕ)
      → AllRecorded A g l
      → OfFir g locals
      → Starts base n ts
      → Done l s
      → FirFree s
      → u < 256
      → j < c
      → c ≤ 64
      → stage A
          (λ v. staged A (inputs_of l) (envs v) (expr (inputs_of l) locals s) c base n)
          (256 + c - 1)
          ts
          junk
          (u + c - 1 - j)
        ≡ (if leb j (base + u) && ltb (base + u - j) n then value A s (base + u - j) else A.zero_f)
  window_tile A g l locals base n c ts junk envs s u j rec of all d free lt small few =
      let k = u + c - 1 - j in
      let there : k % 256 < 256 = omega arith in
      stage-fills A (λ v. staged A (inputs_of l) (envs v) (expr (inputs_of l) locals s) c base n)
        (wanted A s c base n) (256 + c - 1) ts junk k (all.0 (k % 256) there) (omega arith)
        (omega arith)
        (λ v.
          staged-wanted A g l locals (envs v) s c base n k rec of d free (omega (arith, all.1))
            (omega (arith, small)) few all.2)
      ∙ wanted-sample A s c base n u j small

  abbrev pub window_of : List (Node F) → List ℕ → ℕ → Node F → Node F → Window F
  window_of ins locals r s t = record { acc = r; signal = expr ins locals s; taps = param_of ins t }

  window-value :
      (A : Arith F) (g l : List (Node F)) (locals : List ℕ) (base : ℕ) (ts : List ℕ) (junk : ℕ → F)
      (envs : ℕ → ℕ → F) (r n : ℕ) (s : Node F) (q c : ℕ) (h : List F) (u : ℕ)
      → AllRecorded A g l
      → OfFir g locals
      → Starts base n ts
      → Done l (fir r n s (input q c h))
      → Every Shape (fir r n s (input q c h))
      → u < 256
      → run_window A
          (inputs_of l)
          base
          n
          ts
          junk
          (window_of (inputs_of l) locals r s (input q c h))
          envs
          u
          r
        ≡ value A (fir r n s (input q c h)) (base + u)
  unfolding run_window value block_width
  window-value A g l locals base ts junk envs r n s q c h u rec of all d sh lt =
      let buf = buffer-param A g l q c h rec d.2 in
      let size : c ≡ length h = sh.2 in
      let short : length h % 4294967296 ≡ c = omega (arith, size, sh.0.3) in
      rw (==_refl r, buf, short)
        (tap_loop-same A _ _ _ _ 0 c A.zero_f (λ j a b. (
          refl,
          window_tile A g l locals base n c ts junk envs s u j rec of all d.1 sh.0.1 lt
              (omega (arith, b)) sh.0.3,
        )))

  -- Each thread's locals hold the values at the thread's index.
  abbrev pub LocalsHold : Arith F → List (Node F) → List ℕ → ℕ → (ℕ → ℕ → F) → Type 0
  LocalsHold A g locals base envs =
      (u : ℕ) (f : Node F)
      → u < 256
      → Recorded g f
      → member (ref_of f) locals ≡ true
      → envs u (ref_of f) ≡ value A f (base + u)

  run_window-other :
      (A : Arith F) (ins : List (Node F)) (base n : ℕ) (ts : List ℕ) (junk : ℕ → F) (w : Window F)
      (envs : ℕ → ℕ → F) (u q : ℕ)
      → (q == w.acc) ≡ false
      → run_window A ins base n ts junk w envs u q ≡ envs u q
  unfolding run_window
  run_window-other A ins base n ts junk w envs u q e = rw e refl

  -- The nodes of the order from some point on.
  abbrev pub Ready : List (Node F) → ℕ → Node F → Type 0
  Ready l n m = Done l m × Every Shape m × ((contains_fir m ≡ true) → len_of m ≡ n)

  window-step :
      (A : Arith F) (g l : List (Node F)) (locals : List ℕ) (base : ℕ) (ts : List ℕ) (junk : ℕ → F)
      (envs : ℕ → ℕ → F) (r n : ℕ) (s t : Node F)
      → AllRecorded A g l
      → OfFir g locals
      → Starts base n ts
      → Done l (fir r n s t)
      → Every Shape (fir r n s t)
      → LocalsHold A g locals base envs
      → LocalsHold A g
          (r ∷ locals)
          base
          (run_window A (inputs_of l) base n ts junk (window_of (inputs_of l) locals r s t) envs)
  window-step A g l locals base ts junk envs r n s (input q c h) rec of all d sh hold u f lt rf
        mem =
      elim (Bool-cases (ref_of f == r)) [
        | inl e ↦
            let er = (==_iff (ref_of f) r).0 e in
            let same = Recorded-unique g (fir r n s (input q c h)) f (rec _ d.0).0 rf (sym er) in
            let v = window-value A g l locals base ts junk envs r n s q c h u rec of all d sh lt in
            let w = window_of (inputs_of l) locals r s (input q c h) in
            ap (run_window A (inputs_of l) base n ts junk w envs u) er
            ∙ v
            ∙ ap (λ x. value A x (base + u)) same
        | inr e ↦
            let old : member (ref_of f) locals ≡ true = ground arith in
            run_window-other A (inputs_of l) base n ts junk
              (window_of (inputs_of l) locals r s (input q c h)) envs u (ref_of f) e
            ∙ hold u f lt rf old
      ]
  window-step A g l locals base ts junk envs r n s (unary q k o a) rec of all d sh hold u f lt rf
        mem =
      elim sh.0 [ ]
  window-step A g l locals base ts junk envs r n s (binary q k o a b) rec of all d sh hold u f lt rf
        mem =
      elim sh.0 [ ]
  window-step A g l locals base ts junk envs r n s (fir q k a b) rec of all d sh hold u f lt rf
        mem =
      elim sh.0 [ ]

  OfFir-cons :
      (g : List (Node F)) (locals : List ℕ) (r n : ℕ) (s t : Node F)
      → Recorded g (fir r n s t)
      → OfFir g locals
      → OfFir g (r ∷ locals)
  unfolding contains_fir
  OfFir-cons g locals r n s t rec of q mem = elim (Bool-cases (q == r)) [
    | inl e ↦ (fir r n s t, rec, sym ((==_iff q r).0 e), refl)
    | inr e ↦ of q (ground arith)
  ]

  pub windows-step :
      (A : Arith F) (g l k : List (Node F)) (locals : List ℕ) (base n : ℕ) (ts : List ℕ)
      (junk : ℕ → F) (envs : ℕ → ℕ → F)
      → AllRecorded A g l
      → Starts base n ts
      → ((m : Node F) → In m k → Ready l n m)
      → OfFir g locals
      → LocalsHold A g locals base envs
      → OfFir g (locals_of locals k)
        × LocalsHold A g
            (locals_of locals k)
            base
            (run_windows A (inputs_of l) base n ts junk (windows_of (inputs_of l) locals k) envs)
  unfolding run_windows windows_of locals_of contains_fir
  windows-step A g l [] locals base n ts junk envs rec all ready of hold = (of, hold)
  windows-step A g l (input r c h ∷ k) locals base n ts junk envs rec all ready of hold =
      windows-step A g l k locals base n ts junk envs rec all (λ m i. ready m (suc i.0, i.1)) of
        hold
  windows-step A g l (unary r c o a ∷ k) locals base n ts junk envs rec all ready of hold =
      windows-step A g l k locals base n ts junk envs rec all (λ m i. ready m (suc i.0, i.1)) of
        hold
  windows-step A g l (binary r c o a b ∷ k) locals base n ts junk envs rec all ready of hold =
      windows-step A g l k locals base n ts junk envs rec all (λ m i. ready m (suc i.0, i.1)) of
        hold
  windows-step A g l (fir r c s t ∷ k) locals base n ts junk envs rec all ready of hold =
      let (d, sh, len) = ready (fir r c s t) (0, refl) in
      let cn : c ≡ n = len refl in
      let w = window_of (inputs_of l) locals r s t in
      let short : c < 2147483648 = omega (arith, cn, all.2) in
      let here : Starts base c ts = (all.0, all.1, short) in
      let step = window-step A g l locals base ts junk envs r c s t rec of here d sh hold in
      let step' =
        subst
          (λ x. LocalsHold A g (r ∷ locals) base (run_window A (inputs_of l) base x ts junk w envs))
          cn step in
      windows-step A g l k (r ∷ locals) base n ts junk _ rec all (λ m i. ready m (suc i.0, i.1))
        (OfFir-cons g locals r c s t (rec _ d.0).0 of) step'
