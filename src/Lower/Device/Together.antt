-- ===== src/Lower/Device/Together.antt =====
-- internal/lower/diverge.go: two threads that agree on what does not vary still do after the same simple step:
-- an expression evaluated, an assignment, a declaration, the start of a round of a range.
use simtgo.Base.{
  ℕ, ◌≤◌, Bool, true, false, not, ◌||◌, List, ◌++◌, Option, some, none, ◌==◌, ◌⊎◌, ◌≡◌, refl, sym,
  ◌∙◌, ap, Bool-cases, inl, inr, arith, &&-true, ||-false, ==_iff,
}
use mathlib.Core.Path.{ap₂}
use simtgo.Lower.Syntax.{
  Expr, absent, unresolved, other, constant, ident, paren, unary, field, key_value, binary, index,
  composite, call, Exprs, nil, cons, Over, Specs, no_spec, spec,
}
use simtgo.Lower.Vary.{
  varying_expr, any_varying, member, base_of, mark_if, mark_pairs, mark_names, mark_decl,
  bound_targets, bound_decl,
}
use simtgo.Lower.Vary.Closed.{closed-pairs, closed-names, closed-names_nil, closed-decl}
use simtgo.Lower.Diverge.{BarrierUse}
use simtgo.Lower.Device.{
  Machine, Thread, State, eval, after, after_all, after_cases, update, put, put_base, put_pairs,
  put_names, zero_name, assigned, steps_to, with_env, run_decl, set_range,
}
use simtgo.Lower.Device.Agree.{Alike, eval-agrees}
use simtgo.Lower.Device.Control.{KeptEnv, put-Kept}
use simtgo.Lower.Device.Steady.{
  even_path, even_target, even_targets, settled, steady_expr, steady_exprs, steady_decl,
  reached-agrees, reached_all-agrees, compared-agrees, steps-agree,
}

module _ (m : Machine) (uses : ℕ → BarrierUse) (slice : ℕ → Bool) (vary : List ℕ)
    (t1 t2 : Thread m) where
  abbrev pub SameEnv : (ℕ → m.Value) → (ℕ → m.Value) → Type 0
  SameEnv env1 env2 = (x : ℕ) → slice x ≡ false → member x vary ≡ false → env1 x ≡ env2 x

  abbrev pub Both : State m → State m → Type 0
  Both = Alike m uses slice vary

  pub after-Both :
      (e : Expr) (st1 st2 : State m)
      → steady_expr uses e ≡ true
      → Both st1 st2
      → Both (after m uses slice t1 e st1) (after m uses slice t2 e st2)
  unfolding after
  after-Both e st1 st2 h a = record {
    same_env = a.same_env;
    same_trace = ap₂ (◌++◌) (reached-agrees m uses slice vary t1 t2 st1 st2 a e h) a.same_trace;
  }

  pub after_all-Both :
      (es : Exprs) (st1 st2 : State m)
      → steady_exprs uses es ≡ true
      → Both st1 st2
      → Both (after_all m uses slice t1 es st1) (after_all m uses slice t2 es st2)
  unfolding after_all
  after_all-Both es st1 st2 h a = record {
    same_env = a.same_env;
    same_trace =
        ap₂ (◌++◌) (reached_all-agrees m uses slice vary t1 t2 st1 st2 a es h) a.same_trace;
  }

  pub after_cases-Both :
      (v1 v2 : m.Value) (es : Exprs) (st1 st2 : State m)
      → v1 ≡ v2
      → any_varying slice vary es ≡ false
      → steady_exprs uses es ≡ true
      → Both st1 st2
      → Both (after_cases m uses slice t1 v1 es st1) (after_cases m uses slice t2 v2 es st2)
  unfolding after_cases
  after_cases-Both v1 v2 es st1 st2 q h s a = record {
    same_env = a.same_env;
    same_trace =
        ap₂ (◌++◌) (compared-agrees m uses slice vary t1 t2 st1 st2 a v1 v2 es q h s) a.same_trace;
  }

  pub env-Both :
      (st1 st2 : State m) (env1 env2 : ℕ → m.Value)
      → Both st1 st2
      → SameEnv env1 env2
      → Both (with_env m env1 st1) (with_env m env2 st2)
  env-Both st1 st2 env1 env2 a s = record { same_env = s; same_trace = a.same_trace }

  -- Both changed only what varies.
  pub kept_both :
      (env1 env2 env1' env2' : ℕ → m.Value)
      → SameEnv env1 env2
      → KeptEnv m uses slice vary t1 env1 env1'
      → KeptEnv m uses slice vary t2 env2 env2'
      → SameEnv env1' env2'
  kept_both env1 env2 env1' env2' s k1 k2 x p q = k1 x p q ∙ s x p q ∙ sym (k2 x p q)

  update-Same :
      (y : ℕ) (u1 u2 : m.Value) (env1 env2 : ℕ → m.Value)
      → u1 ≡ u2
      → SameEnv env1 env2
      → SameEnv (update m env1 y u1) (update m env2 y u2)
  update-Same y u1 u2 env1 env2 q s x p h = elim (Bool-cases (y == x)) [
    | inl e ↦ rw e q
    | inr e ↦ rw e (s x p h)
  ]

  update_vary-Same :
      (y : ℕ) (u1 u2 : m.Value) (env1 env2 : ℕ → m.Value)
      → member y vary ≡ true
      → SameEnv env1 env2
      → SameEnv (update m env1 y u1) (update m env2 y u2)
  update_vary-Same y u1 u2 env1 env2 q s x p h = elim (Bool-cases (y == x)) [
    | inl e ↦ let r : y ≡ x = (==_iff y x).0 e in let q' = rw r at q in cc
    | inr e ↦ rw e (s x p h)
  ]

  update-settled-Same :
      (y : ℕ) (u1 u2 : m.Value) (env1 env2 : ℕ → m.Value)
      → settled slice vary (some y) ≡ true
      → SameEnv env1 env2
      → SameEnv (update m env1 y u1) (update m env2 y u2)
  update-settled-Same y u1 u2 env1 env2 q s x p h = elim (Bool-cases (y == x)) [
    | inl e ↦
        let r : y ≡ x = (==_iff y x).0 e in let q' = rw r at q in let q'' = rw (p, h) at q' in cc
    | inr e ↦ rw e (s x p h)
  ]

  -- An operand chain whose base is not settled, with even indices, does not vary.
  even_path-varying :
      (e : Expr)
      → settled slice vary (base_of e) ≡ false
      → even_path slice vary e ≡ true
      → varying_expr slice vary e ≡ false
  unfolding base_of even_path varying_expr
  even_path-varying (ident x) h p = ground arith
  even_path-varying (paren e) h p = even_path-varying e h p
  even_path-varying (index e i) h p =
      let q = &&-true (not (varying_expr slice vary i)) _ p in
      let r : varying_expr slice vary i ≡ false = ground arith in
      rw (r, even_path-varying e h q.1) refl
  even_path-varying (field f e) h p = even_path-varying e h p
  even_path-varying absent h p = cc
  even_path-varying unresolved h p = cc
  even_path-varying other h p = cc
  even_path-varying (constant c) h p = cc
  even_path-varying (unary o e) h p = cc
  even_path-varying (key_value o e) h p = cc
  even_path-varying (binary o x y) h p = cc
  even_path-varying (composite es) h p = cc
  even_path-varying (call c es) h p = cc

  target-varying :
      (e : Expr)
      → settled slice vary (base_of e) ≡ false
      → even_target slice vary e ≡ true
      → varying_expr slice vary e ≡ false
  unfolding even_target
  target-varying e h p = even_path-varying e h (rw h at p)

  even_targets-both :
      (l : Expr) (ls : Exprs)
      → even_targets slice vary (cons l ls) ≡ true
      → (even_target slice vary l ≡ true) × (even_targets slice vary ls ≡ true)
  unfolding even_targets
  even_targets-both l ls h = &&-true _ _ h

  constant-index :
      (x : Expr) (i : ℕ)
      → varying_expr slice vary x ≡ false
      → varying_expr slice vary (index x (constant i)) ≡ false
  unfolding varying_expr
  constant-index x i h = h

  module _ (st1 st2 : State m) (a : Both st1 st2) where
    put_base-Same :
        (o : Option ℕ) (p1 p2 : List m.Value) (u1 u2 : m.Value) (env1 env2 : ℕ → m.Value)
        → (settled slice vary o ≡ true) ⊎ ((p1 ≡ p2) × (u1 ≡ u2))
        → SameEnv env1 env2
        → SameEnv (put_base m uses slice t1 o p1 u1 env1) (put_base m uses slice t2 o p2 u2 env2)
    put_base-Same none p1 p2 u1 u2 env1 env2 h s = s
    put_base-Same (some y) p1 p2 u1 u2 env1 env2 h s = elim (Bool-cases (slice y)) [
      | inl e ↦ rw e s
      | inr e ↦ elim h [
        | inl k ↦ rw e (update-settled-Same y _ _ env1 env2 k s)
        | inr (k, q) ↦ elim (Bool-cases (member y vary)) [
          | inl f ↦ rw e (update_vary-Same y _ _ env1 env2 f s)
          | inr f ↦
              let w : m.store (env1 y) p1 u1 ≡ m.store (env2 y) p2 u2 =
                λ i. m.store (s y e f i) (k i) (q i) in
              rw e (update-Same y _ _ env1 env2 w s)
        ]
      ]
    ]

    put_even-Same :
        (l : Expr) (u1 u2 : m.Value) (env1 env2 : ℕ → m.Value)
        → (settled slice vary (base_of l) ≡ true)
          ⊎ ((steps_to m uses slice t1 st1 l ≡ steps_to m uses slice t2 st2 l) × (u1 ≡ u2))
        → SameEnv env1 env2
        → SameEnv (put m uses slice t1 st1 l u1 env1) (put m uses slice t2 st2 l u2 env2)
    unfolding put base_of steps_to
    put_even-Same (ident y) u1 u2 env1 env2 h s = elim h [
      | inl k ↦ update-settled-Same y u1 u2 env1 env2 k s
      | inr (k, q) ↦ update-Same y u1 u2 env1 env2 q s
    ]
    put_even-Same (paren e) u1 u2 env1 env2 h s = put_even-Same e u1 u2 env1 env2 h s
    put_even-Same (index e i) u1 u2 env1 env2 h s =
        put_base-Same (base_of e) _ _ u1 u2 env1 env2 h s
    put_even-Same (field f e) u1 u2 env1 env2 h s =
        put_base-Same (base_of e) _ _ u1 u2 env1 env2 h s
    put_even-Same absent u1 u2 env1 env2 h s = s
    put_even-Same unresolved u1 u2 env1 env2 h s = s
    put_even-Same other u1 u2 env1 env2 h s = s
    put_even-Same (constant c) u1 u2 env1 env2 h s = s
    put_even-Same (unary o e) u1 u2 env1 env2 h s = s
    put_even-Same (key_value o e) u1 u2 env1 env2 h s = s
    put_even-Same (binary o x y) u1 u2 env1 env2 h s = s
    put_even-Same (composite es) u1 u2 env1 env2 h s = s
    put_even-Same (call c es) u1 u2 env1 env2 h s = s

    path-cases :
        (e : Expr) {u1 u2 : m.Value}
        → even_target slice vary e ≡ true
        → (settled slice vary (base_of e) ≡ false → u1 ≡ u2)
        → (settled slice vary (base_of e) ≡ true)
          ⊎ ((steps_to m uses slice t1 st1 e ≡ steps_to m uses slice t2 st2 e) × (u1 ≡ u2))
    unfolding even_target
    path-cases e h q = elim (Bool-cases (settled slice vary (base_of e))) [
      | inl p ↦ inl p
      | inr p ↦ inr (steps-agree m uses slice vary t1 t2 st1 st2 a e (rw p at h), q p)
    ]

    -- A target that mark has recorded if its value varies.
    pub put-Same :
        (varies : Bool) (l : Expr) (u1 u2 : m.Value) (env1 env2 : ℕ → m.Value)
        → mark_if slice varies l vary ≡ vary
        → even_target slice vary l ≡ true
        → (varies ≡ false → settled slice vary (base_of l) ≡ false → u1 ≡ u2)
        → SameEnv env1 env2
        → SameEnv (put m uses slice t1 st1 l u1 env1) (put m uses slice t2 st2 l u2 env2)
    put-Same false l u1 u2 env1 env2 h v q s =
        put_even-Same l u1 u2 env1 env2 (path-cases l v (q refl)) s
    put-Same true l u1 u2 env1 env2 h v q s =
        kept_both env1 env2 _ _ s
          (put-Kept m uses slice vary t1 env1 st1 l u1 env1 h (λ x p r. refl))
          (put-Kept m uses slice vary t2 env2 st2 l u2 env2 h (λ x p r. refl))

    zero-Same :
        (l : Expr) (env1 env2 : ℕ → m.Value)
        → SameEnv env1 env2
        → SameEnv (zero_name m uses slice t1 st1 l env1) (zero_name m uses slice t2 st2 l env2)
    zero-Same (ident y) env1 env2 s = update-Same y _ _ env1 env2 refl s
    zero-Same (paren e) env1 env2 s = s
    zero-Same (index e i) env1 env2 s = s
    zero-Same (field f e) env1 env2 s = s
    zero-Same absent env1 env2 s = s
    zero-Same unresolved env1 env2 s = s
    zero-Same other env1 env2 s = s
    zero-Same (constant c) env1 env2 s = s
    zero-Same (unary o e) env1 env2 s = s
    zero-Same (key_value o e) env1 env2 s = s
    zero-Same (binary o x y) env1 env2 s = s
    zero-Same (composite es) env1 env2 s = s
    zero-Same (call c es) env1 env2 s = s

    eval-Both :
        (e : Expr)
        → varying_expr slice vary e ≡ false
        → eval m uses slice t1 st1 e ≡ eval m uses slice t2 st2 e
    eval-Both e h = eval-agrees m uses slice vary t1 t2 st1 st2 a e h

    assigned-Same :
        (o : Option ℕ) (l r : Expr)
        → even_target slice vary l ≡ true
        → varying_expr slice vary r ≡ false
        → settled slice vary (base_of l) ≡ false
        → assigned m uses slice t1 o st1 l r ≡ assigned m uses slice t2 o st2 l r
    assigned-Same none l r v h p = eval-Both r h
    assigned-Same (some o) l r v h p =
        ap₂ (m.apply2 o) (eval-Both l (target-varying l p v)) (eval-Both r h)

    pub inc_dec-Same :
        (o : ℕ) (l : Expr)
        → even_target slice vary l ≡ true
        → SameEnv
            (put m uses slice t1 st1 l (m.apply1 o (eval m uses slice t1 st1 l)) st1.env)
            (put m uses slice t2 st2 l (m.apply1 o (eval m uses slice t2 st2 l)) st2.env)
    inc_dec-Same o l v =
        put-Same false l _ _ st1.env st2.env refl v
          (λ x p. ap (m.apply1 o) (eval-Both l (target-varying l p v))) a.same_env

    pub pairs-Same :
        (n : ℕ) (o : Option ℕ) (paired : Bool) (ls rs : Exprs) (env1 env2 : ℕ → m.Value)
        → bound_targets ls ≤ n
        → mark_pairs slice paired false ls rs vary ≡ vary
        → even_targets slice vary ls ≡ true
        → SameEnv env1 env2
        → SameEnv
            (put_pairs m uses slice t1 o st1 ls rs env1)
            (put_pairs m uses slice t2 o st2 ls rs env2)
    unfolding put_pairs
    pairs-Same n o paired nil rs env1 env2 b h v s = s
    pairs-Same n o paired (cons l ls) nil env1 env2 b h v s = s
    pairs-Same n o paired (cons l ls) (cons r rs) env1 env2 b h v s =
        let q = closed-pairs slice n vary paired false l ls r rs b h in
        let p = even_targets-both l ls v in
        pairs-Same n o paired ls rs _ _ (unfold bound_targets in omega arith) q.1 p.1 (
          put-Same (not paired || varying_expr slice vary r) l _ _ env1 env2 q.0 p.0
            (λ x y. assigned-Same o l r p.0 (||-false (not paired) _ x).1 y) s)

    names-Same :
        (n : ℕ) (ls rs : Exprs) (env1 env2 : ℕ → m.Value)
        → bound_targets ls ≤ n
        → mark_names slice false ls rs vary ≡ vary
        → even_targets slice vary ls ≡ true
        → SameEnv env1 env2
        → SameEnv
            (put_names m uses slice t1 st1 ls rs env1)
            (put_names m uses slice t2 st2 ls rs env2)
    unfolding put_names
    names-Same n nil rs env1 env2 b h v s = s
    names-Same n (cons l ls) nil env1 env2 b h v s =
        let q = closed-names_nil slice n vary false l ls b h in
        let p = even_targets-both l ls v in
        names-Same n ls nil _ _ (unfold bound_targets in omega arith) q.1 p.1
          (zero-Same l env1 env2 s)
    names-Same n (cons l ls) (cons r rs) env1 env2 b h v s =
        let q = closed-names slice n vary false l ls r rs b h in
        let p = even_targets-both l ls v in
        names-Same n ls rs _ _ (unfold bound_targets in omega arith) q.1 p.1
          (put-Same (varying_expr slice vary r) l _ _ env1 env2 q.0 p.0 (λ x y. eval-Both r x) s)

    pub range-Same :
        (o : Over) (varies : Bool) (k e x : Expr) (i : ℕ)
        → mark_if slice varies k vary ≡ vary
        → mark_if slice (varies || varying_expr slice vary x) e vary ≡ vary
        → even_target slice vary k ≡ true
        → even_target slice vary e ≡ true
        → Both (set_range m uses slice t1 o k e x i st1) (set_range m uses slice t2 o k e x i st2)
    unfolding set_range
    range-Same o varies k e x i h h' v v' = env-Both st1 st2 _ _ a (
        put-Same (varies || varying_expr slice vary x) e _ _ _ _ h' v'
          (λ p q. eval-Both (index x (constant i)) (constant-index x i (||-false varies _ p).1))
          (put-Same varies k _ _ st1.env st2.env h v (λ p q. refl) a.same_env))

  pub decl-Same :
      (n : ℕ) (d : Specs) (st1 st2 : State m)
      → bound_decl d ≤ n
      → mark_decl slice false d vary ≡ vary
      → steady_decl uses slice vary d ≡ true
      → Both st1 st2
      → Both (run_decl m uses slice t1 d st1) (run_decl m uses slice t2 d st2)
  unfolding run_decl steady_decl
  decl-Same n no_spec st1 st2 b h v a = a
  decl-Same n (spec names values d) st1 st2 b h v a =
      let q = closed-decl slice n vary false names values d b h in
      let p = &&-true (steady_exprs uses values) _ v in
      let p1 = &&-true (even_targets slice vary names) _ p.1 in
      decl-Same n d _ _ (unfold bound_decl in omega arith) q.1 p1.1 (
        after_all-Both values _ _ p.0 (
          env-Both st1 st2 _ _ a (
            names-Same st1 st2 a n names values st1.env st2.env (unfold bound_decl in omega arith)
              q.0 p1.0 a.same_env)))
