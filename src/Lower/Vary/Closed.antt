-- ===== src/Lower/Vary/Closed.antt =====
-- internal/lower/diverge.go: a set that the walk of mark leaves as it is, statement by statement: each part
-- of the statement leaves it as it is too.
use simtgo.Base.{
  ℕ, ◌≤◌, Bool, true, not, ◌==◌, Option, ◌||◌, List, ◌≡◌, sym, ◌∙◌, ap, arith, length,
}
use simtgo.Lower.Syntax.{
  Expr, Exprs, nil, cons, Over, Stmt, no_stmt, assign, inc_dec, decl, block, labeled, if_stmt,
  for_stmt, range, switch, Stmts, then_do, Clauses, clause, Specs, spec, count,
}
use simtgo.Lower.Vary.{
  varying_expr, for_varies, range_varies, switch_varies, mark_if, mark_pairs, mark_names, mark_decl,
  mark, mark_stmts, mark_clauses, bound, bound_stmts, bound_clauses, bound_targets, bound_decl,
}
use simtgo.Lower.Vary.Fixpoint.{
  Grows, Grows-trans, mark_if-Grows, mark_pairs-Grows, mark_names-Grows, mark_decl-Grows,
  mark-Grows, mark_stmts-Grows, mark_clauses-Grows,
}

-- Of a chain of two walks that ends where it began, each does nothing.
chain :
    {n : ℕ} {u v : List ℕ} (f : List ℕ → List ℕ)
    → Grows n u v
    → Grows n v (f v)
    → f v ≡ u
    → (v ≡ u) × (f u ≡ u)
chain f g h e = let p = g.same (omega (arith, h.le, ap length e)) in (p, ap f (sym p) ∙ e)

module _ (slice : ℕ → Bool) (n : ℕ) (v : List ℕ) where
  pub closed-pairs :
      (paired div : Bool) (l : Expr) (ls : Exprs) (r : Expr) (rs : Exprs)
      → bound_targets (cons l ls) ≤ n
      → mark_pairs slice paired div (cons l ls) (cons r rs) v ≡ v
      → (mark_if slice (div || not paired || varying_expr slice v r) l v ≡ v)
        × (mark_pairs slice paired div ls rs v ≡ v)
  unfolding mark_pairs bound_targets
  closed-pairs paired div l ls r rs h e =
      chain (mark_pairs slice paired div ls rs) (mark_if-Grows slice n _ l v (omega arith))
        (mark_pairs-Grows slice n paired div ls rs _ (omega arith)) e

  pub closed-names :
      (div : Bool) (l : Expr) (ls : Exprs) (r : Expr) (rs : Exprs)
      → bound_targets (cons l ls) ≤ n
      → mark_names slice div (cons l ls) (cons r rs) v ≡ v
      → (mark_if slice (div || varying_expr slice v r) l v ≡ v) × (mark_names slice div ls rs v ≡ v)
  unfolding mark_names bound_targets
  closed-names div l ls r rs h e =
      chain (mark_names slice div ls rs) (mark_if-Grows slice n _ l v (omega arith))
        (mark_names-Grows slice n div ls rs _ (omega arith)) e

  pub closed-names_nil :
      (div : Bool) (l : Expr) (ls : Exprs)
      → bound_targets (cons l ls) ≤ n
      → mark_names slice div (cons l ls) nil v ≡ v
      → (mark_if slice div l v ≡ v) × (mark_names slice div ls nil v ≡ v)
  unfolding mark_names bound_targets
  closed-names_nil div l ls h e =
      chain (mark_names slice div ls nil) (mark_if-Grows slice n _ l v (omega arith))
        (mark_names-Grows slice n div ls nil _ (omega arith)) e

  pub closed-decl :
      (div : Bool) (names values : Exprs) (d : Specs)
      → bound_decl (spec names values d) ≤ n
      → mark_decl slice div (spec names values d) v ≡ v
      → (mark_names slice div names values v ≡ v) × (mark_decl slice div d v ≡ v)
  unfolding mark_decl bound_decl
  closed-decl div names values d h e =
      chain (mark_decl slice div d) (mark_names-Grows slice n div names values v (omega arith))
        (mark_decl-Grows slice n div d _ (omega arith)) e

  pub closed-stmts :
      (div : Bool) (s : Stmt) (ss : Stmts)
      → bound_stmts (then_do s ss) ≤ n
      → mark_stmts slice (then_do s ss) div v ≡ v
      → (mark slice s div v ≡ v) × (mark_stmts slice ss div v ≡ v)
  unfolding mark bound
  closed-stmts div s ss h e =
      chain (mark_stmts slice ss div) (mark-Grows slice n s div v (omega arith))
        (mark_stmts-Grows slice n ss div _ (omega arith)) e

  pub closed-clauses :
      (div : Bool) (es : Exprs) (body : Stmts) (cs : Clauses)
      → bound_clauses (clause es body cs) ≤ n
      → mark_clauses slice (clause es body cs) div v ≡ v
      → (mark_stmts slice body div v ≡ v) × (mark_clauses slice cs div v ≡ v)
  unfolding mark bound
  closed-clauses div es body cs h e =
      chain (mark_clauses slice cs div) (mark_stmts-Grows slice n body div v (omega arith))
        (mark_clauses-Grows slice n cs div _ (omega arith)) e

  pub closed-if :
      (div : Bool) (init : Stmt) (c : Expr) (body els : Stmt)
      → bound (if_stmt init c body els) ≤ n
      → mark slice (if_stmt init c body els) div v ≡ v
      → (mark slice init div v ≡ v)
        × (mark slice body (div || varying_expr slice v c) v ≡ v)
        × (mark slice els (div || varying_expr slice v c) v ≡ v)
  unfolding mark bound
  closed-if div init c body els h e =
      let f = λ (u : List ℕ).
        let i = div || varying_expr slice u c in mark slice els i (mark slice body i u) in
      let p =
        chain f (mark-Grows slice n init div v (omega arith))
          (Grows-trans (mark-Grows slice n body _ _ (omega arith))
            (mark-Grows slice n els _ _ (omega arith)))
          e in
      let q =
        chain (mark slice els (div || varying_expr slice v c))
          (mark-Grows slice n body _ v (omega arith)) (mark-Grows slice n els _ _ (omega arith))
          p.1 in
      (p.0, q.0, q.1)

  pub closed-for :
      (div : Bool) (init : Stmt) (c : Expr) (post body : Stmt)
      → bound (for_stmt init c post body) ≤ n
      → mark slice (for_stmt init c post body) div v ≡ v
      → (mark slice init div v ≡ v)
        × (mark slice post (div || for_varies slice v c body) v ≡ v)
        × (mark slice body (div || for_varies slice v c body) v ≡ v)
  unfolding mark bound
  closed-for div init c post body h e =
      let f = λ (u : List ℕ).
        let i = div || for_varies slice u c body in mark slice body i (mark slice post i u) in
      let p =
        chain f (mark-Grows slice n init div v (omega arith))
          (Grows-trans (mark-Grows slice n post _ _ (omega arith))
            (mark-Grows slice n body _ _ (omega arith)))
          e in
      let q =
        chain (mark slice body (div || for_varies slice v c body))
          (mark-Grows slice n post _ v (omega arith)) (mark-Grows slice n body _ _ (omega arith))
          p.1 in
      (p.0, q.0, q.1)

  pub closed-switch :
      (div : Bool) (init : Stmt) (tag : Expr) (cs : Clauses)
      → bound (switch init tag cs) ≤ n
      → mark slice (switch init tag cs) div v ≡ v
      → (mark slice init div v ≡ v)
        × (mark_clauses slice cs (div || switch_varies slice v tag cs) v ≡ v)
  unfolding mark bound
  closed-switch div init tag cs h e =
      chain (λ (u : List ℕ). mark_clauses slice cs (div || switch_varies slice u tag cs) u)
        (mark-Grows slice n init div v (omega arith))
        (mark_clauses-Grows slice n cs _ _ (omega arith)) e

  pub closed-range :
      (div : Bool) (o : Over) (k e x : Expr) (body : Stmt)
      → bound (range o k e x body) ≤ n
      → mark slice (range o k e x body) div v ≡ v
      → (mark_if slice (div || range_varies slice v o x body) k v ≡ v)
        × (mark_if slice ((div || range_varies slice v o x body) || varying_expr slice v x) e v ≡ v)
        × (mark slice body (div || range_varies slice v o x body) v ≡ v)
  unfolding mark bound
  closed-range div o k e x body h eq =
      let i = div || range_varies slice v o x body in
      let f = λ (u : List ℕ). mark slice body i (mark_if slice (i || varying_expr slice u x) e u) in
      let p =
        chain f (mark_if-Grows slice n i k v (omega arith))
          (Grows-trans (mark_if-Grows slice n _ e _ (omega arith))
            (mark-Grows slice n body _ _ (omega arith)))
          eq in
      let q =
        chain (mark slice body i) (mark_if-Grows slice n _ e v (omega arith))
          (mark-Grows slice n body _ _ (omega arith)) p.1 in
      (p.0, q.0, q.1)

module _ (slice : ℕ → Bool) (v : List ℕ) where
  pub closed-assign :
      (o : Option ℕ) (ls rs : Exprs) (div : Bool)
      → mark slice (assign o ls rs) div v ≡ v
      → mark_pairs slice (count rs == count ls) div ls rs v ≡ v
  unfolding mark
  closed-assign o ls rs div e = e

  pub closed-inc_dec :
      (o : ℕ) (x : Expr) → mark slice (inc_dec o x) true v ≡ v → mark_if slice true x v ≡ v
  unfolding mark
  closed-inc_dec o x e = e

  pub closed-decl_stmt :
      (d : Specs) (div : Bool) → mark slice (decl d) div v ≡ v → mark_decl slice div d v ≡ v
  unfolding mark
  closed-decl_stmt d div e = e

  pub closed-block :
      (ss : Stmts) (div : Bool) → mark slice (block ss) div v ≡ v → mark_stmts slice ss div v ≡ v
  unfolding mark
  closed-block ss div e = e

  pub closed-labeled :
      (l : ℕ) (s : Stmt) (div : Bool) → mark slice (labeled l s) div v ≡ v → mark slice s div v ≡ v
  unfolding mark
  closed-labeled l s div e = e

  pub open-for :
      (c : Expr) (post body : Stmt)
      → mark slice post true v ≡ v
      → mark slice body true v ≡ v
      → mark slice (for_stmt no_stmt c post body) true v ≡ v
  unfolding mark
  open-for c post body p q = ap (mark slice body true) p ∙ q
