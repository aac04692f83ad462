-- ===== src/Lower/Diverge/Later.antt =====
-- internal/lower/diverge.go: what the walk of check has refused stays refused, and that a return was seen
-- under a varying condition stays recorded.
use simtgo.Base.{ℕ, Bool, true, List, [], ◌∷◌, Option, some, none, ◌≡◌, refl, Bool-cases, inl, inr}
use simtgo.Lower.Syntax.{
  Callee, conversion, builtin_len, builtin_min_max, other_ident, gpu_atomic, gpu_func, other_callee,
  package_func, method, Expr, absent, unresolved, other, constant, ident, paren, unary, field,
  key_value, binary, index, composite, call, Exprs, nil, cons, Stmt, no_stmt, empty, other_stmt,
  expr_stmt, assign, inc_dec, decl, block, labeled, if_stmt, for_stmt, range, switch, return,
  branch, Stmts, done, then_do, Clauses, no_clause, clause, Specs, no_spec, spec,
}
use simtgo.Lower.Diverge.{
  BarrierUse, What, Subject, Rule, Found, refuse, report, set_barrier, set_warp, set_returns,
  the_barrier, through_barrier, through_warp, warp_op, takes_mask, is_barrier, check_call,
  check_expr, check_exprs, check_decl, check, check_stmts, check_clauses,
}

pub record Later (w w' : Found) : Type 0 where
  pub clean : w'.fails ≡ [] → w.fails ≡ []
  pub kept : w.use_of.returns ≡ true → w'.use_of.returns ≡ true

Later-refl : (w : Found) → Later w w
Later-refl w = record { clean = λ h. h; kept = λ h. h }

pub Later-trans : {u v w : Found} → Later u v → Later v w → Later u w
Later-trans g h = record { clean = λ p. g.clean (h.clean p); kept = λ p. h.kept (g.kept p) }

pub refuse-clean :
    (s : Subject) (o : Option Rule) (l : List (Subject × Rule))
    → refuse s o l ≡ []
    → (l ≡ []) × (o ≡ none)
refuse-clean s none l h = (h, refl)
refuse-clean s (some r) [] h = cc
refuse-clean s (some r) (x ∷ l) h = cc

report-Later : (s : Subject) (at : Option What) (w : Found) → Later w (report s at w)
unfolding report
report-Later s at w = record { clean = λ p. (refuse-clean s _ w.fails p).0; kept = λ h. h }

set_barrier-Later : (w : Found) → Later w (set_barrier w)
set_barrier-Later w = record { clean = λ h. h; kept = λ h. h }

set_warp-Later : (w : Found) → Later w (set_warp w)
set_warp-Later w = record { clean = λ h. h; kept = λ h. h }

pub set_returns-Later : (at : Option What) (w : Found) → Later w (set_returns at w)
set_returns-Later none w = Later-refl w
set_returns-Later (some d) w = record { clean = λ h. h; kept = λ h. refl }

barrier-Later : (s : Subject) (at : Option What) (w : Found) → Later w (report s at (set_barrier w))
barrier-Later s at w = Later-trans (set_barrier-Later w) (report-Later s at (set_barrier w))

warp-Later : (s : Subject) (at : Option What) (w : Found) → Later w (report s at (set_warp w))
warp-Later s at w = Later-trans (set_warp-Later w) (report-Later s at (set_warp w))

module _ (uses : ℕ → BarrierUse) where
  pub check_call-Later :
      (c : Callee) (at : Option What) (w : Found) → Later w (check_call uses c at w)
  unfolding check_call
  check_call-Later (package_func f) at w = elim (Bool-cases (uses f).barrier) [
    | inl e ↦ rw e (barrier-Later (through_barrier f) at w)
    | inr e ↦ elim (Bool-cases (uses f).warp) [
      | inl e' ↦ rw (e, e') (warp-Later (through_warp f) at w)
      | inr e' ↦ rw (e, e') (Later-refl w)
    ]
  ]
  check_call-Later (method o) at w = elim (Bool-cases (takes_mask o)) [
    | inl e ↦ rw e (warp-Later (warp_op o) at w)
    | inr e ↦ rw e (Later-refl w)
  ]
  check_call-Later conversion at w = Later-refl w
  check_call-Later builtin_len at w = Later-refl w
  check_call-Later builtin_min_max at w = Later-refl w
  check_call-Later other_ident at w = Later-refl w
  check_call-Later gpu_atomic at w = Later-refl w
  check_call-Later gpu_func at w = Later-refl w
  check_call-Later other_callee at w = Later-refl w

  mutual
    unfolding check_expr

    pub check_expr-Later :
        (e : Expr) (at : Option What) (w : Found) → Later w (check_expr uses e at w)
    check_expr-Later (call c es) at w =
        Later-trans (check_call-Later c at w) (check_exprs-Later es at _)
    check_expr-Later (paren e) at w = check_expr-Later e at w
    check_expr-Later (unary o e) at w = check_expr-Later e at w
    check_expr-Later (field f e) at w = check_expr-Later e at w
    check_expr-Later (key_value k e) at w = check_expr-Later e at w
    check_expr-Later (binary o a b) at w =
        Later-trans (check_expr-Later a at w) (check_expr-Later b at _)
    check_expr-Later (index e i) at w =
        Later-trans (check_expr-Later e at w) (check_expr-Later i at _)
    check_expr-Later (composite es) at w = check_exprs-Later es at w
    check_expr-Later absent at w = Later-refl w
    check_expr-Later unresolved at w = Later-refl w
    check_expr-Later other at w = Later-refl w
    check_expr-Later (constant n) at w = Later-refl w
    check_expr-Later (ident x) at w = Later-refl w

    pub check_exprs-Later :
        (es : Exprs) (at : Option What) (w : Found) → Later w (check_exprs uses es at w)
    check_exprs-Later nil at w = Later-refl w
    check_exprs-Later (cons e es) at w =
        Later-trans (check_expr-Later e at w) (check_exprs-Later es at _)

  pub check_decl-Later :
      (d : Specs) (at : Option What) (w : Found) → Later w (check_decl uses d at w)
  unfolding check_decl
  check_decl-Later no_spec at w = Later-refl w
  check_decl-Later (spec names values d) at w =
      Later-trans (check_exprs-Later values at w) (check_decl-Later d at _)

  module _ (slice : ℕ → Bool) (vary : List ℕ) where
    mutual
      unfolding check

      pub check-Later :
          (s : Stmt) (at : Option What) (w : Found) → Later w (check uses slice vary s at w)
      check-Later (expr_stmt e) at w = elim (Bool-cases (is_barrier e)) [
        | inl p ↦ rw p (barrier-Later the_barrier at w)
        | inr p ↦ rw p (check_expr-Later e at w)
      ]
      check-Later (assign o ls rs) at w =
          Later-trans (check_exprs-Later ls at w) (check_exprs-Later rs at _)
      check-Later (inc_dec o e) at w = check_expr-Later e at w
      check-Later (decl d) at w = check_decl-Later d at w
      check-Later (block ss) at w = check_stmts-Later ss at w
      check-Later (labeled l s) at w = check-Later s at w
      check-Later (if_stmt init c body els) at w = Later-trans (check-Later init at w) (
          Later-trans (check_expr-Later c at _)
            (Later-trans (check-Later body _ _) (check-Later els _ _)))
      check-Later (for_stmt init c post body) at w = Later-trans (check-Later init at w) (
          Later-trans (check_expr-Later c _ _)
            (Later-trans (check-Later post _ _) (check-Later body _ _)))
      check-Later (range o k e x body) at w =
          Later-trans (check_expr-Later x at w) (check-Later body _ _)
      check-Later (switch init tag cs) at w =
          Later-trans (check-Later init at w)
            (Later-trans (check_expr-Later tag at _) (check_clauses-Later cs _ _))
      check-Later (return es) at w =
          Later-trans (check_exprs-Later es at w) (set_returns-Later at _)
      check-Later (branch t l) at w = Later-refl w
      check-Later no_stmt at w = Later-refl w
      check-Later empty at w = Later-refl w
      check-Later other_stmt at w = Later-refl w

      pub check_stmts-Later :
          (ss : Stmts) (at : Option What) (w : Found)
          → Later w (check_stmts uses slice vary ss at w)
      check_stmts-Later done at w = Later-refl w
      check_stmts-Later (then_do s ss) at w =
          Later-trans (check-Later s at w) (check_stmts-Later ss at _)

      pub check_clauses-Later :
          (cs : Clauses) (at : Option What) (w : Found)
          → Later w (check_clauses uses slice vary cs at w)
      check_clauses-Later no_clause at w = Later-refl w
      check_clauses-Later (clause es body cs) at w =
          Later-trans (check_exprs-Later es at w)
            (Later-trans (check_stmts-Later body at _) (check_clauses-Later cs at _))
