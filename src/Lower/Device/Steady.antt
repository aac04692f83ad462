-- ===== src/Lower/Device/Steady.antt =====
-- internal/lower/diverge.go: what the walks take for granted of a function, and what follows from it for the
-- parts of a statement that every thread of a block runs.
--
-- A function is steady if, where all threads arrive, no meeting point stands to the right of && or ||, an
-- element of an array that is not in the set is assigned at an index that does not vary, and a loop
-- inside another that only some threads leave early has no return.
use simtgo.Base.{
  ℕ, Bool, true, false, not, ◌&&◌, ◌||◌, List, [], ◌∷◌, ◌++◌, Option, some, none, if◌then◌else◌,
  ◌≡◌, refl, sym, ◌∙◌, ap, arith, &&-true, ||-false,
}
use mathlib.Core.Path.{ap₂}
use simtgo.Lower.Syntax.{
  land, lor, strict, Expr, absent, unresolved, other, constant, ident, paren, unary, field,
  key_value, binary, index, composite, call, Exprs, nil, cons, Stmt, no_stmt, empty, other_stmt,
  expr_stmt, assign, inc_dec, decl, block, labeled, if_stmt, for_stmt, range, switch, return,
  branch, Stmts, done, then_do, Clauses, no_clause, clause, Specs, no_spec, spec,
}
use simtgo.Lower.Vary.{
  varying_expr, any_varying, for_varies, range_varies, switch_varies, member, base_of,
}
use simtgo.Lower.Diverge.{BarrierUse, is_barrier}
use simtgo.Lower.Diverge.Quiet.{quiet_expr}
use simtgo.Lower.Device.{
  Machine, Thread, State, Trace, reached, reached_all, compared, steps_to, matches,
}
use simtgo.Lower.Device.Agree.{Alike, eval-agrees}
use simtgo.Lower.Device.Silence.{reached-quiet}
use simtgo.Lower.Device.Signals.{ends_early}

-- The statements that Go allows before a condition or after a round, and their like.
abbrev pub is_simple : Stmt → Bool
is_simple no_stmt = true
is_simple empty = true
is_simple (expr_stmt e) = true
is_simple (assign o ls rs) = true
is_simple (inc_dec o e) = true
is_simple (decl d) = true
is_simple _ = false

module _ (slice : ℕ → Bool) (vary : List ℕ) where
  unfoldable pub even_path : Expr → Bool
  even_path (paren e) = even_path e
  even_path (index e i) = not (varying_expr slice vary i) && even_path e
  even_path (field f e) = even_path e
  even_path _ = true

  abbrev pub settled : Option ℕ → Bool
  settled none = true
  settled (some x) = slice x || member x vary

  unfoldable pub even_target : Expr → Bool
  unfolding even_path
  even_target e = settled (base_of e) || even_path e

  unfoldable pub even_targets : Exprs → Bool
  unfolding even_target
  even_targets nil = true
  even_targets (cons e es) = even_target e && even_targets es

module _ (uses : ℕ → BarrierUse) where
  unfoldable mutual
    pub steady_expr : Expr → Bool
    steady_expr (call c es) = steady_exprs es
    steady_expr (paren e) = steady_expr e
    steady_expr (unary o e) = steady_expr e
    steady_expr (field f e) = steady_expr e
    steady_expr (key_value k e) = steady_expr e
    steady_expr (binary land a b) = steady_expr a && quiet_expr uses b
    steady_expr (binary lor a b) = steady_expr a && quiet_expr uses b
    steady_expr (binary (strict o) a b) = steady_expr a && steady_expr b
    steady_expr (index e i) = steady_expr e && steady_expr i
    steady_expr (composite es) = steady_exprs es
    steady_expr absent = true
    steady_expr unresolved = true
    steady_expr other = true
    steady_expr (constant n) = true
    steady_expr (ident x) = true

    pub steady_exprs : Exprs → Bool
    steady_exprs nil = true
    steady_exprs (cons e es) = steady_expr e && steady_exprs es

  module _ (slice : ℕ → Bool) (vary : List ℕ) where
    unfoldable pub steady_decl : Specs → Bool
    steady_decl no_spec = true
    steady_decl (spec names values d) =
        steady_exprs values && (even_targets slice vary names && steady_decl d)

    -- `inner` says that the statement stands in a loop.
    unfoldable mutual
      unfolding steady_expr steady_decl

      pub steady : Bool → Stmt → Bool
      steady inner (expr_stmt e) = is_barrier e || steady_expr e
      steady inner (assign o ls rs) =
          steady_exprs ls && (steady_exprs rs && even_targets slice vary ls)
      steady inner (inc_dec o e) = steady_expr e && even_target slice vary e
      steady inner (decl d) = steady_decl d
      steady inner (block ss) = steady_stmts inner ss
      steady inner (labeled l s) = steady inner s
      steady inner (if_stmt init c body els) =
          (is_simple init && steady inner init)
          && (steady_expr c
              && (varying_expr slice vary c || (steady inner body && steady inner els)))
      steady inner (for_stmt init c post body) =
          let varies = for_varies slice vary c body in
          (is_simple init && steady inner init)
          && ((not (inner && varies)
                || (varying_expr slice vary c || not (ends_early true false body)))
              && (varies
                  || (steady_expr c && ((is_simple post && steady true post) && steady true body))))
      steady inner (range o k v x body) =
          let varies = range_varies slice vary o x body in
          steady_expr x
          && ((not (inner && varies) || not (ends_early true false body))
              && (varies
                  || ((even_target slice vary k && even_target slice vary v) && steady true body)))
      steady inner (switch init tag cs) =
          (is_simple init && steady inner init)
          && (steady_expr tag && (switch_varies slice vary tag cs || steady_clauses inner cs))
      steady inner (return es) = steady_exprs es
      steady inner (branch t l) = true
      steady inner no_stmt = true
      steady inner empty = true
      steady inner other_stmt = true

      pub steady_stmts : Bool → Stmts → Bool
      steady_stmts inner done = true
      steady_stmts inner (then_do s ss) = steady inner s && steady_stmts inner ss

      pub steady_clauses : Bool → Clauses → Bool
      steady_clauses inner no_clause = true
      steady_clauses inner (clause es body cs) =
          steady_exprs es && (steady_stmts inner body && steady_clauses inner cs)

module _ (m : Machine) (uses : ℕ → BarrierUse) (slice : ℕ → Bool) (vary : List ℕ)
    (t1 t2 : Thread m) where
  if_first : (b : Bool) {x y z : Trace} → x ≡ z → y ≡ z → (if b then x else y) ≡ z
  if_first true p q = p
  if_first false p q = q

  module _ (st1 st2 : State m) (alike : Alike m uses slice vary st1 st2) where
    mutual
      unfolding reached steady_expr

      pub reached-agrees :
          (e : Expr)
          → steady_expr uses e ≡ true
          → reached m uses slice t1 st1 e ≡ reached m uses slice t2 st2 e
      reached-agrees (call c es) h = ap₂ (◌++◌) refl (reached_all-agrees es h)
      reached-agrees (paren e) h = reached-agrees e h
      reached-agrees (unary o e) h = reached-agrees e h
      reached-agrees (field f e) h = reached-agrees e h
      reached-agrees (key_value k e) h = reached-agrees e h
      reached-agrees (binary land a b) h =
          let p = &&-true (steady_expr uses a) _ h in
          ap₂ (◌++◌)
            (if_first _ (reached-quiet m uses slice t1 st1 b p.1) refl
              ∙ sym (if_first _ (reached-quiet m uses slice t2 st2 b p.1) refl))
            (reached-agrees a p.0)
      reached-agrees (binary lor a b) h =
          let p = &&-true (steady_expr uses a) _ h in
          ap₂ (◌++◌)
            (if_first _ refl (reached-quiet m uses slice t1 st1 b p.1)
              ∙ sym (if_first _ refl (reached-quiet m uses slice t2 st2 b p.1)))
            (reached-agrees a p.0)
      reached-agrees (binary (strict o) a b) h =
          let p = &&-true (steady_expr uses a) _ h in
          ap₂ (◌++◌) (reached-agrees b p.1) (reached-agrees a p.0)
      reached-agrees (index e i) h =
          let p = &&-true (steady_expr uses e) _ h in
          ap₂ (◌++◌) (reached-agrees i p.1) (reached-agrees e p.0)
      reached-agrees (composite es) h = reached_all-agrees es h
      reached-agrees absent h = refl
      reached-agrees unresolved h = refl
      reached-agrees other h = refl
      reached-agrees (constant n) h = refl
      reached-agrees (ident x) h = refl

      pub reached_all-agrees :
          (es : Exprs)
          → steady_exprs uses es ≡ true
          → reached_all m uses slice t1 st1 es ≡ reached_all m uses slice t2 st2 es
      reached_all-agrees nil h = refl
      reached_all-agrees (cons e es) h =
          let p = &&-true (steady_expr uses e) _ h in
          ap₂ (◌++◌) (reached_all-agrees es p.1) (reached-agrees e p.0)

    pub matches-agrees :
        (v1 v2 : m.Value) (es : Exprs)
        → v1 ≡ v2
        → any_varying slice vary es ≡ false
        → matches m uses slice t1 v1 es st1 ≡ matches m uses slice t2 v2 es st2
    unfolding matches varying_expr
    matches-agrees v1 v2 nil q h = refl
    matches-agrees v1 v2 (cons e es) q h =
        let p = ||-false _ _ h in
        ap₂ (◌||◌) (ap₂ m.equal q (eval-agrees m uses slice vary t1 t2 st1 st2 alike e p.0))
          (matches-agrees v1 v2 es q p.1)

    pub compared-agrees :
        (v1 v2 : m.Value) (es : Exprs)
        → v1 ≡ v2
        → any_varying slice vary es ≡ false
        → steady_exprs uses es ≡ true
        → compared m uses slice t1 v1 es st1 ≡ compared m uses slice t2 v2 es st2
    unfolding compared varying_expr steady_expr
    compared-agrees v1 v2 nil q h s = refl
    compared-agrees v1 v2 (cons e es) q h s =
        let p = ||-false _ _ h in
        let r = &&-true (steady_expr uses e) _ s in
        let f = compared-agrees v1 v2 es q p.1 r.1 in
        let b = ap₂ m.equal q (eval-agrees m uses slice vary t1 t2 st1 st2 alike e p.0) in
        ap₂ (◌++◌) (λ i. if b i then [] else f i) (reached-agrees e r.0)

    pub steps-agree :
        (e : Expr)
        → even_path slice vary e ≡ true
        → steps_to m uses slice t1 st1 e ≡ steps_to m uses slice t2 st2 e
    unfolding steps_to even_path
    steps-agree (paren e) h = steps-agree e h
    steps-agree (index e i) h =
        let p = &&-true (not (varying_expr slice vary i)) _ h in
        let q : varying_expr slice vary i ≡ false = ground arith in
        let v = eval-agrees m uses slice vary t1 t2 st1 st2 alike i q in
        ap₂ (◌++◌) (steps-agree e p.1) (ap (λ (x : m.Value). x ∷ []) v)
    steps-agree (field f e) h = ap₂ (◌++◌) (steps-agree e h) refl
    steps-agree absent h = refl
    steps-agree unresolved h = refl
    steps-agree other h = refl
    steps-agree (constant n) h = refl
    steps-agree (ident x) h = refl
    steps-agree (unary o e) h = refl
    steps-agree (key_value o e) h = refl
    steps-agree (binary o a b) h = refl
    steps-agree (composite es) h = refl
    steps-agree (call c es) h = refl
