-- ===== src/Lower/Diverge/Quiet.antt =====
-- internal/lower/diverge.go: where not every thread arrives, what check lets pass has no meeting point.
use simtgo.Base.{
  ℕ, Bool, true, false, not, ◌&&◌, ◌||◌, List, [], Option, some, none, if◌then◌else◌, ◌≡◌, refl,
  subst, Bool-cases, inl, inr,
}
use simtgo.Lower.Syntax.{
  Callee, conversion, builtin_len, builtin_min_max, other_ident, gpu_atomic, gpu_func, other_callee,
  package_func, method, Expr, absent, unresolved, other, constant, ident, paren, unary, field,
  key_value, binary, index, composite, call, Exprs, nil, cons, Stmt, no_stmt, empty, other_stmt,
  expr_stmt, assign, inc_dec, decl, block, labeled, if_stmt, for_stmt, range, switch, return,
  branch, Stmts, done, then_do, Clauses, no_clause, clause, Specs, no_spec, spec,
}
use simtgo.Lower.Vary.{varying_expr, for_varies, range_varies, switch_varies}
use simtgo.Lower.Diverge.{
  BarrierUse, What, Subject, Found, rule_at, report, set_barrier, set_warp, the_barrier,
  through_barrier, through_warp, warp_op, takes_mask, div_if, div_loop, div_switch, in_loop, under,
  is_barrier, enter, check_call, check_expr, check_exprs, check_decl, check, check_stmts,
  check_clauses,
}
use simtgo.Lower.Diverge.Later.{
  Later, refuse-clean, set_returns-Later, check_call-Later, check_expr-Later, check_exprs-Later,
  check_decl-Later, check-Later, check_stmts-Later, check_clauses-Later,
}

-- Not every thread is here: under a construct that they enter differently, or after such a return.
abbrev pub blocked : Option What → Found → Bool
blocked (some d) w = true
blocked none w = w.use_of.returns

pub blocked-Later :
    (at : Option What) {w w' : Found} → Later w w' → blocked at w ≡ true → blocked at w' ≡ true
blocked-Later (some d) l h = refl
blocked-Later none l h = l.kept h

pub blocked-enter :
    (at : Option What) (b : Bool) (what : What) (w : Found)
    → blocked at w ≡ true
    → blocked (enter at b what) w ≡ true
blocked-enter (some d) b what w h = refl
blocked-enter none true what w h = refl
blocked-enter none false what w h = h

report-blocked :
    (s : Subject) (at : Option What) (w : Found)
    → (report s at w).fails ≡ []
    → blocked at w ≡ true
    → ⊥
unfolding report rule_at
report-blocked s (some div_loop) w p h = let q = refuse-clean s (some (in_loop)) w.fails p in cc q.1
report-blocked s (some div_if) w p h =
    let q = refuse-clean s (some (under div_if)) w.fails p in cc q.1
report-blocked s (some div_switch) w p h =
    let q = refuse-clean s (some (under div_switch)) w.fails p in cc q.1
report-blocked s none w p h =
    let q : rule_at none w.use_of.returns ≡ none = (refuse-clean s _ w.fails p).1 in
    let q' = rw h at q in cc

blocked-set_barrier :
    (at : Option What) (w : Found) → blocked at w ≡ true → blocked at (set_barrier w) ≡ true
blocked-set_barrier (some d) w h = refl
blocked-set_barrier none w h = h

blocked-set_warp :
    (at : Option What) (w : Found) → blocked at w ≡ true → blocked at (set_warp w) ≡ true
blocked-set_warp (some d) w h = refl
blocked-set_warp none w h = h

both : {a b : Bool} → a ≡ true → b ≡ true → (a && b) ≡ true
both p q = rw (p, q)

module _ (uses : ℕ → BarrierUse) where
  abbrev pub quiet_call : Callee → Bool
  quiet_call (package_func f) = not ((uses f).barrier || (uses f).warp)
  quiet_call (method o) = not (takes_mask o)
  quiet_call _ = true

  unfoldable mutual
    pub quiet_expr : Expr → Bool
    quiet_expr (call c es) = quiet_call c && quiet_exprs es
    quiet_expr (paren e) = quiet_expr e
    quiet_expr (unary o e) = quiet_expr e
    quiet_expr (field f e) = quiet_expr e
    quiet_expr (key_value k e) = quiet_expr e
    quiet_expr (binary o a b) = quiet_expr a && quiet_expr b
    quiet_expr (index e i) = quiet_expr e && quiet_expr i
    quiet_expr (composite es) = quiet_exprs es
    quiet_expr absent = true
    quiet_expr unresolved = true
    quiet_expr other = true
    quiet_expr (constant n) = true
    quiet_expr (ident x) = true

    pub quiet_exprs : Exprs → Bool
    quiet_exprs nil = true
    quiet_exprs (cons e es) = quiet_expr e && quiet_exprs es

  unfoldable pub quiet_decl : Specs → Bool
  unfolding quiet_expr
  quiet_decl no_spec = true
  quiet_decl (spec names values d) = quiet_exprs values && quiet_decl d

  unfoldable mutual
    unfolding quiet_expr quiet_decl

    pub quiet : Stmt → Bool
    quiet (expr_stmt e) = not (is_barrier e) && quiet_expr e
    quiet (assign o ls rs) = quiet_exprs ls && quiet_exprs rs
    quiet (inc_dec o e) = quiet_expr e
    quiet (decl d) = quiet_decl d
    quiet (block ss) = quiet_stmts ss
    quiet (labeled l s) = quiet s
    quiet (if_stmt init c body els) = quiet init && (quiet_expr c && (quiet body && quiet els))
    quiet (for_stmt init c post body) = quiet init && (quiet_expr c && (quiet post && quiet body))
    quiet (range o k e x body) = quiet_expr x && quiet body
    quiet (switch init tag cs) = quiet init && (quiet_expr tag && quiet_clauses cs)
    quiet (return es) = quiet_exprs es
    quiet (branch t l) = true
    quiet no_stmt = true
    quiet empty = true
    quiet other_stmt = true

    pub quiet_stmts : Stmts → Bool
    quiet_stmts done = true
    quiet_stmts (then_do s ss) = quiet s && quiet_stmts ss

    pub quiet_clauses : Clauses → Bool
    quiet_clauses no_clause = true
    quiet_clauses (clause es body cs) = quiet_exprs es && (quiet_stmts body && quiet_clauses cs)

  call-quiet :
      (c : Callee) (at : Option What) (w : Found)
      → (check_call uses c at w).fails ≡ []
      → blocked at w ≡ true
      → quiet_call c ≡ true
  unfolding check_call
  call-quiet (package_func f) at w p h = elim (Bool-cases (uses f).barrier) [
    | inl e ↦
        let p' =
          subst
            (λ b.
              (if b
                then report (through_barrier f) at (set_barrier w)
                else if (uses f).warp
                then report (through_warp f) at (set_warp w)
                else w).fails
              ≡ [])
            e p in
        absurd
          (report-blocked (through_barrier f) at (set_barrier w) p' (blocked-set_barrier at w h))
    | inr e ↦ elim (Bool-cases (uses f).warp) [
      | inl e' ↦ absurd (
          report-blocked (through_warp f) at (set_warp w) (rw (e, e') at p)
            (blocked-set_warp at w h))
      | inr e' ↦ rw (e, e') refl
    ]
  ]
  call-quiet (method o) at w p h = elim (Bool-cases (takes_mask o)) [
    | inl e ↦
        absurd (report-blocked (warp_op o) at (set_warp w) (rw e at p) (blocked-set_warp at w h))
    | inr e ↦ rw e refl
  ]
  call-quiet conversion at w p h = refl
  call-quiet builtin_len at w p h = refl
  call-quiet builtin_min_max at w p h = refl
  call-quiet other_ident at w p h = refl
  call-quiet gpu_atomic at w p h = refl
  call-quiet gpu_func at w p h = refl
  call-quiet other_callee at w p h = refl

  mutual
    unfolding check_expr quiet_expr

    pub expr-quiet :
        (e : Expr) (at : Option What) (w : Found)
        → (check_expr uses e at w).fails ≡ []
        → blocked at w ≡ true
        → quiet_expr e ≡ true
    expr-quiet (call c es) at w p h =
        let l = check_call-Later uses c at w in
        both (call-quiet c at w ((check_exprs-Later uses es at _).clean p) h)
          (exprs-quiet es at _ p (blocked-Later at l h))
    expr-quiet (paren e) at w p h = expr-quiet e at w p h
    expr-quiet (unary o e) at w p h = expr-quiet e at w p h
    expr-quiet (field f e) at w p h = expr-quiet e at w p h
    expr-quiet (key_value k e) at w p h = expr-quiet e at w p h
    expr-quiet (binary o a b) at w p h =
        both (expr-quiet a at w ((check_expr-Later uses b at _).clean p) h)
          (expr-quiet b at _ p (blocked-Later at (check_expr-Later uses a at w) h))
    expr-quiet (index e i) at w p h =
        both (expr-quiet e at w ((check_expr-Later uses i at _).clean p) h)
          (expr-quiet i at _ p (blocked-Later at (check_expr-Later uses e at w) h))
    expr-quiet (composite es) at w p h = exprs-quiet es at w p h
    expr-quiet absent at w p h = refl
    expr-quiet unresolved at w p h = refl
    expr-quiet other at w p h = refl
    expr-quiet (constant n) at w p h = refl
    expr-quiet (ident x) at w p h = refl

    pub exprs-quiet :
        (es : Exprs) (at : Option What) (w : Found)
        → (check_exprs uses es at w).fails ≡ []
        → blocked at w ≡ true
        → quiet_exprs es ≡ true
    exprs-quiet nil at w p h = refl
    exprs-quiet (cons e es) at w p h =
        both (expr-quiet e at w ((check_exprs-Later uses es at _).clean p) h)
          (exprs-quiet es at _ p (blocked-Later at (check_expr-Later uses e at w) h))

  pub decl-quiet :
      (d : Specs) (at : Option What) (w : Found)
      → (check_decl uses d at w).fails ≡ []
      → blocked at w ≡ true
      → quiet_decl d ≡ true
  unfolding check_decl quiet_decl
  decl-quiet no_spec at w p h = refl
  decl-quiet (spec names values d) at w p h =
      both (exprs-quiet values at w ((check_decl-Later uses d at _).clean p) h)
        (decl-quiet d at _ p (blocked-Later at (check_exprs-Later uses values at w) h))

  module _ (slice : ℕ → Bool) (vary : List ℕ) where
    mutual
      unfolding check quiet

      pub stmt-quiet :
          (s : Stmt) (at : Option What) (w : Found)
          → (check uses slice vary s at w).fails ≡ []
          → blocked at w ≡ true
          → quiet s ≡ true
      stmt-quiet (expr_stmt e) at w p h = elim (Bool-cases (is_barrier e)) [
        | inl b ↦
            absurd (
              report-blocked the_barrier at (set_barrier w) (rw b at p)
                (blocked-set_barrier at w h))
        | inr b ↦
            let p' : (check_expr uses e at w).fails ≡ [] = rw b at p in
            both (rw b refl) (expr-quiet e at w p' h)
      ]
      stmt-quiet (assign o ls rs) at w p h =
          both (exprs-quiet ls at w ((check_exprs-Later uses rs at _).clean p) h)
            (exprs-quiet rs at _ p (blocked-Later at (check_exprs-Later uses ls at w) h))
      stmt-quiet (inc_dec o e) at w p h = expr-quiet e at w p h
      stmt-quiet (decl d) at w p h = decl-quiet d at w p h
      stmt-quiet (block ss) at w p h = stmts-quiet ss at w p h
      stmt-quiet (labeled l s) at w p h = stmt-quiet s at w p h
      stmt-quiet (if_stmt init c body els) at w p h =
          let v = enter at (varying_expr slice vary c) div_if in
          let p3 = (check-Later uses slice vary els v _).clean p in
          let p2 = (check-Later uses slice vary body v _).clean p3 in
          let p1 = (check_expr-Later uses c at _).clean p2 in
          let h1 = blocked-Later at (check-Later uses slice vary init at w) h in
          let h2 = blocked-Later at (check_expr-Later uses c at _) h1 in
          let h3 = blocked-enter at (varying_expr slice vary c) div_if _ h2 in
          let h4 = blocked-Later v (check-Later uses slice vary body v _) h3 in
          both (stmt-quiet init at w p1 h) (
            both (expr-quiet c at _ p2 h1)
              (both (stmt-quiet body v _ p3 h3) (stmt-quiet els v _ p h4)))
      stmt-quiet (for_stmt init c post body) at w p h =
          let v = enter at (for_varies slice vary c body) div_loop in
          let p3 = (check-Later uses slice vary body v _).clean p in
          let p2 = (check-Later uses slice vary post v _).clean p3 in
          let p1 = (check_expr-Later uses c v _).clean p2 in
          let h1 = blocked-Later at (check-Later uses slice vary init at w) h in
          let h2 = blocked-enter at (for_varies slice vary c body) div_loop _ h1 in
          let h3 = blocked-Later v (check_expr-Later uses c v _) h2 in
          let h4 = blocked-Later v (check-Later uses slice vary post v _) h3 in
          both (stmt-quiet init at w p1 h) (
            both (expr-quiet c v _ p2 h2)
              (both (stmt-quiet post v _ p3 h3) (stmt-quiet body v _ p h4)))
      stmt-quiet (range o k e x body) at w p h =
          let v = enter at (range_varies slice vary o x body) div_loop in
          let p1 = (check-Later uses slice vary body v _).clean p in
          let h1 = blocked-Later at (check_expr-Later uses x at w) h in
          both (expr-quiet x at w p1 h) (
            stmt-quiet body v _ p
              (blocked-enter at (range_varies slice vary o x body) div_loop _ h1))
      stmt-quiet (switch init tag cs) at w p h =
          let v = enter at (switch_varies slice vary tag cs) div_switch in
          let p2 = (check_clauses-Later uses slice vary cs v _).clean p in
          let p1 = (check_expr-Later uses tag at _).clean p2 in
          let h1 = blocked-Later at (check-Later uses slice vary init at w) h in
          let h2 = blocked-Later at (check_expr-Later uses tag at _) h1 in
          both (stmt-quiet init at w p1 h) (
            both (expr-quiet tag at _ p2 h1) (
              clauses-quiet cs v _ p
                (blocked-enter at (switch_varies slice vary tag cs) div_switch _ h2)))
      stmt-quiet (return es) at w p h = exprs-quiet es at w ((set_returns-Later at _).clean p) h
      stmt-quiet (branch t l) at w p h = refl
      stmt-quiet no_stmt at w p h = refl
      stmt-quiet empty at w p h = refl
      stmt-quiet other_stmt at w p h = refl

      pub stmts-quiet :
          (ss : Stmts) (at : Option What) (w : Found)
          → (check_stmts uses slice vary ss at w).fails ≡ []
          → blocked at w ≡ true
          → quiet_stmts ss ≡ true
      stmts-quiet done at w p h = refl
      stmts-quiet (then_do s ss) at w p h =
          both (stmt-quiet s at w ((check_stmts-Later uses slice vary ss at _).clean p) h)
            (stmts-quiet ss at _ p (blocked-Later at (check-Later uses slice vary s at w) h))

      pub clauses-quiet :
          (cs : Clauses) (at : Option What) (w : Found)
          → (check_clauses uses slice vary cs at w).fails ≡ []
          → blocked at w ≡ true
          → quiet_clauses cs ≡ true
      clauses-quiet no_clause at w p h = refl
      clauses-quiet (clause es body cs) at w p h =
          let p2 = (check_clauses-Later uses slice vary cs at _).clean p in
          let p1 = (check_stmts-Later uses slice vary body at _).clean p2 in
          let h1 = blocked-Later at (check_exprs-Later uses es at w) h in
          let h2 = blocked-Later at (check_stmts-Later uses slice vary body at _) h1 in
          both (exprs-quiet es at w p1 h)
            (both (stmts-quiet body at _ p2 h1) (clauses-quiet cs at _ p h2))
