-- ===== src/Lower/Device/Silence.antt =====
-- internal/lower/diverge.go: a statement without a meeting point, run by a thread, meets nobody.
use simtgo.Base.{
  ℕ, Bool, true, false, not, [], ◌++◌, some, none, if◌then◌else◌, ◌≡◌, refl, Bool-cases, inl, inr,
  >>=-eq-some, arith, &&-true,
}
use simtgo.Lower.Syntax.{
  Callee, conversion, builtin_len, builtin_min_max, other_ident, gpu_atomic, gpu_func, other_callee,
  package_func, method, land, lor, strict, Expr, absent, unresolved, other, constant, ident, paren,
  unary, field, key_value, binary, index, composite, call, Exprs, nil, cons, break_token,
  continue_token, fallthrough_token, Over, Stmt, no_stmt, empty, other_stmt, expr_stmt, assign,
  inc_dec, decl, block, labeled, if_stmt, for_stmt, range, switch, return, branch, Stmts, done,
  then_do, Clauses, no_clause, clause, Specs, no_spec, spec,
}
use simtgo.Lower.Diverge.{BarrierUse, is_barrier}
use simtgo.Lower.Diverge.Quiet.{
  quiet_call, quiet_expr, quiet_exprs, quiet_decl, quiet, quiet_stmts, quiet_clauses,
}
use simtgo.Lower.Device.{
  Machine, Thread, State, Signal, next, Outcome, Trace, eval, reached, reached_all, meets, after,
  after_all, compared, after_cases, run_decl, with_env, exec, exec_stmts, exec_clauses, matches,
  set_range,
}
use simtgo.Lower.Device.Loops.{rounds-keeps, at_end, caught-keeps, and_then-keeps}

nothing : {a b : Trace} → a ≡ [] → b ≡ [] → a ++ b ≡ []
nothing p q = rw (p, q)

if_nothing : (b : Bool) {x y : Trace} → x ≡ [] → y ≡ [] → (if b then x else y) ≡ []
if_nothing true p q = p
if_nothing false p q = q

module _ (m : Machine) (uses : ℕ → BarrierUse) (slice : ℕ → Bool) (t : Thread m) where
  meets-quiet : (c : Callee) → quiet_call uses c ≡ true → meets m uses slice t c ≡ []
  meets-quiet (package_func f) h = ground arith
  meets-quiet (method o) h = ground arith
  meets-quiet conversion h = refl
  meets-quiet builtin_len h = refl
  meets-quiet builtin_min_max h = refl
  meets-quiet other_ident h = refl
  meets-quiet gpu_atomic h = refl
  meets-quiet gpu_func h = refl
  meets-quiet other_callee h = refl

  mutual
    unfolding reached quiet_expr

    pub reached-quiet :
        (st : State m) (e : Expr) → quiet_expr uses e ≡ true → reached m uses slice t st e ≡ []
    reached-quiet st (call c es) h =
        let p = &&-true _ _ h in nothing (meets-quiet c p.0) (reached_all-quiet st es p.1)
    reached-quiet st (paren e) h = reached-quiet st e h
    reached-quiet st (unary o e) h = reached-quiet st e h
    reached-quiet st (field f e) h = reached-quiet st e h
    reached-quiet st (key_value k e) h = reached-quiet st e h
    reached-quiet st (binary land a b) h =
        let p = &&-true _ _ h in
        nothing (if_nothing _ (reached-quiet st b p.1) refl) (reached-quiet st a p.0)
    reached-quiet st (binary lor a b) h =
        let p = &&-true _ _ h in
        nothing (if_nothing _ refl (reached-quiet st b p.1)) (reached-quiet st a p.0)
    reached-quiet st (binary (strict o) a b) h =
        let p = &&-true _ _ h in nothing (reached-quiet st b p.1) (reached-quiet st a p.0)
    reached-quiet st (index e i) h =
        let p = &&-true _ _ h in nothing (reached-quiet st i p.1) (reached-quiet st e p.0)
    reached-quiet st (composite es) h = reached_all-quiet st es h
    reached-quiet st absent h = refl
    reached-quiet st unresolved h = refl
    reached-quiet st other h = refl
    reached-quiet st (constant n) h = refl
    reached-quiet st (ident x) h = refl

    pub reached_all-quiet :
        (st : State m) (es : Exprs)
        → quiet_exprs uses es ≡ true
        → reached_all m uses slice t st es ≡ []
    reached_all-quiet st nil h = refl
    reached_all-quiet st (cons e es) h =
        let p = &&-true _ _ h in nothing (reached_all-quiet st es p.1) (reached-quiet st e p.0)

  compared-quiet :
      (v : m.Value) (es : Exprs) (st : State m)
      → quiet_exprs uses es ≡ true
      → compared m uses slice t v es st ≡ []
  unfolding compared quiet_expr
  compared-quiet v nil st h = refl
  compared-quiet v (cons e es) st h =
      let p = &&-true _ _ h in
      nothing (if_nothing _ refl (compared-quiet v es st p.1)) (reached-quiet st e p.0)

  module _ (tr : Trace) where
    abbrev Silent : State m → Type 0
    Silent st = st.trace ≡ tr

    pub after-Silent :
        (e : Expr) (st : State m)
        → quiet_expr uses e ≡ true
        → Silent st
        → Silent (after m uses slice t e st)
    unfolding after
    after-Silent e st h p = rw (reached-quiet st e h) p

    pub after_all-Silent :
        (es : Exprs) (st : State m)
        → quiet_exprs uses es ≡ true
        → Silent st
        → Silent (after_all m uses slice t es st)
    unfolding after_all
    after_all-Silent es st h p = rw (reached_all-quiet st es h) p

    pub after_cases-Silent :
        (v : m.Value) (es : Exprs) (st : State m)
        → quiet_exprs uses es ≡ true
        → Silent st
        → Silent (after_cases m uses slice t v es st)
    unfolding after_cases
    after_cases-Silent v es st h p = rw (compared-quiet v es st h) p

    decl-Silent :
        (d : Specs) (st : State m)
        → quiet_decl uses d ≡ true
        → Silent st
        → Silent (run_decl m uses slice t d st)
    unfolding run_decl quiet_decl
    decl-Silent no_spec st h p = p
    decl-Silent (spec names values d) st h p =
        let q = &&-true _ _ h in decl-Silent d _ q.1 (after_all-Silent values _ q.0 p)

    pub set_range-Silent :
        (o : Over) (k e x : Expr) (i : ℕ) (st : State m)
        → Silent st
        → Silent (set_range m uses slice t o k e x i st)
    unfolding set_range
    set_range-Silent o k e x i st p = p

    module _ (fuel : ℕ) where
      abbrev Run : Stmt → State m → Outcome m
      Run s st = exec m uses slice t fuel s st

      mutual
        unfolding exec quiet

        pub exec-Silent :
            (s : Stmt) (st : State m) (g : Signal) (st' : State m)
            → quiet uses s ≡ true
            → Silent st
            → exec m uses slice t fuel s st ≡ some (g, st')
            → Silent st'
        exec-Silent no_stmt st g st' h p e = at_end m Silent p e
        exec-Silent empty st g st' h p e = at_end m Silent p e
        exec-Silent other_stmt st g st' h p e = cc
        exec-Silent (expr_stmt x) st g st' h p e =
            let q = &&-true _ _ h in
            elim (Bool-cases (is_barrier x)) [
              | inl b ↦ let n : not (is_barrier x) ≡ true = q.0 in let n' = rw b at n in cc
              | inr b ↦ at_end m Silent (after-Silent x st q.1 p) (rw b at e)
            ]
        exec-Silent (assign o ls rs) st g st' h p e =
            let q = &&-true _ _ h in
            at_end m Silent
              (after_all-Silent rs _ q.1 (after_all-Silent ls (with_env m _ st) q.0 p)) e
        exec-Silent (inc_dec o x) st g st' h p e =
            at_end m Silent (after-Silent x (with_env m _ st) h p) e
        exec-Silent (decl d) st g st' h p e = at_end m Silent (decl-Silent d st h p) e
        exec-Silent (block ss) st g st' h p e = stmts-Silent ss st g st' h p e
        exec-Silent (labeled l s) st g st' h p e = exec-Silent s st g st' h p e
        exec-Silent (if_stmt init c body els) st g st' h p e =
            let q = &&-true _ _ h in
            let q1 = &&-true _ _ q.1 in
            let q2 = &&-true _ _ q1.1 in
            let (r, a, b) = >>=-eq-some (Run init st) _ e in
            let p1 = after-Silent c r.1 q1.0 (exec-Silent init st r.0 r.1 q.0 p a) in
            elim (Bool-cases (m.truth (eval m uses slice t r.1 c))) [
              | inl y ↦ exec-Silent body _ g st' q2.0 p1 (rw y at b)
              | inr y ↦ exec-Silent els _ g st' q2.1 p1 (rw y at b)
            ]
        exec-Silent (for_stmt init c post body) st g st' h p e =
            let q = &&-true _ _ h in
            let q1 = &&-true _ _ q.1 in
            let q2 = &&-true _ _ q1.1 in
            let (r, a, b) = >>=-eq-some (Run init st) _ e in
            rounds-keeps m Silent _
              (record {
                look = λ s1 k. after-Silent c s1 q1.0 k;
                before = λ i s1 k. k;
                body = λ s1 g1 s2 k x. exec-Silent body s1 g1 s2 q2.1 k x;
                post = λ s1 g1 s2 k x. exec-Silent post s1 g1 s2 q2.0 k x;
              })
              fuel 0 r.1 g st' (exec-Silent init st r.0 r.1 q.0 p a) b
        exec-Silent (range o k v x body) st g st' h p e =
            let q = &&-true _ _ h in
            rounds-keeps m Silent _
              (record {
                look = λ s1 y. y;
                before = λ i s1 y. set_range-Silent o k v x i s1 y;
                body = λ s1 g1 s2 y z. exec-Silent body s1 g1 s2 q.1 y z;
                post = λ s1 g1 s2 y z. at_end m Silent y z;
              })
              fuel 0 _ g st' (after-Silent x st q.0 p) e
        exec-Silent (switch init tag cs) st g st' h p e =
            let q = &&-true _ _ h in
            let q1 = &&-true _ _ q.1 in
            let (r, a, b) = >>=-eq-some (Run init st) _ e in
            let (r2, a2, b2) =
              >>=-eq-some
                (exec_clauses m uses slice t fuel cs (eval m uses slice t r.1 tag)
                  (λ s. some (next, s)) (after m uses slice t tag r.1))
                _ b in
            caught-keeps m Silent r2.0 r2.1 g st'
              (clauses-Silent cs _ _ _ r2.0 r2.1 q1.1 (λ s1 g1 s2 y z. at_end m Silent y z)
                (after-Silent tag r.1 q1.0 (exec-Silent init st r.0 r.1 q.0 p a)) a2)
              b2
        exec-Silent (return es) st g st' h p e = at_end m Silent (after_all-Silent es st h p) e
        exec-Silent (branch break_token none) st g st' h p e = at_end m Silent p e
        exec-Silent (branch continue_token none) st g st' h p e = at_end m Silent p e
        exec-Silent (branch fallthrough_token none) st g st' h p e = cc
        exec-Silent (branch k (some l)) st g st' h p e = cc

        pub stmts-Silent :
            (ss : Stmts) (st : State m) (g : Signal) (st' : State m)
            → quiet_stmts uses ss ≡ true
            → Silent st
            → exec_stmts m uses slice t fuel ss st ≡ some (g, st')
            → Silent st'
        stmts-Silent done st g st' h p e = at_end m Silent p e
        stmts-Silent (then_do s ss) st g st' h p e =
            let q = &&-true _ _ h in
            let (r, a, b) = >>=-eq-some (Run s st) _ e in
            and_then-keeps m Silent _ r.0 r.1 g st' (stmts-Silent ss r.1 g st' q.1)
              (exec-Silent s st r.0 r.1 q.0 p a) b

        pub clauses-Silent :
            (cs : Clauses) (v : m.Value) (otherwise : State m → Outcome m) (st : State m)
            (g : Signal) (st' : State m)
            → quiet_clauses uses cs ≡ true
            → ((s1 : State m) (g1 : Signal) (s2 : State m)
                → Silent s1
                → otherwise s1 ≡ some (g1, s2)
                → Silent s2)
            → Silent st
            → exec_clauses m uses slice t fuel cs v otherwise st ≡ some (g, st')
            → Silent st'
        clauses-Silent no_clause v otherwise st g st' h k p e = k st g st' p e
        clauses-Silent (clause nil body cs) v otherwise st g st' h k p e =
            let q1 = &&-true (quiet_stmts uses body) (quiet_clauses uses cs) h in
            clauses-Silent cs v _ st g st' q1.1
              (λ s1 g1 s2 y z. stmts-Silent body s1 g1 s2 q1.0 y z) p e
        clauses-Silent (clause (cons x es) body cs) v otherwise st g st' h k p e =
            let q = &&-true _ _ h in
            let q1 = &&-true _ _ q.1 in
            let p1 = after_cases-Silent v (cons x es) st q.0 p in
            elim (Bool-cases (matches m uses slice t v (cons x es) st)) [
              | inl y ↦ stmts-Silent body _ g st' q1.0 p1 (rw y at e)
              | inr y ↦ clauses-Silent cs v otherwise _ g st' q1.1 k p1 (rw y at e)
            ]
