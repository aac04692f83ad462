-- ===== src/Lower/Device/Uniform.antt =====
-- internal/lower/diverge.go: two threads of a block run a statement that check lets pass, and stay together, or
-- part by a return that is recorded.
use simtgo.Base.{
  ℕ, ◌≤◌, Bool, true, false, List, [], some, none, ◌≡◌, refl, sym, ◌∙◌, Bool-cases, inl, inr, arith,
  >>=-eq-some, &&-true,
}
use simtgo.Lower.Syntax.{
  nil, cons, break_token, continue_token, fallthrough_token, Stmt, no_stmt, empty, other_stmt,
  expr_stmt, assign, inc_dec, decl, block, labeled, if_stmt, for_stmt, range, switch, return,
  branch, Stmts, done, then_do, Clauses, no_clause, clause,
}
use simtgo.Lower.Vary.{
  case_varies, mark, mark_stmts, mark_clauses, bound, bound_stmts, bound_clauses,
}
use simtgo.Lower.Vary.Closed.{closed-stmts, closed-clauses, closed-block, closed-labeled}
use simtgo.Lower.Diverge.{BarrierUse, Found, check_exprs, check, check_stmts, check_clauses}
use simtgo.Lower.Diverge.Later.{check_stmts-Later, check_clauses-Later}
use simtgo.Lower.Diverge.Quiet.{stmts-quiet}
use simtgo.Lower.Device.{
  Machine, Thread, State, Signal, Outcome, exec, exec_stmts, exec_clauses, matches,
}
use simtgo.Lower.Device.Loops.{and_then-keeps}
use simtgo.Lower.Device.Silence.{stmts-Silent}
use simtgo.Lower.Device.Steady.{
  is_simple, steady, steady_stmts, steady_clauses, steady_exprs, matches-agrees,
}
use simtgo.Lower.Device.Together.{after_all-Both, after_cases-Both}
use simtgo.Lower.Device.Simple.{simple-Both}
use simtgo.Lower.Device.Modes.{
  mode, mode_stmts, mode_clauses, mode-block, mode-labeled, mode-stmts, mode-clauses,
}
use simtgo.Lower.Device.Meet.{
  Pair, Met, together, parted, Met-later, ended, and_then-Met, case_nil, case_cons,
}
use simtgo.Lower.Device.Branching.{if-Met, switch-Met}
use simtgo.Lower.Device.Looping.{for-Met, range-Met}

module _ (m : Machine) (uses : ℕ → BarrierUse) (slice : ℕ → Bool) (vary : List ℕ) (t1 t2 : Thread m)
    (n fuel : ℕ) where
  abbrev Run : Thread m → Stmt → State m → Outcome m
  Run t s st = exec m uses slice t fuel s st

  simple-Met :
      (inner r : Bool) (s : Stmt) (st1 st2 : State m) (g1 : Signal) (st1' : State m) (g2 : Signal)
      (st2' : State m)
      → is_simple s ≡ true
      → bound s ≤ n
      → mark slice s false vary ≡ vary
      → steady uses slice vary inner s ≡ true
      → Pair m uses slice vary t1 t2 st1 st2
      → Run t1 s st1 ≡ some (g1, st1')
      → Run t2 s st2 ≡ some (g2, st2')
      → Met m uses slice vary t1 t2 inner r g1 st1' g2 st2'
  simple-Met inner r s st1 st2 g1 st1' g2 st2' i b h v p e1 e2 =
      let o =
        simple-Both m uses slice vary t1 t2 n fuel inner s st1 st2 g1 st1' g2 st2' i b h v p e1
          e2 in
      together (o.0 ∙ sym o.1) o.2

  mutual
    unfolding exec bound steady check

    pub exec-Met :
        (inner : Bool) (s : Stmt) (w : Found) (st1 st2 : State m) (g1 : Signal) (st1' : State m)
        (g2 : Signal) (st2' : State m)
        → bound s ≤ n
        → mark slice s false vary ≡ vary
        → steady uses slice vary inner s ≡ true
        → mode slice vary inner s ≡ false
        → (check uses slice vary s none w).fails ≡ []
        → Pair m uses slice vary t1 t2 st1 st2
        → exec m uses slice t1 fuel s st1 ≡ some (g1, st1')
        → exec m uses slice t2 fuel s st2 ≡ some (g2, st2')
        → Met m uses slice vary t1 t2 inner
            (check uses slice vary s none w).use_of.returns
            g1
            st1'
            g2
            st2'
    exec-Met inner no_stmt w st1 st2 g1 st1' g2 st2' b h v md f p e1 e2 =
        ended m uses slice vary t1 t2 p e1 e2
    exec-Met inner empty w st1 st2 g1 st1' g2 st2' b h v md f p e1 e2 =
        ended m uses slice vary t1 t2 p e1 e2
    exec-Met inner other_stmt w st1 st2 g1 st1' g2 st2' b h v md f p e1 e2 = cc
    exec-Met inner (expr_stmt x) w st1 st2 g1 st1' g2 st2' b h v md f p e1 e2 =
        simple-Met inner _ (expr_stmt x) st1 st2 g1 st1' g2 st2' refl b h v p e1 e2
    exec-Met inner (assign o ls rs) w st1 st2 g1 st1' g2 st2' b h v md f p e1 e2 =
        simple-Met inner _ (assign o ls rs) st1 st2 g1 st1' g2 st2' refl b h v p e1 e2
    exec-Met inner (inc_dec o x) w st1 st2 g1 st1' g2 st2' b h v md f p e1 e2 =
        simple-Met inner _ (inc_dec o x) st1 st2 g1 st1' g2 st2' refl b h v p e1 e2
    exec-Met inner (decl d) w st1 st2 g1 st1' g2 st2' b h v md f p e1 e2 =
        simple-Met inner _ (decl d) st1 st2 g1 st1' g2 st2' refl b h v p e1 e2
    exec-Met inner (block ss) w st1 st2 g1 st1' g2 st2' b h v md f p e1 e2 =
        stmts-Met inner ss w st1 st2 g1 st1' g2 st2' b (closed-block slice vary ss false h) v
          (mode-block slice vary inner ss md) f p e1 e2
    exec-Met inner (labeled l s) w st1 st2 g1 st1' g2 st2' b h v md f p e1 e2 =
        exec-Met inner s w st1 st2 g1 st1' g2 st2' b (closed-labeled slice vary l s false h) v
          (mode-labeled slice vary inner l s md) f p e1 e2
    exec-Met inner (return es) w st1 st2 g1 st1' g2 st2' b h v md f p e1 e2 =
        ended m uses slice vary t1 t2 (after_all-Both m uses slice vary t1 t2 es st1 st2 v p) e1 e2
    exec-Met inner (branch break_token none) w st1 st2 g1 st1' g2 st2' b h v md f p e1 e2 =
        ended m uses slice vary t1 t2 p e1 e2
    exec-Met inner (branch continue_token none) w st1 st2 g1 st1' g2 st2' b h v md f p e1 e2 =
        ended m uses slice vary t1 t2 p e1 e2
    exec-Met inner (branch fallthrough_token none) w st1 st2 g1 st1' g2 st2' b h v md f p e1 e2 = cc
    exec-Met inner (branch k (some l)) w st1 st2 g1 st1' g2 st2' b h v md f p e1 e2 = cc
    exec-Met inner (if_stmt init c body els) w st1 st2 g1 st1' g2 st2' b h v md f p e1 e2 =
        if-Met m uses slice vary t1 t2 n fuel inner init c body els (exec-Met inner body)
          (exec-Met inner els) w st1 st2 g1 st1' g2 st2' b h v md f p e1 e2
    exec-Met inner (for_stmt init c post body) w st1 st2 g1 st1' g2 st2' b h v md f p e1 e2 =
        for-Met m uses slice vary t1 t2 n fuel inner init c post body (exec-Met true body) w st1 st2
          g1 st1' g2 st2' b h v md f p e1 e2
    exec-Met inner (range o kx vx x body) w st1 st2 g1 st1' g2 st2' b h v md f p e1 e2 =
        range-Met m uses slice vary t1 t2 n fuel inner o kx vx x body (exec-Met true body) w st1 st2
          g1 st1' g2 st2' b h v md f p e1 e2
    exec-Met inner (switch init tag cs) w st1 st2 g1 st1' g2 st2' b h v md f p e1 e2 =
        switch-Met m uses slice vary t1 t2 n fuel inner init tag cs (clauses-Met inner cs) w st1 st2
          g1 st1' g2 st2' b h v md f p e1 e2

    pub stmts-Met :
        (inner : Bool) (ss : Stmts) (w : Found) (st1 st2 : State m) (g1 : Signal) (st1' : State m)
        (g2 : Signal) (st2' : State m)
        → bound_stmts ss ≤ n
        → mark_stmts slice ss false vary ≡ vary
        → steady_stmts uses slice vary inner ss ≡ true
        → mode_stmts slice vary inner ss ≡ false
        → (check_stmts uses slice vary ss none w).fails ≡ []
        → Pair m uses slice vary t1 t2 st1 st2
        → exec_stmts m uses slice t1 fuel ss st1 ≡ some (g1, st1')
        → exec_stmts m uses slice t2 fuel ss st2 ≡ some (g2, st2')
        → Met m uses slice vary t1 t2 inner
            (check_stmts uses slice vary ss none w).use_of.returns
            g1
            st1'
            g2
            st2'
    stmts-Met inner done w st1 st2 g1 st1' g2 st2' b h v md f p e1 e2 =
        ended m uses slice vary t1 t2 p e1 e2
    stmts-Met inner (then_do s ss) w st1 st2 g1 st1' g2 st2' b h v md f p e1 e2 =
        let q = closed-stmts slice n vary false s ss b h in
        let vs = &&-true (steady uses slice vary inner s) _ v in
        let ms = mode-stmts slice vary inner s ss md in
        let w1 = check uses slice vary s none w in
        let l = check_stmts-Later uses slice vary ss none w1 in
        let (r1, a1, z1) = >>=-eq-some (Run t1 s st1) _ e1 in
        let (r2, a2, z2) = >>=-eq-some (Run t2 s st2) _ e2 in
        elim (exec-Met inner s w st1 st2 r1.0 r1.1 r2.0 r2.1 (omega arith) q.0 vs.0 ms.0 (l.clean f)
          p a1 a2) [
            | together same y ↦
                and_then-Met m uses slice vary t1 t2 inner _ _ _ r1.0 r2.0 r1.1 r2.1 g1 st1' g2 st2'
                  same y
                  (λ x1 x2.
                    stmts-Met inner ss w1 r1.1 r2.1 g1 st1' g2 st2' (omega arith) q.1 vs.1 ms.1 f y
                      x1 x2)
                  z1 z2
            | parted i r tr ↦
                let qs = stmts-quiet uses slice vary ss none w1 f r in
                let d1 =
                  and_then-keeps m (λ y. y.trace ≡ r1.1.trace) _ r1.0 r1.1 g1 st1'
                    (λ y x. stmts-Silent m uses slice t1 r1.1.trace fuel ss r1.1 g1 st1' qs y x)
                    refl z1 in
                let d2 =
                  and_then-keeps m (λ y. y.trace ≡ r2.1.trace) _ r2.0 r2.1 g2 st2'
                    (λ y x. stmts-Silent m uses slice t2 r2.1.trace fuel ss r2.1 g2 st2' qs y x)
                    refl z2 in
                parted i (l.kept r) (d1 ∙ tr ∙ sym d2)
          ]

    pub clauses-Met :
        (inner : Bool) (cs : Clauses) (R : Bool) (w : Found) (v1 v2 : m.Value)
        (k1 k2 : State m → Outcome m) (st1 st2 : State m) (g1 : Signal) (st1' : State m)
        (g2 : Signal) (st2' : State m)
        → bound_clauses cs ≤ n
        → mark_clauses slice cs false vary ≡ vary
        → steady_clauses uses slice vary inner cs ≡ true
        → mode_clauses slice vary inner cs ≡ false
        → case_varies slice vary cs ≡ false
        → (check_clauses uses slice vary cs none w).fails ≡ []
        → v1 ≡ v2
        → ((s1 s2 : State m) (h1 : Signal) (s1' : State m) (h2 : Signal) (s2' : State m)
            → Pair m uses slice vary t1 t2 s1 s2
            → k1 s1 ≡ some (h1, s1')
            → k2 s2 ≡ some (h2, s2')
            → Met m uses slice vary t1 t2 inner R h1 s1' h2 s2')
        → ((check_clauses uses slice vary cs none w).use_of.returns ≡ true → R ≡ true)
        → Pair m uses slice vary t1 t2 st1 st2
        → exec_clauses m uses slice t1 fuel cs v1 k1 st1 ≡ some (g1, st1')
        → exec_clauses m uses slice t2 fuel cs v2 k2 st2 ≡ some (g2, st2')
        → Met m uses slice vary t1 t2 inner R g1 st1' g2 st2'
    clauses-Met inner no_clause R w v1 v2 k1 k2 st1 st2 g1 st1' g2 st2' b h v md u f tags k lift p
          e1 e2 =
        k st1 st2 g1 st1' g2 st2' p e1 e2
    clauses-Met inner (clause nil body cs) R w v1 v2 k1 k2 st1 st2 g1 st1' g2 st2' b h v md u f tags
          k lift p e1 e2 =
        let q = closed-clauses slice n vary false nil body cs b h in
        let vs =
          &&-true (steady_stmts uses slice vary inner body)
            (steady_clauses uses slice vary inner cs) v in
        let ms = mode-clauses slice vary inner nil body cs md in
        let w1 = check_exprs uses nil none w in
        let w2 = check_stmts uses slice vary body none w1 in
        let l = check_clauses-Later uses slice vary cs none w2 in
        clauses-Met inner cs R w2 v1 v2 _ _ st1 st2 g1 st1' g2 st2' (omega arith) q.1 vs.1 ms.1
          (case_nil m uses slice vary t1 t2 body cs u) f tags
          (λ s1 s2 h1 s1' h2 s2' y x1 x2.
            Met-later m uses slice vary t1 t2 (λ r. lift (l.kept r))
              (stmts-Met inner body w1 s1 s2 h1 s1' h2 s2' (omega arith) q.0 vs.0 ms.0 (l.clean f) y
                x1 x2))
          lift p e1 e2
    clauses-Met inner (clause (cons x es) body cs) R w v1 v2 k1 k2 st1 st2 g1 st1' g2 st2' b h v md
          u f tags k lift p e1 e2 =
        let q = closed-clauses slice n vary false (cons x es) body cs b h in
        let v0 = &&-true (steady_exprs uses (cons x es)) _ v in
        let vs = &&-true (steady_stmts uses slice vary inner body) _ v0.1 in
        let ms = mode-clauses slice vary inner (cons x es) body cs md in
        let us = case_cons m uses slice vary t1 t2 (cons x es) body cs u in
        let w1 = check_exprs uses (cons x es) none w in
        let w2 = check_stmts uses slice vary body none w1 in
        let l = check_clauses-Later uses slice vary cs none w2 in
        let p1 =
          after_cases-Both m uses slice vary t1 t2 v1 v2 (cons x es) st1 st2 tags us.0 v0.0 p in
        let same = matches-agrees m uses slice vary t1 t2 st1 st2 p v1 v2 (cons x es) tags us.0 in
        elim (Bool-cases (matches m uses slice t1 v1 (cons x es) st1)) [
          | inl y ↦
              Met-later m uses slice vary t1 t2 (λ r. lift (l.kept r))
                (stmts-Met inner body w1 _ _ g1 st1' g2 st2' (omega arith) q.0 vs.0 ms.0 (l.clean f)
                  p1 (rw y at e1) (rw (sym same ∙ y) at e2))
          | inr y ↦
              clauses-Met inner cs R w2 v1 v2 k1 k2 _ _ g1 st1' g2 st2' (omega arith) q.1 vs.1 ms.1
                us.1 f tags k lift p1 (rw y at e1) (rw (sym same ∙ y) at e2)
        ]
