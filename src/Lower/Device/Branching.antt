-- ===== src/Lower/Device/Branching.antt =====
-- internal/lower/diverge.go: two threads at an if or a switch: they take the same way, or part for a while
-- without meeting anybody.
use simtgo.Base.{
  ℕ, Bool, true, false, ◌&&◌, List, [], Option, some, none, ◌≡◌, sym, ◌∙◌, ap, subst, Bool-cases,
  inl, inr, arith, >>=-eq-some, &&-true,
}
use simtgo.Lower.Syntax.{Expr, Stmt, if_stmt, switch, Clauses}
use simtgo.Lower.Vary.{varying_expr, switch_varies, mark, mark_clauses, bound}
use simtgo.Lower.Vary.Closed.{closed-if, closed-switch}
use simtgo.Lower.Diverge.{
  BarrierUse, What, div_if, div_switch, enter, check_expr, check, check_clauses,
}
use simtgo.Lower.Diverge.Later.{check-Later}
use simtgo.Lower.Diverge.Quiet.{blocked-Later, stmt-quiet, clauses-quiet}
use simtgo.Lower.Device.{Machine, Thread, State, next, Outcome, eval, after, exec, exec_clauses}
use simtgo.Lower.Device.Agree.{eval-agrees}
use simtgo.Lower.Device.Signals.{exec-Allowed}
use simtgo.Lower.Device.Returns.{returns_if-ends, returns_switch-ends}
use simtgo.Lower.Device.Steady.{is_simple, steady, steady_clauses, steady_expr}
use simtgo.Lower.Device.Together.{after-Both}
use simtgo.Lower.Device.Simple.{simple-Both}
use simtgo.Lower.Device.Modes.{mode-if, mode-switch, Shut-if, Shut-switch, switch_same}
use simtgo.Lower.Device.Meet.{
  Met, Met-later, apart, ended, caught-Met, enter_same, enter-blocked, MetFor, ClausesMetFor,
}
use simtgo.Lower.Device.Alone.{branch-Alone, switch-Alone}

module _ (m : Machine) (uses : ℕ → BarrierUse) (slice : ℕ → Bool) (vary : List ℕ) (t1 t2 : Thread m)
    (n fuel : ℕ) where
  abbrev Run : Thread m → Stmt → State m → Outcome m
  Run t s st = exec m uses slice t fuel s st

  pub if-Met :
      (inner : Bool) (init : Stmt) (c : Expr) (body els : Stmt)
      → MetFor m uses slice vary t1 t2 n fuel inner body
      → MetFor m uses slice vary t1 t2 n fuel inner els
      → MetFor m uses slice vary t1 t2 n fuel inner (if_stmt init c body els)
  unfolding exec bound steady check
  if-Met inner init c body els ih_body ih_els w st1 st2 g1 st1' g2 st2' b h v md f p e1 e2 =
      let q = closed-if slice n vary false init c body els b h in
      let v0 = &&-true (is_simple init && steady uses slice vary inner init) _ v in
      let vi = &&-true (is_simple init) _ v0.0 in
      let vc = &&-true (steady_expr uses c) _ v0.1 in
      let (r1, a1, z1) = >>=-eq-some (Run t1 init st1) _ e1 in
      let (r2, a2, z2) = >>=-eq-some (Run t2 init st2) _ e2 in
      let i =
        simple-Both m uses slice vary t1 t2 n fuel inner init st1 st2 r1.0 r1.1 r2.0 r2.1 vi.0
          (omega arith) q.0 vi.1 p a1 a2 in
      let p1 = after-Both m uses slice vary t1 t2 c r1.1 r2.1 vc.0 i.2 in
      let at = enter none (varying_expr slice vary c) div_if in
      let w2 = check_expr uses c none (check uses slice vary init none w) in
      elim (Bool-cases (varying_expr slice vary c)) [
        | inr u ↦
            let f' : (check uses slice vary els none (check uses slice vary body none w2)).fails
                ≡ [] =
              subst
                (λ (a : Option What).
                  (check uses slice vary els a (check uses slice vary body a w2)).fails ≡ [])
                (enter_same m uses slice vary t1 t2 div_if u) f in
            let vs : (steady uses slice vary inner body && steady uses slice vary inner els)
                ≡ true =
              rw u at vc.1 in
            let vb = &&-true (steady uses slice vary inner body) _ vs in
            let mb = mode-if slice vary inner init c body els u md in
            let qb : mark slice body false vary ≡ vary = rw u at q.1 in
            let qe : mark slice els false vary ≡ vary = rw u at q.2 in
            let same = ap m.truth (eval-agrees m uses slice vary t1 t2 r1.1 r2.1 i.2 c u) in
            let l = check-Later uses slice vary els none (check uses slice vary body none w2) in
            subst
              (λ (a : Option What).
                Met m uses slice vary t1 t2 inner
                  (check uses slice vary els a (check uses slice vary body a w2)).use_of.returns g1
                  st1' g2 st2')
              (sym (enter_same m uses slice vary t1 t2 div_if u))
              (elim (Bool-cases (m.truth (eval m uses slice t1 r1.1 c))) [
                | inl y ↦ Met-later m uses slice vary t1 t2 l.kept (
                    ih_body w2 _ _ g1 st1' g2 st2' (omega arith) qb vb.0 mb.0 (l.clean f') p1
                      (rw y at z1) (rw (sym same ∙ y) at z2))
                | inr y ↦
                    ih_els _ _ _ g1 st1' g2 st2' (omega arith) qe vb.1 mb.1 f' p1 (rw y at z1)
                      (rw (sym same ∙ y) at z2)
              ])
        | inl u ↦
            let l = check-Later uses slice vary els at (check uses slice vary body at w2) in
            let lb = check-Later uses slice vary body at w2 in
            let k = enter-blocked m uses slice vary t1 t2 div_if w2 u in
            let qb = stmt-quiet uses slice vary body at w2 (l.clean f) k in
            let qe = stmt-quiet uses slice vary els at _ f (blocked-Later at lb k) in
            let hb : mark slice body true vary ≡ vary = rw u at q.1 in
            let he : mark slice els true vary ≡ vary = rw u at q.2 in
            apart m uses slice vary t1 t2 inner _ (if_stmt init c body els) _ _ st1' st2' g1 g2
              (Shut-if slice vary inner _ init c body els u md
                (returns_if-ends uses slice vary div_if _ u init c body els w2))
              p1
              (branch-Alone m uses slice vary t1 t2 t1 n fuel _ body els _ st1' g1 qb qe
                (omega arith) (omega arith) hb he z1)
              (branch-Alone m uses slice vary t1 t2 t2 n fuel _ body els _ st2' g2 qb qe
                (omega arith) (omega arith) hb he z2)
              (λ r b' x.
                exec-Allowed m uses slice t1 fuel r b' (if_stmt init c body els) st1 g1 st1' x e1)
              (λ r b' x.
                exec-Allowed m uses slice t2 fuel r b' (if_stmt init c body els) st2 g2 st2' x e2)
      ]

  pub switch-Met :
      (inner : Bool) (init : Stmt) (tag : Expr) (cs : Clauses)
      → ClausesMetFor m uses slice vary t1 t2 n fuel inner cs
      → MetFor m uses slice vary t1 t2 n fuel inner (switch init tag cs)
  unfolding exec bound steady check
  switch-Met inner init tag cs ih w st1 st2 g1 st1' g2 st2' b h v md f p e1 e2 =
      let q = closed-switch slice n vary false init tag cs b h in
      let v0 = &&-true (is_simple init && steady uses slice vary inner init) _ v in
      let vi = &&-true (is_simple init) _ v0.0 in
      let vc = &&-true (steady_expr uses tag) _ v0.1 in
      let (r1, a1, z1) = >>=-eq-some (Run t1 init st1) _ e1 in
      let (r2, a2, z2) = >>=-eq-some (Run t2 init st2) _ e2 in
      let i =
        simple-Both m uses slice vary t1 t2 n fuel inner init st1 st2 r1.0 r1.1 r2.0 r2.1 vi.0
          (omega arith) q.0 vi.1 p a1 a2 in
      let p1 = after-Both m uses slice vary t1 t2 tag r1.1 r2.1 vc.0 i.2 in
      let (s1, c1, y1) =
        >>=-eq-some
          (exec_clauses m uses slice t1 fuel cs (eval m uses slice t1 r1.1 tag)
            (λ s. some (next, s)) (after m uses slice t1 tag r1.1))
          _ z1 in
      let (s2, c2, y2) =
        >>=-eq-some
          (exec_clauses m uses slice t2 fuel cs (eval m uses slice t2 r2.1 tag)
            (λ s. some (next, s)) (after m uses slice t2 tag r2.1))
          _ z2 in
      let w2 = check_expr uses tag none (check uses slice vary init none w) in
      let at = enter none (switch_varies slice vary tag cs) div_switch in
      elim (Bool-cases (switch_varies slice vary tag cs)) [
        | inr u ↦
            let f' : (check_clauses uses slice vary cs none w2).fails ≡ [] =
              subst (λ (a : Option What). (check_clauses uses slice vary cs a w2).fails ≡ [])
                (enter_same m uses slice vary t1 t2 div_switch u) f in
            let fs = switch_same slice vary tag cs u in
            let vs : steady_clauses uses slice vary inner cs ≡ true = rw u at vc.1 in
            let qc : mark_clauses slice cs false vary ≡ vary = rw u at q.1 in
            let mc = mode-switch slice vary inner init tag cs u md in
            let tags = eval-agrees m uses slice vary t1 t2 r1.1 r2.1 i.2 tag fs.0 in
            subst
              (λ (a : Option What).
                Met m uses slice vary t1 t2 inner
                  (check_clauses uses slice vary cs a w2).use_of.returns g1 st1' g2 st2')
              (sym (enter_same m uses slice vary t1 t2 div_switch u))
              (caught-Met m uses slice vary t1 t2 inner _ s1.0 s2.0 s1.1 s2.1 g1 st1' g2 st2'
                (ih _ w2 _ _ _ _ _ _ s1.0 s1.1 s2.0 s2.1 (omega arith) qc vs mc fs.1 f' tags
                  (λ x1 x2 k1 x1' k2 x2' y d1 d2. ended m uses slice vary t1 t2 y d1 d2) (λ y. y) p1
                  c1 c2)
                y1 y2)
        | inl u ↦
            let qc =
              clauses-quiet uses slice vary cs at w2 f
                (enter-blocked m uses slice vary t1 t2 div_switch w2 u) in
            let hc : mark_clauses slice cs true vary ≡ vary = rw u at q.1 in
            apart m uses slice vary t1 t2 inner _ (switch init tag cs) _ _ st1' st2' g1 g2
              (Shut-switch slice vary inner _ init tag cs u md
                (returns_switch-ends uses slice vary div_switch _ u init tag cs w2))
              p1
              (switch-Alone m uses slice vary t1 t2 t1 n fuel cs _ _ s1.1 st1' s1.0 g1 qc
                (omega arith) hc c1 y1)
              (switch-Alone m uses slice vary t1 t2 t2 n fuel cs _ _ s2.1 st2' s2.0 g2 qc
                (omega arith) hc c2 y2)
              (λ r b' y.
                exec-Allowed m uses slice t1 fuel r b' (switch init tag cs) st1 g1 st1' y e1)
              (λ r b' y.
                exec-Allowed m uses slice t2 fuel r b' (switch init tag cs) st2 g2 st2' y e2)
      ]
