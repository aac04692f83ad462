-- ===== src/Lower/Device/Looping.antt =====
-- internal/lower/diverge.go: two threads at a loop: they go round it together, or each goes round on its own
-- without meeting anybody.
use simtgo.Base.{
  ℕ, Bool, true, false, not, ◌&&◌, ◌||◌, List, [], Option, none, ltb, ◌≡◌, ap, subst, Bool-cases,
  inl, inr, arith, >>=-eq-some, &&-true,
}
use simtgo.Lower.Syntax.{Expr, Over, Stmt, no_stmt, for_stmt, range}
use simtgo.Lower.Vary.{varying_expr, for_varies, range_varies, mark, mark_if, bound}
use simtgo.Lower.Vary.Closed.{closed-for, closed-range, open-for}
use simtgo.Lower.Diverge.{BarrierUse, What, div_loop, enter, check_expr, check}
use simtgo.Lower.Diverge.Later.{check_expr-Later, check-Later}
use simtgo.Lower.Diverge.Quiet.{blocked-Later, quiet, stmt-quiet, expr-quiet}
use simtgo.Lower.Device.{Machine, Thread, State, Outcome, exec, range_count}
use simtgo.Lower.Device.Agree.{eval-agrees}
use simtgo.Lower.Device.Signals.{ends_early, exec-Allowed}
use simtgo.Lower.Device.Returns.{returns_for-ends, returns_range-ends}
use simtgo.Lower.Device.Steady.{is_simple, steady, steady_expr, even_target}
use simtgo.Lower.Device.Together.{after-Both, range-Same}
use simtgo.Lower.Device.Lockstep.{rounds-together}
use simtgo.Lower.Device.Simple.{simple-Both}
use simtgo.Lower.Device.Modes.{Shut-for, Shut-range, for_same, range_same}
use simtgo.Lower.Device.Meet.{
  Pair, together, apart, ended, enter_same, enter-blocked, in_step, count_same, shut_guard,
  quiet-for, MetFor,
}
use simtgo.Lower.Device.Alone.{stmt-Alone, range_loop, range-Alone}

module _ (m : Machine) (uses : ℕ → BarrierUse) (slice : ℕ → Bool) (vary : List ℕ) (t1 t2 : Thread m)
    (n fuel : ℕ) where
  abbrev Run : Thread m → Stmt → State m → Outcome m
  Run t s st = exec m uses slice t fuel s st

  pub for-Met :
      (inner : Bool) (init : Stmt) (c : Expr) (post body : Stmt)
      → MetFor m uses slice vary t1 t2 n fuel true body
      → MetFor m uses slice vary t1 t2 n fuel inner (for_stmt init c post body)
  unfolding exec bound steady check
  for-Met inner init c post body ih w st1 st2 g1 st1' g2 st2' b h v md f p e1 e2 =
      let q = closed-for slice n vary false init c post body b h in
      let v0 = &&-true (is_simple init && steady uses slice vary inner init) _ v in
      let vi = &&-true (is_simple init) _ v0.0 in
      let vc =
        &&-true
          (not (inner && for_varies slice vary c body)
            || (varying_expr slice vary c || not (ends_early true false body)))
          _ v0.1 in
      let (r1, a1, z1) = >>=-eq-some (Run t1 init st1) _ e1 in
      let (r2, a2, z2) = >>=-eq-some (Run t2 init st2) _ e2 in
      let i =
        simple-Both m uses slice vary t1 t2 n fuel inner init st1 st2 r1.0 r1.1 r2.0 r2.1 vi.0
          (omega arith) q.0 vi.1 p a1 a2 in
      let w1 = check uses slice vary init none w in
      let at = enter none (for_varies slice vary c body) div_loop in
      elim (Bool-cases (for_varies slice vary c body)) [
        | inr u ↦
            let w2 = check uses slice vary post none (check_expr uses c none w1) in
            let f' : (check uses slice vary body none w2).fails ≡ [] =
              subst
                (λ (a : Option What).
                  (check uses slice vary body a
                    (check uses slice vary post a (check_expr uses c a w1))).fails
                  ≡ [])
                (enter_same m uses slice vary t1 t2 div_loop u) f in
            let fs = for_same slice vary c body u in
            let vs : (steady_expr uses c
                  && ((is_simple post && steady uses slice vary true post)
                      && steady uses slice vary true body))
                ≡ true =
              rw u at vc.1 in
            let vx = &&-true (steady_expr uses c) _ vs in
            let vy = &&-true (is_simple post && steady uses slice vary true post) _ vx.1 in
            let vp = &&-true (is_simple post) _ vy.0 in
            let qp : mark slice post false vary ≡ vary = rw u at q.1 in
            let qb : mark slice body false vary ≡ vary = rw u at q.2 in
            let o =
              rounds-together m (Pair m uses slice vary t1 t2) _ _
                (record {
                  test =
                      λ j s1 s2 y. ap m.truth (eval-agrees m uses slice vary t1 t2 s1 s2 y c fs.0);
                  look = λ s1 s2 y. after-Both m uses slice vary t1 t2 c s1 s2 vx.0 y;
                  before = λ j s1 s2 y. y;
                  body = λ s1 s2 k1 s1' k2 s2' y x1 x2.
                      in_step m uses slice vary t1 t2
                        (ih w2 s1 s2 k1 s1' k2 s2' (omega arith) qb vy.1 fs.1 f' y x1 x2);
                  post = λ s1 s2 k1 s1' k2 s2' y x1 x2.
                      (simple-Both m uses slice vary t1 t2 n fuel true post s1 s2 k1 s1' k2 s2' vp.0
                        (omega arith) qp vp.1 y x1 x2).2;
                })
                fuel 0 r1.1 r2.1 g1 st1' g2 st2' i.2 z1 z2 in
            together o.0 o.1
        | inl u ↦
            let lp = check-Later uses slice vary post at (check_expr uses c at w1) in
            let lb =
              check-Later uses slice vary body at
                (check uses slice vary post at (check_expr uses c at w1)) in
            let lc = check_expr-Later uses c at w1 in
            let k = enter-blocked m uses slice vary t1 t2 div_loop w1 u in
            let k1 = blocked-Later at lc k in
            let k2 = blocked-Later at lp k1 in
            let fp = lb.clean f in
            let fc = lp.clean fp in
            let qc = expr-quiet uses c at w1 fc k in
            let qp = stmt-quiet uses slice vary post at _ fp k1 in
            let qb = stmt-quiet uses slice vary body at _ f k2 in
            let hp : mark slice post true vary ≡ vary = rw u at q.1 in
            let hb : mark slice body true vary ≡ vary = rw u at q.2 in
            let loop = for_stmt no_stmt c post body in
            let ql : quiet uses loop ≡ true =
              quiet-for m uses slice vary t1 t2 c post body qc qp qb in
            let hl = open-for slice vary c post body hp hb in
            apart m uses slice vary t1 t2 inner _ (for_stmt init c post body) r1.1 r2.1 st1' st2' g1
              g2
              (Shut-for slice vary inner _ init c post body
                (λ y.
                  shut_guard m uses slice vary t1 t2 inner (for_varies slice vary c body) _ y u
                    vc.0)
                md
                (returns_for-ends uses slice vary div_loop _ u init c post body
                  (λ a. check uses slice vary post a (check_expr uses c a w1))))
              i.2
              (stmt-Alone m uses slice vary t1 t2 t1 n fuel loop r1.1 st1' g1 ql (omega arith) hl
                z1)
              (stmt-Alone m uses slice vary t1 t2 t2 n fuel loop r2.1 st2' g2 ql (omega arith) hl
                z2)
              (λ r b' x.
                exec-Allowed m uses slice t1 fuel r b' (for_stmt init c post body) st1 g1 st1' x e1)
              (λ r b' x.
                exec-Allowed m uses slice t2 fuel r b' (for_stmt init c post body) st2 g2 st2' x e2)
      ]

  pub range-Met :
      (inner : Bool) (o : Over) (kx vx x : Expr) (body : Stmt)
      → MetFor m uses slice vary t1 t2 n fuel true body
      → MetFor m uses slice vary t1 t2 n fuel inner (range o kx vx x body)
  unfolding exec bound steady check
  range-Met inner o kx vx x body ih w st1 st2 g1 st1' g2 st2' b h v md f p e1 e2 =
      let q = closed-range slice n vary false o kx vx x body b h in
      let v0 = &&-true (steady_expr uses x) _ v in
      let vc =
        &&-true
          (not (inner && range_varies slice vary o x body) || not (ends_early true false body)) _
          v0.1 in
      let p1 = after-Both m uses slice vary t1 t2 x st1 st2 v0.0 p in
      let w1 = check_expr uses x none w in
      let at = enter none (range_varies slice vary o x body) div_loop in
      elim (Bool-cases (range_varies slice vary o x body)) [
        | inr u ↦
            let f' : (check uses slice vary body none w1).fails ≡ [] =
              subst (λ (a : Option What). (check uses slice vary body a w1).fails ≡ [])
                (enter_same m uses slice vary t1 t2 div_loop u) f in
            let fs = range_same slice vary o x body u in
            let vs : ((even_target slice vary kx && even_target slice vary vx)
                  && steady uses slice vary true body)
                ≡ true =
              rw u at vc.1 in
            let vy = &&-true (even_target slice vary kx && even_target slice vary vx) _ vs in
            let vt = &&-true (even_target slice vary kx) _ vy.0 in
            let qb : mark slice body false vary ≡ vary = rw u at q.2 in
            let same = count_same m uses slice vary t1 t2 o x st1 st2 p fs.0 in
            let r =
              rounds-together m (Pair m uses slice vary t1 t2)
                (range_loop m uses slice vary t1 t2 t1 n fuel o kx vx x body
                  (range_count m uses slice t1 o x st1))
                (range_loop m uses slice vary t1 t2 t2 n fuel o kx vx x body
                  (range_count m uses slice t2 o x st2))
                (record {
                  test = λ j s1 s2 y. ap (λ (k : ℕ). ltb j k) same;
                  look = λ s1 s2 y. y;
                  before = λ j s1 s2 y.
                      range-Same m uses slice vary t1 t2 s1 s2 y o _ kx vx x j q.0 q.1 vt.0 vt.1;
                  body = λ s1 s2 k1 s1' k2 s2' y x1 x2.
                      in_step m uses slice vary t1 t2
                        (ih w1 s1 s2 k1 s1' k2 s2' (omega arith) qb vy.1 fs.1 f' y x1 x2);
                  post = λ s1 s2 k1 s1' k2 s2' y x1 x2.
                      (in_step m uses slice vary t1 t2
                        (ended m uses slice vary t1 t2 {inner = true} {r = true} y x1 x2)).1;
                })
                fuel 0 _ _ g1 st1' g2 st2' p1 e1 e2 in
            together r.0 r.1
        | inl u ↦
            let qb =
              stmt-quiet uses slice vary body at w1 f
                (enter-blocked m uses slice vary t1 t2 div_loop w1 u) in
            let hk : mark_if slice true kx vary ≡ vary = rw u at q.0 in
            let he : mark_if slice true vx vary ≡ vary = rw u at q.1 in
            let hb : mark slice body true vary ≡ vary = rw u at q.2 in
            apart m uses slice vary t1 t2 inner _ (range o kx vx x body) _ _ st1' st2' g1 g2
              (Shut-range slice vary inner _ o kx vx x body
                (λ y.
                  shut_guard m uses slice vary t1 t2 inner (range_varies slice vary o x body) _ y u
                    vc.0)
                md (returns_range-ends uses slice vary div_loop _ u o kx vx x body w1))
              p1
              (range-Alone m uses slice vary t1 t2 t1 n fuel o kx vx x body _ _ st1' g1 qb
                (omega arith) hk he hb e1)
              (range-Alone m uses slice vary t1 t2 t2 n fuel o kx vx x body _ _ st2' g2 qb
                (omega arith) hk he hb e2)
              (λ r b' y.
                exec-Allowed m uses slice t1 fuel r b' (range o kx vx x body) st1 g1 st1' y e1)
              (λ r b' y.
                exec-Allowed m uses slice t2 fuel r b' (range o kx vx x body) st2 g2 st2' y e2)
      ]
