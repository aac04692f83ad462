-- ===== src/Lower/Device/Simple.antt =====
-- internal/lower/diverge.go: a simple statement that two threads run together leaves them together.
use simtgo.Base.{
  ℕ, ◌≤◌, Bool, true, false, List, ◌∷◌, some, ◌≡◌, ap, subst, Bool-cases, inl, inr, &&-true,
}
use simtgo.Lower.Syntax.{
  Stmt, no_stmt, empty, other_stmt, expr_stmt, assign, inc_dec, decl, block, labeled, if_stmt,
  for_stmt, range, switch, return, branch,
}
use simtgo.Lower.Vary.{mark, bound}
use simtgo.Lower.Vary.Closed.{closed-assign, closed-decl_stmt}
use simtgo.Lower.Diverge.{BarrierUse, is_barrier}
use simtgo.Lower.Device.{Machine, Thread, State, Signal, next, Outcome, Meeting, at_barrier, exec}
use simtgo.Lower.Device.Steady.{is_simple, steady, steady_expr, steady_exprs}
use simtgo.Lower.Device.Together.{
  Both, after-Both, after_all-Both, env-Both, pairs-Same, inc_dec-Same, decl-Same,
}

module _ (m : Machine) (uses : ℕ → BarrierUse) (slice : ℕ → Bool) (vary : List ℕ) (t1 t2 : Thread m)
    (n fuel : ℕ) where
  -- Both went on to the next statement, and are together.
  abbrev pub BothNext : Signal → State m → Signal → State m → Type 0
  BothNext g1 s1 g2 s2 = (g1 ≡ next) × (g2 ≡ next) × Both m uses slice vary t1 t2 s1 s2

  both_next :
      {u1 u2 s1 s2 : State m} {g1 g2 : Signal}
      → Both m uses slice vary t1 t2 u1 u2
      → ◌≡◌ {A = Outcome m} (some (next, u1)) (some (g1, s1))
      → ◌≡◌ {A = Outcome m} (some (next, u2)) (some (g2, s2))
      → BothNext g1 s1 g2 s2
  both_next {u1} {u2} {s1} {s2} b e1 e2 =
      let p1 : u1 ≡ s1 = cc in
      let p2 : u2 ≡ s2 = cc in
      (
        cc,
        cc,
        subst (λ (x : State m). Both m uses slice vary t1 t2 x s2) p1
            (subst (Both m uses slice vary t1 t2 u1) p2 b),
      )

  pub simple-Both :
      (inner : Bool) (s : Stmt) (st1 st2 : State m) (g1 : Signal) (st1' : State m) (g2 : Signal)
      (st2' : State m)
      → is_simple s ≡ true
      → bound s ≤ n
      → mark slice s false vary ≡ vary
      → steady uses slice vary inner s ≡ true
      → Both m uses slice vary t1 t2 st1 st2
      → exec m uses slice t1 fuel s st1 ≡ some (g1, st1')
      → exec m uses slice t2 fuel s st2 ≡ some (g2, st2')
      → BothNext g1 st1' g2 st2'
  unfolding exec steady bound
  simple-Both inner no_stmt st1 st2 g1 st1' g2 st2' i b h v a e1 e2 = both_next a e1 e2
  simple-Both inner empty st1 st2 g1 st1' g2 st2' i b h v a e1 e2 = both_next a e1 e2
  simple-Both inner (expr_stmt x) st1 st2 g1 st1' g2 st2' i b h v a e1 e2 =
      elim (Bool-cases (is_barrier x)) [
        | inl y ↦
            both_next {u1 = record st1 { trace = at_barrier ∷ st1.trace }}
              {u2 = record st2 { trace = at_barrier ∷ st2.trace }}
              (record {
                same_env = a.same_env;
                same_trace = ap (λ (tr : List Meeting). at_barrier ∷ tr) a.same_trace;
              })
              (rw y at e1) (rw y at e2)
        | inr y ↦
            let v' : steady_expr uses x ≡ true = rw y at v in
            both_next (after-Both m uses slice vary t1 t2 x st1 st2 v' a) (rw y at e1) (rw y at e2)
      ]
  simple-Both inner (assign o ls rs) st1 st2 g1 st1' g2 st2' i b h v a e1 e2 =
      let p = &&-true (steady_exprs uses ls) _ v in
      let q = &&-true (steady_exprs uses rs) _ p.1 in
      let env =
        pairs-Same m uses slice vary t1 t2 st1 st2 a n o _ ls rs st1.env st2.env b
          (closed-assign slice vary o ls rs false h) q.1 a.same_env in
      both_next
        (after_all-Both m uses slice vary t1 t2 rs _ _ q.0 (
          after_all-Both m uses slice vary t1 t2 ls _ _ p.0
            (env-Both m uses slice vary t1 t2 st1 st2 _ _ a env)))
        e1 e2
  simple-Both inner (inc_dec o x) st1 st2 g1 st1' g2 st2' i b h v a e1 e2 =
      let p = &&-true (steady_expr uses x) _ v in
      both_next
        (after-Both m uses slice vary t1 t2 x _ _ p.0 (
          env-Both m uses slice vary t1 t2 st1 st2 _ _ a
            (inc_dec-Same m uses slice vary t1 t2 st1 st2 a o x p.1)))
        e1 e2
  simple-Both inner (decl d) st1 st2 g1 st1' g2 st2' i b h v a e1 e2 =
      both_next
        (decl-Same m uses slice vary t1 t2 n d st1 st2 b (closed-decl_stmt slice vary d false h) v
          a)
        e1 e2
  simple-Both inner other_stmt st1 st2 g1 st1' g2 st2' i b h v a e1 e2 = cc
  simple-Both inner (block ss) st1 st2 g1 st1' g2 st2' i b h v a e1 e2 = cc
  simple-Both inner (labeled l s) st1 st2 g1 st1' g2 st2' i b h v a e1 e2 = cc
  simple-Both inner (if_stmt init c body els) st1 st2 g1 st1' g2 st2' i b h v a e1 e2 = cc
  simple-Both inner (for_stmt init c post body) st1 st2 g1 st1' g2 st2' i b h v a e1 e2 = cc
  simple-Both inner (range o k e x body) st1 st2 g1 st1' g2 st2' i b h v a e1 e2 = cc
  simple-Both inner (switch init tag cs) st1 st2 g1 st1' g2 st2' i b h v a e1 e2 = cc
  simple-Both inner (return es) st1 st2 g1 st1' g2 st2' i b h v a e1 e2 = cc
  simple-Both inner (branch t l) st1 st2 g1 st1' g2 st2' i b h v a e1 e2 = cc
