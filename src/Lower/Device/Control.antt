-- ===== src/Lower/Device/Control.antt =====
-- internal/lower/diverge.go: a statement that mark has walked as one that not every thread enters changes,
-- run by a thread, no variable outside the set.
use simtgo.Base.{
  ℕ, ◌≤◌, Bool, true, false, List, ◌∷◌, Option, some, none, ◌==◌, ◌≡◌, ap, Bool-cases, inl, inr,
  >>=-eq-some, arith, ==_iff, length,
}
use simtgo.Lower.Syntax.{
  Expr, absent, unresolved, other, constant, ident, paren, unary, field, key_value, binary, index,
  composite, call, Exprs, nil, cons, break_token, continue_token, fallthrough_token, Over, Stmt,
  no_stmt, empty, other_stmt, expr_stmt, assign, inc_dec, decl, block, labeled, if_stmt, for_stmt,
  range, switch, return, branch, Stmts, done, then_do, Clauses, no_clause, clause, Specs, no_spec,
  spec,
}
use simtgo.Lower.Vary.{
  member, add, base_of, mark_varying, mark_base, mark_if, mark_pairs, mark_names, mark_decl, mark,
  mark_stmts, mark_clauses, bound, bound_stmts, bound_clauses, bound_targets, bound_decl,
}
use simtgo.Lower.Vary.Closed.{
  closed-pairs, closed-names, closed-names_nil, closed-decl, closed-stmts, closed-clauses,
  closed-if, closed-for, closed-assign, closed-inc_dec, closed-decl_stmt, closed-block,
  closed-labeled, closed-switch, closed-range,
}
use simtgo.Lower.Diverge.{BarrierUse, is_barrier}
use simtgo.Lower.Device.{
  Machine, Thread, State, Signal, next, Outcome, at_barrier, eval, after, after_all, after_cases,
  run_decl, update, put, put_base, put_pairs, put_names, zero_name, with_env, exec, exec_stmts,
  exec_clauses, matches, set_range,
}
use simtgo.Lower.Device.Loops.{rounds-keeps, at_end, and_then-keeps, caught-keeps}

-- An object that an addition leaves out of account is in the set already.
pub add-closed : (x : ℕ) (v : List ℕ) → add x v ≡ v → member x v ≡ true
add-closed x v h = elim (Bool-cases (member x v)) [
  | inl e ↦ e
  | inr e ↦ let h' = ap length (rw e at h) in absurd (omega arith)
]

module _ (m : Machine) (uses : ℕ → BarrierUse) (slice : ℕ → Bool) (vary : List ℕ)
    (t : Thread m) where
  -- Every variable outside the set has the value that it has in `env0`.
  abbrev pub KeptEnv : (ℕ → m.Value) → (ℕ → m.Value) → Type 0
  KeptEnv env0 env = (x : ℕ) → slice x ≡ false → member x vary ≡ false → env x ≡ env0 x

  module _ (env0 : ℕ → m.Value) where
    update-Kept :
        (y : ℕ) (u : m.Value) (env : ℕ → m.Value)
        → member y vary ≡ true
        → KeptEnv env0 env
        → KeptEnv env0 (update m env y u)
    update-Kept y u env h k x s e = elim (Bool-cases (y == x)) [
      | inl p ↦ let q : y ≡ x = (==_iff y x).0 p in let h' = rw q at h in cc
      | inr p ↦ rw p (k x s e)
    ]

    put_base-Kept :
        (o : Option ℕ) (path : List m.Value) (u : m.Value) (env : ℕ → m.Value)
        → mark_base slice o vary ≡ vary
        → KeptEnv env0 env
        → KeptEnv env0 (put_base m uses slice t o path u env)
    put_base-Kept none path u env h k = k
    put_base-Kept (some y) path u env h k = elim (Bool-cases (slice y)) [
      | inl p ↦ rw p k
      | inr p ↦ rw p (update-Kept y _ env (add-closed y vary (rw p at h)) k)
    ]

    pub put-Kept :
        (st : State m) (l : Expr) (u : m.Value) (env : ℕ → m.Value)
        → mark_if slice true l vary ≡ vary
        → KeptEnv env0 env
        → KeptEnv env0 (put m uses slice t st l u env)
    unfolding put mark_varying
    put-Kept st (ident y) u env h k = update-Kept y u env (add-closed y vary h) k
    put-Kept st (paren e) u env h k = put-Kept st e u env h k
    put-Kept st (index e i) u env h k = put_base-Kept (base_of e) _ u env h k
    put-Kept st (field f e) u env h k = put_base-Kept (base_of e) _ u env h k
    put-Kept st absent u env h k = k
    put-Kept st unresolved u env h k = k
    put-Kept st other u env h k = k
    put-Kept st (constant c) u env h k = k
    put-Kept st (unary o e) u env h k = k
    put-Kept st (key_value o e) u env h k = k
    put-Kept st (binary o a b) u env h k = k
    put-Kept st (composite es) u env h k = k
    put-Kept st (call c es) u env h k = k

    zero_name-Kept :
        (st : State m) (l : Expr) (env : ℕ → m.Value)
        → mark_if slice true l vary ≡ vary
        → KeptEnv env0 env
        → KeptEnv env0 (zero_name m uses slice t st l env)
    unfolding mark_varying
    zero_name-Kept st (ident y) env h k = update-Kept y _ env (add-closed y vary h) k
    zero_name-Kept st (paren e) env h k = k
    zero_name-Kept st (index e i) env h k = k
    zero_name-Kept st (field f e) env h k = k
    zero_name-Kept st absent env h k = k
    zero_name-Kept st unresolved env h k = k
    zero_name-Kept st other env h k = k
    zero_name-Kept st (constant c) env h k = k
    zero_name-Kept st (unary o e) env h k = k
    zero_name-Kept st (key_value o e) env h k = k
    zero_name-Kept st (binary o a b) env h k = k
    zero_name-Kept st (composite es) env h k = k
    zero_name-Kept st (call c es) env h k = k

    abbrev Kept : State m → Type 0
    Kept st = KeptEnv env0 st.env

    set_env-Kept : (st : State m) (env : ℕ → m.Value) → KeptEnv env0 env → Kept (with_env m env st)
    set_env-Kept st env k = k

    after-Kept : (e : Expr) (st : State m) → Kept st → Kept (after m uses slice t e st)
    unfolding after
    after-Kept e st k = k

    after_all-Kept : (es : Exprs) (st : State m) → Kept st → Kept (after_all m uses slice t es st)
    unfolding after_all
    after_all-Kept es st k = k

    after_cases-Kept :
        (v : m.Value) (es : Exprs) (st : State m)
        → Kept st
        → Kept (after_cases m uses slice t v es st)
    unfolding after_cases
    after_cases-Kept v es st k = k

    module _ (n : ℕ) where
      pairs-Kept :
          (o : Option ℕ) (st : State m) (paired : Bool) (ls rs : Exprs) (env : ℕ → m.Value)
          → bound_targets ls ≤ n
          → mark_pairs slice paired true ls rs vary ≡ vary
          → KeptEnv env0 env
          → KeptEnv env0 (put_pairs m uses slice t o st ls rs env)
      unfolding put_pairs
      pairs-Kept o st paired nil rs env b h k = k
      pairs-Kept o st paired (cons l ls) nil env b h k = k
      pairs-Kept o st paired (cons l ls) (cons r rs) env b h k =
          let q = closed-pairs slice n vary paired true l ls r rs b h in
          pairs-Kept o st paired ls rs _ (unfold bound_targets in omega arith) q.1
            (put-Kept st l _ env q.0 k)

      names-Kept :
          (st : State m) (ls rs : Exprs) (env : ℕ → m.Value)
          → bound_targets ls ≤ n
          → mark_names slice true ls rs vary ≡ vary
          → KeptEnv env0 env
          → KeptEnv env0 (put_names m uses slice t st ls rs env)
      unfolding put_names
      names-Kept st nil rs env b h k = k
      names-Kept st (cons l ls) nil env b h k =
          let q = closed-names_nil slice n vary true l ls b h in
          names-Kept st ls nil _ (unfold bound_targets in omega arith) q.1
            (zero_name-Kept st l env q.0 k)
      names-Kept st (cons l ls) (cons r rs) env b h k =
          let q = closed-names slice n vary true l ls r rs b h in
          names-Kept st ls rs _ (unfold bound_targets in omega arith) q.1
            (put-Kept st l _ env q.0 k)

      decl-Kept :
          (d : Specs) (st : State m)
          → bound_decl d ≤ n
          → mark_decl slice true d vary ≡ vary
          → Kept st
          → Kept (run_decl m uses slice t d st)
      unfolding run_decl
      decl-Kept no_spec st b h k = k
      decl-Kept (spec names values d) st b h k =
          let q = closed-decl slice n vary true names values d b h in
          decl-Kept d _ (unfold bound_decl in omega arith) q.1 (
            after_all-Kept values (with_env m (put_names m uses slice t st names values st.env) st)
              (names-Kept st names values st.env (unfold bound_decl in omega arith) q.0 k))

      pub set_range-Kept :
          (o : Over) (k e x : Expr) (i : ℕ) (st : State m)
          → mark_if slice true k vary ≡ vary
          → mark_if slice true e vary ≡ vary
          → Kept st
          → Kept (set_range m uses slice t o k e x i st)
      unfolding set_range
      set_range-Kept o k e x i st h h' p = put-Kept st e _ _ h' (put-Kept st k _ st.env h p)

      module _ (fuel : ℕ) where
        abbrev Run : Stmt → State m → Outcome m
        Run s st = exec m uses slice t fuel s st

        mutual
          unfolding exec bound

          pub exec-Kept :
              (s : Stmt) (st : State m) (g : Signal) (st' : State m)
              → bound s ≤ n
              → mark slice s true vary ≡ vary
              → Kept st
              → exec m uses slice t fuel s st ≡ some (g, st')
              → Kept st'
          exec-Kept no_stmt st g st' b h k e = at_end m Kept k e
          exec-Kept empty st g st' b h k e = at_end m Kept k e
          exec-Kept other_stmt st g st' b h k e = cc
          exec-Kept (expr_stmt x) st g st' b h k e = elim (Bool-cases (is_barrier x)) [
            | inl y ↦ at_end m Kept {st = record st { trace = at_barrier ∷ st.trace }} k (rw y at e)
            | inr y ↦ at_end m Kept (after-Kept x st k) (rw y at e)
          ]
          exec-Kept (assign o ls rs) st g st' b h k e =
              let h' = closed-assign slice vary o ls rs true h in
              at_end m Kept
                (after_all-Kept rs _ (
                  after_all-Kept ls (with_env m (put_pairs m uses slice t o st ls rs st.env) st)
                    (pairs-Kept o st _ ls rs st.env b h' k)))
                e
          exec-Kept (inc_dec o x) st g st' b h k e =
              at_end m Kept
                (after-Kept x
                  (with_env m
                    (put m uses slice t st x (m.apply1 o (eval m uses slice t st x)) st.env) st)
                  (put-Kept st x _ st.env (closed-inc_dec slice vary o x h) k))
                e
          exec-Kept (decl d) st g st' b h k e =
              at_end m Kept (decl-Kept d st b (closed-decl_stmt slice vary d true h) k) e
          exec-Kept (block ss) st g st' b h k e =
              stmts-Kept ss st g st' b (closed-block slice vary ss true h) k e
          exec-Kept (labeled l s) st g st' b h k e =
              exec-Kept s st g st' b (closed-labeled slice vary l s true h) k e
          exec-Kept (if_stmt init c body els) st g st' b h k e =
              let q = closed-if slice n vary true init c body els b h in
              let (r, a, z) = >>=-eq-some (Run init st) _ e in
              let k1 = after-Kept c r.1 (exec-Kept init st r.0 r.1 (omega arith) q.0 k a) in
              elim (Bool-cases (m.truth (eval m uses slice t r.1 c))) [
                | inl y ↦ exec-Kept body _ g st' (omega arith) q.1 k1 (rw y at z)
                | inr y ↦ exec-Kept els _ g st' (omega arith) q.2 k1 (rw y at z)
              ]
          exec-Kept (for_stmt init c post body) st g st' b h k e =
              let q = closed-for slice n vary true init c post body b h in
              let (r, a, z) = >>=-eq-some (Run init st) _ e in
              rounds-keeps m Kept _
                (record {
                  look = λ s1 y. after-Kept c s1 y;
                  before = λ i s1 y. y;
                  body = λ s1 g1 s2 y w. exec-Kept body s1 g1 s2 (omega arith) q.2 y w;
                  post = λ s1 g1 s2 y w. exec-Kept post s1 g1 s2 (omega arith) q.1 y w;
                })
                fuel 0 r.1 g st' (exec-Kept init st r.0 r.1 (omega arith) q.0 k a) z
          exec-Kept (range o kx v x body) st g st' b h k e =
              let q = closed-range slice n vary true o kx v x body b h in
              rounds-keeps m Kept _
                (record {
                  look = λ s1 y. y;
                  before = λ i s1 y. set_range-Kept o kx v x i s1 q.0 q.1 y;
                  body = λ s1 g1 s2 y w. exec-Kept body s1 g1 s2 (omega arith) q.2 y w;
                  post = λ s1 g1 s2 y w. at_end m Kept y w;
                })
                fuel 0 _ g st' (after-Kept x st k) e
          exec-Kept (switch init tag cs) st g st' b h k e =
              let q = closed-switch slice n vary true init tag cs b h in
              let (r, a, z) = >>=-eq-some (Run init st) _ e in
              let (r2, a2, z2) =
                >>=-eq-some
                  (exec_clauses m uses slice t fuel cs (eval m uses slice t r.1 tag)
                    (λ s. some (next, s)) (after m uses slice t tag r.1))
                  _ z in
              caught-keeps m Kept r2.0 r2.1 g st'
                (clauses-Kept cs _ _ _ r2.0 r2.1 (omega arith) q.1
                  (λ s1 g1 s2 y w. at_end m Kept y w)
                  (after-Kept tag r.1 (exec-Kept init st r.0 r.1 (omega arith) q.0 k a)) a2)
                z2
          exec-Kept (return es) st g st' b h k e = at_end m Kept (after_all-Kept es st k) e
          exec-Kept (branch break_token none) st g st' b h k e = at_end m Kept k e
          exec-Kept (branch continue_token none) st g st' b h k e = at_end m Kept k e
          exec-Kept (branch fallthrough_token none) st g st' b h k e = cc
          exec-Kept (branch c (some l)) st g st' b h k e = cc

          pub stmts-Kept :
              (ss : Stmts) (st : State m) (g : Signal) (st' : State m)
              → bound_stmts ss ≤ n
              → mark_stmts slice ss true vary ≡ vary
              → Kept st
              → exec_stmts m uses slice t fuel ss st ≡ some (g, st')
              → Kept st'
          stmts-Kept done st g st' b h k e = at_end m Kept k e
          stmts-Kept (then_do s ss) st g st' b h k e =
              let q = closed-stmts slice n vary true s ss b h in
              let (r, a, z) = >>=-eq-some (Run s st) _ e in
              and_then-keeps m Kept _ r.0 r.1 g st' (stmts-Kept ss r.1 g st' (omega arith) q.1)
                (exec-Kept s st r.0 r.1 (omega arith) q.0 k a) z

          pub clauses-Kept :
              (cs : Clauses) (v : m.Value) (otherwise : State m → Outcome m) (st : State m)
              (g : Signal) (st' : State m)
              → bound_clauses cs ≤ n
              → mark_clauses slice cs true vary ≡ vary
              → ((s1 : State m) (g1 : Signal) (s2 : State m)
                  → Kept s1
                  → otherwise s1 ≡ some (g1, s2)
                  → Kept s2)
              → Kept st
              → exec_clauses m uses slice t fuel cs v otherwise st ≡ some (g, st')
              → Kept st'
          clauses-Kept no_clause v otherwise st g st' b h f k e = f st g st' k e
          clauses-Kept (clause nil body cs) v otherwise st g st' b h f k e =
              let q = closed-clauses slice n vary true nil body cs b h in
              clauses-Kept cs v _ st g st' (omega arith) q.1
                (λ s1 g1 s2 y w. stmts-Kept body s1 g1 s2 (omega arith) q.0 y w) k e
          clauses-Kept (clause (cons x es) body cs) v otherwise st g st' b h f k e =
              let q = closed-clauses slice n vary true (cons x es) body cs b h in
              let k1 = after_cases-Kept v (cons x es) st k in
              elim (Bool-cases (matches m uses slice t v (cons x es) st)) [
                | inl y ↦ stmts-Kept body _ g st' (omega arith) q.0 k1 (rw y at e)
                | inr y ↦ clauses-Kept cs v otherwise _ g st' (omega arith) q.1 f k1 (rw y at e)
              ]
