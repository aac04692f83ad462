-- ===== src/Lower/Device/Meet.antt =====
-- internal/lower/diverge.go: how two threads stand after a statement that both have run, and what follows when
-- each does something of its own.
use simtgo.Base.{
  ℕ, ◌≤◌, Bool, true, false, not, ◌&&◌, ◌||◌, List, [], some, none, ◌≡◌, refl, sym, ◌∙◌, ap, subst,
  Bool-cases, inl, inr, ||-false,
}
use simtgo.Lower.Syntax.{
  Expr, Exprs, nil, Over, integer, elements, Stmt, no_stmt, for_stmt, Stmts, Clauses, clause,
}
use simtgo.Lower.Vary.{
  varying_expr, any_varying, case_varies, mark, mark_clauses, bound, bound_clauses,
}
use simtgo.Lower.Diverge.{BarrierUse, Found, What, enter, check, check_clauses}
use simtgo.Lower.Diverge.Quiet.{blocked, quiet, quiet_expr}
use simtgo.Lower.Device.{
  Machine, Thread, State, Signal, next, broke, continued, returned, Outcome, and_then, caught, exec,
  exec_clauses, range_count,
}
use simtgo.Lower.Device.Agree.{eval-agrees}
use simtgo.Lower.Device.Control.{KeptEnv}
use simtgo.Lower.Device.Signals.{ends_early, Allowed}
use simtgo.Lower.Device.Steady.{steady, steady_clauses}
use simtgo.Lower.Device.Together.{Both, kept_both}
use simtgo.Lower.Device.Modes.{mode, mode_clauses, Shut, Allowed-next, Allowed-both}

module _ (m : Machine) (uses : ℕ → BarrierUse) (slice : ℕ → Bool) (vary : List ℕ)
    (t1 t2 : Thread m) where
  abbrev pub Pair : State m → State m → Type 0
  Pair = Both m uses slice vary t1 t2

  -- How the two threads stand after a statement: together, or, outside every loop, parted by a return that
  -- is recorded, and then they have met at the same points still.
  pub data Met (inner recorded : Bool) (g1 : Signal) (s1 : State m) (g2 : Signal) (s2 : State m)
      : Type 0 where
    together : g1 ≡ g2 → Pair s1 s2 → Met inner recorded g1 s1 g2 s2
    parted : inner ≡ false → recorded ≡ true → s1.trace ≡ s2.trace → Met inner recorded g1 s1 g2 s2

  pub Met-later :
      {inner r r' : Bool} {g1 g2 : Signal} {s1 s2 : State m}
      → (r ≡ true → r' ≡ true)
      → Met inner r g1 s1 g2 s2
      → Met inner r' g1 s1 g2 s2
  Met-later f (together q b) = together q b
  Met-later f (parted i r t) = parted i (f r) t

  -- What one thread did in a part that not every thread enters.
  pub record Alone (t : Thread m) (s s' : State m) : Type 0 where
    pub same_trace : s'.trace ≡ s.trace
    pub kept : KeptEnv m uses slice vary t s.env s'.env

  -- Two threads that each did something of their own.
  pub apart :
      (inner recorded : Bool) (x : Stmt) (s1 s2 s1' s2' : State m) (g1 g2 : Signal)
      → Shut slice vary inner recorded x
      → Pair s1 s2
      → Alone t1 s1 s1'
      → Alone t2 s2 s2'
      → ((r b : Bool) → ends_early r b x ≡ false → Allowed r b g1)
      → ((r b : Bool) → ends_early r b x ≡ false → Allowed r b g2)
      → Met inner recorded g1 s1' g2 s2'
  apart inner recorded x s1 s2 s1' s2' g1 g2 h p a1 a2 f1 f2 =
      let tr = a1.same_trace ∙ p.same_trace ∙ sym a2.same_trace in
      let b : Pair s1' s2' = record {
        same_env =
            kept_both m uses slice vary t1 t2 s1.env s2.env s1'.env s2'.env p.same_env a1.kept
              a2.kept;
        same_trace = tr;
      } in
      elim (Bool-cases inner) [
        | inl i ↦
            let n1 = Allowed-next g1 (f1 true true (h.in_loop i)) in
            let n2 = Allowed-next g2 (f2 true true (h.in_loop i)) in together (cc) b
        | inr i ↦ elim (Bool-cases recorded) [
          | inl r ↦ parted i r tr
          | inr r ↦
              let n1 = Allowed-both g1 (f1 true false (h.seen r)) (f1 false true (h.outside i)) in
              let n2 = Allowed-both g2 (f2 true false (h.seen r)) (f2 false true (h.outside i)) in
              together (cc) b
        ]
      ]

  pub ended :
      {inner r : Bool} {g : Signal} {u1 u2 s1 s2 : State m} {g1 g2 : Signal}
      → Pair u1 u2
      → ◌≡◌ {A = Outcome m} (some (g, u1)) (some (g1, s1))
      → ◌≡◌ {A = Outcome m} (some (g, u2)) (some (g2, s2))
      → Met inner r g1 s1 g2 s2
  ended {u1 = u1} {u2 = u2} {s1 = s1} {s2 = s2} b e1 e2 =
      let p1 : u1 ≡ s1 = cc in
      let p2 : u2 ≡ s2 = cc in
      together (cc) (subst (λ (x : State m). Pair x s2) p1 (subst (Pair u1) p2 b))

  pub and_then-Met :
      (inner r : Bool) (k1 k2 : State m → Outcome m) (g h : Signal) (s1 s2 : State m) (g1 : Signal)
      (s1' : State m) (g2 : Signal) (s2' : State m)
      → g ≡ h
      → Pair s1 s2
      → (k1 s1 ≡ some (g1, s1') → k2 s2 ≡ some (g2, s2') → Met inner r g1 s1' g2 s2')
      → and_then m k1 g s1 ≡ some (g1, s1')
      → and_then m k2 h s2 ≡ some (g2, s2')
      → Met inner r g1 s1' g2 s2'
  and_then-Met inner r k1 k2 next next s1 s2 g1 s1' g2 s2' q b f e1 e2 = f e1 e2
  and_then-Met inner r k1 k2 broke broke s1 s2 g1 s1' g2 s2' q b f e1 e2 = ended b e1 e2
  and_then-Met inner r k1 k2 continued continued s1 s2 g1 s1' g2 s2' q b f e1 e2 = ended b e1 e2
  and_then-Met inner r k1 k2 returned returned s1 s2 g1 s1' g2 s2' q b f e1 e2 = ended b e1 e2
  and_then-Met inner r k1 k2 next broke s1 s2 g1 s1' g2 s2' q b f e1 e2 = cc
  and_then-Met inner r k1 k2 next continued s1 s2 g1 s1' g2 s2' q b f e1 e2 = cc
  and_then-Met inner r k1 k2 next returned s1 s2 g1 s1' g2 s2' q b f e1 e2 = cc
  and_then-Met inner r k1 k2 broke next s1 s2 g1 s1' g2 s2' q b f e1 e2 = cc
  and_then-Met inner r k1 k2 broke continued s1 s2 g1 s1' g2 s2' q b f e1 e2 = cc
  and_then-Met inner r k1 k2 broke returned s1 s2 g1 s1' g2 s2' q b f e1 e2 = cc
  and_then-Met inner r k1 k2 continued next s1 s2 g1 s1' g2 s2' q b f e1 e2 = cc
  and_then-Met inner r k1 k2 continued broke s1 s2 g1 s1' g2 s2' q b f e1 e2 = cc
  and_then-Met inner r k1 k2 continued returned s1 s2 g1 s1' g2 s2' q b f e1 e2 = cc
  and_then-Met inner r k1 k2 returned next s1 s2 g1 s1' g2 s2' q b f e1 e2 = cc
  and_then-Met inner r k1 k2 returned broke s1 s2 g1 s1' g2 s2' q b f e1 e2 = cc
  and_then-Met inner r k1 k2 returned continued s1 s2 g1 s1' g2 s2' q b f e1 e2 = cc

  -- A switch after its clauses: a break leaves it.
  caught_as : (g h : Signal) {s s' : State m} → caught m g s ≡ some (h, s') → s ≡ s'
  caught_as next h e = cc
  caught_as broke h e = cc
  caught_as continued h e = cc
  caught_as returned h e = cc

  caught-together :
      {inner r : Bool} (g : Signal) (s1 s2 : State m) (g1 : Signal) (s1' : State m) (g2 : Signal)
      (s2' : State m)
      → Pair s1 s2
      → caught m g s1 ≡ some (g1, s1')
      → caught m g s2 ≡ some (g2, s2')
      → Met inner r g1 s1' g2 s2'
  caught-together next s1 s2 g1 s1' g2 s2' b e1 e2 = ended b e1 e2
  caught-together broke s1 s2 g1 s1' g2 s2' b e1 e2 = ended b e1 e2
  caught-together continued s1 s2 g1 s1' g2 s2' b e1 e2 = ended b e1 e2
  caught-together returned s1 s2 g1 s1' g2 s2' b e1 e2 = ended b e1 e2

  pub caught-Met :
      (inner r : Bool) (g h : Signal) (s1 s2 : State m) (g1 : Signal) (s1' : State m) (g2 : Signal)
      (s2' : State m)
      → Met inner r g s1 h s2
      → caught m g s1 ≡ some (g1, s1')
      → caught m h s2 ≡ some (g2, s2')
      → Met inner r g1 s1' g2 s2'
  caught-Met inner r g h s1 s2 g1 s1' g2 s2' (together q b) e1 e2 =
      caught-together g s1 s2 g1 s1' g2 s2' b e1 (rw (← q) at e2)
  caught-Met inner r g h s1 s2 g1 s1' g2 s2' (parted i k tr) e1 e2 =
      let p1 = caught_as g g1 e1 in
      let p2 = caught_as h g2 e2 in
      parted i k (ap (λ (x : State m). x.trace) (sym p1) ∙ tr ∙ ap (λ (x : State m). x.trace) p2)

  pub enter_same : {b : Bool} (d : What) → b ≡ false → enter none b d ≡ none
  enter_same d u = rw u refl

  pub enter-blocked :
      {b : Bool} (d : What) (w : Found) → b ≡ true → blocked (enter none b d) w ≡ true
  enter-blocked d w u = rw u refl

  pub in_step :
      {r : Bool} {g1 g2 : Signal} {s1 s2 : State m}
      → Met true r g1 s1 g2 s2
      → (g1 ≡ g2) × Pair s1 s2
  in_step (together q b) = (q, b)
  in_step (parted i r t) = cc

  pub count_same :
      (o : Over) (x : Expr) (s1 s2 : State m)
      → Pair s1 s2
      → (o ≡ integer → varying_expr slice vary x ≡ false)
      → range_count m uses slice t1 o x s1 ≡ range_count m uses slice t2 o x s2
  count_same integer x s1 s2 p h =
      ap m.amount (eval-agrees m uses slice vary t1 t2 s1 s2 p x (h refl))
  count_same elements x s1 s2 p h = refl

  pub shut_guard :
      (inner varies rest : Bool)
      → inner ≡ true
      → varies ≡ true
      → (not (inner && varies) || rest) ≡ true
      → rest ≡ true
  shut_guard true true rest i u h = h
  shut_guard true false rest i u h = cc
  shut_guard false varies rest i u h = cc

  pub quiet-for :
      (c : Expr) (post body : Stmt)
      → quiet_expr uses c ≡ true
      → quiet uses post ≡ true
      → quiet uses body ≡ true
      → quiet uses (for_stmt no_stmt c post body) ≡ true
  unfolding quiet
  quiet-for c post body p q r = rw (p, q, r)

  pub case_nil :
      (body : Stmts) (cs : Clauses)
      → case_varies slice vary (clause nil body cs) ≡ false
      → case_varies slice vary cs ≡ false
  unfolding case_varies varying_expr
  case_nil body cs h = h

  pub case_cons :
      (es : Exprs) (body : Stmts) (cs : Clauses)
      → case_varies slice vary (clause es body cs) ≡ false
      → (any_varying slice vary es ≡ false) × (case_varies slice vary cs ≡ false)
  unfolding case_varies
  case_cons es body cs h = ||-false _ _ h

  -- What a statement owes: two threads that run it together stand so.
  abbrev pub MetFor : ℕ → ℕ → Bool → Stmt → Type 0
  MetFor n fuel inner s =
      (w : Found) (st1 st2 : State m) (g1 : Signal) (st1' : State m) (g2 : Signal) (st2' : State m)
      → bound s ≤ n
      → mark slice s false vary ≡ vary
      → steady uses slice vary inner s ≡ true
      → mode slice vary inner s ≡ false
      → (check uses slice vary s none w).fails ≡ []
      → Pair st1 st2
      → exec m uses slice t1 fuel s st1 ≡ some (g1, st1')
      → exec m uses slice t2 fuel s st2 ≡ some (g2, st2')
      → Met inner (check uses slice vary s none w).use_of.returns g1 st1' g2 st2'

  -- The same of the clauses of a switch, with what is run where none matches; `recorded` is what holds of
  -- the walk once they are checked.
  abbrev pub ClausesMetFor : ℕ → ℕ → Bool → Clauses → Type 0
  ClausesMetFor n fuel inner cs =
      (R : Bool) (w : Found) (v1 v2 : m.Value) (k1 k2 : State m → Outcome m) (st1 st2 : State m)
      (g1 : Signal) (st1' : State m) (g2 : Signal) (st2' : State m)
      → bound_clauses cs ≤ n
      → mark_clauses slice cs false vary ≡ vary
      → steady_clauses uses slice vary inner cs ≡ true
      → mode_clauses slice vary inner cs ≡ false
      → case_varies slice vary cs ≡ false
      → (check_clauses uses slice vary cs none w).fails ≡ []
      → v1 ≡ v2
      → ((s1 s2 : State m) (h1 : Signal) (s1' : State m) (h2 : Signal) (s2' : State m)
          → Pair s1 s2
          → k1 s1 ≡ some (h1, s1')
          → k2 s2 ≡ some (h2, s2')
          → Met inner R h1 s1' h2 s2')
      → ((check_clauses uses slice vary cs none w).use_of.returns ≡ true → R ≡ true)
      → Pair st1 st2
      → exec_clauses m uses slice t1 fuel cs v1 k1 st1 ≡ some (g1, st1')
      → exec_clauses m uses slice t2 fuel cs v2 k2 st2 ≡ some (g2, st2')
      → Met inner R g1 st1' g2 st2'
