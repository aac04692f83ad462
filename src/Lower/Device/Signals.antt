-- ===== src/Lower/Device/Signals.antt =====
-- internal/lower/diverge.go: how a statement can end, from what it contains; exitsVarying and the returns
-- that check records are read from it.
use simtgo.Base.{
  ℕ, Bool, true, false, not, ◌||◌, List, some, none, ◌≡◌, refl, subst, Bool-cases, inl, inr,
  >>=-eq-some, arith, ||-false,
}
use simtgo.Lower.Syntax.{
  nil, cons, break_token, continue_token, fallthrough_token, Stmt, no_stmt, empty, other_stmt,
  expr_stmt, assign, inc_dec, decl, block, labeled, if_stmt, for_stmt, range, switch, return,
  branch, Stmts, done, then_do, Clauses, no_clause, clause,
}
use simtgo.Lower.Vary.{exits, exits_stmts, exits_clauses}
use simtgo.Lower.Diverge.{BarrierUse, is_barrier}
use simtgo.Lower.Device.{
  Machine, Thread, State, Signal, next, broke, continued, returned, Outcome, Loop, rounds, and_then,
  caught, eval, after, exec, exec_stmts, exec_clauses, matches,
}
use simtgo.Lower.Device.Loops.{rounds-signal}

-- Whether a statement has a return, where those count, or a bare break or continue that no loop of its
-- own is around, where those count.
unfoldable mutual
  pub ends_early : Bool → Bool → Stmt → Bool
  ends_early r b (branch break_token none) = b
  ends_early r b (branch continue_token none) = b
  ends_early r b (branch fallthrough_token none) = false
  ends_early r b (branch t (some l)) = false
  ends_early r b (return es) = r
  ends_early r b (block ss) = ends_stmts r b ss
  ends_early r b (labeled l s) = ends_early r b s
  ends_early r b (if_stmt init c body els) = ends_early r b body || ends_early r b els
  ends_early r b (for_stmt init c post body) = ends_early r false body
  ends_early r b (range o k v x body) = ends_early r false body
  ends_early r b (switch init tag cs) = ends_clauses r b cs
  ends_early r b no_stmt = false
  ends_early r b empty = false
  ends_early r b other_stmt = false
  ends_early r b (expr_stmt e) = false
  ends_early r b (assign o ls rs) = false
  ends_early r b (inc_dec o e) = false
  ends_early r b (decl d) = false

  pub ends_stmts : Bool → Bool → Stmts → Bool
  ends_stmts r b done = false
  ends_stmts r b (then_do s ss) = ends_early r b s || ends_stmts r b ss

  pub ends_clauses : Bool → Bool → Clauses → Bool
  ends_clauses r b no_clause = false
  ends_clauses r b (clause es body cs) = ends_stmts r b body || ends_clauses r b cs

-- The signals that are left where returns, or bare branches, count.
abbrev pub Allowed : Bool → Bool → Signal → Type 0
Allowed r b next = Unit
Allowed r b returned = r ≡ false
Allowed r b broke = b ≡ false
Allowed r b continued = b ≡ false

-- What exitsVarying does not find under a varying condition is not there.
mutual
  unfolding exits ends_early

  pub exits-ends :
      (slice : ℕ → Bool) (vary : List ℕ) (s : Stmt) (nested : Bool)
      → exits slice vary s true nested ≡ false
      → ends_early true (not nested) s ≡ false
  exits-ends slice vary (branch fallthrough_token none) nested h = refl
  exits-ends slice vary (branch break_token none) nested h = ground arith
  exits-ends slice vary (branch continue_token none) nested h = ground arith
  exits-ends slice vary (branch t (some l)) nested h = refl
  exits-ends slice vary (return es) nested h = h
  exits-ends slice vary (block ss) nested h = exits_stmts-ends slice vary ss nested h
  exits-ends slice vary (labeled l s) nested h = exits-ends slice vary s nested h
  exits-ends slice vary (if_stmt init c body els) nested h =
      let p = ||-false _ _ h in
      rw (exits-ends slice vary body nested p.0, exits-ends slice vary els nested p.1)
  exits-ends slice vary (for_stmt init c post body) nested h = exits-ends slice vary body true h
  exits-ends slice vary (range o k v x body) nested h = exits-ends slice vary body true h
  exits-ends slice vary (switch init tag cs) nested h = exits_clauses-ends slice vary cs nested h
  exits-ends slice vary no_stmt nested h = refl
  exits-ends slice vary empty nested h = refl
  exits-ends slice vary other_stmt nested h = refl
  exits-ends slice vary (expr_stmt e) nested h = refl
  exits-ends slice vary (assign o ls rs) nested h = refl
  exits-ends slice vary (inc_dec o e) nested h = refl
  exits-ends slice vary (decl d) nested h = refl

  exits_stmts-ends :
      (slice : ℕ → Bool) (vary : List ℕ) (ss : Stmts) (nested : Bool)
      → exits_stmts slice vary ss true nested ≡ false
      → ends_stmts true (not nested) ss ≡ false
  exits_stmts-ends slice vary done nested h = refl
  exits_stmts-ends slice vary (then_do s ss) nested h =
      let p = ||-false _ _ h in
      rw (exits-ends slice vary s nested p.0, exits_stmts-ends slice vary ss nested p.1)

  pub exits_clauses-ends :
      (slice : ℕ → Bool) (vary : List ℕ) (cs : Clauses) (nested : Bool)
      → exits_clauses slice vary cs true nested ≡ false
      → ends_clauses true (not nested) cs ≡ false
  exits_clauses-ends slice vary no_clause nested h = refl
  exits_clauses-ends slice vary (clause es body cs) nested h =
      let p = ||-false _ _ h in
      rw (exits_stmts-ends slice vary body nested p.0, exits_clauses-ends slice vary cs nested p.1)

module _ (m : Machine) (r b : Bool) where
  signal_of :
      {g h : Signal} {st st' : State m}
      → Allowed r b g
      → ◌≡◌ {A = Outcome m} (some (g, st)) (some (h, st'))
      → Allowed r b h
  signal_of {g} {h} a e = let q : g ≡ h = cc in subst (Allowed r b) q a

  caught-Allowed :
      (h : Signal) (st : State m) (g : Signal) (st' : State m)
      → Allowed r b h
      → caught m h st ≡ some (g, st')
      → Allowed r b g
  caught-Allowed next st g st' a e = signal_of {g = next} tt e
  caught-Allowed broke st g st' a e = signal_of {g = next} tt e
  caught-Allowed continued st g st' a e = signal_of {g = continued} a e
  caught-Allowed returned st g st' a e = signal_of {g = returned} a e

  and_then-Allowed :
      (k : State m → Outcome m) (h : Signal) (st : State m) (g : Signal) (st' : State m)
      → Allowed r b h
      → (k st ≡ some (g, st') → Allowed r b g)
      → and_then m k h st ≡ some (g, st')
      → Allowed r b g
  and_then-Allowed k next st g st' a f e = f e
  and_then-Allowed k broke st g st' a f e = signal_of {g = broke} a e
  and_then-Allowed k continued st g st' a f e = signal_of {g = continued} a e
  and_then-Allowed k returned st g st' a f e = signal_of {g = returned} a e

module _ (m : Machine) (uses : ℕ → BarrierUse) (slice : ℕ → Bool) (t : Thread m) (fuel : ℕ) where
  abbrev Run : Stmt → State m → Outcome m
  Run s st = exec m uses slice t fuel s st

  rounds-Allowed :
      (r b : Bool) (l : Loop m) (i : ℕ) (st : State m) (g : Signal) (st' : State m)
      → ((st1 st2 : State m) → l.body st1 ≡ some (returned, st2) → r ≡ false)
      → rounds m fuel l i st ≡ some (g, st')
      → Allowed r b g
  rounds-Allowed r b l i st g st' f e = elim (rounds-signal m l fuel i st g st' e) [
    | inl p ↦ rw p tt
    | inr (p, st1, st2, q) ↦ rw p (f st1 st2 q)
  ]

  mutual
    unfolding exec ends_early

    pub exec-Allowed :
        (r b : Bool) (s : Stmt) (st : State m) (g : Signal) (st' : State m)
        → ends_early r b s ≡ false
        → exec m uses slice t fuel s st ≡ some (g, st')
        → Allowed r b g
    exec-Allowed r b no_stmt st g st' h e = signal_of m r b {g = next} tt e
    exec-Allowed r b empty st g st' h e = signal_of m r b {g = next} tt e
    exec-Allowed r b other_stmt st g st' h e = cc
    exec-Allowed r b (expr_stmt x) st g st' h e = elim (Bool-cases (is_barrier x)) [
      | inl y ↦ signal_of m r b {g = next} tt (rw y at e)
      | inr y ↦ signal_of m r b {g = next} tt (rw y at e)
    ]
    exec-Allowed r b (assign o ls rs) st g st' h e = signal_of m r b {g = next} tt e
    exec-Allowed r b (inc_dec o x) st g st' h e = signal_of m r b {g = next} tt e
    exec-Allowed r b (decl d) st g st' h e = signal_of m r b {g = next} tt e
    exec-Allowed r b (block ss) st g st' h e = stmts-Allowed r b ss st g st' h e
    exec-Allowed r b (labeled l s) st g st' h e = exec-Allowed r b s st g st' h e
    exec-Allowed r b (if_stmt init c body els) st g st' h e =
        let p = ||-false _ _ h in
        let (q, a, z) = >>=-eq-some (Run init st) _ e in
        elim (Bool-cases (m.truth (eval m uses slice t q.1 c))) [
          | inl y ↦ exec-Allowed r b body _ g st' p.0 (rw y at z)
          | inr y ↦ exec-Allowed r b els _ g st' p.1 (rw y at z)
        ]
    exec-Allowed r b (for_stmt init c post body) st g st' h e =
        let (q, a, z) = >>=-eq-some (Run init st) _ e in
        rounds-Allowed r b _ 0 q.1 g st' (λ s1 s2 y. exec-Allowed r false body s1 returned s2 h y) z
    exec-Allowed r b (range o k v x body) st g st' h e =
        rounds-Allowed r b _ 0 _ g st' (λ s1 s2 y. exec-Allowed r false body s1 returned s2 h y) e
    exec-Allowed r b (switch init tag cs) st g st' h e =
        let (q, a, z) = >>=-eq-some (Run init st) _ e in
        let (q2, a2, z2) =
          >>=-eq-some
            (exec_clauses m uses slice t fuel cs (eval m uses slice t q.1 tag) (λ s. some (next, s))
              (after m uses slice t tag q.1))
            _ z in
        caught-Allowed m r b q2.0 q2.1 g st'
          (clauses-Allowed r b cs _ _ _ q2.0 q2.1 h (λ s1 g1 s2 y. signal_of m r b {g = next} tt y)
            a2)
          z2
    exec-Allowed r b (return es) st g st' h e = signal_of m r b {g = returned} h e
    exec-Allowed r b (branch break_token none) st g st' h e = signal_of m r b {g = broke} h e
    exec-Allowed r b (branch continue_token none) st g st' h e = signal_of m r b {g = continued} h e
    exec-Allowed r b (branch fallthrough_token none) st g st' h e = cc
    exec-Allowed r b (branch c (some l)) st g st' h e = cc

    pub stmts-Allowed :
        (r b : Bool) (ss : Stmts) (st : State m) (g : Signal) (st' : State m)
        → ends_stmts r b ss ≡ false
        → exec_stmts m uses slice t fuel ss st ≡ some (g, st')
        → Allowed r b g
    stmts-Allowed r b done st g st' h e = signal_of m r b {g = next} tt e
    stmts-Allowed r b (then_do s ss) st g st' h e =
        let p = ||-false _ _ h in
        let (q, a, z) = >>=-eq-some (Run s st) _ e in
        and_then-Allowed m r b _ q.0 q.1 g st' (exec-Allowed r b s st q.0 q.1 p.0 a)
          (stmts-Allowed r b ss q.1 g st' p.1) z

    pub clauses-Allowed :
        (r b : Bool) (cs : Clauses) (v : m.Value) (otherwise : State m → Outcome m) (st : State m)
        (g : Signal) (st' : State m)
        → ends_clauses r b cs ≡ false
        → ((s1 : State m) (g1 : Signal) (s2 : State m)
            → otherwise s1 ≡ some (g1, s2)
            → Allowed r b g1)
        → exec_clauses m uses slice t fuel cs v otherwise st ≡ some (g, st')
        → Allowed r b g
    clauses-Allowed r b no_clause v otherwise st g st' h f e = f st g st' e
    clauses-Allowed r b (clause nil body cs) v otherwise st g st' h f e =
        let p = ||-false _ _ h in
        clauses-Allowed r b cs v _ st g st' p.1
          (λ s1 g1 s2 y. stmts-Allowed r b body s1 g1 s2 p.0 y) e
    clauses-Allowed r b (clause (cons x es) body cs) v otherwise st g st' h f e =
        let p = ||-false _ _ h in
        elim (Bool-cases (matches m uses slice t v (cons x es) st)) [
          | inl y ↦ stmts-Allowed r b body _ g st' p.0 (rw y at e)
          | inr y ↦ clauses-Allowed r b cs v otherwise _ g st' p.1 f (rw y at e)
        ]
