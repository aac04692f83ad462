-- ===== src/Lower/Device/Modes.antt =====
-- internal/lower/diverge.go: the two ways in which a statement that all threads reach is kept from parting
-- them. In a loop that they leave together, exitsVarying has found nothing; outside every loop no bare
-- branch leaves the statement, and a return that parts them is recorded.
use simtgo.Base.{
  ℕ, Bool, true, false, not, ◌||◌, List, ◌≡◌, refl, Bool-cases, inl, inr, arith, ||-false,
}
use simtgo.Lower.Syntax.{
  Expr, Exprs, Over, integer, elements, Stmt, block, labeled, if_stmt, for_stmt, range, switch,
  Stmts, then_do, Clauses, clause,
}
use simtgo.Lower.Vary.{
  varying_expr, for_varies, range_varies, switch_varies, exits, exits_stmts, exits_clauses,
  case_varies,
}
use simtgo.Lower.Device.Signals.{
  ends_early, ends_stmts, ends_clauses, exits-ends, exits_clauses-ends, Allowed,
}
use simtgo.Lower.Device.{Signal, next, broke, continued, returned}

module _ (slice : ℕ → Bool) (vary : List ℕ) where
  abbrev pub mode : Bool → Stmt → Bool
  mode true s = exits slice vary s false false
  mode false s = ends_early false true s

  abbrev pub mode_stmts : Bool → Stmts → Bool
  mode_stmts true ss = exits_stmts slice vary ss false false
  mode_stmts false ss = ends_stmts false true ss

  abbrev pub mode_clauses : Bool → Clauses → Bool
  mode_clauses true cs = exits_clauses slice vary cs false false
  mode_clauses false cs = ends_clauses false true cs

  pub mode-block :
      (inner : Bool) (ss : Stmts) → mode inner (block ss) ≡ false → mode_stmts inner ss ≡ false
  unfolding exits ends_early
  mode-block true ss h = h
  mode-block false ss h = h

  pub mode-labeled :
      (inner : Bool) (l : ℕ) (s : Stmt) → mode inner (labeled l s) ≡ false → mode inner s ≡ false
  unfolding exits ends_early
  mode-labeled true l s h = h
  mode-labeled false l s h = h

  pub mode-stmts :
      (inner : Bool) (s : Stmt) (ss : Stmts)
      → mode_stmts inner (then_do s ss) ≡ false
      → (mode inner s ≡ false) × (mode_stmts inner ss ≡ false)
  unfolding exits ends_early
  mode-stmts true s ss h = ||-false _ _ h
  mode-stmts false s ss h = ||-false _ _ h

  pub mode-clauses :
      (inner : Bool) (es : Exprs) (body : Stmts) (cs : Clauses)
      → mode_clauses inner (clause es body cs) ≡ false
      → (mode_stmts inner body ≡ false) × (mode_clauses inner cs ≡ false)
  unfolding exits ends_early
  mode-clauses true es body cs h = ||-false _ _ h
  mode-clauses false es body cs h = ||-false _ _ h

  pub mode-if :
      (inner : Bool) (init : Stmt) (c : Expr) (body els : Stmt)
      → varying_expr slice vary c ≡ false
      → mode inner (if_stmt init c body els) ≡ false
      → (mode inner body ≡ false) × (mode inner els ≡ false)
  unfolding exits ends_early
  mode-if true init c body els u h = ||-false _ _ (rw u at h)
  mode-if false init c body els u h = ||-false _ _ h

  pub mode-switch :
      (inner : Bool) (init : Stmt) (tag : Expr) (cs : Clauses)
      → switch_varies slice vary tag cs ≡ false
      → mode inner (switch init tag cs) ≡ false
      → mode_clauses inner cs ≡ false
  unfolding exits ends_early
  mode-switch true init tag cs u h = rw u at h
  mode-switch false init tag cs u h = h

  -- How a statement whose parts not every thread enters may end; `recorded` says that check has seen a
  -- return there.
  pub record Shut (inner recorded : Bool) (s : Stmt) : Type 0 where
    pub in_loop : inner ≡ true → ends_early true true s ≡ false
    pub outside : inner ≡ false → ends_early false true s ≡ false
    pub seen : recorded ≡ false → ends_early true false s ≡ false

  Shut-of :
      (inner recorded : Bool) (s : Stmt)
      → (mode true s ≡ false → inner ≡ true → ends_early true true s ≡ false)
      → mode inner s ≡ false
      → (recorded ≡ false → ends_early true false s ≡ false)
      → Shut inner recorded s
  Shut-of true recorded s f h g = record { in_loop = λ p. f h refl; outside = λ p. cc; seen = g }
  Shut-of false recorded s f h g = record { in_loop = λ p. cc; outside = λ p. h; seen = g }

  pub Shut-if :
      (inner recorded : Bool) (init : Stmt) (c : Expr) (body els : Stmt)
      → varying_expr slice vary c ≡ true
      → mode inner (if_stmt init c body els) ≡ false
      → (recorded ≡ false → ends_early true false (if_stmt init c body els) ≡ false)
      → Shut inner recorded (if_stmt init c body els)
  unfolding exits ends_early
  Shut-if inner recorded init c body els u h g =
      Shut-of inner recorded _
        (λ k p.
          let q = ||-false _ _ (rw u at k) in
          rw (exits-ends slice vary body false q.0, exits-ends slice vary els false q.1) refl)
        h g

  pub Shut-switch :
      (inner recorded : Bool) (init : Stmt) (tag : Expr) (cs : Clauses)
      → switch_varies slice vary tag cs ≡ true
      → mode inner (switch init tag cs) ≡ false
      → (recorded ≡ false → ends_early true false (switch init tag cs) ≡ false)
      → Shut inner recorded (switch init tag cs)
  unfolding exits ends_early
  Shut-switch inner recorded init tag cs u h g =
      Shut-of inner recorded _ (λ k p. exits_clauses-ends slice vary cs false (rw u at k)) h g

  pub Shut-for :
      (inner recorded : Bool) (init : Stmt) (c : Expr) (post body : Stmt)
      → (inner ≡ true → (varying_expr slice vary c || not (ends_early true false body)) ≡ true)
      → mode inner (for_stmt init c post body) ≡ false
      → (recorded ≡ false → ends_early true false (for_stmt init c post body) ≡ false)
      → Shut inner recorded (for_stmt init c post body)
  unfolding exits ends_early
  Shut-for inner recorded init c post body v h g =
      Shut-of inner recorded _
        (λ k p. elim (Bool-cases (varying_expr slice vary c)) [
          | inl u ↦ exits-ends slice vary body true (rw u at k)
          | inr u ↦
              let w : (varying_expr slice vary c || not (ends_early true false body)) ≡ true =
                v p in
              let w' : not (ends_early true false body) ≡ true = rw u at w in ground arith
        ])
        h g

  pub Shut-range :
      (inner recorded : Bool) (o : Over) (k e x : Expr) (body : Stmt)
      → (inner ≡ true → not (ends_early true false body) ≡ true)
      → mode inner (range o k e x body) ≡ false
      → (recorded ≡ false → ends_early true false (range o k e x body) ≡ false)
      → Shut inner recorded (range o k e x body)
  unfolding exits ends_early
  Shut-range inner recorded o k e x body v h g =
      Shut-of inner recorded _
        (λ q p. let w : not (ends_early true false body) ≡ true = v p in ground arith) h g

  pub for_same :
      (c : Expr) (body : Stmt)
      → for_varies slice vary c body ≡ false
      → (varying_expr slice vary c ≡ false) × (mode true body ≡ false)
  unfolding for_varies
  for_same c body h = ||-false _ _ h

  pub range_same :
      (o : Over) (x : Expr) (body : Stmt)
      → range_varies slice vary o x body ≡ false
      → (o ≡ integer → varying_expr slice vary x ≡ false) × (mode true body ≡ false)
  unfolding range_varies
  range_same integer x body h = let p = ||-false _ _ h in (λ q. p.0, p.1)
  range_same elements x body h = ((λ q. cc), h)

  pub switch_same :
      (tag : Expr) (cs : Clauses)
      → switch_varies slice vary tag cs ≡ false
      → (varying_expr slice vary tag ≡ false) × (case_varies slice vary cs ≡ false)
  unfolding switch_varies
  switch_same tag cs h = ||-false _ _ h

-- A signal that is neither a return nor a bare branch.
pub Allowed-next : (g : Signal) → Allowed true true g → g ≡ next
Allowed-next next h = refl
Allowed-next broke h = cc
Allowed-next continued h = cc
Allowed-next returned h = cc

pub Allowed-both : (g : Signal) → Allowed true false g → Allowed false true g → g ≡ next
Allowed-both next h k = refl
Allowed-both broke h k = cc
Allowed-both continued h k = cc
Allowed-both returned h k = cc
