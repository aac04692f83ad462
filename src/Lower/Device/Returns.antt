-- ===== src/Lower/Device/Returns.antt =====
-- internal/lower/diverge.go: where not every thread enters, check records a return that a statement has.
use simtgo.Base.{
  ℕ, Bool, true, false, ◌||◌, List, Option, some, none, ◌≡◌, refl, subst, Bool-cases, inl, inr,
}
use simtgo.Lower.Syntax.{
  Expr, break_token, continue_token, fallthrough_token, Over, Stmt, no_stmt, empty, other_stmt,
  expr_stmt, assign, inc_dec, decl, block, labeled, if_stmt, for_stmt, range, switch, return,
  branch, Stmts, done, then_do, Clauses, no_clause, clause,
}
use simtgo.Lower.Diverge.{BarrierUse, What, Found, enter, check, check_stmts, check_clauses}
use simtgo.Lower.Diverge.Later.{Later, check-Later, check_stmts-Later, check_clauses-Later}
use simtgo.Lower.Device.Signals.{ends_early, ends_stmts, ends_clauses}

earlier : {w w' : Found} → Later w w' → w'.use_of.returns ≡ false → w.use_of.returns ≡ false
earlier {w} l h = elim (Bool-cases w.use_of.returns) [ inl e ↦ let e' = l.kept e in cc | inr e ↦ e ]

neither : {a b : Bool} → a ≡ false → b ≡ false → (a || b) ≡ false
neither p q = rw (p, q)

module _ (uses : ℕ → BarrierUse) (slice : ℕ → Bool) (vary : List ℕ) (d : What) where
  mutual
    unfolding check ends_early

    pub returns-ends :
        (s : Stmt) (w : Found)
        → (check uses slice vary s (some d) w).use_of.returns ≡ false
        → ends_early true false s ≡ false
    returns-ends (branch break_token none) w h = refl
    returns-ends (branch continue_token none) w h = refl
    returns-ends (branch fallthrough_token none) w h = refl
    returns-ends (branch t (some l)) w h = refl
    returns-ends (return es) w h = cc
    returns-ends (block ss) w h = returns_stmts-ends ss w h
    returns-ends (labeled l s) w h = returns-ends s w h
    returns-ends (if_stmt init c body els) w h =
        neither (returns-ends body _ (earlier (check-Later uses slice vary els (some d) _) h))
          (returns-ends els _ h)
    returns-ends (for_stmt init c post body) w h = returns-ends body _ h
    returns-ends (range o k v x body) w h = returns-ends body _ h
    returns-ends (switch init tag cs) w h = returns_clauses-ends cs _ h
    returns-ends no_stmt w h = refl
    returns-ends empty w h = refl
    returns-ends other_stmt w h = refl
    returns-ends (expr_stmt e) w h = refl
    returns-ends (assign o ls rs) w h = refl
    returns-ends (inc_dec o e) w h = refl
    returns-ends (decl k) w h = refl

    returns_stmts-ends :
        (ss : Stmts) (w : Found)
        → (check_stmts uses slice vary ss (some d) w).use_of.returns ≡ false
        → ends_stmts true false ss ≡ false
    returns_stmts-ends done w h = refl
    returns_stmts-ends (then_do s ss) w h =
        neither (returns-ends s _ (earlier (check_stmts-Later uses slice vary ss (some d) _) h))
          (returns_stmts-ends ss _ h)

    pub returns_clauses-ends :
        (cs : Clauses) (w : Found)
        → (check_clauses uses slice vary cs (some d) w).use_of.returns ≡ false
        → ends_clauses true false cs ≡ false
    returns_clauses-ends no_clause w h = refl
    returns_clauses-ends (clause es body cs) w h =
        neither
          (returns_stmts-ends body _
            (earlier (check_clauses-Later uses slice vary cs (some d) _) h))
          (returns_clauses-ends cs _ h)

-- The same, for the parts of a statement that check enters by a condition.
module _ (uses : ℕ → BarrierUse) (slice : ℕ → Bool) (vary : List ℕ) (d : What) (varies : Bool)
    (u : varies ≡ true) where
  at_some : (r : Option What → Bool) → r (enter none varies d) ≡ false → r (some d) ≡ false
  at_some r h = subst (λ (b : Bool). r (enter none b d) ≡ false) u h

  pub returns_if-ends :
      (init : Stmt) (c : Expr) (body els : Stmt) (w : Found)
      → (check uses slice vary els
          (enter none varies d)
          (check uses slice vary body (enter none varies d) w)).use_of.returns
        ≡ false
      → ends_early true false (if_stmt init c body els) ≡ false
  unfolding ends_early
  returns_if-ends init c body els w h =
      let h' =
        at_some (λ a. (check uses slice vary els a (check uses slice vary body a w)).use_of.returns)
          h in
      neither
        (returns-ends uses slice vary d body w
          (earlier (check-Later uses slice vary els (some d) _) h'))
        (returns-ends uses slice vary d els _ h')

  pub returns_for-ends :
      (init : Stmt) (c : Expr) (post body : Stmt) (w : Option What → Found)
      → (check uses slice vary body (enter none varies d) (w (enter none varies d))).use_of.returns
        ≡ false
      → ends_early true false (for_stmt init c post body) ≡ false
  unfolding ends_early
  returns_for-ends init c post body w h =
      returns-ends uses slice vary d body (w (some d))
        (at_some (λ a. (check uses slice vary body a (w a)).use_of.returns) h)

  pub returns_range-ends :
      (o : Over) (k e x : Expr) (body : Stmt) (w : Found)
      → (check uses slice vary body (enter none varies d) w).use_of.returns ≡ false
      → ends_early true false (range o k e x body) ≡ false
  unfolding ends_early
  returns_range-ends o k e x body w h =
      returns-ends uses slice vary d body w
        (at_some (λ a. (check uses slice vary body a w).use_of.returns) h)

  pub returns_switch-ends :
      (init : Stmt) (tag : Expr) (cs : Clauses) (w : Found)
      → (check_clauses uses slice vary cs (enter none varies d) w).use_of.returns ≡ false
      → ends_early true false (switch init tag cs) ≡ false
  unfolding ends_early
  returns_switch-ends init tag cs w h =
      returns_clauses-ends uses slice vary d cs w
        (at_some (λ a. (check_clauses uses slice vary cs a w).use_of.returns) h)
