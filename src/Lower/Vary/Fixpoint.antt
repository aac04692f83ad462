-- ===== src/Lower/Vary/Fixpoint.antt =====
-- internal/lower/diverge.go: the loop of varyingObjects ends, in a set that the walk of mark leaves as it is.
use simtgo.Base.{
  ||-false, ℕ, zero, suc, ◌+◌, ◌≤◌, ◌<◌, Bool, true, false, not, ◌||◌, List, ◌∷◌, Option, some,
  none, ◌==◌, if◌then◌else◌, length, ◌≡◌, refl, ◌∙◌, ap, arith, Bool-cases, ==_iff, ℕ_discrete, inl,
  inr,
}
use simtgo.Lower.Syntax.{
  Expr, absent, unresolved, other, constant, ident, paren, unary, field, key_value, binary, index,
  composite, call, Exprs, nil, cons, Stmt, no_stmt, empty, other_stmt, expr_stmt, assign, inc_dec,
  decl, block, labeled, if_stmt, for_stmt, range, switch, return, branch, Stmts, done, then_do,
  Clauses, no_clause, clause, Specs, no_spec, spec,
}
use simtgo.Lower.Vary.{
  member, add, base_of, mark_varying, mark_base, mark_if, mark_pairs, mark_names, mark_decl, mark,
  mark_stmts, mark_clauses, until_stable, varying_params, varying_objects, next_bound, bound,
  bound_stmts, bound_clauses, bound_targets, bound_target, bound_decl,
}

-- How many of the numbers below n are not in the set.
abbrev missing : ℕ → List ℕ → ℕ
missing zero v = 0
missing (suc n) v = (if member n v then 0 else 1) + missing n v

missing-cons_ge : (n x : ℕ) (v : List ℕ) → missing n (x ∷ v) ≤ missing n v
missing-cons_ge zero x v = omega arith
missing-cons_ge (suc n) x v = ground (arith, missing-cons_ge n x v)

missing-cons :
    (n x : ℕ) (v : List ℕ) → x < n → member x v ≡ false → missing n (x ∷ v) + 1 ≤ missing n v
missing-cons zero x v h e = elim h [ ]
missing-cons (suc n) x v h e = elim (ℕ_discrete n x) [
  | yes p ↦ rw p (ground (arith, missing-cons_ge x x v, ==_iff x x))
  | no p ↦ ground (arith, missing-cons n x v, ==_iff n x)
]

-- What a walk over objects below n does to the set.
pub record Grows (n : ℕ) (v w : List ℕ) : Type 0 where
  pub le : length v ≤ length w
  pub same : length w ≤ length v → w ≡ v
  pub room : length w + missing n w ≤ length v + missing n v
  pub back : (x : ℕ) → member x w ≡ false → member x v ≡ false

Grows-refl : (n : ℕ) (v : List ℕ) → Grows n v v
Grows-refl n v = record { le = omega arith; same = λ h. refl; room = omega arith; back = λ x h. h }

pub Grows-trans : {n : ℕ} {u v w : List ℕ} → Grows n u v → Grows n v w → Grows n u w
Grows-trans g h = record {
  le = omega (arith, g.le, h.le);
  same = λ p. h.same (omega (arith, g.le)) ∙ g.same (omega (arith, h.le));
  room = omega (arith, g.room, h.room);
  back = λ x p. g.back x (h.back x p);
}

Grows-add : (n x : ℕ) (v : List ℕ) → x < n → Grows n v (add x v)
Grows-add n x v h = elim (Bool-cases (member x v)) [
  | inl e ↦ rw e (Grows-refl n v)
  | inr e ↦ rw e (record {
    le = omega arith;
    same = λ p. absurd (omega arith);
    room = omega (arith, missing-cons n x v h e);
    back = λ y p. (||-false (y == x) (member y v) p).1;
  })
]

module _ (slice : ℕ → Bool) (n : ℕ) where
  mark_base-Grows : (o : Option ℕ) (v : List ℕ) → next_bound o ≤ n → Grows n v (mark_base slice o v)
  mark_base-Grows none v h = Grows-refl n v
  mark_base-Grows (some x) v h = elim (Bool-cases (slice x)) [
    | inl e ↦ rw e (Grows-refl n v)
    | inr e ↦ rw e (Grows-add n x v h)
  ]

  mark_varying-Grows :
      (e : Expr) (v : List ℕ) → bound_target e ≤ n → Grows n v (mark_varying slice e v)
  unfolding mark_varying bound_target
  mark_varying-Grows (ident x) v h = Grows-add n x v h
  mark_varying-Grows (paren e) v h = mark_varying-Grows e v h
  mark_varying-Grows (index e i) v h = mark_base-Grows (base_of e) v h
  mark_varying-Grows (field f e) v h = mark_base-Grows (base_of e) v h
  mark_varying-Grows absent v h = Grows-refl n v
  mark_varying-Grows unresolved v h = Grows-refl n v
  mark_varying-Grows other v h = Grows-refl n v
  mark_varying-Grows (constant k) v h = Grows-refl n v
  mark_varying-Grows (unary o e) v h = Grows-refl n v
  mark_varying-Grows (key_value o e) v h = Grows-refl n v
  mark_varying-Grows (binary o a b) v h = Grows-refl n v
  mark_varying-Grows (composite es) v h = Grows-refl n v
  mark_varying-Grows (call c es) v h = Grows-refl n v

  pub mark_if-Grows :
      (b : Bool) (e : Expr) (v : List ℕ) → bound_target e ≤ n → Grows n v (mark_if slice b e v)
  mark_if-Grows true e v h = mark_varying-Grows e v h
  mark_if-Grows false e v h = Grows-refl n v

  pub mark_pairs-Grows :
      (paired div : Bool) (ls rs : Exprs) (v : List ℕ)
      → bound_targets ls ≤ n
      → Grows n v (mark_pairs slice paired div ls rs v)
  unfolding mark_pairs bound_targets
  mark_pairs-Grows paired div nil rs v h = Grows-refl n v
  mark_pairs-Grows paired div (cons l ls) nil v h =
      Grows-trans (mark_if-Grows true l v (omega arith))
        (mark_pairs-Grows paired div ls nil _ (omega arith))
  mark_pairs-Grows paired div (cons l ls) (cons r rs) v h =
      Grows-trans (mark_if-Grows _ l v (omega arith))
        (mark_pairs-Grows paired div ls rs _ (omega arith))

  pub mark_names-Grows :
      (div : Bool) (ls rs : Exprs) (v : List ℕ)
      → bound_targets ls ≤ n
      → Grows n v (mark_names slice div ls rs v)
  unfolding mark_names bound_targets
  mark_names-Grows div nil rs v h = Grows-refl n v
  mark_names-Grows div (cons l ls) nil v h =
      Grows-trans (mark_if-Grows div l v (omega arith))
        (mark_names-Grows div ls nil _ (omega arith))
  mark_names-Grows div (cons l ls) (cons r rs) v h =
      Grows-trans (mark_if-Grows _ l v (omega arith)) (mark_names-Grows div ls rs _ (omega arith))

  pub mark_decl-Grows :
      (div : Bool) (d : Specs) (v : List ℕ) → bound_decl d ≤ n → Grows n v (mark_decl slice div d v)
  unfolding mark_decl bound_decl
  mark_decl-Grows div no_spec v h = Grows-refl n v
  mark_decl-Grows div (spec names values d) v h =
      Grows-trans (mark_names-Grows div names values v (omega arith))
        (mark_decl-Grows div d _ (omega arith))

  mutual
    unfolding mark bound

    pub mark-Grows :
        (s : Stmt) (div : Bool) (v : List ℕ) → bound s ≤ n → Grows n v (mark slice s div v)
    mark-Grows (assign o ls rs) div v h = mark_pairs-Grows _ div ls rs v h
    mark-Grows (inc_dec o e) div v h = mark_if-Grows div e v h
    mark-Grows (decl d) div v h = mark_decl-Grows div d v h
    mark-Grows (block ss) div v h = mark_stmts-Grows ss div v h
    mark-Grows (labeled l s) div v h = mark-Grows s div v h
    mark-Grows (if_stmt init c body els) div v h =
        Grows-trans (mark-Grows init div v (omega arith))
          (Grows-trans (mark-Grows body _ _ (omega arith)) (mark-Grows els _ _ (omega arith)))
    mark-Grows (for_stmt init c post body) div v h =
        Grows-trans (mark-Grows init div v (omega arith))
          (Grows-trans (mark-Grows post _ _ (omega arith)) (mark-Grows body _ _ (omega arith)))
    mark-Grows (range o k e x body) div v h =
        Grows-trans (mark_if-Grows _ k v (omega arith))
          (Grows-trans (mark_if-Grows _ e _ (omega arith)) (mark-Grows body _ _ (omega arith)))
    mark-Grows (switch init tag cs) div v h =
        Grows-trans (mark-Grows init div v (omega arith)) (mark_clauses-Grows cs _ _ (omega arith))
    mark-Grows no_stmt div v h = Grows-refl n v
    mark-Grows empty div v h = Grows-refl n v
    mark-Grows other_stmt div v h = Grows-refl n v
    mark-Grows (expr_stmt e) div v h = Grows-refl n v
    mark-Grows (return es) div v h = Grows-refl n v
    mark-Grows (branch t l) div v h = Grows-refl n v

    pub mark_stmts-Grows :
        (ss : Stmts) (div : Bool) (v : List ℕ)
        → bound_stmts ss ≤ n
        → Grows n v (mark_stmts slice ss div v)
    mark_stmts-Grows done div v h = Grows-refl n v
    mark_stmts-Grows (then_do s ss) div v h =
        Grows-trans (mark-Grows s div v (omega arith)) (mark_stmts-Grows ss div _ (omega arith))

    pub mark_clauses-Grows :
        (cs : Clauses) (div : Bool) (v : List ℕ)
        → bound_clauses cs ≤ n
        → Grows n v (mark_clauses slice cs div v)
    mark_clauses-Grows no_clause div v h = Grows-refl n v
    mark_clauses-Grows (clause es body cs) div v h =
        Grows-trans (mark_stmts-Grows body div v (omega arith))
          (mark_clauses-Grows cs div _ (omega arith))

missing-le : (n : ℕ) (v : List ℕ) → missing n v ≤ n
missing-le zero v = omega arith
missing-le (suc n) v = ground (arith, missing-le n v)

until_stable_total :
    (slice : ℕ → Bool) (n fuel : ℕ) (body : Stmt) (v : List ℕ)
    → bound body ≤ n
    → missing n v < fuel
    → (w : List ℕ) × (until_stable slice fuel body v ≡ some w)
      × (mark slice body false w ≡ w)
      × ((x : ℕ) → member x w ≡ false → member x v ≡ false)
unfolding until_stable
until_stable_total slice n zero body v b h = elim h [ ]
until_stable_total slice n (suc fuel) body v b h =
    let g = mark-Grows slice n body false v b in
    elim (Bool-cases (length (mark slice body false v) == length v)) [
      | inl e ↦
          let p = g.same (ground arith) in
          (mark slice body false v, rw e, ap (mark slice body false) p, g.back)
      | inr e ↦
          let r =
            until_stable_total slice n fuel body (mark slice body false v) b
              (ground (arith, g.le, g.room)) in
          (r.0, rw e (r.1), r.2, λ x p. g.back x (r.3 x p))
    ]

-- varyingObjects ends, whatever the declaration, in a set that has the parameters which are taken to
-- vary and that another walk of mark would not change.
pub varying_objects-stable :
    (slice : ℕ → Bool) (entry resolved : Bool) (params : List ℕ) (body : Stmt)
    → (w : List ℕ) × (varying_objects slice entry resolved params body ≡ some w)
      × (mark slice body false w ≡ w)
      × ((x : ℕ)
          → member x w ≡ false
          → member x (varying_params slice (not entry || not resolved) params) ≡ false)
unfolding varying_objects
varying_objects-stable slice entry resolved params body =
    until_stable_total slice (bound body) (suc (bound body)) body _ (omega arith) (
      omega
        (arith, missing-le (bound body) (varying_params slice (not entry || not resolved) params)))
