-- ===== src/Lower/Diverge.antt =====
-- internal/lower/diverge.go: the walk that refuses a barrier which not every thread of a block reaches.
-- check, checkDecl, checkExpr, checkCall, isBarrier and report, for one declaration; what the functions
-- that it calls do is the table `uses`. A refusal is its subject and the rule that it breaks, and a
-- site the construct that not every thread enters, if there is one.
use simtgo.Base.{
  ℕ, zero, suc, ◌+◌, Bool, true, false, not, ◌&&◌, ◌||◌, List, [], ◌∷◌, ◌++◌, Option, some, none,
  ◌==◌, if◌then◌else◌, ◌>>=◌,
}
use simtgo.Lower.Syntax.{
  Method, thread_idx, thread_idx_y, thread_idx_z, block_idx, block_idx_y, block_idx_z, block_dim,
  block_dim_y, block_dim_z, grid_dim, grid_dim_y, grid_dim_z, sync_threads, sync_warp, lane_id,
  active_mask, ballot, any_lane, all_lanes, shuffle_f32, shuffle_i32, shuffle_xor_f32,
  shuffle_xor_i32, shuffle_up_f32, shuffle_up_i32, shuffle_down_f32, shuffle_down_i32, other_method,
  Callee, conversion, builtin_len, builtin_min_max, other_ident, gpu_atomic, gpu_func, other_callee,
  package_func, method, Op, land, lor, strict, Expr, absent, unresolved, other, constant, ident,
  paren, unary, field, key_value, binary, index, composite, call, Exprs, nil, cons, Token,
  break_token, continue_token, fallthrough_token, Over, integer, elements, Stmt, no_stmt, empty,
  other_stmt, expr_stmt, assign, inc_dec, decl, block, labeled, if_stmt, for_stmt, range, switch,
  return, branch, Stmts, done, then_do, Clauses, no_clause, clause, Specs, no_spec, spec, count,
  unparen,
}
use simtgo.Lower.Vary.{varying_expr, for_varies, range_varies, switch_varies, varying_objects}
pub mod Later
pub mod Quiet

pub record BarrierUse : Type 0 where
  pub barrier : Bool
  pub warp : Bool
  pub returns : Bool

pub data What : Type 0 where
  div_if div_switch div_loop : What

pub data Subject : Type 0 where
  the_barrier : Subject
  through_barrier through_warp : ℕ → Subject
  warp_op : Method → Subject

pub data Rule : Type 0 where
  in_loop after_return : Rule
  under : What → Rule

-- The use that a walk records, and what it has refused, the first one first.
pub record Found : Type 0 where
  pub use_of : BarrierUse
  pub fails : List (Subject × Rule)

-- The operations of ctxWarp whose built-in takes a mask.
abbrev pub takes_mask : Method → Bool
takes_mask sync_warp = true
takes_mask ballot = true
takes_mask any_lane = true
takes_mask all_lanes = true
takes_mask shuffle_f32 = true
takes_mask shuffle_i32 = true
takes_mask shuffle_xor_f32 = true
takes_mask shuffle_xor_i32 = true
takes_mask shuffle_up_f32 = true
takes_mask shuffle_up_i32 = true
takes_mask shuffle_down_f32 = true
takes_mask shuffle_down_i32 = true
takes_mask _ = false

-- Where nothing was refused yet, `rule_at` is none exactly when report says nothing.
unfoldable pub rule_at : Option What → Bool → Option Rule
rule_at (some div_loop) returned = some in_loop
rule_at (some div_if) returned = some (under div_if)
rule_at (some div_switch) returned = some (under div_switch)
rule_at none true = some after_return
rule_at none false = none

abbrev pub refuse : Subject → Option Rule → List (Subject × Rule) → List (Subject × Rule)
refuse s none l = l
refuse s (some r) l = l ++ ((s, r) ∷ [])

unfoldable pub report : Subject → Option What → Found → Found
unfolding rule_at
report s at w = record w { fails = refuse s (rule_at at w.use_of.returns) w.fails }

abbrev pub set_barrier : Found → Found
set_barrier w = record w { use_of = record w.use_of { barrier = true } }

abbrev pub set_warp : Found → Found
set_warp w = record w { use_of = record w.use_of { warp = true } }

abbrev pub set_returns : Option What → Found → Found
set_returns none w = w
set_returns (some d) w = record w { use_of = record w.use_of { returns = true } }

unfoldable pub is_barrier : Expr → Bool
is_barrier (paren e) = is_barrier e
is_barrier (call (method sync_threads) es) = true
is_barrier _ = false

-- The construct around the inside of another: the first that diverges.
abbrev pub enter : Option What → Bool → What → Option What
enter (some d) varies what = some d
enter none varies what = if varies then some what else none

module _ (uses : ℕ → BarrierUse) where
  unfoldable pub check_call : Callee → Option What → Found → Found
  unfolding report
  check_call (package_func f) at w =
      if (uses f).barrier
      then report (through_barrier f) at (set_barrier w)
      else if (uses f).warp
      then report (through_warp f) at (set_warp w)
      else w
  check_call (method o) at w = if takes_mask o then report (warp_op o) at (set_warp w) else w
  check_call _ at w = w

  unfoldable mutual
    pub check_expr : Expr → Option What → Found → Found
    check_expr (call c es) at w = check_exprs es at (check_call c at w)
    check_expr (paren e) at w = check_expr e at w
    check_expr (unary o e) at w = check_expr e at w
    check_expr (field f e) at w = check_expr e at w
    check_expr (key_value k e) at w = check_expr e at w
    check_expr (binary o a b) at w = check_expr b at (check_expr a at w)
    check_expr (index e i) at w = check_expr i at (check_expr e at w)
    check_expr (composite es) at w = check_exprs es at w
    check_expr absent at w = w
    check_expr unresolved at w = w
    check_expr other at w = w
    check_expr (constant n) at w = w
    check_expr (ident x) at w = w

    pub check_exprs : Exprs → Option What → Found → Found
    check_exprs nil at w = w
    check_exprs (cons e es) at w = check_exprs es at (check_expr e at w)

  unfoldable pub check_decl : Specs → Option What → Found → Found
  unfolding check_expr
  check_decl no_spec at w = w
  check_decl (spec names values d) at w = check_decl d at (check_exprs values at w)

  module _ (slice : ℕ → Bool) (vary : List ℕ) where
    unfoldable mutual
      pub check : Stmt → Option What → Found → Found
      check (expr_stmt e) at w =
          if is_barrier e then report the_barrier at (set_barrier w) else check_expr e at w
      check (assign o ls rs) at w = check_exprs rs at (check_exprs ls at w)
      check (inc_dec o e) at w = check_expr e at w
      check (decl d) at w = check_decl d at w
      check (block ss) at w = check_stmts ss at w
      check (labeled l s) at w = check s at w
      check (if_stmt init c body els) at w =
          let inner = enter at (varying_expr slice vary c) div_if in
          check els inner (check body inner (check_expr c at (check init at w)))
      check (for_stmt init c post body) at w =
          let inner = enter at (for_varies slice vary c body) div_loop in
          check body inner (check post inner (check_expr c inner (check init at w)))
      check (range o k e x body) at w =
          let inner = enter at (range_varies slice vary o x body) div_loop in
          check body inner (check_expr x at w)
      check (switch init tag cs) at w =
          let inner = enter at (switch_varies slice vary tag cs) div_switch in
          check_clauses cs inner (check_expr tag at (check init at w))
      check (return es) at w = set_returns at (check_exprs es at w)
      check (branch t l) at w = w
      check no_stmt at w = w
      check empty at w = w
      check other_stmt at w = w

      pub check_stmts : Stmts → Option What → Found → Found
      check_stmts done at w = w
      check_stmts (then_do s ss) at w = check_stmts ss at (check s at w)

      pub check_clauses : Clauses → Option What → Found → Found
      check_clauses no_clause at w = w
      check_clauses (clause es body cs) at w =
          check_clauses cs at (check_stmts body at (check_exprs es at w))

abbrev pub nothing_found : Found
nothing_found = record {
  use_of = record { barrier = false; warp = false; returns = false };
  fails = [];
}

-- barrierUse of a declaration, with what it refuses, given the uses of the functions that it calls.
unfoldable pub barrier_use :
    (ℕ → BarrierUse) → (ℕ → Bool) → Bool → Bool → List ℕ → Stmt → Option Found
barrier_use uses slice entry resolved params body =
    varying_objects slice entry resolved params body >>= λ vary.
    some (check uses slice vary body none nothing_found)
