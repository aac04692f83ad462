-- ===== src/Lower/Vary.antt =====
-- internal/lower/diverge.go: which variables of a function may differ between two threads of a block.
-- varyingExpr and varyingCall, forVaries, rangeVaries, switchVaries and exitsVarying, mark and its
-- helpers, and the loop of varyingObjects. A set of objects is a list; `slice` is what go/types says of
-- an object's type.
use simtgo.Base.{
  ℕ, zero, suc, ◌+◌, Bool, true, false, not, ◌&&◌, ◌||◌, List, [], ◌∷◌, Option, some, none, ◌==◌,
  ltb, if◌then◌else◌, length,
}
use Prim.Native.Nat.{max}
use simtgo.Lower.Syntax.{
  Method, thread_idx, thread_idx_y, thread_idx_z, block_idx, block_idx_y, block_idx_z, block_dim,
  block_dim_y, block_dim_z, grid_dim, grid_dim_y, grid_dim_z, sync_threads, sync_warp, lane_id,
  active_mask, ballot, any_lane, all_lanes, shuffle_f32, shuffle_i32, shuffle_xor_f32,
  shuffle_xor_i32, shuffle_up_f32, shuffle_up_i32, shuffle_down_f32, shuffle_down_i32, other_method,
  Callee, conversion, builtin_len, builtin_min_max, other_ident, gpu_atomic, gpu_func, other_callee,
  package_func, method, Op, land, lor, strict, Expr, absent, unresolved, other, constant, ident,
  paren, unary, field, key_value, binary, index, composite, call, Exprs, nil, cons, Token,
  break_token, continue_token, fallthrough_token, Over, integer, elements, Stmt, no_stmt, empty,
  other_stmt, expr_stmt, assign, inc_dec, decl, block, labeled, if_stmt, for_stmt, range, switch,
  return, branch, Stmts, done, then_do, Clauses, no_clause, clause, Specs, no_spec, spec, count,
  unparen,
}
pub mod Fixpoint
pub mod Closed

abbrev pub member : ℕ → List ℕ → Bool
member x [] = false
member x (y ∷ l) = (x == y) || member x l

abbrev pub add : ℕ → List ℕ → List ℕ
add x l = if member x l then l else x ∷ l

-- ctxUniform
abbrev pub ctx_uniform : Method → Bool
ctx_uniform block_idx = true
ctx_uniform block_idx_y = true
ctx_uniform block_idx_z = true
ctx_uniform block_dim = true
ctx_uniform block_dim_y = true
ctx_uniform block_dim_z = true
ctx_uniform grid_dim = true
ctx_uniform grid_dim_y = true
ctx_uniform grid_dim_z = true
ctx_uniform _ = false

abbrev pub is_some : Option ℕ → Bool
is_some none = false
is_some (some l) = true

abbrev pub is_fallthrough : Token → Bool
is_fallthrough fallthrough_token = true
is_fallthrough _ = false

-- The object that an index or selector chain is rooted at.
unfoldable pub base_of : Expr → Option ℕ
base_of (ident x) = some x
base_of (paren e) = base_of e
base_of (index e i) = base_of e
base_of (field f e) = base_of e
base_of _ = none

module _ (slice : ℕ → Bool) where
  module _ (vary : List ℕ) where
    unfoldable mutual
      pub varying_expr : Expr → Bool
      varying_expr absent = false
      varying_expr unresolved = true
      varying_expr other = true
      varying_expr (constant n) = false
      varying_expr (ident x) = not (slice x) && member x vary
      varying_expr (paren e) = varying_expr e
      varying_expr (unary o e) = varying_expr e
      varying_expr (field f e) = varying_expr e
      varying_expr (key_value k e) = varying_expr e
      varying_expr (binary o a b) = varying_expr a || varying_expr b
      varying_expr (index e i) = varying_expr i || varying_expr e
      varying_expr (composite es) = any_varying es
      varying_expr (call conversion es) = not (count es == 1) || any_varying es
      varying_expr (call builtin_len es) = false
      varying_expr (call builtin_min_max es) = any_varying es
      varying_expr (call gpu_func es) = any_varying es
      varying_expr (call (method o) es) = not (ctx_uniform o)
      varying_expr (call (package_func f) es) = true
      varying_expr (call other_ident es) = true
      varying_expr (call gpu_atomic es) = true
      varying_expr (call other_callee es) = true

      pub any_varying : Exprs → Bool
      any_varying nil = false
      any_varying (cons e es) = varying_expr e || any_varying es

    unfoldable pub case_varies : Clauses → Bool
    case_varies no_clause = false
    case_varies (clause es body cs) = any_varying es || case_varies cs

    unfoldable pub switch_varies : Expr → Clauses → Bool
    unfolding case_varies
    switch_varies tag cs = varying_expr tag || case_varies cs

    -- The walk of exitsVarying.
    unfoldable mutual
      pub exits : Stmt → Bool → Bool → Bool
      exits (branch tok l) div nested = div && (is_some l || not nested) && not (is_fallthrough tok)
      exits (return es) div nested = div
      exits (block ss) div nested = exits_stmts ss div nested
      exits (labeled l s) div nested = exits s div nested
      exits (if_stmt init c body els) div nested =
          exits body (div || varying_expr c) nested || exits els (div || varying_expr c) nested
      exits (for_stmt init c post body) div nested = exits body (div || varying_expr c) true
      exits (range o k v x body) div nested = exits body div true
      exits (switch init tag cs) div nested = exits_clauses cs (div || switch_varies tag cs) nested
      exits no_stmt div nested = false
      exits empty div nested = false
      exits other_stmt div nested = false
      exits (expr_stmt e) div nested = false
      exits (assign o l r) div nested = false
      exits (inc_dec o e) div nested = false
      exits (decl d) div nested = false

      pub exits_stmts : Stmts → Bool → Bool → Bool
      exits_stmts done div nested = false
      exits_stmts (then_do s ss) div nested = exits s div nested || exits_stmts ss div nested

      pub exits_clauses : Clauses → Bool → Bool → Bool
      exits_clauses no_clause div nested = false
      exits_clauses (clause es body cs) div nested =
          exits_stmts body div nested || exits_clauses cs div nested

    unfoldable pub exits_varying : Stmt → Bool
    exits_varying body = exits body false false

    unfoldable pub for_varies : Expr → Stmt → Bool
    unfolding exits_varying
    for_varies c body = varying_expr c || exits_varying body

    abbrev pub counts : Over → Bool
    counts integer = true
    counts elements = false

    unfoldable pub range_varies : Over → Expr → Stmt → Bool
    unfolding exits_varying
    range_varies o x body = (counts o && varying_expr x) || exits_varying body

  -- markVarying
  abbrev pub mark_base : Option ℕ → List ℕ → List ℕ
  mark_base none v = v
  mark_base (some x) v = if slice x then v else add x v

  unfoldable pub mark_varying : Expr → List ℕ → List ℕ
  unfolding base_of
  mark_varying (ident x) v = add x v
  mark_varying (paren e) v = mark_varying e v
  mark_varying (index e i) v = mark_base (base_of e) v
  mark_varying (field f e) v = mark_base (base_of e) v
  mark_varying _ v = v

  abbrev pub mark_if : Bool → Expr → List ℕ → List ℕ
  mark_if varies e v = if varies then mark_varying e v else v

  -- The targets of an assignment with their values; `paired` says that there are as many of each.
  unfoldable pub mark_pairs : Bool → Bool → Exprs → Exprs → List ℕ → List ℕ
  mark_pairs paired div nil rs v = v
  mark_pairs paired div (cons l ls) nil v = mark_pairs paired div ls nil (mark_if true l v)
  mark_pairs paired div (cons l ls) (cons r rs) v =
      mark_pairs paired div ls rs (mark_if (div || not paired || varying_expr v r) l v)

  -- The names of a var declaration; one with no value holds zero.
  unfoldable pub mark_names : Bool → Exprs → Exprs → List ℕ → List ℕ
  mark_names div nil rs v = v
  mark_names div (cons l ls) nil v = mark_names div ls nil (mark_if div l v)
  mark_names div (cons l ls) (cons r rs) v =
      mark_names div ls rs (mark_if (div || varying_expr v r) l v)

  unfoldable pub mark_decl : Bool → Specs → List ℕ → List ℕ
  unfolding mark_names
  mark_decl div no_spec v = v
  mark_decl div (spec names values d) v = mark_decl div d (mark_names div names values v)

  unfoldable mutual
    pub mark : Stmt → Bool → List ℕ → List ℕ
    mark (assign o ls rs) div v = mark_pairs (count rs == count ls) div ls rs v
    mark (inc_dec o e) div v = mark_if div e v
    mark (decl d) div v = mark_decl div d v
    mark (block ss) div v = mark_stmts ss div v
    mark (labeled l s) div v = mark s div v
    mark (if_stmt init c body els) div v =
        let v1 = mark init div v in
        let inner = div || varying_expr v1 c in mark els inner (mark body inner v1)
    mark (for_stmt init c post body) div v =
        let v1 = mark init div v in
        let inner = div || for_varies v1 c body in mark body inner (mark post inner v1)
    mark (range o k e x body) div v =
        let inner = div || range_varies v o x body in
        let v1 = mark_if inner k v in mark body inner (mark_if (inner || varying_expr v1 x) e v1)
    mark (switch init tag cs) div v =
        let v1 = mark init div v in mark_clauses cs (div || switch_varies v1 tag cs) v1
    mark no_stmt div v = v
    mark empty div v = v
    mark other_stmt div v = v
    mark (expr_stmt e) div v = v
    mark (return es) div v = v
    mark (branch t l) div v = v

    pub mark_stmts : Stmts → Bool → List ℕ → List ℕ
    mark_stmts done div v = v
    mark_stmts (then_do s ss) div v = mark_stmts ss div (mark s div v)

    pub mark_clauses : Clauses → Bool → List ℕ → List ℕ
    mark_clauses no_clause div v = v
    mark_clauses (clause es body cs) div v = mark_clauses cs div (mark_stmts body div v)

  -- The loop of varyingObjects; `none` means that the fuel ran out.
  unfoldable pub until_stable : ℕ → Stmt → List ℕ → Option (List ℕ)
  until_stable zero body v = none
  until_stable (suc fuel) body v =
      let v1 = mark body false v in
      let rest = until_stable fuel body v1 in if length v1 == length v then some v1 else rest

-- The objects that mark may record are below the bound of a statement.
abbrev pub next_bound : Option ℕ → ℕ
next_bound none = 0
next_bound (some x) = suc x

unfoldable pub bound_target : Expr → ℕ
unfolding base_of
bound_target (ident x) = suc x
bound_target (paren e) = bound_target e
bound_target (index e i) = next_bound (base_of e)
bound_target (field f e) = next_bound (base_of e)
bound_target _ = 0

unfoldable pub bound_targets : Exprs → ℕ
unfolding bound_target
bound_targets nil = 0
bound_targets (cons e es) = max (bound_target e) (bound_targets es)

unfoldable pub bound_decl : Specs → ℕ
unfolding bound_targets
bound_decl no_spec = 0
bound_decl (spec names values d) = max (bound_targets names) (bound_decl d)

unfoldable mutual
  unfolding bound_targets bound_decl

  pub bound : Stmt → ℕ
  bound (assign o ls rs) = bound_targets ls
  bound (inc_dec o e) = bound_target e
  bound (decl d) = bound_decl d
  bound (block ss) = bound_stmts ss
  bound (labeled l s) = bound s
  bound (if_stmt init c body els) = max (bound init) (max (bound body) (bound els))
  bound (for_stmt init c post body) = max (bound init) (max (bound post) (bound body))
  bound (range o k e x body) = max (bound_target k) (max (bound_target e) (bound body))
  bound (switch init tag cs) = max (bound init) (bound_clauses cs)
  bound no_stmt = 0
  bound empty = 0
  bound other_stmt = 0
  bound (expr_stmt e) = 0
  bound (return es) = 0
  bound (branch t l) = 0

  pub bound_stmts : Stmts → ℕ
  bound_stmts done = 0
  bound_stmts (then_do s ss) = max (bound s) (bound_stmts ss)

  pub bound_clauses : Clauses → ℕ
  bound_clauses no_clause = 0
  bound_clauses (clause es body cs) = max (bound_stmts body) (bound_clauses cs)

-- The parameters that are taken to vary: those of a device function, which are not slices.
unfoldable pub varying_params : (ℕ → Bool) → Bool → List ℕ → List ℕ
varying_params slice pessimistic [] = []
varying_params slice pessimistic (x ∷ xs) =
    let rest = varying_params slice pessimistic xs in
    if pessimistic && not (slice x) then add x rest else rest

-- varyingObjects, for a declaration with these parameters, all of them resolved or not.
unfoldable pub varying_objects : (ℕ → Bool) → Bool → Bool → List ℕ → Stmt → Option (List ℕ)
unfolding varying_params bound until_stable
varying_objects slice entry resolved params body =
    until_stable slice (suc (bound body)) body
      (varying_params slice (not entry || not resolved) params)
