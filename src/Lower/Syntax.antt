-- ===== src/Lower/Syntax.antt =====
-- The trees of go/ast that internal/lower/diverge.go and readonly.go walk, with the answers of go/types
-- that they ask for: an identifier is the object it resolves to, as a number, a call has what its
-- function resolves to, and an expression that go/types folds is its constant.
use simtgo.Base.{ℕ, suc, Option}

-- The methods of gpu.Ctx.
pub data Method : Type 0 where
  thread_idx thread_idx_y thread_idx_z : Method
  block_idx block_idx_y block_idx_z block_dim block_dim_y block_dim_z : Method
  grid_dim grid_dim_y grid_dim_z : Method
  sync_threads sync_warp lane_id active_mask ballot any_lane all_lanes : Method
  shuffle_f32 shuffle_i32 shuffle_xor_f32 shuffle_xor_i32 : Method
  shuffle_up_f32 shuffle_up_i32 shuffle_down_f32 shuffle_down_i32 : Method
  other_method : ℕ → Method

-- What a call's function is: a type, a builtin, a function that the package declares, a method of
-- gpu.Ctx, one of package gpu's functions, or something that the walks cannot read.
pub data Callee : Type 0 where
  conversion builtin_len builtin_min_max other_ident gpu_atomic gpu_func other_callee : Callee
  package_func : ℕ → Callee
  method : Method → Callee

pub data Op : Type 0 where
  land lor : Op
  strict : ℕ → Op

-- `absent` is an expression that is nil, `constant` one that go/types folds; `other` is one that no walk
-- has a case for.
mutual
  pub data Expr : Type 0 where
    absent unresolved other : Expr
    constant ident : ℕ → Expr
    paren : Expr → Expr
    unary field key_value : ℕ → Expr → Expr
    binary : Op → Expr → Expr → Expr
    index : Expr → Expr → Expr
    composite : Exprs → Expr
    call : Callee → Exprs → Expr

  pub data Exprs : Type 0 where
    nil : Exprs
    cons : Expr → Exprs → Exprs

pub data Token : Type 0 where
  break_token continue_token fallthrough_token : Token

-- What a range goes over: an integer, or the elements of a slice or an array.
pub data Over : Type 0 where
  integer elements : Over

-- `no_stmt` is a statement that is nil; `other_stmt` is one that no walk has a case for. A var
-- declaration has its names and its values.
mutual
  pub data Stmt : Type 0 where
    no_stmt empty other_stmt : Stmt
    expr_stmt : Expr → Stmt
    assign : Option ℕ → Exprs → Exprs → Stmt
    inc_dec : ℕ → Expr → Stmt
    decl : Specs → Stmt
    block : Stmts → Stmt
    labeled : ℕ → Stmt → Stmt
    if_stmt : Stmt → Expr → Stmt → Stmt → Stmt  -- init, condition, body, else
    for_stmt : Stmt → Expr → Stmt → Stmt → Stmt  -- init, condition, post, body
    range : Over → Expr → Expr → Expr → Stmt → Stmt  -- key, value, what is ranged over, body
    switch : Stmt → Expr → Clauses → Stmt  -- init, tag
    return : Exprs → Stmt
    branch : Token → Option ℕ → Stmt

  pub data Stmts : Type 0 where
    done : Stmts
    then_do : Stmt → Stmts → Stmts

  pub data Clauses : Type 0 where
    no_clause : Clauses
    clause : Exprs → Stmts → Clauses → Clauses

  pub data Specs : Type 0 where
    no_spec : Specs
    spec : Exprs → Exprs → Specs → Specs

abbrev pub count : Exprs → ℕ
count nil = 0
count (cons e es) = suc (count es)

-- A parameter or a variable declared: its object.
abbrev pub unparen : Expr → Expr
unparen (paren e) = unparen e
unparen e = e
