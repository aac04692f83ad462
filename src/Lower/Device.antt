-- ===== src/Lower/Device.antt =====
-- The run of a function of the subset that internal/lower accepts, by one thread of a block: what the
-- statements that internal/lower/diverge.go walks mean. A run gives the state that it ends in and how
-- it ends; `none` means that a loop went on for more rounds than the fuel, or a statement that is not run
-- (a labelled branch, fallthrough, and what the lowering refuses). The trace has the meeting points
-- that the thread has reached, the last one first.
use simtgo.Base.{
  ℕ, zero, suc, ◌+◌, Bool, true, false, not, ◌&&◌, ◌||◌, List, [], ◌∷◌, ◌++◌, Option, some, none,
  ◌==◌, ltb, if◌then◌else◌, ◌>>=◌,
}
use simtgo.Lower.Syntax.{
  Method, thread_idx, thread_idx_y, thread_idx_z, block_idx, block_idx_y, block_idx_z, block_dim,
  block_dim_y, block_dim_z, grid_dim, grid_dim_y, grid_dim_z, sync_threads, sync_warp, lane_id,
  active_mask, ballot, any_lane, all_lanes, shuffle_f32, shuffle_i32, shuffle_xor_f32,
  shuffle_xor_i32, shuffle_up_f32, shuffle_up_i32, shuffle_down_f32, shuffle_down_i32, other_method,
  Callee, conversion, builtin_len, builtin_min_max, other_ident, gpu_atomic, gpu_func, other_callee,
  package_func, method, Op, land, lor, strict, Expr, absent, unresolved, other, constant, ident,
  paren, unary, field, key_value, binary, index, composite, call, Exprs, nil, cons, Token,
  break_token, continue_token, fallthrough_token, Over, integer, elements, Stmt, no_stmt, empty,
  other_stmt, expr_stmt, assign, inc_dec, decl, block, labeled, if_stmt, for_stmt, range, switch,
  return, branch, Stmts, done, then_do, Clauses, no_clause, clause, Specs, no_spec, spec, count,
  unparen,
}
use simtgo.Lower.Vary.{base_of, ctx_uniform}
use simtgo.Lower.Diverge.{BarrierUse, takes_mask, is_barrier}
pub mod Agree
pub mod Loops
pub mod Silence
pub mod Control
pub mod Signals
pub mod Returns
pub mod Steady
pub mod Together
pub mod Lockstep
pub mod Simple
pub mod Modes
pub mod Meet
pub mod Alone
pub mod Branching
pub mod Looping
pub mod Uniform

-- A barrier, a built-in with the full mask of the warp, or a call of a function that reaches either.
pub data Meeting : Type 0 where
  at_barrier : Meeting
  at_warp : Method → Meeting
  at_call : ℕ → Meeting

abbrev pub Trace : Type 0
Trace = List Meeting

-- What the block has in common: the values and what the operators make of them, the methods that the
-- launch fixes, and memory. `element` is an element of what the first value is, an array or the handle of a
-- slice. A write to an element of a slice is not followed: what a read gives hangs on the trace alone, as it
-- does where no element is both written and read between the same two meeting points.
pub record Machine : Type 1 where
  pub Value : Type 0
  pub truth : Value → Bool
  pub of_bool : Bool → Value
  pub literal : ℕ → Value
  pub zero_of : ℕ → Value
  pub handle : ℕ → Value
  pub apply1 : ℕ → Value → Value
  pub apply2 : ℕ → Value → Value → Value
  pub equal : Value → Value → Bool
  pub element : Trace → Value → Value → Value
  pub field_of : ℕ → Value → Value
  pub make : List Value → Value
  pub store : Value → List Value → Value → Value
  pub length_of : Exprs → Value
  pub convert : List Value → Value
  pub min_max : List Value → Value
  pub math : List Value → Value
  pub fixed : Method → Value
  pub amount : Value → ℕ
  pub extent : Expr → ℕ

-- A machine as a thread finds it that reads other elements.
abbrev pub with_elements : (m : Machine) → (Trace → m.Value → m.Value → m.Value) → Machine
with_elements m f = record m { element = f }

pub data Signal : Type 0 where
  next broke continued returned : Signal

module _ (m : Machine) where
  open m use {
    Value, truth, of_bool, literal, zero_of, handle, apply1, apply2, equal, element, field_of, make,
    store, length_of, convert, min_max, math, fixed, amount, extent,
  }

  -- What is a thread's own: the results of the other calls, and of what is not modelled.
  pub record Thread : Type 0 where
    pub result : Trace → Callee → List Value → Value
    pub unknown : Trace → Value

  pub record State : Type 0 where
    pub env : ℕ → Value
    pub trace : Trace

  abbrev pub Outcome : Type 0
  Outcome = Option (Signal × State)

  abbrev pub update : (ℕ → Value) → ℕ → Value → ℕ → Value
  update env x v y = if x == y then v else env y

  abbrev pub with_env : (ℕ → Value) → State → State
  with_env env st = record st { env = env }

  abbrev pub and_then : (State → Outcome) → Signal → State → Outcome
  and_then k next st = k st
  and_then k s st = some (s, st)

  -- A loop, round by round. `look` evaluates what the test reads and `test` decides in the state before
  -- it, both from the round's number; `before` sets a range's variables.
  abbrev pub after_body : (State → Outcome) → Signal → State → Outcome
  after_body again broke st = some (next, st)
  after_body again returned st = some (returned, st)
  after_body again _ st = again st

  pub record Loop : Type 0 where
    pub test : ℕ → State → Bool
    pub look : State → State
    pub before : ℕ → State → State
    pub body : State → Outcome
    pub post : State → Outcome

  unfoldable pub rounds : ℕ → Loop → ℕ → State → Outcome
  rounds zero l i st = none
  rounds (suc fuel) l i st =
      let again : State → Outcome = λ st1. l.post st1 >>= λ (s, st2). rounds fuel l (suc i) st2 in
      let round : Outcome =
        l.body (l.before i (l.look st)) >>= λ (s, st1). after_body again s st1 in
      if l.test i st then round else some (next, l.look st)

  abbrev pub caught : Signal → State → Outcome
  caught broke st = some (next, st)
  caught s st = some (s, st)

  module _ (uses : ℕ → BarrierUse) (slice : ℕ → Bool) (t : Thread) where
    abbrev pub called : Trace → Callee → List Value → Value
    called tr conversion vs = convert vs
    called tr builtin_min_max vs = min_max vs
    called tr gpu_func vs = math vs
    called tr c vs = t.result tr c vs

    unfoldable mutual
      pub eval : State → Expr → Value
      eval st absent = of_bool true
      eval st (constant n) = literal n
      eval st (ident x) = if slice x then handle x else st.env x
      eval st unresolved = t.unknown st.trace
      eval st other = t.unknown st.trace
      eval st (paren e) = eval st e
      eval st (unary o e) = apply1 o (eval st e)
      eval st (field f e) = field_of f (eval st e)
      eval st (key_value k e) = eval st e
      eval st (binary land a b) = of_bool (truth (eval st a) && truth (eval st b))
      eval st (binary lor a b) = of_bool (truth (eval st a) || truth (eval st b))
      eval st (binary (strict o) a b) = apply2 o (eval st a) (eval st b)
      eval st (index e i) = element st.trace (eval st e) (eval st i)
      eval st (composite es) = make (eval_all st es)
      eval st (call builtin_len es) = length_of es
      eval st (call (method o) es) =
          if ctx_uniform o then fixed o else t.result st.trace (method o) (eval_all st es)
      eval st (call c es) = called st.trace c (eval_all st es)

      pub eval_all : State → Exprs → List Value
      eval_all st nil = []
      eval_all st (cons e es) = eval st e ∷ eval_all st es

    -- What a call of this function is to the block.
    abbrev pub meets : Callee → Trace
    meets (package_func f) = if (uses f).barrier || (uses f).warp then at_call f ∷ [] else []
    meets (method o) = if takes_mask o then at_warp o ∷ [] else []
    meets _ = []

    -- The meeting points that the evaluation of an expression reaches: && and || may leave out the right.
    unfoldable mutual
      pub reached : State → Expr → Trace
      reached st (call c es) = meets c ++ reached_all st es
      reached st (paren e) = reached st e
      reached st (unary o e) = reached st e
      reached st (field f e) = reached st e
      reached st (key_value k e) = reached st e
      reached st (binary land a b) =
          (if truth (eval st a) then reached st b else []) ++ reached st a
      reached st (binary lor a b) = (if truth (eval st a) then [] else reached st b) ++ reached st a
      reached st (binary (strict o) a b) = reached st b ++ reached st a
      reached st (index e i) = reached st i ++ reached st e
      reached st (composite es) = reached_all st es
      reached st absent = []
      reached st unresolved = []
      reached st other = []
      reached st (constant n) = []
      reached st (ident x) = []

      pub reached_all : State → Exprs → Trace
      reached_all st nil = []
      reached_all st (cons e es) = reached_all st es ++ reached st e

    -- The state once an expression, or each of a list, has been evaluated.
    unfoldable pub after : Expr → State → State
    unfolding reached
    after e st = record st { trace = reached st e ++ st.trace }

    unfoldable pub after_all : Exprs → State → State
    unfolding reached
    after_all es st = record st { trace = reached_all st es ++ st.trace }

    -- Where in its base a target stands, with the indices' values in the state `st`.
    unfoldable pub steps_to : State → Expr → List Value
    steps_to st (paren e) = steps_to st e
    steps_to st (index e i) = steps_to st e ++ (eval st i ∷ [])
    steps_to st (field f e) = steps_to st e ++ (literal f ∷ [])
    steps_to st _ = []

    -- An assignment to a target whose operands were evaluated in the state `st`. A write to an element of
    -- a slice is to memory.
    abbrev pub put_base : Option ℕ → List Value → Value → (ℕ → Value) → ℕ → Value
    put_base none path v env = env
    put_base (some x) path v env = if slice x then env else update env x (store (env x) path v)

    unfoldable pub put : State → Expr → Value → (ℕ → Value) → ℕ → Value
    put st (ident x) v env = update env x v
    put st (paren e) v env = put st e v env
    put st (index e i) v env = put_base (base_of e) (steps_to st (index e i)) v env
    put st (field f e) v env = put_base (base_of e) (steps_to st (field f e)) v env
    put st _ v env = env

    -- The value that `=` or a compound assignment gives to its target.
    abbrev pub assigned : Option ℕ → State → Expr → Expr → Value
    assigned none st l r = eval st r
    assigned (some o) st l r = apply2 o (eval st l) (eval st r)

    unfoldable pub put_pairs : Option ℕ → State → Exprs → Exprs → (ℕ → Value) → ℕ → Value
    put_pairs o st (cons l ls) (cons r rs) env =
        put_pairs o st ls rs (put st l (assigned o st l r) env)
    put_pairs o st nil rs env = env
    put_pairs o st (cons l ls) nil env = env

    -- The names of a var declaration, of which those without a value are set to zero.
    abbrev pub zero_name : State → Expr → (ℕ → Value) → ℕ → Value
    zero_name st (ident x) env = update env x (zero_of x)
    zero_name st e env = env

    unfoldable pub put_names : State → Exprs → Exprs → (ℕ → Value) → ℕ → Value
    put_names st nil rs env = env
    put_names st (cons l ls) nil env = put_names st ls nil (zero_name st l env)
    put_names st (cons l ls) (cons r rs) env = put_names st ls rs (put st l (eval st r) env)

    unfoldable pub run_decl : Specs → State → State
    unfolding put_names after_all
    run_decl no_spec st = st
    run_decl (spec names values d) st =
        run_decl d (after_all values (with_env (put_names st names values st.env) st))

    -- How many rounds a range makes.
    abbrev pub range_count : Over → Expr → State → ℕ
    range_count integer x st = amount (eval st x)
    range_count elements x st = extent x

    abbrev pub range_value : Over → Expr → ℕ → State → Value
    range_value o x i st = eval st (index x (constant i))

    unfoldable pub set_range : Over → Expr → Expr → Expr → ℕ → State → State
    unfolding put
    set_range o k e x i st =
        with_env (put st e (range_value o x i st) (put st k (literal i) st.env)) st

    -- The expressions of a clause are compared with the tag, until one of them is what it is.
    unfoldable pub compared : Value → Exprs → State → Trace
    unfolding reached
    compared v nil st = []
    compared v (cons e es) st =
        (if equal v (eval st e) then [] else compared v es st) ++ reached st e

    unfoldable pub after_cases : Value → Exprs → State → State
    unfolding compared
    after_cases v es st = record st { trace = compared v es st ++ st.trace }

    unfoldable pub matches : Value → Exprs → State → Bool
    unfolding eval
    matches v nil st = false
    matches v (cons e es) st = equal v (eval st e) || matches v es st

    module _ (fuel : ℕ) where
      unfoldable mutual
        pub exec : Stmt → State → Outcome
        exec no_stmt st = some (next, st)
        exec empty st = some (next, st)
        exec other_stmt st = none
        exec (expr_stmt e) st =
            if is_barrier e
            then some (next, record st { trace = at_barrier ∷ st.trace })
            else some (next, after e st)
        exec (assign o ls rs) st =
            some (next, after_all rs (after_all ls (with_env (put_pairs o st ls rs st.env) st)))
        exec (inc_dec o e) st =
            some (next, after e (with_env (put st e (apply1 o (eval st e)) st.env) st))
        exec (decl d) st = some (next, run_decl d st)
        exec (block ss) st = exec_stmts ss st
        exec (labeled l s) st = exec s st
        exec (if_stmt init c body els) st = exec init st >>= λ (s, st1).
            if truth (eval st1 c) then exec body (after c st1) else exec els (after c st1)
        exec (for_stmt init c post body) st =
            let l : Loop = record {
              test = λ i st1. truth (eval st1 c);
              look = after c;
              before = λ i st1. st1;
              body = exec body;
              post = exec post;
            } in
            exec init st >>= λ (s, st1). rounds fuel l 0 st1
        exec (range o k e x body) st =
            let n = range_count o x st in
            let l : Loop = record {
              test = λ i st1. ltb i n;
              look = λ st1. st1;
              before = set_range o k e x;
              body = exec body;
              post = λ st1. some (next, st1);
            } in
            rounds fuel l 0 (after x st)
        exec (switch init tag cs) st = exec init st >>= λ (s, st1).
            exec_clauses cs (eval st1 tag) (λ st2. some (next, st2)) (after tag st1)
            >>= λ (s2, st2). caught s2 st2
        exec (return es) st = some (returned, after_all es st)
        exec (branch break_token none) st = some (broke, st)
        exec (branch continue_token none) st = some (continued, st)
        exec (branch fallthrough_token none) st = none
        exec (branch t (some l)) st = none

        pub exec_stmts : Stmts → State → Outcome
        exec_stmts done st = some (next, st)
        exec_stmts (then_do s ss) st = exec s st >>= λ (s1, st1). and_then (exec_stmts ss) s1 st1

        -- The first clause that matches, or else the one that has no expressions.
        pub exec_clauses : Clauses → Value → (State → Outcome) → State → Outcome
        exec_clauses no_clause v otherwise st = otherwise st
        exec_clauses (clause nil body cs) v otherwise st = exec_clauses cs v (exec_stmts body) st
        exec_clauses (clause (cons e es) body cs) v otherwise st =
            if matches v (cons e es) st
            then exec_stmts body (after_cases v (cons e es) st)
            else exec_clauses cs v otherwise (after_cases v (cons e es) st)
