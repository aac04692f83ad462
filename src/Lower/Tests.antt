-- ===== src/Lower/Tests.antt =====
-- Runs of kernels by two threads of a block, what diverge.go says of the kernels, and the theorems at these.
use simtgo.Base.{
  ℕ, ◌+◌, Bool, true, false, not, List, [], ◌∷◌, Option, some, none, ◌==◌, ltb, if◌then◌else◌, ◌≡◌,
  refl, get_elem?, set, length,
}
use simtgo.Lower.Syntax.{
  thread_idx, sync_threads, any_lane, method, land, strict, Expr, constant, ident, binary, index,
  call, Exprs, nil, cons, break_token, Stmt, no_stmt, expr_stmt, assign, inc_dec, decl, block,
  if_stmt, for_stmt, switch, return, branch, Stmts, done, then_do, no_clause, clause, no_spec, spec,
}
use simtgo.Lower.Vary.{
  member, varying_objects, varying_params, bound, until_stable, mark, mark_pairs, mark_decl,
  mark_names, for_varies, range_varies, switch_varies, varying_expr, mark_varying, exits,
  exits_varying, case_varies, base_of,
}
use simtgo.Lower.Vary.Fixpoint.{varying_objects-stable}
use simtgo.Lower.Diverge.{
  BarrierUse, Found, barrier_use, nothing_found, check, check_exprs, check_decl, is_barrier, report,
  check_call, rule_at,
}
use simtgo.Lower.Diverge.Quiet.{quiet_expr}
use simtgo.Lower.Device.{
  Machine, Thread, State, next, returned, exec, at_barrier, at_warp, Outcome, Trace, rounds, eval,
  after_all, after, put_pairs, put, put_names, run_decl, after_cases, compared, matches, reached,
  steps_to,
}
use simtgo.Lower.Device.Steady.{
  steady, steady_expr, even_target, even_targets, even_path, steady_decl,
}
use simtgo.Lower.Device.Signals.{ends_early}
use simtgo.Lower.Barriers.{barrier_use-meets}

-- A number is a list of one, an array the list of its elements.
abbrev number : List ℕ → ℕ
number [] = 0
number (n ∷ l) = n

abbrev element_at : Option ℕ → ℕ
element_at none = 0
element_at (some n) = n

abbrev first : List (List ℕ) → ℕ
first [] = 0
first (p ∷ ps) = number p

abbrev as_number : Bool → List ℕ
as_number b = if b then 1 ∷ [] else 0 ∷ []

abbrev operate : ℕ → ℕ → ℕ → List ℕ
operate o a b =
    if o == 0 then (a + b) ∷ [] else if o == 1 then as_number (ltb a b) else as_number (a == b)

abbrev block_machine : Machine
block_machine = record {
  Value = List ℕ;
  truth = λ v. not (number v == 0);
  of_bool = as_number;
  literal = λ n. n ∷ [];
  zero_of = λ x. 0 ∷ 0 ∷ [];
  handle = λ x. x ∷ [];
  apply1 = λ o v. (number v + 1) ∷ [];
  apply2 = λ o a b. operate o (number a) (number b);
  equal = λ a b. number a == number b;
  element = λ tr a i. element_at (get_elem? a (number i)) ∷ [];
  field_of = λ f v. v;
  make = λ vs. [];
  store = λ a path v. set a (first path) (number v);
  length_of = λ es. [];
  convert = λ vs. [];
  min_max = λ vs. [];
  math = λ vs. [];
  fixed = λ o. [];
  amount = λ v. number v;
  extent = λ e. 0;
}

abbrev no_uses : ℕ → BarrierUse
no_uses f = record { barrier = false; warp = false; returns = false }

abbrev no_slices : ℕ → Bool
no_slices x = false

-- The thread whose ThreadIdx is k.
abbrev thread : ℕ → Thread block_machine
thread k = record { result = λ tr c vs. k ∷ []; unknown = λ tr. [] }

abbrev start : State block_machine
start = record { env = λ x. 0 ∷ []; trace = [] }

abbrev me : Expr
me = call (method thread_idx) nil

abbrev sync : Stmt
sync = expr_stmt (call (method sync_threads) nil)

abbrev equals : Expr → Expr → Expr
equals a b = binary (strict 2) a b

abbrev one : Expr → Exprs
one e = cons e nil

abbrev seq : Stmt → Stmts → Stmts
seq s ss = then_do s ss

abbrev only : Stmt → Stmt
only s = block (seq s done)

abbrev count_up : ℕ → Stmt → Stmt
count_up n body =
    for_stmt (assign none (one (ident 1)) (one (constant 0)))
      (binary (strict 1) (ident 1) (constant n)) (inc_dec 0 (ident 1)) body

-- i := ctx.ThreadIdx(); for k := 0; k < 3; k++ { if i == 0 { x = 1 }; ctx.SyncThreads() }; if i == 0 { return }
abbrev kernel : Stmt
kernel = block (
    seq (assign none (one (ident 0)) (one me)) (
      seq
        (count_up 3 (
          block (
            seq
              (if_stmt no_stmt (equals (ident 0) (constant 0))
                (only (assign none (one (ident 2)) (one (constant 1)))) no_stmt)
              (seq sync done))))
        (seq (if_stmt no_stmt (equals (ident 0) (constant 0)) (only (return nil)) no_stmt) done)))

abbrev verdict : Stmt → Option Found
verdict s = barrier_use no_uses no_slices true true [] s

abbrev run : ℕ → Stmt → Outcome block_machine
run k s = exec block_machine no_uses no_slices (thread k) 9 s start

abbrev trace_of : Outcome block_machine → Trace
trace_of none = []
trace_of (some (g, st)) = st.trace

-- Where the kernel leaves a thread: i, k and x, by their numbers.
abbrev final : ℕ → State block_machine
final k = elim (run k kernel) [ none ↦ start | some (g, st) ↦ st ]

abbrev passed : Found
passed = elim (verdict kernel) [ none ↦ nothing_found | some w ↦ w ]

abbrev both : Stmt → Trace × Trace
both s = (trace_of (run 0 s), trace_of (run 1 s))

abbrev refused : Option Found → ℕ
refused none = 99
refused (some w) = length w.fails

kernel_varies : varying_objects no_slices true true [] kernel ≡ some (2 ∷ 0 ∷ [])
unfolding varying_objects varying_params bound until_stable mark mark_pairs mark_decl mark_names
    for_varies range_varies switch_varies varying_expr mark_varying exits exits_varying case_varies
    base_of
kernel_varies = refl

kernel_passes : refused (verdict kernel) ≡ 0
unfolding barrier_use varying_objects varying_params bound until_stable mark mark_pairs mark_decl
    mark_names for_varies range_varies switch_varies varying_expr mark_varying exits exits_varying
    case_varies base_of check check_exprs check_decl is_barrier report check_call rule_at
kernel_passes = refl

kernel_returns : run 0 kernel ≡ some (returned, final 0)
unfolding exec rounds eval after_all after put_pairs put put_names run_decl after_cases compared
    matches reached base_of is_barrier steps_to
kernel_returns = refl

kernel_runs : run 5 kernel ≡ some (next, final 5)
unfolding exec rounds eval after_all after put_pairs put put_names run_decl after_cases compared
    matches reached base_of is_barrier steps_to
kernel_runs = refl

barrier_use-meets_example : (final 0).trace ≡ (final 5).trace
unfolding barrier_use varying_objects varying_params bound until_stable mark mark_pairs mark_decl
    mark_names for_varies range_varies switch_varies varying_expr mark_varying exits exits_varying
    case_varies base_of check check_exprs check_decl is_barrier report check_call rule_at steady
    steady_expr quiet_expr even_target even_targets even_path steady_decl ends_early
barrier_use-meets_example =
    barrier_use-meets block_machine no_uses no_slices true true [] kernel (2 ∷ 0 ∷ [])
      block_machine.element block_machine.element passed (thread 0) (thread 5) 9 start start
      returned (final 0) next (final 5) (λ tr v i. refl) kernel_varies refl refl refl refl
      (λ x p q. refl, refl) kernel_returns kernel_runs

-- Kernels that diverge.go lets pass, although two threads of a block part before a meeting point: an element
-- of an array assigned at an index that varies, and then read.
abbrev own_element : Stmt
own_element = block (
    seq (decl (spec (one (ident 4)) nil no_spec)) (
      seq (assign none (one (index (ident 4) me)) (one (constant 1))) (
        seq
          (if_stmt no_stmt (equals (index (ident 4) (constant 0)) (constant 1)) (only sync) no_stmt)
          done)))

own_element_passes : refused (verdict own_element) ≡ 0
unfolding barrier_use varying_objects varying_params bound until_stable mark mark_pairs mark_decl
    mark_names for_varies range_varies switch_varies varying_expr mark_varying exits exits_varying
    case_varies base_of check check_exprs check_decl is_barrier report check_call rule_at
own_element_passes = refl

own_element_parts : both own_element ≡ (at_barrier ∷ [], [])
unfolding exec rounds eval after_all after put_pairs put put_names run_decl after_cases compared
    matches reached base_of is_barrier steps_to
own_element_parts = refl

-- A warp's vote to the right of &&.
abbrev short_circuit : Stmt
short_circuit =
    if_stmt no_stmt
      (binary land (equals me (constant 0)) (call (method any_lane) (one (constant 1))))
      (block done) no_stmt

short_circuit_passes : refused (verdict short_circuit) ≡ 0
unfolding barrier_use varying_objects varying_params bound until_stable mark mark_pairs mark_decl
    mark_names for_varies range_varies switch_varies varying_expr mark_varying exits exits_varying
    case_varies base_of check check_exprs check_decl is_barrier report check_call rule_at
short_circuit_passes = refl

short_circuit_parts : both short_circuit ≡ (at_warp any_lane ∷ [], [])
unfolding exec rounds eval after_all after put_pairs put put_names run_decl after_cases compared
    matches reached base_of is_barrier steps_to
short_circuit_parts = refl

-- A break out of a switch that all threads enter alike.
abbrev break_switch : Stmt
break_switch = switch no_stmt (constant 1) (
    clause (one (constant 1))
      (seq (if_stmt no_stmt (equals me (constant 0)) (only (branch break_token none)) no_stmt)
        (seq sync done))
      no_clause)

break_switch_passes : refused (verdict break_switch) ≡ 0
unfolding barrier_use varying_objects varying_params bound until_stable mark mark_pairs mark_decl
    mark_names for_varies range_varies switch_varies varying_expr mark_varying exits exits_varying
    case_varies base_of check check_exprs check_decl is_barrier report check_call rule_at
break_switch_passes = refl

break_switch_parts : both break_switch ≡ ([], at_barrier ∷ [])
unfolding exec rounds eval after_all after put_pairs put put_names run_decl after_cases compared
    matches reached base_of is_barrier steps_to
break_switch_parts = refl

-- A return, reached by the threads that have not left an inner loop.
abbrev inner_return : Stmt
inner_return = count_up 2 (
    block (
      seq sync (
        seq
          (for_stmt no_stmt (constant 1) no_stmt (
            block (
              seq
                (if_stmt no_stmt (equals me (constant 0)) (only (branch break_token none)) no_stmt)
                (seq (return nil) done))))
          done)))

inner_return_passes : refused (verdict inner_return) ≡ 0
unfolding barrier_use varying_objects varying_params bound until_stable mark mark_pairs mark_decl
    mark_names for_varies range_varies switch_varies varying_expr mark_varying exits exits_varying
    case_varies base_of check check_exprs check_decl is_barrier report check_call rule_at
inner_return_passes = refl

inner_return_parts : both inner_return ≡ (at_barrier ∷ at_barrier ∷ [], at_barrier ∷ [])
unfolding exec rounds eval after_all after put_pairs put put_names run_decl after_cases compared
    matches reached base_of is_barrier steps_to
inner_return_parts = refl

-- An element of slice 7 that one thread writes, and all of them read before the next meeting point.
abbrev slice_seven : ℕ → Bool
slice_seven x = x == 7

abbrev shared_flag : Stmt
shared_flag = block (
    seq
      (if_stmt no_stmt (equals me (constant 0))
        (only (assign none (one (index (ident 7) (constant 0))) (one (constant 1)))) no_stmt)
      (seq
        (if_stmt no_stmt (equals (index (ident 7) (constant 0)) (constant 1)) (only sync) no_stmt)
        done))

shared_flag_passes : refused (barrier_use no_uses slice_seven true true [] shared_flag) ≡ 0
unfolding barrier_use varying_objects varying_params bound until_stable mark mark_pairs mark_decl
    mark_names for_varies range_varies switch_varies varying_expr mark_varying exits exits_varying
    case_varies base_of check check_exprs check_decl is_barrier report check_call rule_at
shared_flag_passes = refl

varying_objects-stable_example :
    (w : List ℕ) × (varying_objects no_slices true true [] kernel ≡ some w)
    × (mark no_slices kernel false w ≡ w)
    × ((x : ℕ) → member x w ≡ false → member x (varying_params no_slices false []) ≡ false)
varying_objects-stable_example = varying_objects-stable no_slices true true [] kernel
