-- ===== src/Lower/Device/Agree.antt =====
-- internal/lower/diverge.go: what varyingExpr calls uniform has one value in all threads of a block that
-- agree on the variables that do not vary.
use simtgo.Base.{
  ℕ, Bool, true, false, not, ◌&&◌, ◌||◌, List, ◌∷◌, if◌then◌else◌, ◌≡◌, refl, ap, arith, ||-false,
}
use mathlib.Core.Path.{ap₂}
use simtgo.Lower.Syntax.{
  conversion, builtin_len, builtin_min_max, other_ident, gpu_atomic, gpu_func, other_callee,
  package_func, method, land, lor, strict, Expr, absent, unresolved, other, constant, ident, paren,
  unary, field, key_value, binary, index, composite, call, Exprs, nil, cons,
}
use simtgo.Lower.Vary.{varying_expr, any_varying, ctx_uniform, member}
use simtgo.Lower.Diverge.{BarrierUse}
use simtgo.Lower.Device.{Machine, Thread, State, eval, eval_all}

module _ (m : Machine) (uses : ℕ → BarrierUse) (slice : ℕ → Bool) (vary : List ℕ) where
  -- Two threads that agree on every variable that does not vary, and have met at the same points.
  pub record Alike (st1 st2 : State m) : Type 0 where
    pub same_env : (x : ℕ) → slice x ≡ false → member x vary ≡ false → st1.env x ≡ st2.env x
    pub same_trace : st1.trace ≡ st2.trace

  land-agrees :
      {a a' b b' : m.Value}
      → a ≡ a'
      → b ≡ b'
      → m.of_bool (m.truth a && m.truth b) ≡ m.of_bool (m.truth a' && m.truth b')
  land-agrees p q = ap₂ (λ (x y : m.Value). m.of_bool (m.truth x && m.truth y)) p q

  lor-agrees :
      {a a' b b' : m.Value}
      → a ≡ a'
      → b ≡ b'
      → m.of_bool (m.truth a || m.truth b) ≡ m.of_bool (m.truth a' || m.truth b')
  lor-agrees p q = ap₂ (λ (x y : m.Value). m.of_bool (m.truth x || m.truth y)) p q

  module _ (t1 t2 : Thread m) (st1 st2 : State m) (alike : Alike st1 st2) where
    mutual
      unfolding varying_expr eval

      pub eval-agrees :
          (e : Expr)
          → varying_expr slice vary e ≡ false
          → eval m uses slice t1 st1 e ≡ eval m uses slice t2 st2 e
      eval-agrees absent h = refl
      eval-agrees unresolved h = cc
      eval-agrees other h = cc
      eval-agrees (constant n) h = refl
      eval-agrees (ident x) h = ground (arith, alike.same_env x)
      eval-agrees (paren e) h = eval-agrees e h
      eval-agrees (unary o e) h = cc (eval-agrees e h)
      eval-agrees (field f e) h = cc (eval-agrees e h)
      eval-agrees (key_value k e) h = eval-agrees e h
      eval-agrees (binary land a b) h =
          let p = ||-false _ _ h in land-agrees (eval-agrees a p.0) (eval-agrees b p.1)
      eval-agrees (binary lor a b) h =
          let p = ||-false _ _ h in lor-agrees (eval-agrees a p.0) (eval-agrees b p.1)
      eval-agrees (binary (strict o) a b) h =
          let p = ||-false _ _ h in ap₂ (m.apply2 o) (eval-agrees a p.0) (eval-agrees b p.1)
      eval-agrees (index e i) h =
          let p = ||-false _ _ h in
          let f = eval-agrees e p.1 in
          let g = eval-agrees i p.0 in λ k. m.element (alike.same_trace k) (f k) (g k)
      eval-agrees (composite es) h = ap m.make (eval_all-agrees es h)
      eval-agrees (call conversion es) h =
          let p = ||-false _ _ h in ap m.convert (eval_all-agrees es p.1)
      eval-agrees (call builtin_len es) h = refl
      eval-agrees (call builtin_min_max es) h = ap m.min_max (eval_all-agrees es h)
      eval-agrees (call gpu_func es) h = ap m.math (eval_all-agrees es h)
      eval-agrees (call (method o) es) h =
          elim (ctx_uniform o)
              as (λ b.
                not b ≡ false
                → (if b
                    then m.fixed o
                    else t1.result st1.trace (method o) (eval_all m uses slice t1 st1 es))
                  ≡ (if b
                      then m.fixed o
                      else t2.result st2.trace (method o) (eval_all m uses slice t2 st2 es))) [
                        | true ↦ λ _. refl
                        | false ↦ λ q. cc
                      ]
            h
      eval-agrees (call (package_func f) es) h = cc
      eval-agrees (call other_ident es) h = cc
      eval-agrees (call gpu_atomic es) h = cc
      eval-agrees (call other_callee es) h = cc

      pub eval_all-agrees :
          (es : Exprs)
          → any_varying slice vary es ≡ false
          → eval_all m uses slice t1 st1 es ≡ eval_all m uses slice t2 st2 es
      eval_all-agrees nil h = refl
      eval_all-agrees (cons e es) h =
          let p = ||-false _ _ h in ap₂ (◌∷◌) (eval-agrees e p.0) (eval_all-agrees es p.1)
