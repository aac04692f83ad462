-- ===== src/Lower/Barriers.antt =====
-- internal/lower/diverge.go: what checkDivergence promises: the threads of a block meet at the same points.
use simtgo.Base.{ℕ, Bool, true, false, not, ◌||◌, List, [], some, none, ◌≡◌, ◌∙◌, ap, subst, arith}
use std.Path.{fun_ext}
use simtgo.Lower.Syntax.{Stmt}
use simtgo.Lower.Vary.{member, mark, bound, varying_params, varying_objects}
use simtgo.Lower.Vary.Fixpoint.{varying_objects-stable}
use simtgo.Lower.Diverge.{BarrierUse, Found, check, barrier_use, nothing_found}
use simtgo.Lower.Device.{Machine, with_elements, Trace, Thread, State, Signal, exec}
use simtgo.Lower.Device.Steady.{steady}
use simtgo.Lower.Device.Signals.{ends_early}
use simtgo.Lower.Device.Meet.{together, parted}
use simtgo.Lower.Device.Uniform.{exec-Met}

module _ (m : Machine) (uses : ℕ → BarrierUse) (slice : ℕ → Bool) (entry resolved : Bool)
    (params : List ℕ) (body : Stmt) (vary : List ℕ) where
  abbrev pub Elements : Type 0
  Elements = Trace → m.Value → m.Value → m.Value

  -- What two threads may hold when a function starts: they agree on all but the parameters that are taken
  -- to vary, and on slices, which the model reads by their handles.
  abbrev pub StartAlike :
      (f1 f2 : Elements) → State (with_elements m f1) → State (with_elements m f2) → Type 0
  StartAlike f1 f2 st1 st2 =
      ((x : ℕ)
        → slice x ≡ false
        → member x (varying_params slice (not entry || not resolved) params) ≡ false
        → st1.env x ≡ st2.env x)
      × (st1.trace ≡ st2.trace)

  meets_alike :
      (f : Elements) (w : Found) (t1 t2 : Thread (with_elements m f)) (fuel : ℕ)
      (st1 st2 : State (with_elements m f)) (g1 : Signal) (st1' : State (with_elements m f))
      (g2 : Signal) (st2' : State (with_elements m f))
      → varying_objects slice entry resolved params body ≡ some vary
      → barrier_use uses slice entry resolved params body ≡ some w
      → w.fails ≡ []
      → steady uses slice vary false body ≡ true
      → ends_early false true body ≡ false
      → StartAlike f f st1 st2
      → exec (with_elements m f) uses slice t1 fuel body st1 ≡ some (g1, st1')
      → exec (with_elements m f) uses slice t2 fuel body st2 ≡ some (g2, st2')
      → st1'.trace ≡ st2'.trace
  unfolding barrier_use
  meets_alike f w t1 t2 fuel st1 st2 g1 st1' g2 st2' hv hw clean v md (same, tr) e1 e2 =
      let (u, p, q, back) = varying_objects-stable slice entry resolved params body in
      let same_set : u ≡ vary = cc in
      let stable : mark slice body false vary ≡ vary = rw (← same_set) q in
      let hw' = rw hv at hw in
      let found : check uses slice vary body none nothing_found ≡ w = cc in
      let clean' = ap (λ (x : Found). x.fails) found ∙ clean in
      let keep : (x : ℕ)
          → member x vary ≡ false
          → member x (varying_params slice (not entry || not resolved) params) ≡ false =
        rw (← same_set) back in
      elim (exec-Met (with_elements m f) uses slice vary t1 t2 (bound body) fuel false body
        nothing_found st1 st2 g1 st1' g2 st2' (omega arith) stable v md clean'
        (record { same_env = λ x y z. same x y (keep x z); same_trace = tr }) e1 e2) [
          | together _ b ↦ b.same_trace
          | parted _ _ k ↦ k
        ]

  -- If barrierUse refuses nothing in a function that no bare break or continue leaves, not even from a
  -- switch outside every loop, and that is steady, which is that where all threads arrive no meeting
  -- point stands to the right of && or ||, an element is assigned at an index that varies only in a
  -- slice or in an array that varies, what stands before a condition or after a round is simple, and a
  -- loop inside another that threads leave differently has no return unless its condition varies, then
  -- any two threads of a block that start it alike but for the parameters that are taken to vary, and
  -- both come to its end, have met at the same barriers, warp operations with a mask, and calls that
  -- reach one, in the same order. This takes it that between the same two meeting points both threads
  -- read the same in each element of a slice at every time, so none that one of them writes there and
  -- either reads, and it is of runs that come to no labelled break or continue and no fallthrough.
  pub barrier_use-meets :
      (f1 f2 : Elements) (w : Found) (t1 : Thread (with_elements m f1))
      (t2 : Thread (with_elements m f2)) (fuel : ℕ) (st1 : State (with_elements m f1))
      (st2 : State (with_elements m f2)) (g1 : Signal) (st1' : State (with_elements m f1))
      (g2 : Signal) (st2' : State (with_elements m f2))
      → ((tr : Trace) (v i : m.Value) → f1 tr v i ≡ f2 tr v i)
      → varying_objects slice entry resolved params body ≡ some vary
      → barrier_use uses slice entry resolved params body ≡ some w
      → w.fails ≡ []
      → steady uses slice vary false body ≡ true
      → ends_early false true body ≡ false
      → StartAlike f1 f2 st1 st2
      → exec (with_elements m f1) uses slice t1 fuel body st1 ≡ some (g1, st1')
      → exec (with_elements m f2) uses slice t2 fuel body st2 ≡ some (g2, st2')
      → st1'.trace ≡ st2'.trace
  barrier_use-meets f1 f2 w t1 t2 fuel st1 st2 g1 st1' g2 st2' loads =
      subst
        (λ (f : Elements).
          (t2 : Thread (with_elements m f)) (st2 : State (with_elements m f)) (g2 : Signal)
          (st2' : State (with_elements m f))
          → varying_objects slice entry resolved params body ≡ some vary
          → barrier_use uses slice entry resolved params body ≡ some w
          → w.fails ≡ []
          → steady uses slice vary false body ≡ true
          → ends_early false true body ≡ false
          → StartAlike f1 f st1 st2
          → exec (with_elements m f1) uses slice t1 fuel body st1 ≡ some (g1, st1')
          → exec (with_elements m f) uses slice t2 fuel body st2 ≡ some (g2, st2')
          → st1'.trace ≡ st2'.trace)
        (fun_ext (λ tr. fun_ext (λ v. fun_ext (λ i. loads tr v i))))
        (λ t2 st2 g2 st2'. meets_alike f1 w t1 t2 fuel st1 st2 g1 st1' g2 st2') t2 st2 g2 st2'
