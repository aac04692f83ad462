-- ===== src/Gpu/Shared/Silent.antt =====
-- gpu/shared.go, gpu/gpu.go: a block whose threads ask for the same tiles in the same order is never
-- diagnosed.
use simtgo.Base.{
  ℕ, ◌≡◌, true, List, [], ◌∷◌, some, none, ==_refl, ==_iff, arith, sym, ◌∙◌, Option-cases, inl, inr,
}
use simtgo.Gpu.Shared.{
  Elem, Kind, Slab, shared_static, shared_dyn, BlockState, slab_at, grow, shared_tile, Call, static,
  dynamic, assume, panic, stall, do_call, do_calls, next_call,
}
use simtgo.Gpu.Shared.Slabs.{
  slab_at-grow, slab_at-set-grow, elem_eq_refl, do_call-static, do_call-dynamic,
}

-- What tile call i of every thread asks for.
abbrev pub Plan : Type 0
Plan = ℕ → Elem × ℕ

-- The slabs that are filled are as planned.
abbrev pub Filled : Plan → BlockState → Type 0
Filled plan s =
    (j : ℕ) (b : Slab) → slab_at s.slabs j ≡ some b → (b.elem ≡ (plan j).0) × (b.size ≡ (plan j).1)

-- A call that keeps to the plan and to the launch.
abbrev pub Fits : Plan → ℕ → BlockState → ℕ → Call → Type 0
Fits plan threads s t (static e n) = plan (next_call s t) ≡ (e, n)
Fits plan threads s t (dynamic e) = (s.dyn_sized ≡ true) × (plan (next_call s t) ≡ (e, s.dyn))
Fits plan threads s t (assume n) = threads ≡ n
Fits plan threads s t _ = ⊥

abbrev pub AllFit : Plan → ℕ → List (ℕ × Call) → BlockState → Type 0
AllFit plan threads [] s = Unit
AllFit plan threads ((t, c) ∷ cs) s =
    Fits plan threads s t c × AllFit plan threads cs (do_call threads t c s).0

module _ (plan : Plan) (t : ℕ) (e : Elem) (n : ℕ) (k : Kind) (s : BlockState)
    (filled : Filled plan s) (planned : plan (next_call s t) ≡ (e, n)) where
  planned_elem : e ≡ (plan (next_call s t)).0
  planned_elem = cc

  planned_size : n ≡ (plan (next_call s t)).1
  planned_size = cc

  shared_tile_quiet : s.fail ≡ none → (shared_tile t e n k s).0.fail ≡ none
  unfolding shared_tile
  shared_tile_quiet quiet =
      elim (Option-cases (slab_at (grow s.slabs (next_call s t)) (next_call s t))) [
        | inl e' ↦ ground (arith, e')
        | inr (b, e') ↦
            let (p, q) = filled (next_call s t) b (sym (slab_at-grow s.slabs _ _) ∙ e') in
            ground
              (arith, e', elem_eq_refl e, ==_refl n, p ∙ sym planned_elem, q ∙ sym planned_size)
      ]

  shared_tile-Filled : Filled plan (shared_tile t e n k s).0
  unfolding shared_tile
  shared_tile-Filled j b h = ground (
    arith,
    filled j b,
    planned_elem,
    planned_size,
    slab_at-grow s.slabs (next_call s t) j,
    slab_at-set-grow s.slabs (next_call s t) j (record { elem = e; kind = k; size = n }),
    ==_iff j (next_call s t),
  )

module _ (plan : Plan) (threads t : ℕ) (s : BlockState) (filled : Filled plan s)
    (quiet : s.fail ≡ none) where
  abbrev Silent : BlockState → Type 0
  Silent s' = (s'.fail ≡ none) × Filled plan s'

  do_call-assume : (n : ℕ) → threads ≡ n → Silent (do_call threads t (assume n) s).0
  unfolding do_call
  do_call-assume n fit = rw (fit, ==_refl n) (quiet, filled)

  tile_silent :
      (e : Elem) (n : ℕ) (k : Kind)
      → plan (next_call s t) ≡ (e, n)
      → Silent (shared_tile t e n k s).0
  tile_silent e n k fit = (
    shared_tile_quiet plan t e n k s filled fit quiet,
    shared_tile-Filled plan t e n k s filled fit,
  )

  do_call_silent : (c : Call) → Fits plan threads s t c → Silent (do_call threads t c s).0
  do_call_silent (static e n) fit =
      rw (do_call-static threads t e n s) (tile_silent e n (shared_static e) fit)
  do_call_silent (dynamic e) fit =
      rw (do_call-dynamic threads t e s fit.0) (tile_silent e s.dyn (shared_dyn e) fit.1)
  do_call_silent (assume n) fit = do_call-assume n fit
  do_call_silent panic fit = absurd fit
  do_call_silent stall fit = absurd fit

-- A block is not diagnosed when each of its threads asks for the tiles of one plan in turn, sizes the
-- dynamic one as the launch did, assumes the block size that it was launched with, and neither panics
-- nor stalls, in whatever order the threads come.
pub planned_silent :
    (plan : Plan) (threads : ℕ) (cs : List (ℕ × Call)) (s : BlockState)
    → Filled plan s
    → s.fail ≡ none
    → AllFit plan threads cs s
    → (do_calls threads cs s).fail ≡ none
unfolding do_calls
planned_silent plan threads [] s filled quiet fit = quiet
planned_silent plan threads ((t, c) ∷ cs) s filled quiet fit =
    let (quiet', filled') = do_call_silent plan threads t s filled quiet c fit.0 in
    planned_silent plan threads cs (do_call threads t c s).0 filled' quiet' fit.1
