-- ===== src/Gpu/Shared/Slabs.antt =====
-- gpu/shared.go: slabs are filled once, and a report is never withdrawn.
use simtgo.Base.{
  ℕ, zero, suc, ◌≡◌, inl, inr, refl, true, List, [], ◌∷◌, Option, some, none, ◌==◌, ==_refl, ==_iff,
  if◌then◌else◌, set, arith, Option-cases,
}
use simtgo.Gpu.Shared.{
  Elem, elem_eq, Kind, shared_static, shared_dyn, Slab, shared, BlockState, grow, slab_at,
  shared_tile, Call, static, dynamic, do_call, do_calls, request, next_call,
}

pub elem_eq_sound : (a b : Elem) → elem_eq a b ≡ true → a ≡ b
unfolding elem_eq
elem_eq_sound a b h = ground arith

pub elem_eq_refl : (a : Elem) → elem_eq a a ≡ true
unfolding elem_eq
elem_eq_refl a = ground arith

pub slab_at-grow : (xs : List (Option Slab)) (i j : ℕ) → slab_at (grow xs i) j ≡ slab_at xs j
unfolding grow
slab_at-grow [] zero zero = refl
slab_at-grow [] zero (suc j) = refl
slab_at-grow [] (suc i) zero = refl
slab_at-grow [] (suc i) (suc j) = slab_at-grow [] i j
slab_at-grow (x ∷ xs) zero j = refl
slab_at-grow (x ∷ xs) (suc i) zero = refl
slab_at-grow (x ∷ xs) (suc i) (suc j) = slab_at-grow xs i j

pub slab_at-set-grow :
    (xs : List (Option Slab)) (i j : ℕ) (b : Slab)
    → slab_at (set (grow xs i) i (some b)) j ≡ (if j == i then some b else slab_at xs j)
unfolding grow
slab_at-set-grow [] zero zero b = refl
slab_at-set-grow [] zero (suc j) b = ground arith
slab_at-set-grow [] (suc i) zero b = ground arith
slab_at-set-grow [] (suc i) (suc j) b = ground (arith, slab_at-set-grow [] i j b)
slab_at-set-grow (x ∷ xs) zero zero b = refl
slab_at-set-grow (x ∷ xs) zero (suc j) b = ground arith
slab_at-set-grow (x ∷ xs) (suc i) zero b = ground arith
slab_at-set-grow (x ∷ xs) (suc i) (suc j) b = ground (arith, slab_at-set-grow xs i j b)

module _ (t : ℕ) (e : Elem) (n : ℕ) (k : Kind) (s : BlockState) where
  -- A filled slab is left as it is.
  shared_tile-slabs :
      (j : ℕ) (b : Slab)
      → slab_at s.slabs j ≡ some b
      → slab_at (shared_tile t e n k s).0.slabs j ≡ some b
  unfolding shared_tile
  shared_tile-slabs j b h = ground (
    arith,
    slab_at-grow s.slabs (next_call s t) j,
    slab_at-grow s.slabs (next_call s t) (next_call s t),
    slab_at-set-grow s.slabs (next_call s t) j (record { elem = e; kind = k; size = n }),
    ==_iff j (next_call s t),
  )

  shared_tile-fail : (shared_tile t e n k s).0.fail ≡ none → s.fail ≡ none
  unfolding shared_tile
  shared_tile-fail h = ground arith

  -- A tile call that reports nothing hands out the slab of its number, which has what it asked for.
  shared_tile-claims :
      (shared_tile t e n k s).0.fail ≡ none
      → (b : Slab) × (slab_at (shared_tile t e n k s).0.slabs (next_call s t) ≡ some b)
        × (b.elem ≡ e)
        × (b.size ≡ n)
        × ((shared_tile t e n k s).1 ≡ shared (next_call s t))
  unfolding shared_tile
  shared_tile-claims h =
      elim (Option-cases (slab_at (grow s.slabs (next_call s t)) (next_call s t))) [
        | inl e' ↦ (
          record { elem = e; kind = k; size = n },
          ground (
            arith,
            e',
            slab_at-set-grow s.slabs (next_call s t) (next_call s t)
                (record { elem = e; kind = k; size = n }),
            ==_refl (next_call s t),
          ),
          refl,
          refl,
          ground (arith, e'),
        )
        | inr (b, e') ↦ (
          b,
          ground (arith, e'),
          ground (arith, e', elem_eq_sound b.elem e),
          ground (arith, e'),
          ground (arith, e'),
        )
      ]

module _ (threads t : ℕ) where
  pub do_call-slabs :
      (c : Call) (s : BlockState) (j : ℕ) (b : Slab)
      → slab_at s.slabs j ≡ some b
      → slab_at (do_call threads t c s).0.slabs j ≡ some b
  unfolding do_call
  do_call-slabs (static e n) s j b h = shared_tile-slabs t e n (shared_static e) s j b h
  do_call-slabs (dynamic e) s j b h =
      ground (arith, shared_tile-slabs t e s.dyn (shared_dyn e) s j b h)
  do_call-slabs _ s j b h = ground arith

  pub do_call-fail :
      (c : Call) (s : BlockState) → (do_call threads t c s).0.fail ≡ none → s.fail ≡ none
  unfolding do_call
  do_call-fail (static e n) s h = shared_tile-fail t e n (shared_static e) s h
  do_call-fail (dynamic e) s h = ground (arith, shared_tile-fail t e s.dyn (shared_dyn e) s)
  do_call-fail _ s h = ground arith

  pub do_call-static :
      (e : Elem) (n : ℕ) (s : BlockState)
      → do_call threads t (static e n) s ≡ shared_tile t e n (shared_static e) s
  unfolding do_call
  do_call-static e n s = refl

  pub do_call-dynamic :
      (e : Elem) (s : BlockState)
      → s.dyn_sized ≡ true
      → do_call threads t (dynamic e) s ≡ shared_tile t e s.dyn (shared_dyn e) s
  unfolding do_call
  do_call-dynamic e s h = ground arith

  -- What do_call does on a tile call, as the call of shared_tile that it makes.
  abbrev pub Claims : Call → BlockState → Elem → ℕ → Type 0
  Claims c s e n =
      (b : Slab) × (slab_at (do_call threads t c s).0.slabs (next_call s t) ≡ some b)
      × (b.elem ≡ e)
      × (b.size ≡ n)
      × ((do_call threads t c s).1 ≡ shared (next_call s t))

  pub do_call-Claims :
      (c : Call) (s : BlockState) (e : Elem) (n : ℕ)
      → request s c ≡ some (e, n)
      → (do_call threads t c s).0.fail ≡ none
      → Claims c s e n
  do_call-Claims (static e' n') s e n r h =
      let p : e' ≡ e = ground arith in
      let q : n' ≡ n = ground arith in
      rw (← p, ← q, do_call-static e' n' s)
        (shared_tile-claims t e' n' (shared_static e') s (rw (do_call-static e' n' s) at h))
  do_call-Claims (dynamic e') s e n r h =
      let sized : s.dyn_sized ≡ true = ground arith in
      let p : e' ≡ e = ground arith in
      let q : s.dyn ≡ n = ground arith in
      rw (← p, ← q, do_call-dynamic e' s sized)
        (shared_tile-claims t e' s.dyn (shared_dyn e') s (rw (do_call-dynamic e' s sized) at h))
  do_call-Claims _ s e n r h = absurd (ground arith)

pub do_calls-slabs :
    (threads : ℕ) (cs : List (ℕ × Call)) (s : BlockState) (j : ℕ) (b : Slab)
    → slab_at s.slabs j ≡ some b
    → slab_at (do_calls threads cs s).slabs j ≡ some b
unfolding do_calls
do_calls-slabs threads [] s j b h = h
do_calls-slabs threads ((t, c) ∷ cs) s j b h =
    do_calls-slabs threads cs (do_call threads t c s).0 j b (do_call-slabs threads t c s j b h)

pub do_calls-fail :
    (threads : ℕ) (cs : List (ℕ × Call)) (s : BlockState)
    → (do_calls threads cs s).fail ≡ none
    → s.fail ≡ none
unfolding do_calls
do_calls-fail threads [] s h = h
do_calls-fail threads ((t, c) ∷ cs) s h =
    do_call-fail threads t c s (do_calls-fail threads cs (do_call threads t c s).0 h)
