-- ===== src/Gpu/WarpBarrier/Returned.antt =====
-- gpu/warp.go: the masks that `wait` returns.
use simtgo.Base.{
  ℕ, zero, suc, [], ◌∷◌, ◌+◌, ◌<◌, ◌≡◌, ◌⊎◌, refl, false, none, set, List, Option, some, arith,
  get_elem?, ◌==◌, ==_refl, ==_iff, inl, inr, Option-cases, ap, sym, ◌∙◌,
}
use simtgo.Gpu.Threads.{
  Phase, running, waiting, gone, is_behind, waits_beyond, count_if, count_if-pos, count_if_only,
  count_if_split,
}
use simtgo.Gpu.Barrier.{Event, arrive, wake, timeout, leave}
use simtgo.Gpu.Barrier.Invariant.{Inv, wake_waiting, timeout_waiting}
use simtgo.Gpu.WarpBarrier.Refines.{step-forget}
use simtgo.Gpu.WarpBarrier.Masks.{MaskInv, get_elem?-set, run-MaskInv}
use simtgo.Gpu.WarpBarrier.{
  Mask, Warp, step, run, start, forget, forget_result, arrived, here, set_bit, publish,
}

module _ (s : Warp) (t : ℕ) (s' : Warp) (inv : Inv (forget s)) (masks : MaskInv s) where
  -- A lane that arrives and is let through is running, and it was the last one.
  arrive_last :
      (m : Mask)
      → step s (arrive t) ≡ some (s', some (some m))
      → (get_elem? s.threads t ≡ some running)
        × (count_if (is_behind s.bar.cur) s.threads ≡ 1)
        × (m ≡ set_bit s.bar.mask t)
  unfolding step
  arrive_last m h = ground (
    arith,
    inv,
    count_if_split s.bar.cur s.threads,
    count_if-pos (is_behind s.bar.cur) s.threads t running,
  )

  others_arrived :
      (l : ℕ)
      → get_elem? s.threads t ≡ some running
      → count_if (is_behind s.bar.cur) s.threads ≡ 1
      → (l == t) ≡ false
      → arrived s.bar.cur (get_elem? s.threads l) ≡ here (get_elem? s.threads l)
  others_arrived l at one ne = elim (Option-cases (get_elem? s.threads l)) [
    | inl e ↦ rw e
    | inr (a, e) ↦
        ground (arith, e, count_if_only (is_behind s.bar.cur) s.threads t l running a one at)
  ]

  arrive_mask :
      (m : Mask)
      → step s (arrive t) ≡ some (s', some (some m))
      → (l : ℕ) → m l ≡ here (get_elem? s.threads l)
  unfolding set_bit
  arrive_mask m h l =
      let (at, one, e) = arrive_last m h in
      ground (arith, masks l, others_arrived l at one, ==_iff l t)

  arrive_new :
      (r : Option (Option Mask))
      → step s (arrive t) ≡ some (s', r)
      → s'.bar.cur ≡ s.bar.cur + 1
      → (step s (arrive t) ≡ some (s', some (some (set_bit s.bar.mask t))))
        × (s'.bar.published s.bar.cur ≡ set_bit s.bar.mask t)
        × (s'.threads ≡ s.threads)
  unfolding step publish
  arrive_new r h new = ground (arith, ==_refl s.bar.cur)

  arrive_publishes :
      (r : Option (Option Mask))
      → step s (arrive t) ≡ some (s', r)
      → s'.bar.cur ≡ s.bar.cur + 1
      → (l : ℕ) → s'.bar.published s.bar.cur l ≡ here (get_elem? s'.threads l)
  arrive_publishes r h new l =
      let (h', pub', same) = arrive_new r h new in
      ap (λ (m : Mask). m l) pub'
      ∙ arrive_mask (set_bit s.bar.mask t) h' l
      ∙ ap (λ (xs : List Phase). here (get_elem? xs l)) (sym same)

  leave_publishes :
      (r : Option (Option Mask))
      → step s (leave t) ≡ some (s', r)
      → s'.bar.cur ≡ s.bar.cur + 1
      → (l : ℕ) → s'.bar.published s.bar.cur l ≡ here (get_elem? s'.threads l)
  unfolding step publish
  leave_publishes r h new l = ground (
    arith,
    inv,
    masks l,
    ==_refl s.bar.cur,
    others_arrived l,
    get_elem?-set s.threads t l running gone,
    count_if_split s.bar.cur s.threads,
    count_if-pos (is_behind s.bar.cur) s.threads t running,
    ==_iff l t,
  )

release_publishes :
    (s : Warp) (e : Event) (s' : Warp) (r : Option (Option Mask))
    → Inv (forget s)
    → MaskInv s
    → step s e ≡ some (s', r)
    → s'.bar.cur ≡ s.bar.cur + 1
    → (l : ℕ) → s'.bar.published s.bar.cur l ≡ here (get_elem? s'.threads l)
unfolding step
release_publishes s (arrive t) s' r inv masks h new l = arrive_publishes s t s' inv masks r h new l
release_publishes s (wake t) s' r inv masks h new l = absurd (ground arith)
release_publishes s (timeout t) s' r inv masks h new l = absurd (ground arith)
release_publishes s (leave t) s' r inv masks h new l = leave_publishes s t s' inv masks r h new l

published_kept :
    (s : Warp) (e : Event) (s' : Warp) (r : Option (Option Mask))
    → step s e ≡ some (s', r)
    → (g : ℕ) → g < s.bar.cur
    → s'.bar.published g ≡ s.bar.published g
unfolding step publish
published_kept s (arrive t) s' r h g lt = ground arith
published_kept s (wake t) s' r h g lt = ground arith
published_kept s (timeout t) s' r h g lt = ground arith
published_kept s (leave t) s' r h g lt = ground arith

-- The generation of the wait that an event begins or ends: the open one when a lane arrives, and the one
-- that the lane is blocked on when it wakes or its timer fires.
abbrev blocked_on : Option Phase → Option ℕ
blocked_on (some (waiting g)) = some g
blocked_on _ = none

abbrev pub wait_of : Warp → Event → Option ℕ
wait_of s (arrive t) = some s.bar.cur
wait_of s (wake t) = blocked_on (get_elem? s.threads t)
wait_of s (timeout t) = blocked_on (get_elem? s.threads t)
wait_of s (leave t) = none

set_either :
    (xs : List Phase) (t l : ℕ) (v p : Phase)
    → get_elem? (set xs t v) l ≡ some p
    → (get_elem? xs l ≡ some p) ⊎ ((t ≡ l) × (v ≡ p))
set_either [] t l v p h = inl h
set_either (x ∷ xs) zero zero v p h = inr (refl, cc)
set_either (x ∷ xs) zero (suc l) v p h = inl h
set_either (x ∷ xs) (suc t) zero v p h = inl h
set_either (x ∷ xs) (suc t) (suc l) v p h = elim (set_either xs t l v p h) [
  | inl e ↦ inl e
  | inr (e, q) ↦ inr (ap suc e, q)
]

-- A lane is blocked on the generation that was open when it arrived.
blocked_since :
    (s : Warp) (e : Event) (s' : Warp) (r : Option (Option Mask))
    → step s e ≡ some (s', r)
    → (l g : ℕ) → get_elem? s'.threads l ≡ some (waiting g)
    → (get_elem? s.threads l ≡ some (waiting g)) ⊎ ((e ≡ arrive l) × (g ≡ s.bar.cur))
unfolding step
blocked_since s (arrive t) s' r h l g at =
    ground (arith, set_either s.threads t l (waiting s.bar.cur) (waiting g))
blocked_since s (wake t) s' r h l g at =
    ground (arith, set_either s.threads t l running (waiting g))
blocked_since s (timeout t) s' r h l g at =
    ground (arith, set_either s.threads t l running (waiting g))
blocked_since s (leave t) s' r h l g at = ground (arith, set_either s.threads t l gone (waiting g))

returns_published :
    (s : Warp) (e : Event) (s' : Warp) (r : Option (Option Mask))
    → Inv (forget s)
    → step s e ≡ some (s', r)
    → (m : Mask) → r ≡ some (some m)
    → (g : ℕ) × (wait_of s e ≡ some g) × (g < s'.bar.cur) × (m ≡ s'.bar.published g)
unfolding step publish
returns_published s (arrive t) s' r inv h m e =
    (s.bar.cur, refl, ground arith, ground (arith, ==_refl s.bar.cur))
returns_published s (wake t) s' r inv h m e =
    let (g, at) =
      wake_waiting (forget s) t (forget s') (forget_result r) inv (step-forget s (wake t) s' r h) in
    (g, rw at refl, ground (arith, at), ground (arith, at))
returns_published s (timeout t) s' r inv h m e =
    let (g, at) =
      timeout_waiting (forget s) t (forget s') (forget_result r) inv
        (step-forget s (timeout t) s' r h) in
    (
      g,
      rw at refl,
      ground (
        arith,
        at,
        inv.none_beyond,
        count_if-pos (waits_beyond s.bar.cur) s.threads t (waiting g),
      ),
      ground (arith, at),
    )
returns_published s (leave t) s' r inv h m e = absurd (ground arith)

-- In every state that a warp reaches: a step that releases a generation publishes the mask of exactly the
-- lanes that are in the kernel after it; no step changes the mask of a closed generation; a wait that
-- succeeds returns the published mask of its own generation, which is closed; and the generation of a
-- wait is the one that was open when its lane arrived, until the wait ends.
pub returned_masks :
    (n : ℕ) (es : List Event) (s : Warp) (e : Event) (s' : Warp) (r : Option (Option Mask))
    → run (start n) es ≡ some s
    → step s e ≡ some (s', r)
    → (s'.bar.cur ≡ s.bar.cur + 1
        → (l : ℕ) → s'.bar.published s.bar.cur l ≡ here (get_elem? s'.threads l))
      × ((g : ℕ) → g < s.bar.cur → s'.bar.published g ≡ s.bar.published g)
      × ((m : Mask)
          → r ≡ some (some m)
          → (g : ℕ) × (wait_of s e ≡ some g) × (g < s'.bar.cur) × (m ≡ s'.bar.published g))
      × ((l g : ℕ)
          → get_elem? s'.threads l ≡ some (waiting g)
          → (get_elem? s.threads l ≡ some (waiting g)) ⊎ ((e ≡ arrive l) × (g ≡ s.bar.cur)))
returned_masks n es s e s' r h st =
    let (inv, masks) = run-MaskInv n es s h in
    (
      release_publishes s e s' r inv masks st,
      published_kept s e s' r st,
      returns_published s e s' r inv st,
      blocked_since s e s' r st,
    )
