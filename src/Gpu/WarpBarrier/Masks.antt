-- ===== src/Gpu/WarpBarrier/Masks.antt =====
-- gpu/warp.go: the mask of a warp barrier names the lanes that have arrived.
use simtgo.Base.{
  ℕ, zero, suc, ◌+◌, ◌≡◌, refl, false, List, [], ◌∷◌, Option, some, none, arith, get_elem?, set,
  ◌==◌, if◌then◌else◌, inl, inr, Option-cases, subst,
}
use simtgo.Gpu.Threads.{Phase, running, waiting, gone, waits_beyond, count_if-pos}
use simtgo.Gpu.Barrier
use simtgo.Gpu.Barrier.{all_running, Event, arrive, wake, timeout, leave}
use simtgo.Gpu.Barrier.Invariant.{Inv, start-Inv, step-Inv, wake_waiting, timeout_waiting}
use simtgo.Gpu.WarpBarrier.Refines.{step-forget}
use simtgo.Gpu.WarpBarrier.{
  Mask, Warp, step, run, start, forget, forget_result, arrived, set_bit, clear_bit,
}

-- The phase of lane l after lane t's phase was written.
pub get_elem?-set :
    (xs : List Phase) (t l : ℕ) (a v : Phase)
    → get_elem? xs t ≡ some a
    → get_elem? (set xs t v) l ≡ (if l == t then some v else get_elem? xs l)
get_elem?-set [] t l a v h = cc
get_elem?-set (x ∷ xs) zero zero a v h = refl
get_elem?-set (x ∷ xs) zero (suc l) a v h = ground arith
get_elem?-set (x ∷ xs) (suc t) zero a v h = ground arith
get_elem?-set (x ∷ xs) (suc t) (suc l) a v h = ground (arith, get_elem?-set xs t l a v h)

-- Bit l of the mask says whether lane l is blocked on the open generation.
abbrev pub MaskInv : Warp → Type 0
MaskInv s = (l : ℕ) → s.bar.mask l ≡ arrived s.bar.cur (get_elem? s.threads l)

module _ (s : Warp) (inv : Inv (forget s)) where
  -- No lane has arrived at a generation that has not begun.
  not_ahead : (l : ℕ) → arrived (s.bar.cur + 1) (get_elem? s.threads l) ≡ false
  not_ahead l = elim (Option-cases (get_elem? s.threads l)) [
    | inl e ↦ rw e
    | inr (a, e) ↦
        rw e
          (ground (arith, count_if-pos (waits_beyond s.bar.cur) s.threads l a e, inv.none_beyond))
  ]

module _ (s : Warp) (t : ℕ) (s' : Warp) (r : Option (Option Mask)) (inv : Inv (forget s))
    (masks : MaskInv s) where
  arrive-MaskInv : step s (arrive t) ≡ some (s', r) → MaskInv s'
  unfolding step set_bit
  arrive-MaskInv h l =
      ground
        (arith, masks l, not_ahead s inv l, get_elem?-set s.threads t l running (waiting s.bar.cur))

  wake-MaskInv :
      (g : ℕ)
      → get_elem? s.threads t ≡ some (waiting g)
      → step s (wake t) ≡ some (s', r)
      → MaskInv s'
  unfolding step
  wake-MaskInv g at h l =
      ground (arith, masks l, at, get_elem?-set s.threads t l (waiting g) running)

  timeout-MaskInv :
      (g : ℕ)
      → get_elem? s.threads t ≡ some (waiting g)
      → step s (timeout t) ≡ some (s', r)
      → MaskInv s'
  unfolding step clear_bit
  timeout-MaskInv g at h l =
      ground (arith, masks l, at, get_elem?-set s.threads t l (waiting g) running)

  leave-MaskInv : step s (leave t) ≡ some (s', r) → MaskInv s'
  unfolding step
  leave-MaskInv h l =
      ground (arith, masks l, not_ahead s inv l, get_elem?-set s.threads t l running gone)

pub step-MaskInv :
    (s : Warp) (e : Event) (s' : Warp) (r : Option (Option Mask))
    → Inv (forget s)
    → MaskInv s
    → step s e ≡ some (s', r)
    → MaskInv s'
step-MaskInv s (arrive t) s' r inv masks h = arrive-MaskInv s t s' r inv masks h
step-MaskInv s (wake t) s' r inv masks h =
    let (g, at) =
      wake_waiting (forget s) t (forget s') (forget_result r) inv (step-forget s (wake t) s' r h) in
    wake-MaskInv s t s' r inv masks g at h
step-MaskInv s (timeout t) s' r inv masks h =
    let (g, at) =
      timeout_waiting (forget s) t (forget s') (forget_result r) inv
        (step-forget s (timeout t) s' r h) in
    timeout-MaskInv s t s' r inv masks g at h
step-MaskInv s (leave t) s' r inv masks h = leave-MaskInv s t s' r inv masks h

all_running-arrived : (n l : ℕ) → false ≡ arrived 0 (get_elem? (all_running n) l)
unfolding all_running
all_running-arrived zero l = refl
all_running-arrived (suc n) zero = refl
all_running-arrived (suc n) (suc l) = all_running-arrived n l

-- A warp of n lanes that starts a kernel.
start-MaskInv : (n : ℕ) → MaskInv (start n)
unfolding start
start-MaskInv n l = all_running-arrived n l

pub run-cons :
    (s : Warp) (e : Event) (es : List Event) (s' : Warp)
    → run s (e ∷ es) ≡ some s'
    → (s1 : Warp) × (r : Option (Option Mask)) × (step s e ≡ some (s1, r)) × (run s1 es ≡ some s')
unfolding run
run-cons s e es s' h = go (step s e) refl h
  where
    go :
        (o : Option (Warp × Option (Option Mask)))
        → step s e ≡ o
        → elim o [ none ↦ none | some (s1, r) ↦ run s1 es ] ≡ some s'
        → (s1 : Warp) × (r : Option (Option Mask)) × (step s e ≡ some (s1, r))
          × (run s1 es ≡ some s')
    go none e' h' = cc
    go (some (s1, r)) e' h' = (s1, r, e', h')

run_from-Inv :
    (s : Warp) (es : List Event) (s' : Warp)
    → Inv (forget s)
    → MaskInv s
    → run s es ≡ some s'
    → Inv (forget s') × MaskInv s'
unfolding run
run_from-Inv s [] s' inv masks h =
    let e : s ≡ s' = ground arith in subst (λ w. Inv (forget w) × MaskInv w) e (inv, masks)
run_from-Inv s (e ∷ es) s' inv masks h =
    let (s1, r, e', h') = run-cons s e es s' h in
    run_from-Inv s1 es s'
      (step-Inv (forget s) e (forget s1) (forget_result r) inv (step-forget s e s1 r e'))
      (step-MaskInv s e s1 r inv masks e') h'

-- Whatever the lanes of a warp do: the barrier's counters are those of the block barrier's
-- invariant, and bit l of its mask is set exactly while lane l is blocked on the open generation.
pub run-MaskInv :
    (n : ℕ) (es : List Event) (s : Warp) → run (start n) es ≡ some s → Inv (forget s) × MaskInv s
unfolding Barrier.start start
run-MaskInv n es s h = run_from-Inv (start n) es s (start-Inv n) (start-MaskInv n) h
