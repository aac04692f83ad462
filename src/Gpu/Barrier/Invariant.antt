-- ===== src/Gpu/Barrier/Invariant.antt =====
-- gpu/gpu.go: what holds of a block's barrier between two steps of its threads.
use simtgo.Base.{
  ℕ, zero, suc, ◌+◌, ◌<◌, ◌≤◌, ◌≡◌, refl, Bool, List, [], ◌∷◌, Option, some, none, arith, get_elem?,
  set, subst,
}
use simtgo.Gpu.Threads.{
  Phase, running, waiting, gone, is_present, waits_for, waits_beyond, bit, count_if, count_if-set,
  count_if_mono,
}
use simtgo.Gpu.Barrier.{Block, Event, arrive, wake, timeout, leave, step, run, start, all_running}

pub record Inv (s : Block) : Type 0 where
  -- n counts the threads that have not left the kernel
  pub n_eq : s.bar.n ≡ count_if is_present s.threads
  -- count counts the threads blocked on the open generation
  pub count_eq : s.bar.count ≡ count_if (waits_for s.bar.cur) s.threads
  -- no thread is blocked on a generation that has not begun
  pub none_beyond : count_if (waits_beyond s.bar.cur) s.threads ≡ 0
  -- a full generation never stays open
  pub not_full : 0 < s.bar.n → s.bar.count < s.bar.n

next-le-beyond : (c : ℕ) (a : Phase) → bit (waits_for (c + 1) a) ≤ bit (waits_beyond c a)
next-le-beyond c a = ground arith

beyond_suc : (c : ℕ) (a : Phase) → bit (waits_beyond (c + 1) a) ≤ bit (waits_beyond c a)
beyond_suc c a = ground arith

-- When a generation is closed, nobody waits for the next one.
fresh :
    (c : ℕ) (xs : List Phase)
    → count_if (waits_beyond c) xs ≡ 0
    → (count_if (waits_for (c + 1)) xs ≡ 0) × (count_if (waits_beyond (c + 1)) xs ≡ 0)
fresh c xs h = (
  omega (arith, count_if_mono (waits_for (c + 1)) (waits_beyond c) xs (next-le-beyond c)),
  omega (arith, count_if_mono (waits_beyond (c + 1)) (waits_beyond c) xs (beyond_suc c)),
)

module _ (s : Block) (t : ℕ) (s' : Block) (r : Option Bool) (inv : Inv s) where
  arrive-Inv : step s (arrive t) ≡ some (s', r) → Inv s'
  unfolding step
  arrive-Inv h = ground (
    arith,
    fresh s.bar.cur s.threads inv.none_beyond,
    count_if-set is_present s.threads t running (waiting s.bar.cur),
    count_if-set (waits_for s.bar.cur) s.threads t running (waiting s.bar.cur),
    count_if-set (waits_beyond s.bar.cur) s.threads t running (waiting s.bar.cur),
  )

  -- Only a blocked thread wakes up or gives up.
  pub wake_waiting :
      step s (wake t) ≡ some (s', r) → (g : ℕ) × (get_elem? s.threads t ≡ some (waiting g))
  unfolding step
  wake_waiting h = ground arith

  pub timeout_waiting :
      step s (timeout t) ≡ some (s', r) → (g : ℕ) × (get_elem? s.threads t ≡ some (waiting g))
  unfolding step
  timeout_waiting h = ground arith

  wake-Inv : step s (wake t) ≡ some (s', r) → Inv s'
  unfolding step
  wake-Inv h =
      let (g, at) = wake_waiting h in
      ground (
        arith,
        at,
        count_if-set is_present s.threads t (waiting g) running,
        count_if-set (waits_for s.bar.cur) s.threads t (waiting g) running,
        count_if-set (waits_beyond s.bar.cur) s.threads t (waiting g) running,
      )

  timeout-Inv : step s (timeout t) ≡ some (s', r) → Inv s'
  unfolding step
  timeout-Inv h =
      let (g, at) = timeout_waiting h in
      ground (
        arith,
        at,
        count_if-set is_present s.threads t (waiting g) running,
        count_if-set (waits_for s.bar.cur) s.threads t (waiting g) running,
        count_if-set (waits_beyond s.bar.cur) s.threads t (waiting g) running,
      )

  leave-Inv : step s (leave t) ≡ some (s', r) → Inv s'
  unfolding step
  leave-Inv h = ground (
    arith,
    fresh s.bar.cur (set s.threads t gone),
    count_if-set is_present s.threads t running gone,
    count_if-set (waits_for s.bar.cur) s.threads t running gone,
    count_if-set (waits_beyond s.bar.cur) s.threads t running gone,
  )

pub step-Inv :
    (s : Block) (e : Event) (s' : Block) (r : Option Bool)
    → Inv s
    → step s e ≡ some (s', r)
    → Inv s'
step-Inv s (arrive t) s' r inv h = arrive-Inv s t s' r inv h
step-Inv s (wake t) s' r inv h = wake-Inv s t s' r inv h
step-Inv s (timeout t) s' r inv h = timeout-Inv s t s' r inv h
step-Inv s (leave t) s' r inv h = leave-Inv s t s' r inv h

all_running_counts :
    (n : ℕ)
    → (count_if is_present (all_running n) ≡ n)
      × (count_if (waits_for 0) (all_running n) ≡ 0)
      × (count_if (waits_beyond 0) (all_running n) ≡ 0)
unfolding all_running count_if
all_running_counts zero = (refl, refl, refl)
all_running_counts (suc n) =
    let (p, q, r) = all_running_counts n in (omega arith, omega arith, omega arith)

pub start-Inv : (n : ℕ) → Inv (start n)
unfolding start
start-Inv n = ground (arith, all_running_counts n)

-- A run that goes on made its first step.
pub run-cons :
    (s : Block) (e : Event) (es : List Event) (s' : Block)
    → run s (e ∷ es) ≡ some s'
    → (s1 : Block) × (r : Option Bool) × (step s e ≡ some (s1, r)) × (run s1 es ≡ some s')
unfolding run
run-cons s e es s' h = go (step s e) refl h
  where
    go :
        (o : Option (Block × Option Bool))
        → step s e ≡ o
        → elim o [ none ↦ none | some (s1, r) ↦ run s1 es ] ≡ some s'
        → (s1 : Block) × (r : Option Bool) × (step s e ≡ some (s1, r)) × (run s1 es ≡ some s')
    go none e' h' = cc
    go (some (s1, r)) e' h' = (s1, r, e', h')

pub run_from-Inv : (s : Block) (es : List Event) (s' : Block) → Inv s → run s es ≡ some s' → Inv s'
unfolding run
run_from-Inv s [] s' inv h = let e : s ≡ s' = ground arith in subst Inv e inv
run_from-Inv s (e ∷ es) s' inv h =
    let (s1, r, e', h') = run-cons s e es s' h in
    run_from-Inv s1 es s' (step-Inv s e s1 r inv e') h'

-- Whatever the threads of a block do, and however their steps interleave: the barrier's n is the
-- number of threads still in the kernel, its count the number blocked on the open generation, no
-- thread is blocked on a later one, and no open generation is full.
pub run-Inv : (n : ℕ) (es : List Event) (s : Block) → run (start n) es ≡ some s → Inv s
run-Inv n es s h = run_from-Inv (start n) es s (start-Inv n) h
