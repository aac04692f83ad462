-- ===== src/Gpu/Barrier/Release.antt =====
-- gpu/gpu.go: when a generation of the block barrier is released, and what `wait` returns.
use simtgo.Base.{
  ℕ, ◌+◌, ◌<◌, ◌≡◌, ◌⊎◌, Bool, true, false, List, [], ◌∷◌, Option, some, none, arith, get_elem?,
  set,
}
use simtgo.Gpu.Threads.{
  Phase, running, waiting, gone, is_present, is_running, is_behind, is_released, waits_for,
  waits_beyond, count_if, count_if_split, count_if_find, count_if-pos,
}
use simtgo.Gpu.Barrier.{Block, Event, arrive, wake, timeout, leave, step, run, start}
use simtgo.Gpu.Barrier.Invariant.{Inv, timeout_waiting, run-Inv}

module _ (s : Block) (t : ℕ) (s' : Block) (r : Option Bool) (inv : Inv s) where
  -- An arrival releases the open generation exactly when the arriving thread was the only one still
  -- in the kernel that had not arrived.
  pub arrive_releases :
      step s (arrive t) ≡ some (s', r)
      → (count_if (is_behind s.bar.cur) s.threads ≡ 1)
          × (s'.bar.cur ≡ s.bar.cur + 1)
          × (r ≡ some true)
        ⊎ (1 < count_if (is_behind s.bar.cur) s.threads) × (s'.bar.cur ≡ s.bar.cur) × (r ≡ none)
  unfolding step
  arrive_releases h = ground (
    arith,
    inv,
    count_if_split s.bar.cur s.threads,
    count_if-pos (is_behind s.bar.cur) s.threads t running,
  )

  -- So does a departure, as long as somebody remains.
  pub leave_releases :
      step s (leave t) ≡ some (s', r)
      → 1 < s.bar.n
      → (count_if (is_behind s.bar.cur) s.threads ≡ 1) × (s'.bar.cur ≡ s.bar.cur + 1)
        ⊎ (1 < count_if (is_behind s.bar.cur) s.threads) × (s'.bar.cur ≡ s.bar.cur)
  unfolding step
  leave_releases h more = ground (
    arith,
    inv,
    count_if_split s.bar.cur s.threads,
    count_if-pos (is_behind s.bar.cur) s.threads t running,
  )

  -- A wait that gives up is never spurious: its generation is open, and some thread is behind.
  pub timeout_honest :
      step s (timeout t) ≡ some (s', some false)
      → (get_elem? s.threads t ≡ some (waiting s.bar.cur))
        × (0 < count_if (is_behind s.bar.cur) s.threads)
  unfolding step
  timeout_honest h =
      let (g, at) = timeout_waiting s t s' (some false) inv h in
      ground (
        arith,
        at,
        inv,
        count_if_split s.bar.cur s.threads,
        count_if-pos is_present s.threads t (waiting g),
      )

present-running-or-blocked :
    (c : ℕ) (xs : List Phase)
    → count_if is_present xs
      ≡ count_if is_running xs
        + count_if (waits_for c) xs
        + count_if (waits_beyond c) xs
        + count_if (is_released c) xs
unfolding count_if
present-running-or-blocked c [] = omega arith
present-running-or-blocked c (running ∷ xs) = omega (arith, present-running-or-blocked c xs)
present-running-or-blocked c (gone ∷ xs) = omega (arith, present-running-or-blocked c xs)
present-running-or-blocked c (waiting g ∷ xs) = ground (arith, present-running-or-blocked c xs)

wake_released :
    (s : Block) (t : ℕ) (a : Phase)
    → get_elem? s.threads t ≡ some a
    → is_released s.bar.cur a ≡ true
    → (s' : Block) × (step s (wake t) ≡ some (s', some true))
unfolding step
wake_released s t (waiting g) at h = (record s { threads = set s.threads t running }, ground arith)
wake_released s t running at h = cc
wake_released s t gone at h = cc

-- The barrier alone never deadlocks a block: when every thread still in the kernel is blocked in it,
-- one of them is on a closed generation and can wake up.
pub all_blocked_wakes :
    (n : ℕ) (es : List Event) (s : Block)
    → run (start n) es ≡ some s
    → 0 < count_if is_present s.threads
    → count_if is_running s.threads ≡ 0
    → (t : ℕ) × (s' : Block) × (step s (wake t) ≡ some (s', some true))
all_blocked_wakes n es s h some_left none_running =
    let inv = run-Inv n es s h in
    let (t, a, at, rel) =
      count_if_find (is_released s.bar.cur) s.threads
        (omega (arith, inv, present-running-or-blocked s.bar.cur s.threads)) in
    let (s', w) = wake_released s t a at rel in (t, s', w)
