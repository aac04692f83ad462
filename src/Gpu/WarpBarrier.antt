-- ===== src/Gpu/WarpBarrier.antt =====
-- gpu/warp.go: the barrier of one warp (warpBarrier, warpGen, wait, releaseLocked, abandon). A lane's
-- thread is numbered by its lane. A uint32 mask is its bits; the mask that a closed generation
-- published is kept under the generation's number.
use simtgo.Base.{
  ℕ, suc, ◌+◌, ◌-◌, ◌<◌, ◌≡◌, Bool, true, false, ◌&&◌, ◌||◌, not, List, [], ◌∷◌, Option, some, none,
  ltb, leb, ◌==◌, if◌then◌else◌, get_elem?, set,
}
use simtgo.Gpu.Threads.{Phase, running, waiting, gone}
use simtgo.Gpu.Barrier.{all_running, Barrier, Block, Event, arrive, wake, timeout, leave}
pub mod Refines
pub mod Masks
pub mod Returned

-- The bits of a uint32.
abbrev pub Mask : Type 0
Mask = ℕ → Bool

abbrev pub no_lanes : Mask
no_lanes l = false

-- mask | 1 << lane and mask &^ 1 << lane
unfoldable pub set_bit : Mask → ℕ → Mask
set_bit m lane l = m l || (l == lane)

unfoldable pub clear_bit : Mask → ℕ → Mask
clear_bit m lane l = m l && not (l == lane)

unfoldable pub publish : (ℕ → Mask) → ℕ → Mask → ℕ → Mask
publish p g m h = if h == g then m else p h

pub record WarpBarrier : Type 0 where
  pub n : ℕ  -- lanes still in the kernel
  pub count : ℕ  -- lanes arrived in the generation being assembled
  pub mask : Mask  -- which ones
  pub cur : ℕ  -- that generation
  pub published : ℕ → Mask  -- the masks of the closed ones

abbrev pub new_warp_barrier : ℕ → WarpBarrier
new_warp_barrier n = record {
  n = n;
  count = 0;
  mask = no_lanes;
  cur = 0;
  published = λ g. no_lanes;
}

unfoldable pub release : WarpBarrier → WarpBarrier
release b = record b {
  count = 0;
  mask = no_lanes;
  cur = b.cur + 1;
  published = publish b.published b.cur b.mask;
}

-- The locked part of `wait`: the barrier, and the mask if it returns without blocking.
unfoldable pub enter : ℕ → WarpBarrier → WarpBarrier × Option Mask
unfolding release
enter lane b =
    let b' = record b { mask = set_bit b.mask lane; count = b.count + 1 } in
    if leb b.n (b.count + 1) then (release b', some (set_bit b.mask lane)) else (b', none)

-- The timer of a wait on generation `gen` has fired: the barrier, and the mask that `wait` returns
-- if the generation was closed after all.
unfoldable pub give_up : ℕ → ℕ → WarpBarrier → WarpBarrier × Option Mask
give_up lane gen b =
    if b.cur == gen
    then (record b { mask = clear_bit b.mask lane; count = b.count - 1 }, none)
    else (b, some (b.published gen))

unfoldable pub abandon : WarpBarrier → WarpBarrier
unfolding release
abandon b =
    let b' = record b { n = b.n - 1 } in
    if ltb 0 (b.n - 1) && leb (b.n - 1) b.count then release b' else b'

pub record Warp : Type 0 where
  pub bar : WarpBarrier
  pub threads : List Phase

-- The result of a `wait` that returns: the mask, or `none` when it gave up.
abbrev pub Outcome : Type 0
Outcome = Option (Warp × Option (Option Mask))

arrive_at : ℕ → Warp → Option Phase → Outcome
arrive_at t s (some running) =
    let (b, now) = enter t s.bar in
    elim now [
      | some m ↦ some (record s { bar = b }, some (some m))
      | none ↦ some (record { bar = b; threads = set s.threads t (waiting s.bar.cur) }, none)
    ]
arrive_at t s _ = none

wake_at : ℕ → Warp → Option Phase → Outcome
wake_at t s (some (waiting g)) =
    if ltb g s.bar.cur
    then some (record s { threads = set s.threads t running }, some (some (s.bar.published g)))
    else none
wake_at t s _ = none

timeout_at : ℕ → Warp → Option Phase → Outcome
timeout_at t s (some (waiting g)) =
    let (b, m) = give_up t g s.bar in
    some (record { bar = b; threads = set s.threads t running }, some m)
timeout_at t s _ = none

leave_at : ℕ → Warp → Option Phase → Outcome
leave_at t s (some running) =
    some (record { bar = abandon s.bar; threads = set s.threads t gone }, none)
leave_at t s _ = none

unfoldable pub step : Warp → Event → Outcome
unfolding arrive_at wake_at timeout_at leave_at enter give_up abandon
step s (arrive t) = arrive_at t s (get_elem? s.threads t)
step s (wake t) = wake_at t s (get_elem? s.threads t)
step s (timeout t) = timeout_at t s (get_elem? s.threads t)
step s (leave t) = leave_at t s (get_elem? s.threads t)

unfoldable pub run : Warp → List Event → Option Warp
run s [] = some s
run s (e ∷ es) = elim (step s e) [ none ↦ none | some (s', r) ↦ run s' es ]

-- A warp of n lanes that starts a kernel.
unfoldable pub start : ℕ → Warp
start n = record { bar = new_warp_barrier n; threads = all_running n }

-- Forgetting the masks leaves a block barrier.
abbrev pub forget : Warp → Block
forget s = record {
  bar = record { n = s.bar.n; count = s.bar.count; cur = s.bar.cur };
  threads = s.threads;
}

abbrev got : Option Mask → Bool
got none = false
got (some m) = true

abbrev pub forget_result : Option (Option Mask) → Option Bool
forget_result none = none
forget_result (some m) = some (got m)

-- The lane has arrived at generation `c`.
abbrev pub arrived : ℕ → Option Phase → Bool
arrived c (some (waiting g)) = g == c
arrived c _ = false

-- The lane is still in the kernel.
abbrev pub here : Option Phase → Bool
here none = false
here (some running) = true
here (some (waiting g)) = true
here (some gone) = false
