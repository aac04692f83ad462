-- ===== src/Gpu/Barrier.antt =====
-- gpu/gpu.go: the block barrier behind SyncThreads (barrier, wait, releaseLocked, abandon). A step is
-- what one thread does under the barrier's lock, or its wake-up; a run is any interleaving of steps.
use simtgo.Base.{
  ℕ, suc, ◌+◌, ◌-◌, ◌<◌, ◌≡◌, Bool, true, false, ◌&&◌, List, [], ◌∷◌, Option, some, none, ltb, leb,
  ◌==◌, if◌then◌else◌, get_elem?, set,
}
use simtgo.Gpu.Threads.{Phase, running, waiting, gone}
pub mod Invariant
pub mod Release

pub record Barrier : Type 0 where
  pub n : ℕ  -- threads still in the kernel
  pub count : ℕ  -- threads arrived in the generation being assembled
  pub cur : ℕ  -- that generation; the earlier ones are closed

abbrev pub new_barrier : ℕ → Barrier
new_barrier n = record { n = n; count = 0; cur = 0 }

unfoldable pub release : Barrier → Barrier
release b = record b { count = 0; cur = b.cur + 1 }

-- The locked part of `wait`, and whether it returns true without blocking.
unfoldable pub enter : Barrier → Barrier × Bool
unfolding release
enter b =
    let b' = record b { count = b.count + 1 } in
    if leb b.n (b.count + 1) then (release b', true) else (b', false)

-- The timer of a wait on generation `gen` has fired: the barrier, and what `wait` returns.
unfoldable pub give_up : ℕ → Barrier → Barrier × Bool
give_up gen b = if b.cur == gen then (record b { count = b.count - 1 }, false) else (b, true)

unfoldable pub abandon : Barrier → Barrier
unfolding release
abandon b =
    let b' = record b { n = b.n - 1 } in
    if ltb 0 (b.n - 1) && leb (b.n - 1) b.count then release b' else b'

-- The barrier and the threads of its block.
pub record Block : Type 0 where
  pub bar : Barrier
  pub threads : List Phase

pub data Event : Type 0 where
  arrive wake timeout leave : ℕ → Event

-- What a step of thread t gives: the new state, and the result of its `wait` if that returned.
abbrev pub Outcome : Type 0
Outcome = Option (Block × Option Bool)

arrive_at : ℕ → Block → Option Phase → Outcome
arrive_at t s (some running) =
    let (b, now) = enter s.bar in
    if now
    then some (record s { bar = b }, some true)
    else some (record { bar = b; threads = set s.threads t (waiting s.bar.cur) }, none)
arrive_at t s _ = none

wake_at : ℕ → Block → Option Phase → Outcome
wake_at t s (some (waiting g)) =
    if ltb g s.bar.cur
    then some (record s { threads = set s.threads t running }, some true)
    else none
wake_at t s _ = none

timeout_at : ℕ → Block → Option Phase → Outcome
timeout_at t s (some (waiting g)) =
    let (b, ok) = give_up g s.bar in
    some (record { bar = b; threads = set s.threads t running }, some ok)
timeout_at t s _ = none

leave_at : ℕ → Block → Option Phase → Outcome
leave_at t s (some running) =
    some (record { bar = abandon s.bar; threads = set s.threads t gone }, none)
leave_at t s _ = none

-- `none` is a step that the thread cannot make where it stands.
unfoldable pub step : Block → Event → Outcome
unfolding arrive_at wake_at timeout_at leave_at enter give_up abandon
step s (arrive t) = arrive_at t s (get_elem? s.threads t)
step s (wake t) = wake_at t s (get_elem? s.threads t)
step s (timeout t) = timeout_at t s (get_elem? s.threads t)
step s (leave t) = leave_at t s (get_elem? s.threads t)

unfoldable pub run : Block → List Event → Option Block
run s [] = some s
run s (e ∷ es) = elim (step s e) [ none ↦ none | some (s', r) ↦ run s' es ]

unfoldable pub all_running : ℕ → List Phase
all_running = elim [ ℕ.zero ↦ [] | suc (n → ih) ↦ running ∷ ih ]

-- A block of n threads that starts a kernel.
unfoldable pub start : ℕ → Block
unfolding all_running
start n = record { bar = new_barrier n; threads = all_running n }
