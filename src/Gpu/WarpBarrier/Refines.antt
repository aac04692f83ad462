-- ===== src/Gpu/WarpBarrier/Refines.antt =====
-- gpu/warp.go: the warp barrier steps as the block barrier does, and its mask names who arrived.
use simtgo.Base.{◌≡◌, Option, some, arith}
use simtgo.Gpu.Barrier.{Block, Event, arrive, wake, timeout, leave}
use simtgo.Gpu.Barrier
use simtgo.Gpu.WarpBarrier.{Mask, Warp, step, forget, forget_result}

-- The warp barrier refines the block barrier: a step of a warp is the same step of the block barrier
-- that forgets the masks, with the same answer.
pub step-forget :
    (s : Warp) (e : Event) (s' : Warp) (r : Option (Option Mask))
    → step s e ≡ some (s', r)
    → Barrier.step (forget s) e ≡ some (forget s', forget_result r)
unfolding step Barrier.step
step-forget s (arrive t) s' r h = ground arith
step-forget s (wake t) s' r h = ground arith
step-forget s (timeout t) s' r h = ground arith
step-forget s (leave t) s' r h = ground arith
