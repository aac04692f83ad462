-- ===== src/Gpu/Launch/Warps.antt =====
-- gpu/gpu.go, gpu/warp.go: the warps and lanes of a block.
use simtgo.Base.{ℕ, ◌+◌, ◌*◌, ◌%◌, ◌<◌, ◌≡◌, ap, arith}
use simtgo.Gpu.Dim.{Dim, count, place}
use simtgo.Gpu.Dim.Laws.{flat-coord}
use simtgo.Gpu.Launch.{warp_size, warp_count, warp_lanes, warp_of, lane_of, lane_id}

-- Thread t of a block belongs to one of its warps, at a lane that the warp has.
pub thread_has_lane :
    (n t : ℕ)
    → t < n
    → (warp_of t < warp_count n)
      × (lane_of t < warp_lanes n (warp_of t))
      × (warp_of t * warp_size + lane_of t ≡ t)
unfolding warp_of warp_count lane_of warp_lanes
thread_has_lane n t h = omega arith

-- Each lane of each warp of a block is one thread of it.
pub lane_has_thread :
    (n w l : ℕ)
    → w < warp_count n
    → l < warp_lanes n w
    → let t = w * warp_size + l in (t < n) × (warp_of t ≡ w) × (lane_of t ≡ l)
unfolding warp_of warp_count lane_of warp_lanes
lane_has_thread n w l hw hl = (omega arith, omega arith, omega arith)

-- The lane that LaneID computes from a thread's position, in a block of any shape, is the slot that
-- runBlock gave the thread in its warp.
pub lane_id-place :
    (grid block : Dim) (b t : ℕ) → t < count block → lane_id (place grid block b t) ≡ lane_of t
unfolding lane_id lane_of place
lane_id-place grid block b t h =
    let (within, e) = flat-coord block t h in ap (λ (i : ℕ). i % warp_size) e
