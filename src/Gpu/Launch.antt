-- ===== src/Gpu/Launch.antt =====
-- gpu/gpu.go: RunCPU. runBlock divides a block into warps and collects its diagnosis; runCPU turns
-- away an empty grid and has workers drain the queue of blocks.
use simtgo.Base.{
  ℕ, zero, suc, ◌+◌, ◌-◌, ◌*◌, ◌/◌, ◌%◌, ◌≡◌, Bool, true, false, ◌&&◌, List, [], ◌∷◌, ◌++◌, Option,
  some, none, get_elem?, set, min, if◌then◌else◌, ℤ, pos, negsuc, is_pos, is_neg, pos_part,
}
use simtgo.Gpu.Dim.{Dim, count, flat, Place}
use simtgo.Gpu.Shared.{Diagnosis, BlockState, Call, do_calls, divergence, first, report}
pub mod Warps
pub mod Drain
pub mod Ends

abbrev pub warp_size : ℕ
warp_size = 32

-- The warps of a block of n threads, and the lanes of warp w.
unfoldable pub warp_count : ℕ → ℕ
warp_count n = (n + warp_size - 1) / warp_size

unfoldable pub warp_lanes : ℕ → ℕ → ℕ
warp_lanes n w = min warp_size (n - w * warp_size)

-- The warp and the lane of thread t.
unfoldable pub warp_of : ℕ → ℕ
warp_of t = t / warp_size

unfoldable pub lane_of : ℕ → ℕ
lane_of t = t % warp_size

-- Ctx.LaneID
unfoldable pub lane_id : Place → ℕ
lane_id c = flat c.tid c.bdim % warp_size

-- The dynamic tile's length, if the launch gave one.
abbrev pub DynSize : Type 0
DynSize = Option ℕ

dyn_len : DynSize → ℕ
dyn_len none = 0
dyn_len (some n) = n

dyn_given : DynSize → Bool
dyn_given none = false
dyn_given (some n) = true

zeros : ℕ → List ℕ
zeros = elim [ zero ↦ [] | suc (n → ih) ↦ 0 ∷ ih ]

unfoldable pub start_block : ℕ → DynSize → BlockState
unfolding dyn_len dyn_given zeros
start_block n dyn = record {
  slabs = [];
  seqs = zeros n;
  dyn = dyn_len dyn;
  dyn_sized = dyn_given dyn;
  fail = none;
}

report_divergence : Option Diagnosis → BlockState → BlockState
report_divergence none s = s
report_divergence (some d) s = report d s

-- The diagnosis of a block whose threads make these calls.
unfoldable pub run_block : Dim → DynSize → List (ℕ × Call) → Option Diagnosis
unfolding report_divergence
run_block block dyn calls =
    let s = do_calls (count block) calls (start_block (count block) dyn) in
    (report_divergence (divergence s.seqs) s).fail

-- A worker waits for a block, has received one and not yet looked at `fail`, or runs it.
pub data Worker : Type 0 where
  idle : Worker
  holds busy : ℕ → Worker

pub record Grid : Type 0 where
  pub queue : List ℕ
  pub workers : List Worker
  pub fail : Option Diagnosis
  pub ran : List (ℕ × Option Diagnosis)  -- the blocks that ran, in the order in which they ended
  pub skipped : List ℕ  -- the blocks that were drained

-- A worker receives a block, tests `fail`, or ends its block with a diagnosis.
pub data Move : Type 0 where
  receive look : ℕ → Move
  finish : ℕ → Option Diagnosis → Move

abbrev pub keep_first : Option Diagnosis → Option Diagnosis → Option Diagnosis
keep_first fail none = fail
keep_first none (some d) = some d
keep_first (some d') (some d) = some d'

receive_by : ℕ → Grid → Option Worker → List ℕ → Option Grid
receive_by w g (some idle) (b ∷ bs) =
    some (record g { queue = bs; workers = set g.workers w (holds b) })
receive_by w g _ _ = none

look_by : ℕ → Grid → Option Worker → Option Diagnosis → Option Grid
look_by w g (some (holds b)) none = some (record g { workers = set g.workers w (busy b) })
look_by w g (some (holds b)) (some d) =
    some (record g { workers = set g.workers w idle; skipped = g.skipped ++ b ∷ [] })
look_by w g _ _ = none

finish_by : ℕ → Option Diagnosis → Grid → Option Worker → Option Grid
finish_by w d g (some (busy b)) = some (record g {
  workers = set g.workers w idle;
  fail = keep_first g.fail d;
  ran = g.ran ++ (b, d) ∷ [];
})
finish_by w d g _ = none

unfoldable pub move : Grid → Move → Option Grid
unfolding receive_by look_by finish_by
move g (receive w) = receive_by w g (get_elem? g.workers w) g.queue
move g (look w) = look_by w g (get_elem? g.workers w) g.fail
move g (finish w d) = finish_by w d g (get_elem? g.workers w)

unfoldable pub moves : Grid → List Move → Option Grid
moves g [] = some g
moves g (m ∷ ms) = elim (move g m) [ none ↦ none | some g' ↦ moves g' ms ]

-- The numbers from b up, n of them.
unfoldable pub blocks_from : ℕ → ℕ → List ℕ
blocks_from b zero = []
blocks_from b (suc n) = b ∷ blocks_from (b + 1) n

idle_workers : ℕ → List Worker
idle_workers = elim [ zero ↦ [] | suc (n → ih) ↦ idle ∷ ih ]

-- The blocks of a grid queued in flat order, and the workers that drain them.
unfoldable pub start_grid : ℕ → ℕ → Grid
unfolding idle_workers
start_grid procs n = record {
  queue = blocks_from 0 n;
  workers = idle_workers (min procs n);
  fail = none;
  ran = [];
  skipped = [];
}

-- An extent as the caller gives it.
pub record Extent : Type 0 where
  pub x : ℤ
  pub y : ℤ
  pub z : ℤ

abbrev pub all_pos : Extent → Bool
all_pos e = is_pos e.x && is_pos e.y && is_pos e.z

abbrev pub to_dim : Extent → Dim
to_dim e = record { x = pos_part e.x; y = pos_part e.y; z = pos_part e.z }

-- What runCPU does before it starts a worker: panic, return at once, or drain a grid.
pub data Launch : Type 0 where
  bad_dyn : ℤ → Launch
  nothing : Launch
  drain : Dim → Dim → Grid → Launch

abbrev bad_size : Option ℤ → Option ℤ
bad_size none = none
bad_size (some (pos n)) = none
bad_size (some (negsuc n)) = some (negsuc n)

check_extents : ℕ → Extent → Extent → Option ℤ → Launch
check_extents procs grid block (some n) = bad_dyn n
check_extents procs grid block none =
    if all_pos grid
    then (if all_pos block
        then drain (to_dim grid) (to_dim block) (start_grid procs (count (to_dim grid)))
        else nothing)
    else nothing

unfoldable pub run_cpu : ℕ → Extent → Extent → Option ℤ → Launch
unfolding check_extents
run_cpu procs grid block dyn = check_extents procs grid block (bad_size dyn)
