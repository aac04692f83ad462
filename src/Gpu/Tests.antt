-- ===== src/Gpu/Tests.antt =====
-- gpu/: the theorems about the emulator at concrete launches, and test runs of its model.
use simtgo.Base.{
  ℕ, ◌+◌, ◌%◌, ◌^◌, ◌<◌, ◌≡◌, ◌⊎◌, refl, Bool, true, false, List, [], ◌∷◌, some, none, arith, ℤ,
  pos, tally, All, get_elem?, length, ltb, ◌*◌, ◌||◌, ◌==◌, if◌then◌else◌, ◌≤◌, ◌-◌,
}
use simtgo.Gpu.Dim.{d1, d2, count, place, global_id}
use simtgo.Gpu.Threads
use simtgo.Gpu.Threads.{count_if, is_present, is_running, is_behind}
use simtgo.Gpu.Barrier
use simtgo.Gpu.Barrier.{Block, arrive, wake, leave, timeout}
use simtgo.Gpu.Barrier.Invariant
use simtgo.Gpu.WarpBarrier
use simtgo.Gpu.WarpBarrier.Refines.{step-forget}
use simtgo.Gpu.WarpBarrier.Returned
use simtgo.Gpu.WarpBarrier.Returned.{returned_masks}
use simtgo.Gpu.Atomic
use simtgo.Gpu.Atomic.Sums
use simtgo.Gpu.Atomic.Sums.{atomic_adds_total}
use simtgo.Gpu.Atomic.Claims
use simtgo.Gpu.Atomic.Claims.{cas_one_winner}
use simtgo.Gpu.Warp
use simtgo.Gpu.Warp.Votes
use simtgo.Gpu.Warp.Votes.{all_lanes_iff}
use simtgo.Gpu.Warp.Reduce
use simtgo.Gpu.Warp.Reduce.{warp_reduce-tree}
use simtgo.Gpu.Launch
use simtgo.Gpu.Launch.Drain
use simtgo.Gpu.Launch.Ends
use simtgo.Gpu.Launch.Ends.{launch_clean, moves_bounded, launch_goes_on}
use simtgo.Gpu.Launch.Warps.{lane_id-place}
use simtgo.Gpu.Shared
use simtgo.Gpu.Shared.Agreement.{tiles_agree}
use simtgo.Gpu.Shared.Silent
use simtgo.Gpu.Shared.Silent.{planned_silent}
use simtgo.Gpu.Barrier.Release.{arrive_releases, all_blocked_wakes}

-- Two threads of three have arrived at the barrier, and the third leaves the kernel.
abbrev two_and_a_leaver : List Barrier.Event
two_and_a_leaver = arrive 0 ∷ arrive 1 ∷ leave 2 ∷ []

abbrev after_leaver : Block
after_leaver = record {
  bar = record { n = 2; count = 0; cur = 1 };
  threads = Threads.waiting 0 ∷ Threads.waiting 0 ∷ Threads.gone ∷ [];
}

run_leaver : Barrier.run (Barrier.start 3) two_and_a_leaver ≡ some after_leaver
unfolding Barrier.run Barrier.start Barrier.step
run_leaver = refl

run-Inv_example : Invariant.Inv after_leaver
run-Inv_example = Invariant.run-Inv 3 two_and_a_leaver after_leaver run_leaver

blocked_counts :
    (0 < count_if is_present after_leaver.threads) × (count_if is_running after_leaver.threads ≡ 0)
unfolding count_if
blocked_counts = omega arith

all_blocked_wakes_example :
    (t : ℕ) × (s' : Block) × (Barrier.step after_leaver (wake t) ≡ some (s', some true))
all_blocked_wakes_example =
    all_blocked_wakes 3 two_and_a_leaver after_leaver run_leaver blocked_counts.0 blocked_counts.1

abbrev one_waits : Block
one_waits = record {
  bar = record { n = 2; count = 1; cur = 0 };
  threads = Threads.waiting 0 ∷ Threads.running ∷ [];
}

run-one_waits : Barrier.run (Barrier.start 2) (arrive 0 ∷ []) ≡ some one_waits
unfolding Barrier.run Barrier.start Barrier.step
run-one_waits = refl

abbrev assembled : Block
assembled = record one_waits { bar = record { n = 2; count = 0; cur = 1 } }

second_arrives : Barrier.step one_waits (arrive 1) ≡ some (assembled, some true)
unfolding Barrier.step
second_arrives = refl

arrive_releases_example :
    (count_if (is_behind 0) one_waits.threads ≡ 1)
      × (assembled.bar.cur ≡ 0 + 1)
      × (some true ≡ some true)
    ⊎ (1 < count_if (is_behind 0) one_waits.threads) × (assembled.bar.cur ≡ 0) × (some true ≡ none)
arrive_releases_example =
    arrive_releases one_waits 1 assembled (some true)
      (Invariant.run-Inv 2 (arrive 0 ∷ []) one_waits run-one_waits) second_arrives

-- The same two lanes at the barrier of a warp.
abbrev lanes_01 : WarpBarrier.Mask
lanes_01 l = (false || (l == 0)) || (l == 1)

abbrev lane_waits : WarpBarrier.Warp
lane_waits = record {
  bar = record {
    n = 2;
    count = 1;
    mask = λ l. false || (l == 0);
    cur = 0;
    published = λ g l. false;
  };
  threads = Threads.waiting 0 ∷ Threads.running ∷ [];
}

abbrev lanes_met : WarpBarrier.Warp
lanes_met = record lane_waits {
  bar = record {
    n = 2;
    count = 0;
    mask = λ l. false;
    cur = 1;
    published = λ g. if g == 0 then lanes_01 else (λ l. false);
  };
}

run-lane_waits : WarpBarrier.run (WarpBarrier.start 2) (arrive 0 ∷ []) ≡ some lane_waits
unfolding WarpBarrier.run WarpBarrier.start WarpBarrier.step WarpBarrier.set_bit Barrier.all_running
run-lane_waits = refl

second_lane : WarpBarrier.step lane_waits (arrive 1) ≡ some (lanes_met, some (some lanes_01))
unfolding WarpBarrier.step WarpBarrier.set_bit WarpBarrier.publish
second_lane = refl

step-forget_example :
    Barrier.step (WarpBarrier.forget lane_waits) (arrive 1)
    ≡ some (WarpBarrier.forget lanes_met, some true)
step-forget_example = step-forget lane_waits (arrive 1) lanes_met (some (some lanes_01)) second_lane

returned_masks_example :
    (lanes_met.bar.cur ≡ 0 + 1
      → (l : ℕ) → lanes_met.bar.published 0 l ≡ WarpBarrier.here (get_elem? lanes_met.threads l))
    × ((g : ℕ) → g < 0 → lanes_met.bar.published g ≡ lane_waits.bar.published g)
    × ((m : WarpBarrier.Mask)
        → some (some lanes_01) ≡ some (some m)
        → (g : ℕ) × (Returned.wait_of lane_waits (arrive 1) ≡ some g)
          × (g < lanes_met.bar.cur)
          × (m ≡ lanes_met.bar.published g))
    × ((l g : ℕ)
        → get_elem? lanes_met.threads l ≡ some (Threads.waiting g)
        → (get_elem? lane_waits.threads l ≡ some (Threads.waiting g))
          ⊎ ((arrive 1 ≡ arrive l) × (g ≡ 0)))
returned_masks_example =
    returned_masks 2 (arrive 0 ∷ []) lane_waits (arrive 1) lanes_met (some (some lanes_01))
      run-lane_waits second_lane

-- Two threads ask for one tile of four floats.
abbrev fresh : Shared.BlockState
fresh = record { slabs = []; seqs = 0 ∷ 0 ∷ []; dyn = 0; dyn_sized = false; fail = none }

abbrev tile_call : Shared.Call
tile_call = Shared.static Shared.f32 4

both_quiet :
    (Shared.do_calls 2 []
      (Shared.do_call 2 1 tile_call
        (Shared.do_calls 2 [] (Shared.do_call 2 0 tile_call fresh).0)).0).fail
    ≡ none
unfolding Shared.do_calls Shared.do_call Shared.elem_eq Shared.grow
both_quiet = refl

counted :
    Shared.next_call (Shared.do_calls 2 [] (Shared.do_call 2 0 tile_call fresh).0) 1
    ≡ Shared.next_call fresh 0
unfolding Shared.do_calls Shared.do_call Shared.grow
counted = refl

tiles_agree_example :
    (Shared.f32 ≡ Shared.f32)
    × (◌≡◌ {A = ℕ} 4 4)
    × ((Shared.do_call 2 0 tile_call fresh).1 ≡ Shared.shared 0)
    × ((Shared.do_call 2 1 tile_call
          (Shared.do_calls 2 [] (Shared.do_call 2 0 tile_call fresh).0)).1
        ≡ Shared.shared 0)
tiles_agree_example =
    tiles_agree 2 0 1 tile_call tile_call [] [] fresh Shared.f32 Shared.f32 4 4 refl refl counted
      both_quiet

abbrev floats : Silent.Plan
floats i = (Shared.f32, 4)

two_calls_fit :
    Silent.AllFit floats 2 ((0, tile_call) ∷ (1, tile_call) ∷ (1, Shared.assume 2) ∷ []) fresh
two_calls_fit = (refl, (refl, (refl, tt)))

planned_silent_example :
    (Shared.do_calls 2 ((0, tile_call) ∷ (1, tile_call) ∷ (1, Shared.assume 2) ∷ []) fresh).fail
    ≡ none
planned_silent_example =
    planned_silent floats 2 ((0, tile_call) ∷ (1, tile_call) ∷ (1, Shared.assume 2) ∷ []) fresh
      (λ j b h. absurd (cc h)) refl two_calls_fit

-- One worker runs the two blocks of a grid.
abbrev one_worker : List Launch.Move
one_worker =
    Launch.receive 0
    ∷ Launch.look 0
    ∷ Launch.finish 0 none
    ∷ Launch.receive 0
    ∷ Launch.look 0
    ∷ Launch.finish 0 none
    ∷ []

abbrev both_ran : Launch.Grid
both_ran = record {
  queue = [];
  workers = Launch.idle ∷ [];
  fail = none;
  ran = (0, none) ∷ (1, none) ∷ [];
  skipped = [];
}

run_one_worker : Launch.moves (Launch.start_grid 1 2) one_worker ≡ some both_ran
unfolding Launch.moves Launch.start_grid Launch.move Launch.blocks_from
run_one_worker = refl

launch_clean_example :
    ((b : ℕ) → b < 2 → tally (Drain.ran_as b) both_ran.ran ≡ 1)
    × All (λ r. r.1 ≡ none) both_ran.ran
    × (both_ran.skipped ≡ [])
launch_clean_example = launch_clean 1 2 one_worker both_ran run_one_worker refl (refl, tt) refl

moves_bounded_example : length one_worker ≤ 3 * 2
moves_bounded_example = moves_bounded 1 2 one_worker both_ran run_one_worker

launch_goes_on_example :
    (both_ran.queue ≡ []) × Ends.IsIdle both_ran.workers
    ⊎ ((m : Launch.Move) × (g' : Launch.Grid) × (Launch.move both_ran m ≡ some g'))
launch_goes_on_example =
    launch_goes_on 1 2 one_worker both_ran (omega arith) (omega arith) run_one_worker

-- Thread 33 of a 16 by 16 block is lane 1 of its warp.
in_block : 33 < count (d2 16 16)
unfolding count
in_block = omega arith

lane_id-place_example : Launch.lane_id (place (d1 1) (d2 16 16) 0 33) ≡ Launch.lane_of 33
lane_id-place_example = lane_id-place (d1 1) (d2 16 16) 0 33 in_block

same_id : global_id (place (d1 4) (d1 32) 2 7) ≡ global_id (place (d1 4) (d1 32) 2 7)
same_id = refl

-- Three additions to two counters, in one of their orders.
abbrev three_adds : List (ℤ × ℕ)
three_adds = (pos 1, 5) ∷ (pos 0, 1) ∷ (pos 1, 2 ^ 32 - 2) ∷ []

run_three_adds :
    Atomic.atomics (10 ∷ 20 ∷ []) (Sums.as_adds three_adds) ≡ some (11 ∷ 23 ∷ [], 20 ∷ 10 ∷ 25 ∷ [])
unfolding Atomic.atomics Atomic.atomic Atomic.stored
run_three_adds = refl

atomic_adds_total_example :
    get_elem? (11 ∷ 23 ∷ []) 1 ≡ some ((20 + Sums.added_to 1 three_adds) % Atomic.i32_mod)
atomic_adds_total_example =
    atomic_adds_total (10 ∷ 20 ∷ []) three_adds (11 ∷ 23 ∷ []) (20 ∷ 10 ∷ 25 ∷ []) 1 20
      run_three_adds refl (omega arith)

-- Two threads swap element 1 from 0, around an addition to element 0.
abbrev swaps : List (ℤ × Atomic.Atomic)
swaps = (pos 1, Atomic.cas 0 7) ∷ (pos 0, Atomic.add 5) ∷ (pos 1, Atomic.cas 0 8) ∷ []

abbrev swapped : List ℕ
swapped = 15 ∷ 7 ∷ []

run_swaps : Atomic.atomics (10 ∷ 0 ∷ []) swaps ≡ some (15 ∷ 7 ∷ [], 0 ∷ 10 ∷ 7 ∷ [])
unfolding Atomic.atomics Atomic.atomic Atomic.stored
run_swaps = refl

cas_one_winner_example :
    (tally (Claims.won 0) (Sums.returned_on 1 swaps (0 ∷ 10 ∷ 7 ∷ [])) ≡ 1)
    × (get_elem? swapped 1 ≡ some 7)
cas_one_winner_example =
    cas_one_winner (10 ∷ 0 ∷ []) swaps (15 ∷ 7 ∷ []) (0 ∷ 10 ∷ 7 ∷ []) 1 0 7 (8 ∷ []) run_swaps refl
      refl (omega arith)

-- Three lanes of a warp vote, two of them present.
abbrev votes : Warp.Slots
votes = record {
  vals = λ l. if l == 0 then 1 else (if l == 1 then 1 else 0);
  ops = λ l. 0;
  mask = λ l. ltb l 2;
}

abbrev pred : ℕ → Bool
pred l = ltb l 2

votes_are_cast : Votes.Votes votes pred
votes_are_cast l here = (ground arith, ground arith)

-- An operation that is not associative.
abbrev skewed : ℕ → ℕ → ℕ
skewed a b = a + 2 * b

warp_reduce-tree_example : Warp.warp_reduce skewed (λ l. l) 0 ≡ Reduce.tree skewed (λ l. l) 5 0
warp_reduce-tree_example = warp_reduce-tree skewed (λ l. l)
