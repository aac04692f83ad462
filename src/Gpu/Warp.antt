-- ===== src/Gpu/Warp.antt =====
-- gpu/warp.go: what one lane reads at a rendezvous of its warp (shuffle, the Shuffle methods, vote,
-- Ballot, Any, All, ActiveMask and the check of meet), and kernels/warpreduce.go. The slots are as
-- the lanes filled them before they arrived, and the mask is the one that `wait` returned.
use Prim.Native.Nat.{bit_xor}
use simtgo.Base.{
  ℕ, zero, suc, ◌+◌, ◌-◌, ◌%◌, Bool, true, false, not, ◌&&◌, ◌||◌, Option, some, none, ltb, ◌==◌,
  if◌then◌else◌, ℤ, pos, negsuc, ◌-ℤ◌, ◌+ℤ◌,
}
use simtgo.Gpu.WarpBarrier.{Mask}
use simtgo.Gpu.Launch.{warp_size}
pub mod Votes
pub mod Reduce

-- The slots of a warp at a rendezvous: each lane's value and the operation it came for.
pub record Slots : Type 0 where
  pub vals : ℕ → ℕ
  pub ops : ℕ → ℕ
  pub mask : Mask

read_at : Slots → ℕ → ℤ → ℕ
read_at w v (negsuc s) = v
read_at w v (pos s) = if ltb s warp_size && w.mask s then w.vals s else v

-- The value that a lane with value v reads from lane `src`, once the warp has met.
unfoldable pub shuffle : Slots → ℕ → ℤ → ℕ
unfolding read_at
shuffle w v src = read_at w v src

-- srcLane & (WarpSize - 1)
unfoldable pub wrap_lane : ℤ → ℤ
wrap_lane (pos n) = pos (n % warp_size)
wrap_lane (negsuc n) = pos (warp_size - 1 - n % warp_size)

-- lane ^ laneMask
unfoldable pub xor_lane : ℕ → ℤ → ℤ
xor_lane lane (pos m) = pos (bit_xor lane m)
xor_lane lane (negsuc m) = negsuc (bit_xor lane m)

-- ShuffleI32, ShuffleXorI32, ShuffleUpI32 and ShuffleDownI32, and their float32 twins, which carry
-- the bits of a float through the same slots.
unfoldable pub shuffle_from : Slots → ℕ → ℤ → ℕ
unfolding shuffle wrap_lane
shuffle_from w v src = shuffle w v (wrap_lane src)

unfoldable pub shuffle_xor : Slots → ℕ → ℕ → ℤ → ℕ
unfolding shuffle xor_lane
shuffle_xor w lane v m = shuffle w v (xor_lane lane m)

unfoldable pub shuffle_up : Slots → ℕ → ℕ → ℤ → ℕ
unfolding shuffle
shuffle_up w lane v delta = shuffle w v (pos lane -ℤ delta)

unfoldable pub shuffle_down : Slots → ℕ → ℕ → ℤ → ℕ
unfolding shuffle
shuffle_down w lane v delta = shuffle w v (pos lane +ℤ delta)

-- The votes: bit l of `ballot`, and whether any or every bit below n is as asked.
unfoldable pub ballot : Slots → ℕ → Bool
ballot w l = w.mask l && not (w.vals l == 0)

unfoldable pub any_below : ℕ → (ℕ → Bool) → Bool
any_below zero p = false
any_below (suc n) p = p n || any_below n p

unfoldable pub all_below : ℕ → (ℕ → Bool) → Bool
all_below zero p = true
all_below (suc n) p = p n && all_below n p

abbrev pub same : Bool → Bool → Bool
same true b = b
same false b = not b

-- mask != 0
unfoldable pub any_lane : Slots → Bool
unfolding ballot any_below
any_lane w = any_below warp_size (ballot w)

-- mask == here, of a vote that took place
unfoldable pub all_lanes : Slots → Bool
unfolding ballot all_below
all_lanes w = all_below warp_size (λ l. same (ballot w l) (w.mask l))

-- Whether `meet` finds a lane that came for another operation.
unfoldable pub ops_differ : Slots → ℕ → Bool
unfolding any_below
ops_differ w op = any_below warp_size (λ l. w.mask l && not (w.ops l == op))

-- kernels/warpreduce.go: one exchange of the halving loop, for every lane of a full warp; `plus` is
-- the addition of the kernel's element type.
unfoldable pub reduce_round : (ℕ → ℕ → ℕ) → ℕ → (ℕ → ℕ) → ℕ → ℕ
unfolding shuffle_down
reduce_round plus off v l = plus (v l) (
    shuffle_down (record { vals = v; ops = λ i. 0; mask = λ i. ltb i warp_size }) l (v l) (pos off))

-- `for off := WarpSize / 2; off > 0; off /= 2`
unfoldable pub warp_reduce : (ℕ → ℕ → ℕ) → (ℕ → ℕ) → ℕ → ℕ
warp_reduce plus v =
    reduce_round plus 1
      (reduce_round plus 2 (reduce_round plus 4 (reduce_round plus 8 (reduce_round plus 16 v))))
