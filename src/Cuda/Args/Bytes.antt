-- ===== src/Cuda/Args/Bytes.antt =====
-- cuda/cuda.go: little-endian bytes, written and read back.
use simtgo.Base.{
  ℕ, zero, suc, ◌+◌, ◌-◌, ◌*◌, ◌/◌, ◌%◌, ◌^◌, ◌<◌, ◌≡◌, refl, ap, [], ◌∷◌, arith, length, ltb, true,
  false, ℤ, pos, negsuc, to_bits, signed,
}
use native.Mathlib.Nat.{pow-succ'}
use simtgo.Cuda.Args.{Arg, le_bytes, arg_i32}

-- The number that w little-endian bytes hold, as the device reads it.
unfoldable pub from_le : Arg → ℕ
from_le [] = 0
from_le (b ∷ bs) = b + 256 * from_le bs

pub length-le_bytes : (w v : ℕ) → length (le_bytes w v) ≡ w
unfolding le_bytes
length-le_bytes zero v = refl
length-le_bytes (suc w) v = ap suc (length-le_bytes w (v / 256))

pub from_le-le_bytes : (w v : ℕ) → v < 256 ^ w → from_le (le_bytes w v) ≡ v
unfolding le_bytes from_le
from_le-le_bytes zero v h = omega arith
from_le-le_bytes (suc w) v h =
    let e : 256 ^ suc w ≡ 256 * 256 ^ w = pow-succ' 256 w in
    let rec : from_le (le_bytes w (v / 256)) ≡ v / 256 =
      from_le-le_bytes w (v / 256) (omega arith) in
    omega arith

arg_i32-bytes : (v : ℤ) → arg_i32 v ≡ le_bytes 4 (to_bits 32 v)
unfolding arg_i32
arg_i32-bytes v = refl

-- An int32 is read back from the bytes that pass it.
pub signed-arg_i32 :
    (n : ℕ)
    → n < 2 ^ 31
    → (signed 32 (from_le (arg_i32 (pos n))) ≡ pos n)
      × (signed 32 (from_le (arg_i32 (negsuc n))) ≡ negsuc n)
unfolding signed to_bits
signed-arg_i32 n h =
    let p : n % 2 ^ 32 ≡ n = omega arith in
    let a = from_le-le_bytes 4 n (omega arith) in
    let b = from_le-le_bytes 4 (2 ^ 32 - 1 - n) (omega arith) in
    let c : ltb n (2 ^ 31) ≡ true = ground arith in
    let d : ltb (2 ^ 32 - 1 - n) (2 ^ 31) ≡ false = ground arith in
    let k : 2 ^ 32 - 1 - (2 ^ 32 - 1 - n) ≡ n = omega arith in
    (rw (arg_i32-bytes (pos n), p, a, c) refl, rw (arg_i32-bytes (negsuc n), p, b, d, k) refl)
