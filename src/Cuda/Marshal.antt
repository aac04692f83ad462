-- ===== src/Cuda/Marshal.antt =====
-- cuda/driver_cuda.go: Function.launch, which lays the arguments out in one block of bytes for
-- cuLaunchKernel and passes the address of each. An address is an offset in that block.
use simtgo.Base.{ℕ, zero, suc, ◌+◌, ◌-◌, ◌*◌, ◌/◌, List, [], ◌∷◌, ltb, if◌then◌else◌, length}
use simtgo.Cuda.Args.{Arg}
pub mod Layout

abbrev pub max : ℕ → ℕ → ℕ
max a b = if ltb a b then b else a

-- The bytes that an argument takes: its width, at least 8, rounded up to 8.
unfoldable pub slot : Arg → ℕ
slot a = (max (length a) 8 + 8 - 1) / 8 * 8

-- The offsets of the arguments after `total` bytes, and the total they end at.
unfoldable pub offsets_from : ℕ → List Arg → List ℕ
unfolding slot
offsets_from total [] = []
offsets_from total (a ∷ l) = total ∷ offsets_from (total + slot a) l

unfoldable pub total_from : ℕ → List Arg → ℕ
unfolding slot
total_from total [] = total
total_from total (a ∷ l) = total_from (total + slot a) l

-- Go's copy at the start of a slice: it stops at the end of the shorter one.
unfoldable pub copy : List ℕ → List ℕ → List ℕ
copy [] b = []
copy (x ∷ st) [] = x ∷ st
copy (x ∷ st) (c ∷ b) = c ∷ copy st b

-- copy(store[o:], b)
unfoldable pub copy_at : List ℕ → ℕ → List ℕ → List ℕ
unfolding copy
copy_at st zero b = copy st b
copy_at [] (suc o) b = []
copy_at (x ∷ st) (suc o) b = x ∷ copy_at st o b

-- make([]byte, n)
unfoldable pub zeros : ℕ → List ℕ
zeros zero = []
zeros (suc n) = 0 ∷ zeros n

unfoldable pub fill : List ℕ → List ℕ → List Arg → List ℕ
unfolding copy_at
fill st [] l = st
fill st (o ∷ os) [] = st
fill st (o ∷ os) (a ∷ l) = fill (copy_at st o a) os l

-- The block of bytes, and the offset in it that each entry of the table points at.
unfoldable pub marshal : List Arg → List ℕ × List ℕ
unfolding offsets_from total_from zeros fill
marshal l =
    let offsets = offsets_from 0 l in (fill (zeros (max (total_from 0 l) 8)) offsets l, offsets)
