-- ===== src/Gpu/Shared.antt =====
-- gpu/shared.go, gpu/gpu.go: the shared tiles of one block (slab, sharedTile, dynamicTile), the block's
-- first diagnosis (blockState, report), AssumeBlockDim and divergence. A message is a value that
-- carries what the text is formatted from.
use simtgo.Base.{
  ℕ, zero, suc, ◌+◌, ◌≡◌, Bool, true, false, List, [], ◌∷◌, Option, some, none, ◌==◌, if◌then◌else◌,
  get_elem?, set,
}
pub mod Slabs
pub mod Agreement
pub mod Silent

-- The element types, one for each pair of constructors SharedT and SharedDynT.
pub data Elem : Type 0 where
  f32 f64 i32 i64 u32 u64 : Elem

pub elem_code : Elem → ℕ
elem_code f32 = 0
elem_code f64 = 1
elem_code i32 = 2
elem_code i64 = 3
elem_code u32 = 4
elem_code u64 = 5

-- The type assertion `s.buf.([]T)`.
unfoldable pub elem_eq : Elem → Elem → Bool
unfolding elem_code
elem_eq a b = elem_code a == elem_code b

-- The name of the constructor that was called.
pub data Kind : Type 0 where
  shared_static shared_dyn : Elem → Kind

-- A slab that some call has filled; one with `alloc` unset is `none`.
pub record Slab : Type 0 where
  pub elem : Elem
  pub kind : Kind
  pub size : ℕ

-- What a call hands out: the block's buffer of that call, a private one, or nil.
pub data Buffer : Type 0 where
  shared : ℕ → Buffer
  own : ℕ → Buffer
  nil : Buffer

pub data Diagnosis : Type 0 where
  type_mismatch : ℕ → ℕ → Kind → Kind → Diagnosis  -- call, thread, earlier, now
  size_mismatch : ℕ → ℕ → ℕ → ℕ → Diagnosis  -- call, thread, earlier, now
  dyn_not_sized : ℕ → Kind → Diagnosis
  block_mismatch : ℕ → ℕ → Diagnosis  -- declared, launched
  divergent : ℕ → ℕ → ℕ → Diagnosis  -- calls of thread 0, the other thread, its calls
  panicked stalled : ℕ → Diagnosis

pub record BlockState : Type 0 where
  pub slabs : List (Option Slab)
  pub seqs : List ℕ  -- each thread's shared-tile calls so far
  pub dyn : ℕ
  pub dyn_sized : Bool
  pub fail : Option Diagnosis

-- The first report wins.
unfoldable pub first : Option Diagnosis → Diagnosis → Option Diagnosis
first none d = some d
first (some d') d = some d'

unfoldable pub report : Diagnosis → BlockState → BlockState
unfolding first
report d s = record s { fail = first s.fail d }

-- `for len(slabs) <= i { append }`
unfoldable pub grow : List (Option Slab) → ℕ → List (Option Slab)
grow [] zero = none ∷ []
grow [] (suc i) = none ∷ grow [] i
grow (x ∷ xs) zero = x ∷ xs
grow (x ∷ xs) (suc i) = x ∷ grow xs i

-- The calls that thread t has made.
abbrev pub seq_of : Option ℕ → ℕ
seq_of none = 0
seq_of (some i) = i

abbrev pub slab_at : List (Option Slab) → ℕ → Option Slab
slab_at [] i = none
slab_at (x ∷ xs) zero = x
slab_at (x ∷ xs) (suc i) = slab_at xs i

-- The state has counted the call and grown the slabs; `o` is the slab of call i.
claim_slab : ℕ → ℕ → Elem → ℕ → Kind → BlockState → Option Slab → BlockState × Buffer
claim_slab t i e n k s none =
    (record s { slabs = set s.slabs i (some (record { elem = e; kind = k; size = n })) }, shared i)
claim_slab t i e n k s (some b) =
    if elem_eq b.elem e
    then (if b.size == n then (s, shared i) else (report (size_mismatch i t b.size n) s, own n))
    else (report (type_mismatch i t b.kind k) s, own n)

unfoldable pub shared_tile : ℕ → Elem → ℕ → Kind → BlockState → BlockState × Buffer
unfolding claim_slab report
shared_tile t e n k s =
    let i = seq_of (get_elem? s.seqs t) in
    let s' = record s { seqs = set s.seqs t (i + 1); slabs = grow s.slabs i } in
    claim_slab t i e n k s' (slab_at (grow s.slabs i) i)

unfoldable pub dynamic_tile : ℕ → Elem → BlockState → BlockState × Buffer
unfolding shared_tile report
dynamic_tile t e s =
    if s.dyn_sized
    then shared_tile t e s.dyn (shared_dyn e) s
    else (report (dyn_not_sized t (shared_dyn e)) s, nil)

-- Outside a launch there is no block: a static tile is private, and a dynamic one is empty.
unfoldable pub shared_tile_alone : ℕ → Buffer
shared_tile_alone n = own n

unfoldable pub assume_block_dim : ℕ → ℕ → BlockState → BlockState
unfolding report
assume_block_dim threads n s = if threads == n then s else report (block_mismatch n threads) s

-- What a thread does to its block's state. `stall` is a wait of the block's barrier or of a warp's
-- that gave up.
pub data Call : Type 0 where
  static : Elem → ℕ → Call
  dynamic : Elem → Call
  assume : ℕ → Call
  panic stall : Call

-- One call, by thread t of a block of `threads` threads, and the buffer it hands out.
unfoldable pub do_call : ℕ → ℕ → Call → BlockState → BlockState × Buffer
unfolding shared_tile dynamic_tile assume_block_dim report
do_call threads t (static e n) s = shared_tile t e n (shared_static e) s
do_call threads t (dynamic e) s = dynamic_tile t e s
do_call threads t (assume n) s = (assume_block_dim threads n s, nil)
do_call threads t panic s = (report (panicked t) s, nil)
do_call threads t stall s = (report (stalled t) s, nil)

-- The element type and the size that a call asks for, where it asks for a tile.
abbrev pub request : BlockState → Call → Option (Elem × ℕ)
request s (static e n) = some (e, n)
request s (dynamic e) = if s.dyn_sized then some (e, s.dyn) else none
request s _ = none

-- The number of thread t's next tile call.
abbrev pub next_call : BlockState → ℕ → ℕ
next_call s t = seq_of (get_elem? s.seqs t)

-- The first thread whose count differs from the first one's.
unfoldable pub diverges_from : ℕ → ℕ → List ℕ → Option Diagnosis
diverges_from want t [] = none
diverges_from want t (n ∷ ns) =
    let rest = diverges_from want (t + 1) ns in
    if n == want then rest else some (divergent want t n)

unfoldable pub divergence : List ℕ → Option Diagnosis
unfolding diverges_from
divergence [] = none
divergence (n ∷ ns) = diverges_from n 0 (n ∷ ns)

-- The calls of a block's threads, in the order in which they take the block's lock.
unfoldable pub do_calls : ℕ → List (ℕ × Call) → BlockState → BlockState
do_calls threads [] s = s
do_calls threads ((t, c) ∷ cs) s = do_calls threads cs (do_call threads t c s).0
