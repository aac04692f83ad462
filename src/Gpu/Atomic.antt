-- ===== src/Gpu/Atomic.antt =====
-- gpu/atomic.go: atomic read-modify-write on an int32 buffer. Every operation runs under one lock, so a
-- launch's atomics are a sequence. An int32 is its bit pattern, a number below 2 ^ 32; an index
-- outside the buffer panics, which is `none`.
use simtgo.Base.{
  ℕ, zero, suc, ◌+◌, ◌%◌, ◌^◌, Bool, true, false, List, [], ◌∷◌, Option, some, none, ltb, ◌==◌,
  if◌then◌else◌, get_elem?, set, ℤ, pos, negsuc, ◌>>=◌,
}
pub mod Sums
pub mod Claims

abbrev pub i32_mod : ℕ
i32_mod = 2 ^ 32

-- The signed order on bit patterns.
unfoldable pub signed_lt : ℕ → ℕ → Bool
signed_lt a b = ltb ((a + 2 ^ 31) % i32_mod) ((b + 2 ^ 31) % i32_mod)

-- An operation, as what it stores over an old value.
pub data Atomic : Type 0 where
  add min_of max_of exch : ℕ → Atomic
  cas : ℕ → ℕ → Atomic

unfoldable pub stored : Atomic → ℕ → ℕ
unfolding signed_lt
stored (add v) old = (old + v) % i32_mod
stored (min_of v) old = if signed_lt v old then v else old
stored (max_of v) old = if signed_lt old v then v else old
stored (exch v) old = v
stored (cas c v) old = if old == c then v else old

update : List ℕ → ℕ → Atomic → Option ℕ → Option (List ℕ × ℕ)
update s i a none = none
update s i a (some old) = some (set s i (stored a old), old)

-- AtomicAddI32, AtomicMinI32, AtomicMaxI32, AtomicExchI32 and AtomicCASI32: the buffer after the
-- operation, and the value before it.
unfoldable pub atomic : List ℕ → ℤ → Atomic → Option (List ℕ × ℕ)
unfolding update
atomic s (negsuc i) a = none
atomic s (pos i) a = update s i a (get_elem? s i)

-- A sequence of operations, each on an element of the buffer, with what each returned.
unfoldable pub atomics : List ℕ → List (ℤ × Atomic) → Option (List ℕ × List ℕ)
atomics s [] = some (s, [])
atomics s ((i, a) ∷ ops) = do
  (s', old) ← atomic s i a
  (s'', olds) ← atomics s' ops
  some (s'', old ∷ olds)
