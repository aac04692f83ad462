-- ===== src/Tile/Run/Ints.antt =====
-- tile/codegen.go: the ints of a generated kernel do not wrap for a signal that is short enough.
use simtgo.Base.{ℕ, ◌+◌, ◌-◌, ◌%◌, ◌≤◌, ◌<◌, ◌≡◌, true, ltb, arith}
use simtgo.Tile.Run.{int_lt}

pub int_lt-small : (a b : ℕ) → a < 2147483648 → b < 2147483648 → int_lt a b ≡ ltb a b
unfolding int_lt
int_lt-small a b ha hb =
    let p : (a + 2147483648) % 4294967296 ≡ a + 2147483648 = omega arith in
    let q : (b + 2147483648) % 4294967296 ≡ b + 2147483648 = omega arith in rw (p, q) (ground arith)

pub int_lt-negative : (a : ℕ) → 2147483648 ≤ a → a < 4294967296 → int_lt a 0 ≡ true
unfolding int_lt
int_lt-negative a ha hb =
    let p : (a + 2147483648) % 4294967296 ≡ a - 2147483648 = omega arith in rw p (ground arith)

pub source_of-inside :
    (base k count : ℕ)
    → base + k < 2147483648
    → 1 ≤ count
    → count - 1 ≤ base + k
    → (base + k + 4294967296 + 1 - count) % 4294967296 ≡ base + k - (count - 1)
source_of-inside base k count h one le = omega arith

pub source_of-before :
    (base k count : ℕ)
    → base + k < 2147483648
    → count ≤ 64
    → base + k < count - 1
    → 2147483648 ≤ (base + k + 4294967296 + 1 - count) % 4294967296
source_of-before base k count h le lt = omega arith
