-- ===== src/Tile/Tests.antt =====
-- tile/: the theorems about graphs and their kernels at a concrete graph, over whole numbers.
use simtgo.Base.{
  some, ◌≤◌, ℕ, zero, suc, ◌+◌, ◌*◌, ◌<◌, ◌≡◌, refl, true, List, [], ◌∷◌, Bool-cases, inl, inr,
  ◌==◌, arith, none,
}
use simtgo.Cuda.Args.{Value, slice}
use simtgo.Simt.Alias.{range_of}
use simtgo.Tile.Alias.{check_aliasing, MeetsAt, check_aliasing-meets}
use simtgo.Tile.Graph.{Graph, Tensor, call_input, call_fir, build}
use simtgo.Tile.Graph.WellBuilt.{Built, build-Built}
use simtgo.Tile.Codegen.{member, order_of}
use simtgo.Tile.Codegen.Order.{Done, order_of-Done}
use simtgo.Tile.Run.{Arith, value, materialize, grid_of}
use simtgo.Tile.Run.Fused.{Block, materialize-value}

abbrev whole : Arith ℕ
whole = record {
  zero_f = 0;
  plus = λ x y. x + y;
  times = λ x y. x * y;
  hypot_of = λ x y. x + y;
  sqrt_of = λ x. x;
  abs_of = λ x. x;
  literal = λ x. x;
}

abbrev up_to : ℕ → List ℕ
up_to zero = []
up_to (suc n) = n ∷ up_to n

member-up_to : (n t : ℕ) → t < n → member t (up_to n) ≡ true
member-up_to zero t h = elim h [ ]
member-up_to (suc n) t h = elim (Bool-cases (t == n)) [
  | inl e ↦ ground arith
  | inr e ↦ let r = member-up_to n t (ground arith) in ground arith
]

up_to-below : (n t : ℕ) → member t (up_to n) ≡ true → t < n
up_to-below zero t h = cc
up_to-below (suc n) t h = elim (Bool-cases (t == n)) [
  | inl e ↦ ground arith
  | inr e ↦ let r = up_to-below n t (ground arith) in omega (arith, r)
]

all_threads : Block (up_to 256)
all_threads = ((λ t h. member-up_to 256 t h), (λ t h. up_to-below 256 t h))

abbrev empty : Graph ℕ
empty = record { key = 0; nodes = []; err = none }

-- A signal of three samples, and the window 1, 10 over its root.
abbrev with_signal : Graph ℕ × Tensor ℕ
with_signal = build (call_input (1 ∷ 2 ∷ 3 ∷ [])) empty

signal-Built : Built empty with_signal
signal-Built = build-Built (call_input (1 ∷ 2 ∷ 3 ∷ [])) empty (λ i m e. cc) tt

abbrev with_window : Graph ℕ × Tensor ℕ
with_window = build (call_fir with_signal.1 (1 ∷ 10 ∷ [])) with_signal.0

build-Built_example : Built with_signal.0 with_window
build-Built_example =
    build-Built (call_fir with_signal.1 (1 ∷ 10 ∷ [])) with_signal.0 signal-Built.0 signal-Built.1

below_one : (b : ℕ) → b < 1 → member b (0 ∷ []) ≡ true
below_one b h = ground arith

only_zero : (b : ℕ) → member b (0 ∷ []) ≡ true → b < 1
only_zero b h = ground arith

-- 1 * 3 + 10 * 2
window_at_two : value whole with_window.1.node 2 ≡ 23
unfolding value build
window_at_two = refl

materialize-value_example :
    materialize whole with_window.1.node (up_to 256) (0 ∷ []) (λ k. 7) (λ i. 7) 2
    ≡ value whole with_window.1.node 2
unfolding build grid_of
materialize-value_example =
    materialize-value whole with_window.0.nodes with_window.1.node (up_to 256) (0 ∷ []) (λ k. 7)
      (λ i. 7) 2 build-Built_example.0 build-Built_example.1.1 (tt, tt, tt) (omega arith)
      all_threads ((λ b lt. below_one b lt), (λ b m. only_zero b m)) (omega arith)

order_of-Done_example : Done (order_of with_window.1.node) with_window.1.node
unfolding build
order_of-Done_example =
    order_of-Done with_window.0.nodes with_window.1.node
      ((refl, (omega arith, omega arith)), ((refl, tt)), (refl, tt))

-- The second input begins in the middle of the output.
abbrev out_buffer : Value
out_buffer = slice (record { ptr = 4096; n = 16; size = 4 })

abbrev in_buffers : List Value
in_buffers =
    slice (record { ptr = 8192; n = 16; size = 4 })
    ∷ slice (record { ptr = 4128; n = 16; size = 4 })
    ∷ []

check_aliasing-meets_example :
    (k : ℕ) × (check_aliasing (out_buffer ∷ in_buffers) ≡ some k)
    × (k ≤ 1)
    × MeetsAt 4096 64 in_buffers k
unfolding range_of
check_aliasing-meets_example =
    check_aliasing-meets out_buffer in_buffers 4096 64 1 refl (omega arith) (omega arith)
      (omega arith, (omega arith, tt))
      (
        slice (record { ptr = 4128; n = 16; size = 4 }),
        4128,
        64,
        refl,
        refl,
        (4130, (omega arith, omega arith), (omega arith, omega arith)),
      )
