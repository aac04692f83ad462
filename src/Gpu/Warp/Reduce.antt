-- ===== src/Gpu/Warp/Reduce.antt =====
-- kernels/warpreduce.go: five exchanges at halved distances leave the warp's total in lane 0.
use simtgo.Base.{
  ℕ, zero, suc, ◌+◌, ◌-◌, ◌^◌, ◌<◌, ◌≤◌, ◌≡◌, refl, ap, ◌∙◌, sym, arith, ◌+ℤ◌, lt→ltb,
}
use simtgo.Gpu.Launch.{warp_size}
use simtgo.Gpu.Warp.{reduce_round, warp_reduce}

module _ (plus : ℕ → ℕ → ℕ) where
  -- The total of f 0, …, f k, added in order.
  unfoldable pub total : ℕ → (ℕ → ℕ) → ℕ
  total zero f = f 0
  total (suc k) f = plus (total k f) (f (suc k))

  total_ext : (k : ℕ) (f g : ℕ → ℕ) → ((i : ℕ) → i ≤ k → f i ≡ g i) → total k f ≡ total k g
  unfolding total
  total_ext zero f g h = h 0 (omega arith)
  total_ext (suc k) f g h =
      rw (total_ext k f g (λ i lt. h i (omega arith)), h (suc k) (omega arith)) refl

  reduce_round_lem :
      (off : ℕ) (v : ℕ → ℕ) (l : ℕ)
      → l + off < warp_size
      → reduce_round plus off v l ≡ plus (v l) (v (l + off))
  unfolding reduce_round ◌+ℤ◌
  reduce_round_lem off v l h =
      let e : l + off - 0 ≡ l + off = omega arith in ground (arith, e, lt→ltb (l + off) 32)

module _ (plus : ℕ → ℕ → ℕ) where
  -- Sums of pairs, of pairs of pairs, and so on: after k rounds lane l has the sum of what lanes l and
  -- l + 2 ^ (5 - k) had before the last one.
  unfoldable pub tree : (ℕ → ℕ) → ℕ → ℕ → ℕ
  tree v zero l = v l
  tree v (suc k) l = plus (tree v k l) (tree v k (l + 2 ^ (4 - k)))

  reduce_round-pairs :
      (off : ℕ) (f g : ℕ → ℕ)
      → off + off ≤ warp_size
      → ((i : ℕ) → i < off + off → f i ≡ g i)
      → (l : ℕ) → l < off
      → reduce_round plus off f l ≡ plus (g l) (g (l + off))
  reduce_round-pairs off f g small h l lt =
      let a = h l (omega arith) in
      let b = h (l + off) (omega arith) in
      reduce_round_lem plus off f l (omega arith) ∙ rw (a, b) refl

  -- WarpReduceSum leaves in lane 0 the sum of the values that the 32 lanes of a full warp began with, in
  -- the order of the halved distances 16, 8, 4, 2, 1, each addition being of two sums of as many lanes;
  -- for any addition, that of float32 too, which is not associative.
  pub warp_reduce-tree : (v : ℕ → ℕ) → warp_reduce plus v 0 ≡ tree v 5 0
  unfolding warp_reduce tree
  warp_reduce-tree v =
      let v16 = reduce_round plus 16 v in
      let v8 = reduce_round plus 8 v16 in
      let v4 = reduce_round plus 4 v8 in
      let v2 = reduce_round plus 2 v4 in
      let r16 = reduce_round-pairs 16 v (tree v 0) (omega arith) (λ i lt. refl) in
      let r8 = reduce_round-pairs 8 v16 (tree v 1) (omega arith) r16 in
      let r4 = reduce_round-pairs 4 v8 (tree v 2) (omega arith) r8 in
      let r2 = reduce_round-pairs 2 v4 (tree v 3) (omega arith) r4 in
      reduce_round-pairs 1 v2 (tree v 4) (omega arith) r2 0 (omega arith)

module _ (plus : ℕ → ℕ → ℕ) (plus_comm : (a b : ℕ) → plus a b ≡ plus b a)
    (plus_assoc : (a b c : ℕ) → plus (plus a b) c ≡ plus a (plus b c)) where
  plus_swap : (a b c d : ℕ) → plus (plus a b) (plus c d) ≡ plus (plus a c) (plus b d)
  plus_swap a b c d = cc (
    plus_assoc a b (plus c d),
    plus_assoc b c d,
    plus_comm b c,
    plus_assoc c b d,
    plus_assoc a c (plus b d),
  )

  total_pairs :
      (k : ℕ) (f g : ℕ → ℕ)
      → total plus k (λ i. plus (f i) (g i)) ≡ plus (total plus k f) (total plus k g)
  unfolding total
  total_pairs zero f g = refl
  total_pairs (suc k) f g = rw (total_pairs k f g) (plus_swap _ _ _ _)

  total_split :
      (k m : ℕ) (f : ℕ → ℕ)
      → total plus (suc (m + k)) f ≡ plus (total plus k f) (total plus m (λ i. f (i + suc k)))
  unfolding total
  total_split k zero f =
      let e : 0 + k ≡ k = omega arith in let e' : 0 + suc k ≡ suc k = omega arith in rw (e, e') refl
  total_split k (suc m) f =
      let e : suc m + k ≡ suc (m + k) = omega arith in
      let e' : suc m + suc k ≡ suc (suc (m + k)) = omega arith in
      rw
        (
          e,
          e',
          ← plus_assoc (total plus k f) (total plus m (λ i. f (i + suc k))) (f (suc (suc (m + k)))),
        )
        (ap (λ (x : ℕ). plus x (f (suc (suc (m + k))))) (total_split k m f))

  -- One exchange folds the upper half of a range of lanes onto its lower half.
  total-round :
      (k : ℕ) (v : ℕ → ℕ)
      → suc (k + k) < warp_size
      → total plus k (reduce_round plus (suc k) v) ≡ total plus (suc (k + k)) v
  total-round k v h =
      total_ext plus k (reduce_round plus (suc k) v) (λ i. plus (v i) (v (i + suc k)))
        (λ i lt. reduce_round_lem plus (suc k) v i (omega arith))
      ∙ total_pairs k v (λ i. v (i + suc k))
      ∙ sym (total_split k k v)

  -- With an addition that is commutative and associative, WarpReduceSum leaves in lane 0 the total
  -- of the values that the 32 lanes of a full warp began with.
  pub warp_reduce-total : (v : ℕ → ℕ) → warp_reduce plus v 0 ≡ total plus 31 v
  unfolding warp_reduce total
  warp_reduce-total v =
      let v16 = reduce_round plus 16 v in
      let v8 = reduce_round plus 8 v16 in
      let v4 = reduce_round plus 4 v8 in
      let v2 = reduce_round plus 2 v4 in
      total-round 0 v2 (omega arith)
      ∙ total-round 1 v4 (omega arith)
      ∙ total-round 3 v8 (omega arith)
      ∙ total-round 7 v16 (omega arith)
      ∙ total-round 15 v (omega arith)
