-- ===== src/Tile/Run/Staging.antt =====
-- tile/codegen.go: after the staging loops of all threads of a block the tile is filled.
use simtgo.Base.{
  ℕ, zero, suc, ◌+◌, ◌*◌, ◌/◌, ◌%◌, ◌<◌, ◌≡◌, refl, subst, sym, ◌∙◌, ap, true, List, [], ◌∷◌, ltb,
  ◌==◌, ==_iff, ==_refl, arith, Bool-cases, inl, inr,
}
use simtgo.Tile.Graph.{block_width, max_taps}
use simtgo.Tile.Codegen.{member}
use simtgo.Tile.Run.{Arith, update, tile_extent, store_tile, stage_loop, stage}

module _ {F : Type 0} (A : Arith F) where
  pub update_self : (f : ℕ → F) (k : ℕ) (x : F) → update A f k x k ≡ x
  update_self f k x = rw (==_refl k) refl

  -- A round that writes what is wanted keeps it.
  pub update-keeps :
      (f w : ℕ → F) (k j : ℕ) (x : F) → ((j ≡ k) → x ≡ w j) → f j ≡ w j → update A f k x j ≡ w j
  update-keeps f w k j x h e = elim (Bool-cases (j == k)) [
    | inl q ↦ rw q (h ((==_iff j k).0 q))
    | inr q ↦ rw q e
  ]

  store_tile-keeps :
      (f w : ℕ → F) (k j : ℕ) (x : F) → ((j ≡ k) → x ≡ w j) → f j ≡ w j → store_tile A f k x j ≡ w j
  unfolding store_tile
  store_tile-keeps f w k j x h e = elim (Bool-cases (ltb k tile_extent)) [
    | inl q ↦ rw q (update-keeps f w k j x h e)
    | inr q ↦ rw q e
  ]

  store_tile_self : (f : ℕ → F) (k : ℕ) (x : F) → k < 320 → store_tile A f k x k ≡ x
  unfolding store_tile tile_extent block_width max_taps
  store_tile_self f k x h = let q : ltb k 320 ≡ true = ground arith in rw q (update_self f k x)

  -- Loops that write at j nothing but the value wanted there keep it.
  stage_loop-keeps :
      (v w : ℕ → F) (limit f k : ℕ) (tile : ℕ → F) (j : ℕ)
      → v j ≡ w j
      → tile j ≡ w j
      → stage_loop A v limit f k tile j ≡ w j
  unfolding stage_loop
  stage_loop-keeps v w limit zero k tile j hv h = h
  stage_loop-keeps v w limit (suc f) k tile j hv h = elim (Bool-cases (ltb k limit)) [
    | inl e ↦ rw e (
        stage_loop-keeps v w limit f (k + block_width) (store_tile A tile k (v k)) j hv
          (store_tile-keeps tile w k j (v k) (λ q. ap v (sym q) ∙ hv) h))
    | inr e ↦ rw e h
  ]

  -- Thread t writes each index j that lies a whole number q of rounds further.
  stage_loop-writes :
      (v w : ℕ → F) (limit f t q j : ℕ) (tile : ℕ → F)
      → j ≡ t + q * 256
      → q < f
      → j < limit
      → j < 320
      → v j ≡ w j
      → stage_loop A v limit f t tile j ≡ w j
  unfolding stage_loop block_width
  stage_loop-writes v w limit zero t q j tile ej lt small fits hv = elim lt [ ]
  stage_loop-writes v w limit (suc f) t zero j tile ej lt small fits hv =
      let e : ltb t limit ≡ true = ground arith in
      let tj : t ≡ j = omega (arith, ej) in
      let here : store_tile A tile t (v t) j ≡ w j =
        subst (λ x. store_tile A tile t (v t) x ≡ w x) tj
          (store_tile_self tile t (v t) (omega (arith, tj)) ∙ subst (λ x. v x ≡ w x) (sym tj) hv) in
      rw e (stage_loop-keeps v w limit f (t + block_width) (store_tile A tile t (v t)) j hv here)
  stage_loop-writes v w limit (suc f) t (suc q) j tile ej lt small fits hv =
      let e : ltb t limit ≡ true = ground arith in
      rw e (
        stage_loop-writes v w limit f (t + block_width) q j (store_tile A tile t (v t))
          (omega arith) (omega arith) small fits hv)

  stage-keeps :
      (v : ℕ → ℕ → F) (w : ℕ → F) (limit : ℕ) (ts : List ℕ) (tile : ℕ → F) (j : ℕ)
      → ((u : ℕ) → v u j ≡ w j)
      → tile j ≡ w j
      → stage A v limit ts tile j ≡ w j
  unfolding stage
  stage-keeps v w limit [] tile j hv h = h
  stage-keeps v w limit (t ∷ ts) tile j hv h =
      stage-keeps v w limit ts _ j hv (stage_loop-keeps (v t) w limit limit t tile j (hv t) h)

  -- When every thread of the block takes part, in whatever order, and they all want the same at j, the
  -- tile holds it.
  pub stage-fills :
      (v : ℕ → ℕ → F) (w : ℕ → F) (limit : ℕ) (ts : List ℕ) (tile : ℕ → F) (j : ℕ)
      → member (j % 256) ts ≡ true
      → j < limit
      → j < 320
      → ((u : ℕ) → v u j ≡ w j)
      → stage A v limit ts tile j ≡ w j
  unfolding stage
  stage-fills v w limit [] tile j m lt fits hv = cc
  stage-fills v w limit (t ∷ ts) tile j m lt fits hv = elim (Bool-cases (j % 256 == t)) [
    | inl e ↦
        let et = (==_iff (j % 256) t).0 e in
        let here =
          stage_loop-writes (v t) w limit limit t (j / 256) j tile (omega (arith, et))
            (omega (arith, lt)) lt fits (hv t) in
        stage-keeps v w limit ts _ j hv here
    | inr e ↦ stage-fills v w limit ts _ j (ground arith) lt fits hv
  ]
