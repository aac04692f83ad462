-- ===== src/Tile/Run/Writes.antt =====
-- tile/codegen.go: what the threads of a block write to the output.
use simtgo.Base.{
  ℕ, ◌+◌, ◌%◌, ◌≤◌, ◌<◌, if◌then◌else◌, ◌≡◌, refl, sym, ◌∙◌, ap, subst, true, List, [], ◌∷◌, ltb,
  ltb→lt, ◌==◌, ==_iff, arith, Bool-cases, inl, inr,
}
use simtgo.Tile.Codegen.{member, Source}
use simtgo.Tile.Run.{Arith, run_expr, update, write_out}
use simtgo.Tile.Run.Ints.{int_lt-small}
use simtgo.Tile.Run.Staging.{update_self, update-keeps}
use simtgo.Tile.Run.Listed.{self-member}

module _ {F : Type 0} where
  -- What write_out does where its ints do not wrap.
  unfoldable pub write_plain : Arith F → Source F → ℕ → ℕ → (ℕ → ℕ → F) → List ℕ → (ℕ → F) → ℕ → F
  write_plain A src base n envs [] out = out
  write_plain A src base n envs (t ∷ ts) out =
      let v = run_expr A src.inputs (envs t) (base + t) src.body in
      write_plain A src base n envs ts (if ltb (base + t) n then update A out (base + t) v else out)

  pub write_out-write_plain :
      (A : Arith F) (src : Source F) (base n : ℕ) (envs : ℕ → ℕ → F) (ts : List ℕ) (out : ℕ → F)
      → base + 512 ≤ 2147483648
      → n < 2147483648
      → ((t : ℕ) → member t ts ≡ true → t < 256)
      → write_out A src base n envs ts out ≡ write_plain A src base n envs ts out
  unfolding write_out write_plain
  write_out-write_plain A src base n envs [] out hb hn below = refl
  write_out-write_plain A src base n envs (t ∷ ts) out hb hn below =
      let small : t < 256 = below t (self-member t ts) in
      let later : (u : ℕ) → member u ts ≡ true → u < 256 = λ u m. below u (ground arith) in
      let i : (base + t) % 4294967296 ≡ base + t = omega (arith, hb, small) in
      let c = int_lt-small (base + t) n (omega (arith, hb, small)) hn in
      rw (i, c) (write_out-write_plain A src base n envs ts _ hb hn later)

  pub write_plain-keeps :
      (A : Arith F) (src : Source F) (base n : ℕ) (envs : ℕ → ℕ → F) (ts : List ℕ) (w out : ℕ → F)
      (i : ℕ)
      → ((t : ℕ)
          → member t ts ≡ true
          → base + t < n
          → run_expr A src.inputs (envs t) (base + t) src.body ≡ w (base + t))
      → out i ≡ w i
      → write_plain A src base n envs ts out i ≡ w i
  unfolding write_plain
  write_plain-keeps A src base n envs [] w out i hv h = h
  write_plain-keeps A src base n envs (t ∷ ts) w out i hv h =
      let later : (u : ℕ)
          → member u ts ≡ true
          → base + u < n
          → run_expr A src.inputs (envs u) (base + u) src.body ≡ w (base + u) =
        λ u m lt. hv u (ground arith) lt in
      elim (Bool-cases (ltb (base + t) n)) [
        | inl e ↦
            let v = hv t (self-member t ts) (ltb→lt (base + t) n e) in
            rw e (
              write_plain-keeps A src base n envs ts w _ i later
                (update-keeps A out w (base + t) i _ (λ q. v ∙ ap w (sym q)) h))
        | inr e ↦ rw e (write_plain-keeps A src base n envs ts w out i later h)
      ]

  pub write_plain-writes :
      (A : Arith F) (src : Source F) (base n : ℕ) (envs : ℕ → ℕ → F) (ts : List ℕ) (w out : ℕ → F)
      (u : ℕ)
      → ((t : ℕ)
          → member t ts ≡ true
          → base + t < n
          → run_expr A src.inputs (envs t) (base + t) src.body ≡ w (base + t))
      → member u ts ≡ true
      → base + u < n
      → write_plain A src base n envs ts out (base + u) ≡ w (base + u)
  unfolding write_plain
  write_plain-writes A src base n envs [] w out u hv m lt = cc
  write_plain-writes A src base n envs (t ∷ ts) w out u hv m lt =
      let later : (x : ℕ)
          → member x ts ≡ true
          → base + x < n
          → run_expr A src.inputs (envs x) (base + x) src.body ≡ w (base + x) =
        λ x mx l. hv x (ground arith) l in
      elim (Bool-cases (u == t)) [
        | inl q ↦
            let eq : t ≡ u = sym ((==_iff u t).0 q) in
            let e : ltb (base + t) n ≡ true = ground arith in
            let v = hv t (self-member t ts) (ltb→lt (base + t) n e) in
            let here : update A out (base + t) (run_expr A src.inputs (envs t) (base + t) src.body)
                  (base + t)
                ≡ w (base + t) =
              update_self A out (base + t) _ ∙ v in
            let here' =
              subst
                (λ x.
                  update A out (base + t) (run_expr A src.inputs (envs t) (base + t) src.body)
                    (base + x)
                  ≡ w (base + x))
                eq here in
            rw e (write_plain-keeps A src base n envs ts w _ (base + u) later here')
        | inr q ↦ write_plain-writes A src base n envs ts w _ u later (ground arith) lt
      ]
