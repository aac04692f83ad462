-- ===== src/Gpu/Shared/Agreement.antt =====
-- gpu/shared.go, gpu/gpu.go: what a block without a diagnosis says of its tile calls, and which blocks
-- have no diagnosis.
use simtgo.Base.{ℕ, ◌+◌, ◌≡◌, refl, List, [], ◌∷◌, some, none, ==_iff, arith, some, All, ◌↔◌}
use simtgo.Gpu.Shared.{
  Elem, shared, BlockState, Call, do_call, do_calls, request, next_call, divergence, diverges_from,
}
use simtgo.Gpu.Shared.Slabs.{
  do_call-slabs, do_call-Claims, do_call-fail, do_calls-slabs, do_calls-fail,
}

-- Two tile calls of a block with the same number, whoever made them and whatever happened between and
-- after: if the block ends with no diagnosis, they asked for the same element type and the same
-- size, and both were handed the block's one buffer of that number.
pub tiles_agree :
    (threads t t' : ℕ) (c c' : Call) (mid rest : List (ℕ × Call)) (s : BlockState) (e e' : Elem)
    (n n' : ℕ)
    → let s1 = (do_call threads t c s).0 in
      let s2 = do_calls threads mid s1 in
      let s3 = (do_call threads t' c' s2).0 in
      request s c ≡ some (e, n)
      → request s2 c' ≡ some (e', n')
      → next_call s2 t' ≡ next_call s t
      → (do_calls threads rest s3).fail ≡ none
      → (e ≡ e')
        × (n ≡ n')
        × ((do_call threads t c s).1 ≡ shared (next_call s t))
        × ((do_call threads t' c' s2).1 ≡ shared (next_call s t))
tiles_agree threads t t' c c' mid rest s e e' n n' r r' same ok =
    let s1 = (do_call threads t c s).0 in
    let s2 = do_calls threads mid s1 in
    let ok3 = do_calls-fail threads rest (do_call threads t' c' s2).0 ok in
    let ok2 = do_call-fail threads t' c' s2 ok3 in
    let ok1 = do_calls-fail threads mid s1 ok2 in
    let (b, at, he, hn, hb) = do_call-Claims threads t c s e n r ok1 in
    let (b', at', he', hn', hb') = do_call-Claims threads t' c' s2 e' n' r' ok3 in
    let kept =
      do_call-slabs threads t' c' s2 (next_call s t) b
        (do_calls-slabs threads mid s1 (next_call s t) b at) in
    let e2 : b ≡ b' = cc in (cc, cc, hb, cc)

diverges_from-none :
    (want t : ℕ) (ns : List ℕ) → (diverges_from want t ns ≡ none) ↔ All (λ n. n ≡ want) ns
unfolding diverges_from
diverges_from-none want t [] = (λ h. tt, λ h. refl)
diverges_from-none want t (n ∷ ns) =
    let (to, from) = diverges_from-none want (t + 1) ns in
    (
      λ h. (ground (arith, ==_iff n want), to (ground arith)),
      λ h. ground (arith, from h.1, ==_iff n want),
    )

-- The threads of a finished block disagree about their number of tile calls exactly when the
-- emulator says so.
pub divergence-none : (n : ℕ) (ns : List ℕ) → (divergence (n ∷ ns) ≡ none) ↔ All (λ m. m ≡ n) ns
unfolding divergence
divergence-none n ns =
    let (to, from) = diverges_from-none n 0 (n ∷ ns) in (λ h. (to h).1, λ h. from (refl, h))
