-- ===== src/Gpu/Launch/Ends.antt =====
-- gpu/gpu.go: a launch ends, and what it has done by then.
use simtgo.Base.{
  ℕ, zero, suc, ◌+◌, ◌*◌, ◌<◌, ◌≤◌, ◌≡◌, refl, List, [], ◌∷◌, ◌++◌, Option, some, none, length,
  length-set, min, get_elem?, set, tally, tally-set, arith, sym, All, ◌⊎◌, inl, inr, Option-cases,
  ap, ◌∙◌,
}
use simtgo.Gpu.Shared.{Diagnosis}
use simtgo.Gpu.Launch.{
  Worker, idle, holds, busy, Grid, Move, receive, look, finish, keep_first, move, moves,
  blocks_from, idle_workers, start_grid,
}
use simtgo.Gpu.Launch.Drain.{
  is_block, with_worker, ran_as, first_diagnosis, moves-Inv, moves-cons, receive_parts,
  look_run_parts, look_skip_parts, finish_parts,
}

-- The moves that a worker still has to make for the block it has.
abbrev work_left : Worker → ℕ
work_left idle = 0
work_left (holds b) = 2
work_left (busy b) = 1

potential : Grid → ℕ
potential g = 3 * length g.queue + tally work_left g.workers

move-potential : (g : Grid) (m : Move) (g' : Grid) → move g m ≡ some g' → potential g' < potential g
unfolding move potential
move-potential g (receive w) g' h =
    let (b, bs, q, at, e) = receive_parts g g' w h in
    rw e (omega (arith, ap length q, tally-set work_left g.workers w idle (holds b) at))
move-potential g (look w) g' h = elim (Option-cases g.fail) [
  | inl ok ↦
      let (b, at, e) = look_run_parts g g' w h ok in
      rw e (omega (arith, tally-set work_left g.workers w (holds b) (busy b) at))
  | inr (d, bad) ↦
      let (b, at, e) = look_skip_parts g g' w d h bad in
      rw e (omega (arith, tally-set work_left g.workers w (holds b) idle at))
]
move-potential g (finish w d) g' h =
    let (b, at, e) = finish_parts g g' w d h in
    rw e (omega (arith, tally-set work_left g.workers w (busy b) idle at))

moves_from_bounded :
    (g : Grid) (ms : List Move) (g' : Grid)
    → moves g ms ≡ some g'
    → length ms + potential g' ≤ potential g
unfolding moves
moves_from_bounded g [] g' h = let e : g ≡ g' = ground arith in rw e (omega arith)
moves_from_bounded g (m ∷ ms) g' h =
    let (g1, e, h') = moves-cons g m ms g' h in
    omega (arith, move-potential g m g1 e, moves_from_bounded g1 ms g' h')

length-blocks_from : (b n : ℕ) → length (blocks_from b n) ≡ n
unfolding blocks_from
length-blocks_from b zero = refl
length-blocks_from b (suc n) = ap suc (length-blocks_from (b + 1) n)

idle_workers_left : (k : ℕ) → tally work_left (idle_workers k) ≡ 0
unfolding tally idle_workers
idle_workers_left zero = refl
idle_workers_left (suc k) = omega (arith, idle_workers_left k)

-- The workers of a launch of n blocks make at most 3 n moves, in whatever order.
pub moves_bounded :
    (procs n : ℕ) (ms : List Move) (g : Grid)
    → moves (start_grid procs n) ms ≡ some g
    → length ms ≤ 3 * n
unfolding start_grid potential
moves_bounded procs n ms g h = omega (
  arith,
  moves_from_bounded (start_grid procs n) ms g h,
  length-blocks_from 0 n,
  idle_workers_left (min procs n),
)

-- Every worker waits for a block.
abbrev pub IsIdle : List Worker → Type 0
IsIdle = All (λ w. w ≡ idle)

IsIdle-or-at_work :
    (ws : List Worker)
    → IsIdle ws
      ⊎ ((w : ℕ) × (b : ℕ) × ((get_elem? ws w ≡ some (holds b)) ⊎ (get_elem? ws w ≡ some (busy b))))
IsIdle-or-at_work [] = inl tt
IsIdle-or-at_work (holds b ∷ ws) = inr (0, b, inl refl)
IsIdle-or-at_work (busy b ∷ ws) = inr (0, b, inr refl)
IsIdle-or-at_work (idle ∷ ws) = elim (IsIdle-or-at_work ws) [
  | inl all ↦ inl (refl, all)
  | inr (w, b, at) ↦ inr (suc w, b, at)
]

move-workers :
    (g : Grid) (m : Move) (g' : Grid) → move g m ≡ some g' → length g'.workers ≡ length g.workers
move-workers g (receive w) g' h =
    let (b, bs, q, at, e) = receive_parts g g' w h in rw e (length-set g.workers w (holds b))
move-workers g (look w) g' h = elim (Option-cases g.fail) [
  | inl ok ↦ let (b, at, e) = look_run_parts g g' w h ok in rw e (length-set g.workers w (busy b))
  | inr (d, bad) ↦
      let (b, at, e) = look_skip_parts g g' w d h bad in rw e (length-set g.workers w idle)
]
move-workers g (finish w d) g' h =
    let (b, at, e) = finish_parts g g' w d h in rw e (length-set g.workers w idle)

moves-workers :
    (g : Grid) (ms : List Move) (g' : Grid)
    → moves g ms ≡ some g'
    → length g'.workers ≡ length g.workers
unfolding moves
moves-workers g [] g' h = let e : g ≡ g' = ground arith in rw e
moves-workers g (m ∷ ms) g' h =
    let (g1, e, h') = moves-cons g m ms g' h in
    omega (arith, move-workers g m g1 e, moves-workers g1 ms g' h')

can_look :
    (g : Grid) (w b : ℕ)
    → get_elem? g.workers w ≡ some (holds b)
    → (g' : Grid) × (move g (look w) ≡ some g')
unfolding move
can_look g w b at = elim (Option-cases g.fail) [
  | inl ok ↦ (record g { workers = set g.workers w (busy b) }, ground (arith, at, ok))
  | inr (d, bad) ↦ (
    record g { workers = set g.workers w idle; skipped = g.skipped ++ b ∷ [] },
    ground (arith, at, bad),
  )
]

can_finish :
    (g : Grid) (w b : ℕ) (d : Option Diagnosis)
    → get_elem? g.workers w ≡ some (busy b)
    → (g' : Grid) × (move g (finish w d) ≡ some g')
unfolding move
can_finish g w b d at = (
  record g {
    workers = set g.workers w idle;
    fail = keep_first g.fail d;
    ran = g.ran ++ (b, d) ∷ [];
  },
  ground (arith, at),
)

can_receive :
    (g : Grid) (b : ℕ) (bs : List ℕ)
    → get_elem? g.workers 0 ≡ some idle
    → g.queue ≡ b ∷ bs
    → (g' : Grid) × (move g (receive 0) ≡ some g')
unfolding move
can_receive g b bs at q =
    (record g { queue = bs; workers = set g.workers 0 (holds b) }, ground (arith, at, q))

first_idle : (ws : List Worker) → 0 < length ws → IsIdle ws → get_elem? ws 0 ≡ some idle
first_idle [] h all = absurd (omega arith)
first_idle (w ∷ ws) h all = ap some all.0

length-idle_workers : (k : ℕ) → length (idle_workers k) ≡ k
unfolding idle_workers
length-idle_workers zero = refl
length-idle_workers (suc k) = ap suc (length-idle_workers k)

-- In every state that a launch of at least one block with at least one worker allowed reaches, the
-- queue is empty and every worker idle, or some worker can make a move.
pub launch_goes_on :
    (procs n : ℕ) (ms : List Move) (g : Grid)
    → 0 < procs
    → 0 < n
    → moves (start_grid procs n) ms ≡ some g
    → (g.queue ≡ []) × IsIdle g.workers ⊎ ((m : Move) × (g' : Grid) × (move g m ≡ some g'))
unfolding start_grid
launch_goes_on procs n ms g hp hn h = elim (IsIdle-or-at_work g.workers) [
  | inr (w, b, inl at) ↦ let (g', e) = can_look g w b at in inr (look w, g', e)
  | inr (w, b, inr at) ↦ let (g', e) = can_finish g w b none at in inr (finish w none, g', e)
  | inl all ↦ idle_case g.queue refl all
]
  where
    some_worker : 0 < length g.workers
    some_worker =
        omega (arith, moves-workers (start_grid procs n) ms g h, length-idle_workers (min procs n))

    idle_case :
        (q : List ℕ)
        → g.queue ≡ q
        → IsIdle g.workers
        → (g.queue ≡ []) × IsIdle g.workers ⊎ ((m : Move) × (g' : Grid) × (move g m ≡ some g'))
    idle_case [] e all = inl (e, all)
    idle_case (b ∷ bs) e all =
        let (g', e') = can_receive g b bs (first_idle g.workers some_worker all) e in
        inr (receive 0, g', e')

first_diagnosis-none :
    (rs : List (ℕ × Option Diagnosis)) → first_diagnosis rs ≡ none → All (λ r. r.1 ≡ none) rs
first_diagnosis-none [] h = tt
first_diagnosis-none ((b, none) ∷ rs) h = (refl, first_diagnosis-none rs h)
first_diagnosis-none ((b, some d) ∷ rs) h = absurd (cc h)

idle_hold_nothing : (b : ℕ) (ws : List Worker) → IsIdle ws → tally (with_worker b) ws ≡ 0
unfolding tally
idle_hold_nothing b [] all = refl
idle_hold_nothing b (w ∷ ws) all = rw all.0 (omega (arith, idle_hold_nothing b ws all.1))

blocks_from_below : (b a n : ℕ) → b < a → tally (is_block b) (blocks_from a n) ≡ 0
unfolding tally blocks_from
blocks_from_below b a zero h = refl
blocks_from_below b a (suc n) h = ground (arith, blocks_from_below b (a + 1) n)

blocks_from_once : (b a n : ℕ) → a ≤ b → b < a + n → tally (is_block b) (blocks_from a n) ≡ 1
unfolding tally blocks_from
blocks_from_once b a zero h h' = absurd (omega arith)
blocks_from_once b a (suc n) h h' =
    ground (arith, blocks_from_below b (a + 1) n, blocks_from_once b (a + 1) n)

-- A launch whose workers have emptied the queue and are idle, with no diagnosis, has run every block
-- of its grid exactly once, has drained none, and got no diagnosis from any.
pub launch_clean :
    (procs n : ℕ) (ms : List Move) (g : Grid)
    → moves (start_grid procs n) ms ≡ some g
    → g.queue ≡ []
    → IsIdle g.workers
    → g.fail ≡ none
    → ((b : ℕ) → b < n → tally (ran_as b) g.ran ≡ 1)
      × All (λ r. r.1 ≡ none) g.ran
      × (g.skipped ≡ [])
unfolding tally
launch_clean procs n ms g h empty all ok =
    let inv = moves-Inv procs n ms g h in
    let none_skipped = inv.skip_why ok in
    (
      λ b hb. omega (
        arith,
        inv.conserved b,
        idle_hold_nothing b g.workers all,
        blocks_from_once b 0 n,
        ap (tally (is_block b)) empty,
        ap (tally (is_block b)) none_skipped,
      ),
      first_diagnosis-none g.ran (sym inv.fail_eq ∙ ok),
      none_skipped,
    )
