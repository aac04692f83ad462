-- ===== src/Gpu/Launch/Drain.antt =====
-- gpu/gpu.go: the workers of runCPU drain the queue, and a launch panics with the first diagnosis.
use simtgo.Base.{
  ℕ, zero, suc, ◌+◌, ◌≡◌, refl, Bool, true, false, List, [], ◌∷◌, ◌++◌, Option, some, none, min,
  get_elem?, set, tally, tally-set, tally-append, arith, ◌==◌, subst, ap, Option-cases, inl, inr,
}
use simtgo.Gpu.Shared.{Diagnosis}
use simtgo.Gpu.Launch.{
  Worker, idle, holds, busy, Grid, Move, receive, look, finish, keep_first, move, moves,
  blocks_from, idle_workers, start_grid,
}

abbrev pub bit : Bool → ℕ
bit true = 1
bit false = 0

-- How often block b stands in a place: as a number, with a worker, or with its diagnosis.
abbrev pub is_block : ℕ → ℕ → ℕ
is_block b c = bit (c == b)

abbrev pub with_worker : ℕ → Worker → ℕ
with_worker b idle = 0
with_worker b (holds c) = bit (c == b)
with_worker b (busy c) = bit (c == b)

abbrev pub ran_as : ℕ → ℕ × Option Diagnosis → ℕ
ran_as b (c, d) = bit (c == b)

abbrev pub first_diagnosis : List (ℕ × Option Diagnosis) → Option Diagnosis
first_diagnosis [] = none
first_diagnosis ((b, some d) ∷ rs) = some d
first_diagnosis ((b, none) ∷ rs) = first_diagnosis rs

first_diagnosis-append :
    (rs : List (ℕ × Option Diagnosis)) (b : ℕ) (d : Option Diagnosis)
    → first_diagnosis (rs ++ (b, d) ∷ []) ≡ keep_first (first_diagnosis rs) d
first_diagnosis-append [] b none = refl
first_diagnosis-append [] b (some d) = refl
first_diagnosis-append ((c, some d') ∷ rs) b none = refl
first_diagnosis-append ((c, some d') ∷ rs) b (some d) = refl
first_diagnosis-append ((c, none) ∷ rs) b d = first_diagnosis-append rs b d

-- Where block b is: queued, with a worker, ended, or drained.
abbrev pub places : ℕ → Grid → ℕ
places b g =
    tally (is_block b) g.queue
    + tally (with_worker b) g.workers
    + tally (ran_as b) g.ran
    + tally (is_block b) g.skipped

pub record Inv (n : ℕ) (g : Grid) : Type 0 where
  -- fail is the diagnosis of the block that ended first with one
  pub fail_eq : g.fail ≡ first_diagnosis g.ran
  -- nothing is drained before a diagnosis
  pub skip_why : g.fail ≡ none → g.skipped ≡ []
  -- each block is in one place
  pub conserved : (b : ℕ) → places b g ≡ tally (is_block b) (blocks_from 0 n)

-- What each move needs, and what it changes.
module _ (g g' : Grid) (w : ℕ) where
  pub receive_parts :
      move g (receive w) ≡ some g'
      → (b : ℕ) × (bs : List ℕ) × (g.queue ≡ b ∷ bs)
        × (get_elem? g.workers w ≡ some idle)
        × (g' ≡ record g { queue = bs; workers = set g.workers w (holds b) })
  unfolding move
  receive_parts h = ground arith

  pub look_run_parts :
      move g (look w) ≡ some g'
      → g.fail ≡ none
      → (b : ℕ) × (get_elem? g.workers w ≡ some (holds b))
        × (g' ≡ record g { workers = set g.workers w (busy b) })
  unfolding move
  look_run_parts h ok = ground arith

  pub look_skip_parts :
      (d : Diagnosis)
      → move g (look w) ≡ some g'
      → g.fail ≡ some d
      → (b : ℕ) × (get_elem? g.workers w ≡ some (holds b))
        × (g' ≡ record g { workers = set g.workers w idle; skipped = g.skipped ++ b ∷ [] })
  unfolding move
  look_skip_parts d h bad = ground arith

  pub finish_parts :
      (d : Option Diagnosis)
      → move g (finish w d) ≡ some g'
      → (b : ℕ) × (get_elem? g.workers w ≡ some (busy b))
        × (g' ≡ record g {
          workers = set g.workers w idle;
          fail = keep_first g.fail d;
          ran = g.ran ++ (b, d) ∷ [];
        })
  unfolding move
  finish_parts d h = ground arith

module _ (n : ℕ) (g g' : Grid) (inv : Inv n g) (w : ℕ) where
  receive-Inv : move g (receive w) ≡ some g' → Inv n g'
  unfolding move tally
  receive-Inv h =
      let (b, bs, q, at, e) = receive_parts g g' w h in
      rw e (record {
        fail_eq = inv.fail_eq;
        skip_why = inv.skip_why;
        conserved = λ c. omega (
          arith,
          inv.conserved c,
          ap (tally (is_block c)) q,
          tally-set (with_worker c) g.workers w idle (holds b) at,
        );
      })

  look-Inv : move g (look w) ≡ some g' → Inv n g'
  unfolding tally
  look-Inv h = elim (Option-cases g.fail) [
    | inl ok ↦
        let (b, at, e) = look_run_parts g g' w h ok in
        rw e (record {
          fail_eq = inv.fail_eq;
          skip_why = inv.skip_why;
          conserved = λ c.
              omega (
                arith,
                inv.conserved c,
                tally-set (with_worker c) g.workers w (holds b) (busy b) at,
              );
        })
    | inr (d, bad) ↦
        let (b, at, e) = look_skip_parts g g' w d h bad in
        rw e (record {
          fail_eq = inv.fail_eq;
          skip_why = λ ok. absurd (cc bad);
          conserved = λ c. omega (
            arith,
            inv.conserved c,
            tally-set (with_worker c) g.workers w (holds b) idle at,
            tally-append (is_block c) g.skipped (b ∷ []),
          );
        })
  ]

  finish-Inv : (d : Option Diagnosis) → move g (finish w d) ≡ some g' → Inv n g'
  unfolding tally
  finish-Inv d h =
      let (b, at, e) = finish_parts g g' w d h in
      rw e (record {
        fail_eq = ground (arith, inv.fail_eq, first_diagnosis-append g.ran b d);
        skip_why = ground (arith, inv.skip_why);
        conserved = λ c. omega (
          arith,
          inv.conserved c,
          tally-set (with_worker c) g.workers w (busy b) idle at,
          tally-append (ran_as c) g.ran ((b, d) ∷ []),
        );
      })

move-Inv : (n : ℕ) (g : Grid) (m : Move) (g' : Grid) → Inv n g → move g m ≡ some g' → Inv n g'
move-Inv n g (receive w) g' inv h = receive-Inv n g g' inv w h
move-Inv n g (look w) g' inv h = look-Inv n g g' inv w h
move-Inv n g (finish w d) g' inv h = finish-Inv n g g' inv w d h

tally-idle_workers : (b k : ℕ) → tally (with_worker b) (idle_workers k) ≡ 0
unfolding tally idle_workers
tally-idle_workers b zero = refl
tally-idle_workers b (suc k) = omega (arith, tally-idle_workers b k)

start-Inv : (procs n : ℕ) → Inv n (start_grid procs n)
unfolding start_grid tally
start-Inv procs n = record {
  fail_eq = refl;
  skip_why = λ ok. refl;
  conserved = λ b. omega (arith, tally-idle_workers b (min procs n));
}

pub moves-cons :
    (g : Grid) (m : Move) (ms : List Move) (g' : Grid)
    → moves g (m ∷ ms) ≡ some g'
    → (g1 : Grid) × (move g m ≡ some g1) × (moves g1 ms ≡ some g')
unfolding moves
moves-cons g m ms g' h = go (move g m) refl h
  where
    go :
        (o : Option Grid)
        → move g m ≡ o
        → elim o [ none ↦ none | some g1 ↦ moves g1 ms ] ≡ some g'
        → (g1 : Grid) × (move g m ≡ some g1) × (moves g1 ms ≡ some g')
    go none e h' = cc
    go (some g1) e h' = (g1, e, h')

moves_from-Inv :
    (n : ℕ) (g : Grid) (ms : List Move) (g' : Grid) → Inv n g → moves g ms ≡ some g' → Inv n g'
unfolding moves
moves_from-Inv n g [] g' inv h = let e : g ≡ g' = ground arith in subst (Inv n) e inv
moves_from-Inv n g (m ∷ ms) g' inv h =
    let (g1, e, h') = moves-cons g m ms g' h in
    moves_from-Inv n g1 ms g' (move-Inv n g m g1 inv e) h'

-- However the workers come to their turns: the launch's diagnosis is that of the block that ended
-- first with one, nothing is drained before there is one, and every block is in one place.
pub moves-Inv :
    (procs n : ℕ) (ms : List Move) (g : Grid) → moves (start_grid procs n) ms ≡ some g → Inv n g
moves-Inv procs n ms g h = moves_from-Inv n (start_grid procs n) ms g (start-Inv procs n) h
