-- ===== src/Cuda/Context/Poison.antt =====
-- cuda/driver_cuda.go: a sticky fault is recorded once, and nothing is asked of the device after it.
use simtgo.Base.{
  ℕ, ◌≡◌, refl, sym, subst, Bool, true, false, not, ◌||◌, List, [], ◌∷◌, Option, some, none, ◌==◌,
  arith, Bool-cases, inl, inr,
}
use simtgo.Cuda.Arch.{Str}
use simtgo.Cuda.Errors.{CudaError, poisoned}
use simtgo.Cuda.Context.{
  Request, set_current, Trace, Driver, Device, sticky, or_first, ask, answer_of, fault, call_bound,
  call_if, call,
}

abbrev pub is_bind : Request → Bool
is_bind set_current = true
is_bind _ = false

-- Nothing of the trace but what made a context current has a sticky answer.
abbrev pub quiet_one : Request × ℕ → Bool
quiet_one (q, r) = is_bind q || not (sticky r)

abbrev pub Quiet : Trace → Type 0
Quiet [] = Unit
Quiet (e ∷ l) = (quiet_one e ≡ true) × Quiet l

-- While no fault is recorded there was none. A recorded fault is the last thing that was asked, and
-- there was none before it.
abbrev pub PoisonOf : Driver → Trace → Option (Str × ℕ) → Type 0
PoisonOf d l none = Quiet l
PoisonOf d l (some (op, code)) =
    (q : Request) × (rest : Trace) × (l ≡ (q, code) ∷ rest)
    × (d.name_of q ≡ op)
    × (sticky code ≡ true)
    × Quiet rest

abbrev pub Honest : Driver → Device → Type 0
Honest d w = PoisonOf d w.trace w.poison

quiet-one : (q : Request) (r : ℕ) → sticky r ≡ false → quiet_one (q, r) ≡ true
quiet-one q r e = ground arith

not_success : (r : ℕ) → sticky r ≡ true → (r == 0) ≡ false
unfolding sticky
not_success r e = ground arith

sticky-fault :
    (d : Driver) (q : Request) (r : ℕ) (w : Device)
    → sticky r ≡ true
    → fault d q r w ≡ record w { poison = or_first w.poison (d.name_of q, r) }
unfolding fault
sticky-fault d q r w e = let n : (r == 0) ≡ false = not_success r e in rw (e, n) refl

quiet-fault : (d : Driver) (q : Request) (r : ℕ) (w : Device) → sticky r ≡ false → fault d q r w ≡ w
unfolding fault
quiet-fault d q r w e = elim (Bool-cases (r == 0)) [ inl z ↦ rw z refl | inr z ↦ rw (e, z) refl ]

-- A request that is made while no fault is recorded.
asked-Honest :
    (d : Driver) (q : Request) (w : Device)
    → Quiet w.trace
    → w.poison ≡ none
    → Honest d (fault d q (answer_of d q w) (ask d q w))
unfolding ask
asked-Honest d q w quiet p =
    let r = answer_of d q w in
    elim (Bool-cases (sticky r)) [
      | inl e ↦
          let h : PoisonOf d ((q, r) ∷ w.trace) (some (d.name_of q, r)) =
            (q, w.trace, refl, refl, e, quiet) in
          let h' : PoisonOf d ((q, r) ∷ w.trace) (or_first w.poison (d.name_of q, r)) = rw p h in
          subst (Honest d) (sym (sticky-fault d q r (ask d q w) e)) h'
      | inr e ↦
          let h : PoisonOf d ((q, r) ∷ w.trace) none = (quiet-one q r e, quiet) in
          let h' : PoisonOf d ((q, r) ∷ w.trace) w.poison = rw p h in
          subst (Honest d) (sym (quiet-fault d q r (ask d q w) e)) h'
    ]

call_bound-Honest :
    (d : Driver) (q : Request) (w : Device) (e : Option CudaError)
    → Quiet w.trace
    → w.poison ≡ none
    → Honest d (call_bound d q w e).0
unfolding call_bound
call_bound-Honest d q w (some e) quiet p = rw p quiet
call_bound-Honest d q w none quiet p = asked-Honest d q w quiet p

call_if-Honest :
    (d : Driver) (q : Request) (w : Device) (p : Option (Str × ℕ))
    → w.poison ≡ p
    → PoisonOf d w.trace p
    → Honest d (call_if d q w p).0
unfolding call_if ask
call_if-Honest d q w (some (op, code)) e h = rw e h
call_if-Honest d q w none e h = call_bound-Honest d q (ask d set_current w) _ (refl, h) e

call-Honest : (d : Driver) (q : Request) (w : Device) → Honest d w → Honest d (call d q w).0
unfolding call
call-Honest d q w h = call_if-Honest d q w w.poison refl h

-- The calls of a program, one after the other.
unfoldable pub calls : Driver → List Request → Device → Device
calls d [] w = w
calls d (q ∷ qs) w = calls d qs (call d q w).0

-- However many calls a program makes on a device of which this held before, as it does of a fresh one:
-- while no fault is recorded, no request but those that bind the context to the thread (cuCtxSetCurrent)
-- was answered by a sticky code, and a recorded fault is the last request with its entry point and its
-- code, which is sticky, and nothing was asked of the driver after it; the answers to a binding are not
-- looked at.
pub calls-Honest :
    (d : Driver) (qs : List Request) (w : Device) → Honest d w → Honest d (calls d qs w)
unfolding calls
calls-Honest d [] w h = h
calls-Honest d (q ∷ qs) w h = calls-Honest d qs (call d q w).0 (call-Honest d q w h)

-- A call on a poisoned device asks nothing of the driver, and fails with the fault that is recorded.
pub call-poisoned :
    (d : Driver) (q : Request) (w : Device) (op : Str) (code : ℕ)
    → w.poison ≡ some (op, code)
    → call d q w ≡ (w, some (poisoned op code))
unfolding call call_if
call-poisoned d q w op code e = rw e refl
