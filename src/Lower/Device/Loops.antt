-- ===== src/Lower/Device/Loops.antt =====
-- The loops of a thread's run: what each part of a round keeps, the loop keeps, and how a loop ends.
use simtgo.Base.{
  ℕ, zero, suc, true, false, some, ◌≡◌, refl, subst, Bool-cases, inl, inr, ◌>>=◌, >>=-eq-some, ◌⊎◌,
}
use simtgo.Lower.Device.{
  Machine, State, Signal, next, broke, continued, returned, Outcome, Loop, rounds, after_body,
  and_then, caught,
}

module _ (m : Machine) where
  pub at_end :
      (P : State m → Type 0) {st st' : State m} {g g' : Signal}
      → P st
      → ◌≡◌ {A = Outcome m} (some (g, st)) (some (g', st'))
      → P st'
  at_end P {st} {st'} p e = let q : st ≡ st' = cc in subst P q p

  pub and_then-keeps :
      (P : State m → Type 0) (k : State m → Outcome m) (h : Signal) (st : State m) (g : Signal)
      (st' : State m)
      → (P st → k st ≡ some (g, st') → P st')
      → P st
      → and_then m k h st ≡ some (g, st')
      → P st'
  and_then-keeps P k next st g st' f p e = f p e
  and_then-keeps P k broke st g st' f p e = at_end P p e
  and_then-keeps P k continued st g st' f p e = at_end P p e
  and_then-keeps P k returned st g st' f p e = at_end P p e

  pub caught-keeps :
      (P : State m → Type 0) (h : Signal) (st : State m) (g : Signal) (st' : State m)
      → P st
      → caught m h st ≡ some (g, st')
      → P st'
  caught-keeps P next st g st' p e = at_end P p e
  caught-keeps P broke st g st' p e = at_end P p e
  caught-keeps P continued st g st' p e = at_end P p e
  caught-keeps P returned st g st' p e = at_end P p e

  -- What a loop keeps.
  pub record LoopKeeps (P : State m → Type 0) (l : Loop m) : Type 0 where
    pub look : (st : State m) → P st → P (l.look st)
    pub before : (i : ℕ) (st : State m) → P st → P (l.before i st)
    pub body :
        (st : State m) (g : Signal) (st' : State m) → P st → l.body st ≡ some (g, st') → P st'
    pub post :
        (st : State m) (g : Signal) (st' : State m) → P st → l.post st ≡ some (g, st') → P st'

  -- One round of a loop, taken apart: the test failed, or the body ran and ended the loop, or the post
  -- statement ran after it and the loop went on.
  pub data Round (fuel : ℕ) (l : Loop m) (i : ℕ) (st : State m) (g : Signal) (st' : State m)
      : Type 0 where
    stop : l.test i st ≡ false → g ≡ next → st' ≡ l.look st → Round fuel l i st g st'
    leave :
        l.test i st ≡ true
        → (h : Signal) → l.body (l.before i (l.look st)) ≡ some (h, st')
        → ((h ≡ broke) × (g ≡ next)) ⊎ ((h ≡ returned) × (g ≡ returned))
        → Round fuel l i st g st'
    go_on :
        l.test i st ≡ true
        → (h : Signal) (st1 : State m) → l.body (l.before i (l.look st)) ≡ some (h, st1)
        → (h ≡ next) ⊎ (h ≡ continued)
        → (k : Signal) (st2 : State m) → l.post st1 ≡ some (k, st2)
        → rounds m fuel l (suc i) st2 ≡ some (g, st')
        → Round fuel l i st g st'

  after_body-cases :
      (fuel : ℕ) (l : Loop m) (i : ℕ) (st st1 : State m) (h g : Signal) (st' : State m)
      → l.test i st ≡ true
      → l.body (l.before i (l.look st)) ≡ some (h, st1)
      → after_body m (λ st3. l.post st3 >>= λ (s, st2). rounds m fuel l (suc i) st2) h st1
        ≡ some (g, st')
      → Round fuel l i st g st'
  after_body-cases fuel l i st st1 next g st' e b p =
      let (r, q, z) = >>=-eq-some (l.post st1) _ p in go_on e next st1 b (inl refl) r.0 r.1 q z
  after_body-cases fuel l i st st1 continued g st' e b p =
      let (r, q, z) = >>=-eq-some (l.post st1) _ p in go_on e continued st1 b (inr refl) r.0 r.1 q z
  after_body-cases fuel l i st st1 broke g st' e b p =
      let s : st1 ≡ st' = cc in leave e broke (cc) (inl (refl, cc))
  after_body-cases fuel l i st st1 returned g st' e b p =
      let s : st1 ≡ st' = cc in leave e returned (cc) (inr (refl, cc))

  pub Round-of :
      (fuel : ℕ) (l : Loop m) (i : ℕ) (st : State m) (g : Signal) (st' : State m)
      → rounds m (suc fuel) l i st ≡ some (g, st')
      → Round fuel l i st g st'
  unfolding rounds
  Round-of fuel l i st g st' h = elim (Bool-cases (l.test i st)) [
    | inr e ↦ let h' = rw e at h in stop e (cc) (cc)
    | inl e ↦
        let h' = rw e at h in
        let (r, q, p) = >>=-eq-some (l.body (l.before i (l.look st))) _ h' in
        after_body-cases fuel l i st r.1 r.0 g st' e q p
  ]

  pub rounds-keeps :
      (P : State m → Type 0) (l : Loop m)
      → LoopKeeps P l
      → (fuel i : ℕ) (st : State m) (g : Signal) (st' : State m) → P st
      → rounds m fuel l i st ≡ some (g, st')
      → P st'
  rounds-keeps P l k zero i st g st' p h = unfold rounds in cc
  rounds-keeps P l k (suc fuel) i st g st' p h =
      let start = k.before i _ (k.look st p) in
      elim (Round-of fuel l i st g st' h) [
        | stop _ _ e ↦ rw e (k.look st p)
        | leave _ h1 b _ ↦ k.body _ h1 st' start b
        | go_on _ h1 st1 b _ h2 st2 q r ↦
            rounds-keeps P l k fuel (suc i) st2 g st'
              (k.post st1 h2 st2 (k.body _ h1 st1 start b) q) r
      ]

  -- How a loop ends.
  pub rounds-signal :
      (l : Loop m) (fuel i : ℕ) (st : State m) (g : Signal) (st' : State m)
      → rounds m fuel l i st ≡ some (g, st')
      → (g ≡ next) ⊎ ((g ≡ returned) × (st1 st2 : State m) × (l.body st1 ≡ some (returned, st2)))
  rounds-signal l zero i st g st' h = unfold rounds in cc
  rounds-signal l (suc fuel) i st g st' h = elim (Round-of fuel l i st g st' h) [
    | stop _ e _ ↦ inl e
    | leave _ h1 b (inl (_, e)) ↦ inl e
    | leave _ h1 b (inr (a, e)) ↦ inr (e, _, st', rw a at b)
    | go_on _ h1 st1 b _ h2 st2 q r ↦ rounds-signal l fuel (suc i) st2 g st' r
  ]
