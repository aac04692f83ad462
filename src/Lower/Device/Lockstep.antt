-- ===== src/Lower/Device/Lockstep.antt =====
-- Two threads that go round a loop together: while they agree on the test and each part of a round keeps
-- them together, the loop does.
use simtgo.Base.{ℕ, zero, suc, some, ◌≡◌, inl, inr}
use simtgo.Lower.Device.{Machine, State, Signal, Loop, rounds}
use simtgo.Lower.Device.Loops.{stop, leave, go_on, Round-of}

module _ (m : Machine) (P : State m → State m → Type 0) where
  pub record InStep (l1 l2 : Loop m) : Type 0 where
    pub test : (i : ℕ) (s1 s2 : State m) → P s1 s2 → l1.test i s1 ≡ l2.test i s2
    pub look : (s1 s2 : State m) → P s1 s2 → P (l1.look s1) (l2.look s2)
    pub before : (i : ℕ) (s1 s2 : State m) → P s1 s2 → P (l1.before i s1) (l2.before i s2)
    pub body :
        (s1 s2 : State m) (g1 : Signal) (s1' : State m) (g2 : Signal) (s2' : State m)
        → P s1 s2
        → l1.body s1 ≡ some (g1, s1')
        → l2.body s2 ≡ some (g2, s2')
        → (g1 ≡ g2) × P s1' s2'
    pub post :
        (s1 s2 : State m) (g1 : Signal) (s1' : State m) (g2 : Signal) (s2' : State m)
        → P s1 s2
        → l1.post s1 ≡ some (g1, s1')
        → l2.post s2 ≡ some (g2, s2')
        → P s1' s2'

  pub rounds-together :
      (l1 l2 : Loop m)
      → InStep l1 l2
      → (fuel i : ℕ) (s1 s2 : State m) (g1 : Signal) (s1' : State m) (g2 : Signal) (s2' : State m)
      → P s1 s2
      → rounds m fuel l1 i s1 ≡ some (g1, s1')
      → rounds m fuel l2 i s2 ≡ some (g2, s2')
      → (g1 ≡ g2) × P s1' s2'
  rounds-together l1 l2 k zero i s1 s2 g1 s1' g2 s2' p e1 e2 = unfold rounds in cc
  rounds-together l1 l2 k (suc fuel) i s1 s2 g1 s1' g2 s2' p e1 e2 =
      let c = k.test i s1 s2 p in
      let q = k.before i _ _ (k.look s1 s2 p) in
      elim (Round-of m fuel l1 i s1 g1 s1' e1) [
        | stop t1 a1 b1 ↦ elim (Round-of m fuel l2 i s2 g2 s2' e2) [
          | stop t2 a2 b2 ↦ (cc, rw (b1, b2) (k.look s1 s2 p))
          | leave t2 h2 y2 z2 ↦ cc
          | go_on t2 h2 u2 y2 z2 j2 v2 x2 r2 ↦ cc
        ]
        | leave t1 h1 y1 z1 ↦ elim (Round-of m fuel l2 i s2 g2 s2' e2) [
          | stop t2 a2 b2 ↦ cc
          | leave t2 h2 y2 z2 ↦
              let r = k.body _ _ h1 s1' h2 s2' q y1 y2 in
              elim z1 [
                | inl (a, b) ↦ elim z2 [
                  | inl (c2, d2) ↦ (cc, r.1)
                  | inr (c2, d2) ↦ let f = r.0 in cc
                ]
                | inr (a, b) ↦ elim z2 [
                  | inl (c2, d2) ↦ let f = r.0 in cc
                  | inr (c2, d2) ↦ (cc, r.1)
                ]
              ]
          | go_on t2 h2 u2 y2 z2 j2 v2 x2 r2 ↦
              let f = (k.body _ _ h1 s1' h2 u2 q y1 y2).0 in
              elim z1 [
                | inl (a, b) ↦ elim z2 [ inl d ↦ cc | inr d ↦ cc ]
                | inr (a, b) ↦ elim z2 [ inl d ↦ cc | inr d ↦ cc ]
              ]
        ]
        | go_on t1 h1 u1 y1 z1 j1 v1 x1 r1 ↦ elim (Round-of m fuel l2 i s2 g2 s2' e2) [
          | stop t2 a2 b2 ↦ cc
          | leave t2 h2 y2 z2 ↦
              let f = (k.body _ _ h1 u1 h2 s2' q y1 y2).0 in
              elim z2 [
                | inl (a, b) ↦ elim z1 [ inl d ↦ cc | inr d ↦ cc ]
                | inr (a, b) ↦ elim z1 [ inl d ↦ cc | inr d ↦ cc ]
              ]
          | go_on t2 h2 u2 y2 z2 j2 v2 x2 r2 ↦
              let o = k.body _ _ h1 u1 h2 u2 q y1 y2 in
              rounds-together l1 l2 k fuel (suc i) v1 v2 g1 s1' g2 s2'
                (k.post u1 u2 j1 v1 j2 v2 o.1 x1 x2) r1 r2
        ]
      ]
