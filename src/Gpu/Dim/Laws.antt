-- ===== src/Gpu/Dim/Laws.antt =====
-- gpu/gpu.go: flat and coord are inverse to each other, and a thread's global index numbers it.
use native.Mathlib.Nat.{
  div-div-eq-div-mul, add-mul-div_left, add-mul-mod_self_left, div-eq_of_lt, mod-eq_of_lt, mod-lt,
  mod-add-div, div-lt_iff_lt-mul, mul_comm, add_comm,
}
use simtgo.Base.{ℕ, zero, suc, ◌+◌, ◌*◌, ◌/◌, ◌%◌, ◌<◌, ◌≡◌, refl, ap, sym, ◌∙◌, arith}
use simtgo.Gpu.Dim.{Dim, count, flat, coord, d1, IsWithin, place, global_id}

div_digit : (a q r : ℕ) → r < a → (r + a * q) / a ≡ q
div_digit a q r h = rw (add-mul-div_left r q {y = a} (omega arith), div-eq_of_lt h) (omega arith)

mod_digit : (a q r : ℕ) → r < a → (r + a * q) % a ≡ r
mod_digit a q r h = rw (add-mul-mod_self_left r a q) (mod-eq_of_lt h)

Dim-eq : (p q : Dim) → p.x ≡ q.x → p.y ≡ q.y → p.z ≡ q.z → p ≡ q
Dim-eq p q hx hy hz = ground arith

-- Numbering a position of an extent and reading the number back gives the position.
pub coord-flat : (p e : Dim) → IsWithin p e → coord e (flat p e) ≡ p
unfolding coord flat
coord-flat p e h =
    let q = p.y + e.y * p.z in
    let dx : (p.x + e.x * q) / e.x ≡ q = div_digit e.x q p.x h.x_lt in
    Dim-eq _ p (mod_digit e.x q p.x h.x_lt) (rw dx (mod_digit e.y p.z p.y h.y_lt))
      (rw (← div-div-eq-div-mul (p.x + e.x * q) e.x e.y, dx) (div_digit e.y p.z p.y h.y_lt))

pos_left : (a b c i : ℕ) → i < a * b * c → 0 < a
pos_left zero b c i h = grind arith
pos_left (suc a) b c i h = omega arith

pos_mid : (a b c i : ℕ) → i < a * b * c → 0 < b
pos_mid a zero c i h = grind arith
pos_mid a (suc b) c i h = omega arith

-- The i-th position of an extent lies within it, and i is its number.
pub flat-coord : (d : Dim) (i : ℕ) → i < count d → IsWithin (coord d i) d × (flat (coord d i) d ≡ i)
unfolding coord flat count
flat-coord d i h =
    let px = pos_left d.x d.y d.z i h in
    let py = pos_mid d.x d.y d.z i h in
    let e : i / (d.x * d.y) ≡ i / d.x / d.y = sym (div-div-eq-div-mul i d.x d.y) in
    (
      record {
        x_lt = mod-lt i px;
        y_lt = mod-lt (i / d.x) py;
        z_lt = (div-lt_iff_lt-mul (grind arith)).1 (rw (mul_comm d.z (d.x * d.y)) (omega arith));
      },
      rw (e, mod-add-div (i / d.x) d.y, mod-add-div i d.x) refl,
    )

-- Two threads of a one-dimensional launch have the same global index only if they are the same
-- thread of the same block.
pub global_id-injective :
    (grid block b t b' t' : ℕ)
    → b < grid
    → t < block
    → b' < grid
    → t' < block
    → global_id (place (d1 grid) (d1 block) b t) ≡ global_id (place (d1 grid) (d1 block) b' t')
    → (b ≡ b') × (t ≡ t')
unfolding global_id place coord
global_id-injective grid block b t b' t' hb ht hb' ht' e =
    let e' : t + block * b ≡ t' + block * b' =
      rw (mul_comm block b, mul_comm block b', add_comm t (b * block), add_comm t' (b' * block))
        (rw (mod-eq_of_lt hb, mod-eq_of_lt ht, mod-eq_of_lt hb', mod-eq_of_lt ht') at e) in
    (
      sym (div_digit block b t ht) ∙ ap (λ (n : ℕ). n / block) e' ∙ div_digit block b' t' ht',
      sym (mod_digit block b t ht) ∙ ap (λ (n : ℕ). n % block) e' ∙ mod_digit block b' t' ht',
    )
