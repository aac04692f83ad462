-- ===== src/Simt/Launch/Traps.antt =====
-- simt/kernel.go: when a failed launch is reported as a trap.
use simtgo.Base.{ℕ, ◌≡◌, ◌⊎◌, inl, inr, refl, true, some, arith, ◌↔◌, Bool-cases, sym, ◌∙◌}
use simtgo.Cuda.Arch.{Str}
use simtgo.Cuda.Errors.{
  CudaError, failed, poisoned, context_closed, length_mismatch, too_large, unsupported_arg,
  compile_failed,
}
use simtgo.Simt.Kernel.{Kernel, cuda, trap}
use simtgo.Simt.Launch.{faulted, diagnose_error, diagnose}

-- The driver's own error with a code that a fault on the device produces.
abbrev pub IsFault : CudaError → Type 0
IsFault e =
    (op : Str) × (code : ℕ) × (desc : Str) × (e ≡ failed op code desc)
    × ((code ≡ 719) ⊎ (code ≡ 700))

faulted_iff : (code : ℕ) → (faulted code ≡ true) ↔ ((code ≡ 719) ⊎ (code ≡ 700))
unfolding faulted
faulted_iff code = ground arith

diagnose_error-trap :
    (k : Kernel) (e f : CudaError) (n : Str)
    → diagnose_error k e ≡ trap n f
    → (n ≡ k.name) × (f ≡ e) × IsFault e
unfolding diagnose_error
diagnose_error-trap k (failed op code desc) f n h = elim (Bool-cases (faulted code)) [
  | inl b ↦
      let h' : trap k.name (failed op code desc) ≡ trap n f = sym (rw b refl) ∙ h in
      (cc, cc, (op, code, desc, refl, (faulted_iff code).0 b))
  | inr b ↦ let h' : cuda (failed op code desc) ≡ trap n f = sym (rw b refl) ∙ h in cc
]
diagnose_error-trap k (poisoned op code) f n h = cc
diagnose_error-trap k context_closed f n h = cc
diagnose_error-trap k (length_mismatch op w g) f n h = cc
diagnose_error-trap k (too_large op w g) f n h = cc
diagnose_error-trap k (unsupported_arg i) f n h = cc
diagnose_error-trap k (compile_failed a c l) f n h = cc

trap-diagnose_error : (k : Kernel) (e : CudaError) → IsFault e → diagnose_error k e ≡ trap k.name e
unfolding diagnose_error
trap-diagnose_error k e (op, code, desc, q, c) = let b = (faulted_iff code).1 c in rw q (rw b refl)

-- An error of the driver becomes a TrapError exactly when the kernel was built with bounds checks and
-- the error is the driver's own, not a poisoned context's, with the code 719 or 700; the TrapError has
-- the kernel's name and wraps that error.
pub diagnose-trap_iff :
    (k : Kernel) (e f : CudaError) (n : Str)
    → (diagnose k (some e) ≡ some (trap n f))
      ↔ ((k.bounds_checks ≡ true) × (n ≡ k.name) × (f ≡ e) × IsFault e)
unfolding diagnose
diagnose-trap_iff k e f n = (
  λ h. elim (Bool-cases k.bounds_checks) [
    | inl b ↦
        let h' : some (diagnose_error k e) ≡ some (trap n f) = sym (rw b refl) ∙ h in
        let t = diagnose_error-trap k e f n cc in (b, t.0, t.1, t.2)
    | inr b ↦ let h' : some (cuda e) ≡ some (trap n f) = sym (rw b refl) ∙ h in cc
  ],
  λ (b, en, ef, q). let t = trap-diagnose_error k e q in rw (b, t, en, ef) refl,
)
