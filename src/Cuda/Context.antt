-- ===== src/Cuda/Context.antt =====
-- cuda/driver_cuda.go: Context: its calls of the driver, the fault that poisons a device, its modules,
-- and Close. The driver is a parameter: its answer to a request, and the handle that a load gives,
-- are functions of every request before. One call of a Context follows another.
use simtgo.Base.{
  ℕ, zero, suc, ◌+◌, Bool, true, false, not, ◌&&◌, ◌||◌, List, [], ◌∷◌, ◌++◌, Option, some, none,
  ◌==◌, if◌then◌else◌, length, get_elem?, set, eq_list,
}
use simtgo.Cuda.Arch.{Str}
use simtgo.Cuda.Errors.{
  CudaError, failed, poisoned, context_closed, success, err_illegal_address, err_launch_timeout,
  err_illegal_instruction, err_misaligned_address, err_launch_failed,
}
pub mod Poison

-- The driver's entry points, with the arguments that matter here.
pub data Request : Type 0 where
  set_current synchronize release_primary : Request
  mem_alloc mem_free : ℕ → Request
  memcpy_in memcpy_out : ℕ → ℕ → Request  -- device address, bytes
  module_load : List ℕ → Request
  module_unload : ℕ → Request
  get_function : ℕ → Str → Request

-- Every request so far with its answer, the last one first.
abbrev pub Trace : Type 0
Trace = List (Request × ℕ)

pub record Driver : Type 0 where
  pub answer : Trace → Request → ℕ
  pub handle : Trace → ℕ
  pub name_of : Request → Str  -- the entry point's name
  pub text_of : ℕ → Str  -- cuGetErrorString

-- The device: what has been asked of it, and the first sticky fault, which every Context of it shares.
pub record Device : Type 0 where
  pub trace : Trace
  pub poison : Option (Str × ℕ)

unfoldable pub sticky : ℕ → Bool
sticky r =
    (r == err_illegal_address)
    || (r == err_launch_timeout)
    || (r == err_illegal_instruction)
    || (r == err_misaligned_address)
    || (r == err_launch_failed)

abbrev pub or_first : Option (Str × ℕ) → Str × ℕ → Option (Str × ℕ)
or_first none p = some p
or_first (some q) p = some q

-- A Context's own state: a module is known by its number, and `handles` holds the handle of each, 0
-- once it is unloaded.
pub record Context : Type 0 where
  pub modules : List ℕ
  pub cache : List (Str × ℕ)
  pub closed : Bool
  pub handles : List ℕ

module _ (d : Driver) where
  unfoldable pub ask : Request → Device → Device
  ask q w = record w { trace = (q, d.answer w.trace q) ∷ w.trace }

  abbrev pub answer_of : Request → Device → ℕ
  answer_of q w = d.answer w.trace q

  -- check
  unfoldable pub check : Request → ℕ → Option CudaError
  check q r = if r == success then none else some (failed (d.name_of q) r (d.text_of r))

  -- Context.fault, of what check gave: it records a sticky error where there is none yet.
  unfoldable pub fault : Request → ℕ → Device → Device
  unfolding sticky
  fault q r w =
      if not (r == success) && sticky r
      then record w { poison = or_first w.poison (d.name_of q, r) }
      else w

  -- Context.call with its bind: nothing is asked of the driver once the device is poisoned.
  call_bound : Request → Device → Option CudaError → Device × Option CudaError
  unfolding ask fault check
  call_bound q w (some e) = (w, some e)
  call_bound q w none = (fault q (answer_of q w) (ask q w), check q (answer_of q w))

  call_if : Request → Device → Option (Str × ℕ) → Device × Option CudaError
  unfolding call_bound ask check
  call_if q w (some (op, code)) = (w, some (poisoned op code))
  call_if q w none = call_bound q (ask set_current w) (check set_current (answer_of set_current w))

  unfoldable pub call : Request → Device → Device × Option CudaError
  unfolding call_if
  call q w = call_if q w w.poison

  -- Module.unloadLocked
  unfoldable pub unload_handle :
      ℕ → Option ℕ → Context → Device → Context × Device × Option CudaError
  unload_handle m none c w = (c, w, none)
  unload_handle m (some zero) c w = (c, w, none)
  unload_handle m (some (suc h)) c w =
      let r = call (module_unload (suc h)) w in (record c { handles = set c.handles m 0 }, r.0, r.1)

  unfoldable pub unload_locked : ℕ → Context → Device → Context × Device × Option CudaError
  unfolding unload_handle
  unload_locked m c w = unload_handle m (get_elem? c.handles m) c w

  -- Context.forgetLocked
  abbrev pub drop_first : ℕ → List ℕ → List ℕ
  drop_first m [] = []
  drop_first m (x ∷ l) = if x == m then l else x ∷ drop_first m l

  abbrev pub drop_cached : ℕ → List (Str × ℕ) → List (Str × ℕ)
  drop_cached m [] = []
  drop_cached m ((k, x) ∷ l) = if x == m then drop_cached m l else (k, x) ∷ drop_cached m l

  unfoldable pub forget : ℕ → Context → Context
  forget m c = record c { modules = drop_first m c.modules; cache = drop_cached m c.cache }

  -- Module.Unload
  unfoldable pub unload : ℕ → Context → Device → Context × Device × Option CudaError
  unfolding unload_locked forget
  unload m c w = unload_locked m (forget m c) w
