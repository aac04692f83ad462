-- ===== src/Cuda/Modules.antt =====
-- cuda/driver_cuda.go: the modules of a Context: loadPTXLocked, LoadPTX and LoadPTXCached, Module.Function,
-- and Close. A module is known by its number; what a build keeps for itself is the state `S`.
use simtgo.Base.{
  ℕ, zero, suc, ◌+◌, Bool, true, false, List, [], ◌∷◌, ◌++◌, Option, some, none, ◌==◌,
  if◌then◌else◌, length, get_elem?, eq_list,
}
use simtgo.Cuda.Arch.{Str}
use simtgo.Cuda.Errors.{CudaError, context_closed}
use simtgo.Cuda.Context.{
  Driver, Device, Context, Request, module_load, get_function, release_primary, ask, answer_of,
  check, call, unload_locked,
}
pub mod Kept
pub mod Once
pub mod Closed

-- An association list, for a map whose keys are strings.
module _ {ℓ} {A : Type ℓ} where
  unfoldable pub look : Str → List (Str × A) → Option A
  look k [] = none
  look k ((j, a) ∷ l) = if eq_list k j then some a else look k l

-- What LoadPTXCached returns: a module, an error of the build, or one of the context.
pub data Cached : Type 0 where
  got : ℕ → Cached
  build_failed : Cached
  refused : CudaError → Cached

module _ (d : Driver) where
  -- What cuModuleLoadData gave, once it has answered without an error.
  abbrev pub add_module : Context → Device → Context
  add_module c w = record c {
    modules = c.modules ++ (length c.handles ∷ []);
    handles = c.handles ++ (d.handle w.trace ∷ []);
  }

  loaded : Context → Device × Option CudaError → Context × Device × Cached
  loaded c (w, some e) = (c, w, refused e)
  loaded c (w, none) = (add_module c w, w, got (length c.handles))

  unfoldable pub load_ptx_locked : Str → Context → Device → Context × Device × Cached
  unfolding loaded
  load_ptx_locked ptx c w =
      if c.closed
      then (c, w, refused context_closed)
      else loaded c (call d (module_load (ptx ++ (0 ∷ []))) w)

  module _ {S : Type 0} where
    -- The module is filed under its key once it is loaded.
    file_cached : Str → S → Context × Device × Cached → S × Context × Device × Cached
    file_cached key s (c, w, got m) = (s, record c { cache = (key, m) ∷ c.cache }, w, got m)
    file_cached key s (c, w, r) = (s, c, w, r)

    after_build : Str → Context → Device → S × Option Str → S × Context × Device × Cached
    unfolding file_cached load_ptx_locked
    after_build key c w (s, none) = (s, c, w, build_failed)
    after_build key c w (s, some ptx) = file_cached key s (load_ptx_locked ptx c w)

    find_or_build :
        Str → (S → S × Option Str) → S → Context → Device → Option ℕ → S × Context × Device × Cached
    unfolding after_build
    find_or_build key build s c w (some m) = (s, c, w, got m)
    find_or_build key build s c w none = after_build key c w (build s)

    unfoldable pub load_ptx_cached :
        Str → (S → S × Option Str) → S → Context → Device → S × Context × Device × Cached
    unfolding find_or_build look
    load_ptx_cached key build s c w =
        if c.closed
        then (s, c, w, refused context_closed)
        else find_or_build key build s c w (look key c.cache)

  abbrev pub handle_of : Option ℕ → ℕ
  handle_of none = 0
  handle_of (some h) = h

  -- Module.Function, without the handle that it gives.
  unfoldable pub function : ℕ → Str → Context → Device → Device × Option CudaError
  function m name c w = call d (get_function (handle_of (get_elem? c.handles m)) name) w

  -- The loop of Close: from the last module to the first, with the first error.
  abbrev pub or_else : Option CudaError → Option CudaError → Option CudaError
  or_else none e = e
  or_else (some e) f = some e

  unfoldable pub unload_all : List ℕ → Context → Device → Context × Device × Option CudaError
  unload_all [] c w = (c, w, none)
  unload_all (m ∷ ms) c w =
      let r = unload_all ms c w in let q = unload_locked d m r.0 r.1 in (q.0, q.1, or_else r.2 q.2)

  unfoldable pub close : Context → Device → Context × Device × Option CudaError
  unfolding unload_all check ask
  close c w =
      let r = unload_all c.modules (record c { closed = true }) w in
      let e = check d release_primary (answer_of d release_primary r.1) in
      if c.closed
      then (c, w, none)
      else (record r.0 { modules = []; cache = [] }, ask d release_primary r.1, or_else r.2 e)
