-- ===== src/Cuda/Modules/Once.antt =====
-- cuda/driver_cuda.go: LoadPTXCached: a key is loaded once.
use simtgo.Base.{ℕ, ◌≡◌, refl, false, [], ◌∷◌, ◌++◌, Option, some, none, ap, subst, eq_list_iff}
use simtgo.Cuda.Arch.{Str}
use simtgo.Cuda.Errors.{CudaError}
use simtgo.Cuda.Context.{Driver, Device, Context, module_load, call}
use simtgo.Cuda.Modules.{
  look, Cached, got, build_failed, refused, load_ptx_cached, loaded, load_ptx_locked, file_cached,
  after_build, find_or_build,
}
use simtgo.Cuda.Modules.Kept.{if_either, if_split}

-- The open context finds the module under the key.
abbrev Found : Str → Context → Cached → Type 0
Found k c (got m) = (c.closed ≡ false) × (look k c.cache ≡ some m)
Found k c build_failed = Unit
Found k c (refused e) = Unit

module _ (d : Driver) {S : Type 0} (k : Str) where
  abbrev FoundAfter : S × Context × Device × Cached → Type 0
  FoundAfter (s, c, w, r) = Found k c r

  filed :
      (s : S) (c : Context) (w : Device) (r : Device × Option CudaError)
      → c.closed ≡ false
      → FoundAfter (file_cached d k s (loaded d c r))
  unfolding file_cached loaded look
  filed s c w (w', some e) h = tt
  filed s c w (w', none) h = (h, rw ((eq_list_iff k k).1 refl) refl)

  built :
      (c : Context) (w : Device) (r : S × Option Str)
      → c.closed ≡ false
      → FoundAfter (after_build d k c w r)
  unfolding after_build load_ptx_locked file_cached
  built c w (s', none) h = tt
  built c w (s', some ptx) h =
      if_either (λ r. FoundAfter (file_cached d k s' r)) c.closed tt
        (filed s' c w (call d (module_load (ptx ++ (0 ∷ []))) w) h)

  found :
      (build : S → S × Option Str) (s : S) (c : Context) (w : Device) (o : Option ℕ)
      → c.closed ≡ false
      → look k c.cache ≡ o
      → FoundAfter (find_or_build d k build s c w o)
  unfolding find_or_build
  found build s c w (some m) h e = (h, e)
  found build s c w none h e = built c w (build s) h

  load_ptx_cached-Found :
      (build : S → S × Option Str) (s : S) (c : Context) (w : Device)
      → FoundAfter (load_ptx_cached d k build s c w)
  unfolding load_ptx_cached
  load_ptx_cached-Found build s c w =
      if_split FoundAfter c.closed (λ e. tt) (λ e. found build s c w (look k c.cache) e refl)

  cached-hit :
      (build : S → S × Option Str) (s : S) (c : Context) (w : Device) (m : ℕ)
      → c.closed ≡ false
      → look k c.cache ≡ some m
      → load_ptx_cached d k build s c w ≡ (s, c, w, got m)
  unfolding load_ptx_cached find_or_build
  cached-hit build s c w m h e =
      if_split (λ r. r ≡ (s, c, w, got m)) c.closed (λ t. cc)
        (λ t. ap (find_or_build d k build s c w) e)

  -- Once a load has given a module for a key, each load of that key in the same context gives that module,
  -- whatever its build: it runs no build, asks nothing of the driver and leaves the context as it was.
  pub load_ptx_cached-again :
      (build build' : S → S × Option Str) (s s' : S) (c : Context) (w w' : Device) (m : ℕ)
      → (load_ptx_cached d k build s c w).3 ≡ got m
      → load_ptx_cached d k build' s' (load_ptx_cached d k build s c w).1 w'
        ≡ (s', (load_ptx_cached d k build s c w).1, w', got m)
  load_ptx_cached-again build build' s s' c w w' m h =
      let c' = (load_ptx_cached d k build s c w).1 in
      let f = subst (Found k c') h (load_ptx_cached-Found build s c w) in
      cached-hit build' s' c' w' m f.0 f.1
