-- ===== src/Cuda/Modules/Closed.antt =====
-- cuda/driver_cuda.go: Close, and the calls that come after it.
use simtgo.Base.{
  ℕ, zero, suc, ◌≡◌, refl, ◌∙◌, true, false, List, [], ◌∷◌, Option, some, none, get_elem?, set, All,
}
use simtgo.Cuda.Arch.{Str}
use simtgo.Cuda.Errors.{CudaError, context_closed}
use simtgo.Cuda.Context.{Driver, Device, Context, unload_handle, unload_locked}
use simtgo.Cuda.Modules.{refused, load_ptx_locked, unload_all, close}
use simtgo.Cuda.Modules.Kept.{if_split, All-map}

-- A module without a handle: unloaded.
abbrev pub Unloaded : Context → ℕ → Type 0
Unloaded c m = (h : ℕ) → get_elem? c.handles m ≡ some h → h ≡ 0

-- What was unloaded stays so.
set-Unloaded :
    (hs : List ℕ) (m i h : ℕ)
    → ((h : ℕ) → get_elem? hs i ≡ some h → h ≡ 0)
    → get_elem? (set hs m 0) i ≡ some h
    → h ≡ 0
set-Unloaded [] m i h old e = cc
set-Unloaded (x ∷ hs) zero zero h old e = cc
set-Unloaded (x ∷ hs) zero (suc i) h old e = old h e
set-Unloaded (x ∷ hs) (suc m) zero h old e = old h e
set-Unloaded (x ∷ hs) (suc m) (suc i) h old e = set-Unloaded hs m i h old e

set_self : (hs : List ℕ) (m h : ℕ) → get_elem? (set hs m 0) m ≡ some h → h ≡ 0
set_self [] m h e = cc
set_self (x ∷ hs) zero h e = cc
set_self (x ∷ hs) (suc m) h e = set_self hs m h e

module _ (d : Driver) where
  -- Unloading a module leaves it without a handle, and the others as they were.
  unload_handle-Unloaded :
      (m i : ℕ) (o : Option ℕ) (c : Context) (w : Device)
      → Unloaded c i
      → Unloaded (unload_handle d m o c w).0 i
  unfolding unload_handle
  unload_handle-Unloaded m i none c w old = old
  unload_handle-Unloaded m i (some zero) c w old = old
  unload_handle-Unloaded m i (some (suc x)) c w old =
      λ h e. set-Unloaded c.handles m i h (λ h'. old h') e

  unload_handle_self :
      (m : ℕ) (o : Option ℕ) (c : Context) (w : Device)
      → get_elem? c.handles m ≡ o
      → Unloaded (unload_handle d m o c w).0 m
  unfolding unload_handle
  unload_handle_self m none c w e = λ h e'. cc
  unload_handle_self m (some zero) c w e = λ h e'. cc
  unload_handle_self m (some (suc x)) c w e = λ h e'. set_self c.handles m h e'

  unload_locked-Unloaded :
      (m i : ℕ) (c : Context) (w : Device) → Unloaded c i → Unloaded (unload_locked d m c w).0 i
  unfolding unload_locked
  unload_locked-Unloaded m i c w old = unload_handle-Unloaded m i (get_elem? c.handles m) c w old

  unload_locked_self : (m : ℕ) (c : Context) (w : Device) → Unloaded (unload_locked d m c w).0 m
  unfolding unload_locked
  unload_locked_self m c w = unload_handle_self m (get_elem? c.handles m) c w refl

  unload_all-Unloaded :
      (ms : List ℕ) (c : Context) (w : Device) → All (Unloaded (unload_all d ms c w).0) ms
  unfolding unload_all
  unload_all-Unloaded [] c w = tt
  unload_all-Unloaded (m ∷ ms) c w =
      let r = unload_all d ms c w in
      (
        unload_locked_self m r.0 r.1,
        All-map (Unloaded r.0) (Unloaded (unload_locked d m r.0 r.1).0) ms
            (λ i. unload_locked-Unloaded m i r.0 r.1) (unload_all-Unloaded ms c w),
      )

  unload_handle-closed :
      (m : ℕ) (o : Option ℕ) (c : Context) (w : Device)
      → (unload_handle d m o c w).0.closed ≡ c.closed
  unfolding unload_handle
  unload_handle-closed m none c w = refl
  unload_handle-closed m (some zero) c w = refl
  unload_handle-closed m (some (suc x)) c w = refl

  unload_all-closed :
      (ms : List ℕ) (c : Context) (w : Device) → (unload_all d ms c w).0.closed ≡ c.closed
  unfolding unload_all unload_locked
  unload_all-closed [] c w = refl
  unload_all-closed (m ∷ ms) c w =
      let r = unload_all d ms c w in
      unload_handle-closed m (get_elem? r.0.handles m) r.0 r.1 ∙ unload_all-closed ms c w

  -- What Close leaves of an open context, and what a closed one answers.
  shut-Unloaded :
      (c : Context) (w : Device)
      → c.closed ≡ false
      → All (Unloaded (close d c w).0) c.modules × ((close d c w).0.closed ≡ true)
  unfolding close
  shut-Unloaded c w h =
      let c' : Context = record c { closed = true } in
      if_split
        (λ (r : Context × Device × Option CudaError).
          All (Unloaded r.0) c.modules × (r.0.closed ≡ true))
        c.closed (λ t. cc)
        (λ t. (unload_all-Unloaded c.modules c' w, unload_all-closed c.modules c' w))

  close-closed : (c : Context) (w : Device) → c.closed ≡ true → close d c w ≡ (c, w, none)
  unfolding close
  close-closed c w h = if_split (λ r. r ≡ (c, w, none)) c.closed (λ t. refl) (λ t. cc)

  load_ptx_locked-closed :
      (ptx : Str) (c : Context) (w : Device)
      → c.closed ≡ true
      → load_ptx_locked d ptx c w ≡ (c, w, refused context_closed)
  unfolding load_ptx_locked
  load_ptx_locked-closed ptx c w h =
      if_split (λ r. r ≡ (c, w, refused context_closed)) c.closed (λ t. refl) (λ t. cc)

  -- After Close of an open context no module that it held has a handle, whatever the driver answered; a
  -- second Close asks nothing of the driver and reports nothing, and a load is refused.
  pub close-Unloaded :
      (c : Context) (w : Device)
      → c.closed ≡ false
      → All (Unloaded (close d c w).0) c.modules
        × ((w' : Device) → close d (close d c w).0 w' ≡ ((close d c w).0, w', none))
        × ((ptx : Str) (w' : Device)
            → load_ptx_locked d ptx (close d c w).0 w'
              ≡ ((close d c w).0, w', refused context_closed))
  close-Unloaded c w h =
      let (handles, shut) = shut-Unloaded c w h in
      let c' = (close d c w).0 in
      (handles, (λ w'. close-closed c' w' shut), (λ ptx w'. load_ptx_locked-closed ptx c' w' shut))
