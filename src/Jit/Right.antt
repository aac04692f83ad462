-- ===== src/Jit/Right.antt =====
-- internal/jit/jit.go: Load: a load that gives artifacts gives those of its own request.
use simtgo.Base.{◌≡◌, refl, subst, Bool, true, false, not, ◌&&◌, Option, some, none, inl, inr, ◌⊎◌}
use simtgo.Cuda.Arch.{Str}
use simtgo.Cuda.Errors.{CudaError}
use simtgo.Cuda.Context.{Device, Context}
use simtgo.Cuda.Modules.{Cached, got, build_failed, refused, load_ptx_cached, function}
use simtgo.Cuda.Modules.Kept.{look-All, if_either, KeptAfter, load_ptx_cached-Kept}
use simtgo.Jit.Keys.{has_byte}
use simtgo.Jit.Recorded.{Recorded, build-Recorded, build_self}
use simtgo.Jit.Genuine.{
  GenuineFile, FitsFor, Fits, GenuineArtifacts, GenuineFiles, Genuine, drop_key-All, cache_key-Fits,
  build-Genuine,
}
use simtgo.Jit.{
  Req, Artifacts, compiled, LoadError, Loaded, ok, failed_with, Files, Process, Env, cache_key,
  disk_key, forget_disk, recall, build, no_error, looked_up, finish, load_once, rejected_ptx,
  without_disk, without_prebuilt, forgotten, recover, after_attempt, load,
}

-- What a caller may hold of the artifacts: compiled here, from its source and for the device, or its own
-- prebuilt PTX, with the architecture that it names.
abbrev pub Answers : Env → (Str → Str → Str → Str) → Req → Artifacts → Type 0
Answers e output r a =
    ((a.prebuilt ≡ false) × (a.ptx ≡ output e.tag e.arch r.src) × (a.arch ≡ e.arch))
    ⊎ ((a.prebuilt ≡ true) × (a.arch ≡ r.ptx_arch) × (ptx : Str) × (r.ptx ≡ some ptx))

Fits-Answers :
    (e : Env) (output : Str → Str → Str → Str) (o : Option Str) (r : Req) (a : Artifacts)
    → r.ptx ≡ o
    → FitsFor e output o r a
    → Answers e output r a
Fits-Answers e output none r a h fits = inl fits
Fits-Answers e output (some ptx) r a h (p, q) = inr (p, q, ptx, h)

-- The disk's option plays no part in what artifacts are.
without_disk-Fits :
    (e : Env) (output : Str → Str → Str → Str) (o : Option Str) (r : Req) (a : Artifacts)
    → FitsFor e output o (without_disk r) a
    → FitsFor e output o r a
without_disk-Fits e output none r a fits = fits
without_disk-Fits e output (some ptx) r a fits = fits

Fits-without_disk :
    (e : Env) (output : Str → Str → Str → Str) (o : Option Str) (r : Req) (a : Artifacts)
    → FitsFor e output o r a
    → FitsFor e output o (without_disk r) a
Fits-without_disk e output none r a fits = fits
Fits-without_disk e output (some ptx) r a fits = fits

module _ (e : Env) (output : Str → Str → Str → Str) (marked : Str → Bool)
    (hash-injective : (s t : Str) → e.hash s ≡ e.hash t → s ≡ t)
    (compiles : (src name ptx log : Str)
      → e.compile src name e.arch (marked src) ≡ compiled ptx log
      → ptx ≡ output e.tag e.arch src)
    (arch-clean : has_byte 0 e.arch ≡ false) where
  abbrev Served : (Artifacts → Type 0) → Loaded → Type 0
  Served P (ok a) = P a
  Served P (failed_with err) = Unit

  abbrev After : (Artifacts → Type 0) → Process × Loaded → Type 0
  After P (p, l) = Genuine e output p × Served P l

  module _ (k : Str) (r : Req) (marks : r.fast_math ≡ marked r.src)
      (good : (a : Artifacts) → Fits e output r a → GenuineArtifacts e output (k, a))
      (read : (a : Artifacts) → GenuineArtifacts e output (k, a) → Fits e output r a) where
    recall-Fits :
        (f : Files) → GenuineFiles e output f → Recorded k f → Fits e output r (recall k f)
    unfolding recall
    recall-Fits f h (a, eq) =
        rw eq (read a (look-All (GenuineArtifacts e output) k f.artifacts a h.1 eq))

    looked_up-Served :
        (f : Files) (x : Device × Option CudaError)
        → GenuineFiles e output f
        → Recorded k f
        → Served (Fits e output r) (looked_up k f x).1
    looked_up-Served f (w, some err) h rec = tt
    looked_up-Served f (w, none) h rec = recall-Fits f h rec

    finish-After :
        (out : Files × Context × Device × Cached)
        → KeptAfter e.driver (GenuineFiles e output) Recorded k out
        → After (Fits e output r) (finish e k r out)
    unfolding finish
    finish-After (f, c, w, got m) (h, rec) =
        (h, looked_up-Served f (function e.driver m r.name c w) h.0 rec)
    finish-After (f, c, w, build_failed) (h, rec) = (h, tt)
    finish-After (f, c, w, refused err) (h, rec) = (h, tt)

    load_once-After :
        (p : Process) → Genuine e output p → After (Fits e output r) (load_once e k r p)
    unfolding load_once
    load_once-After p h =
        finish-After (load_ptx_cached e.driver k (build e k r) (no_error p.files) p.ctx p.dev) (
          load_ptx_cached-Kept e.driver (GenuineFiles e output) Recorded k (build e k r)
            (build-Genuine e output marked hash-injective compiles arch-clean k r marks good)
            (λ f j. build-Recorded e k r f j) (build_self e k r) (no_error p.files) p.ctx p.dev h)

  module _ (r : Req) (clean : has_byte 0 r.src ≡ false) (marks : r.fast_math ≡ marked r.src) where
    -- One attempt under the request's own key, for itself or without the disk.
    attempt :
        (p : Process)
        → Genuine e output p
        → After (Fits e output r) (load_once e (cache_key e r) r p)
    attempt p h =
        load_once-After (cache_key e r) r marks (λ a fits. (r, clean, refl, fits))
          (λ a g. cache_key-Fits e output marked hash-injective compiles arch-clean r a clean g) p h

    attempt_without_disk :
        (p : Process)
        → Genuine e output p
        → After (Fits e output (without_disk r)) (load_once e (cache_key e r) (without_disk r) p)
    attempt_without_disk p h =
        load_once-After (cache_key e r) (without_disk r) marks
          (λ a fits. (r, clean, refl, without_disk-Fits e output r.ptx r a fits))
          (λ a g.
            Fits-without_disk e output r.ptx r a
              (cache_key-Fits e output marked hash-injective compiles arch-clean r a clean g))
          p h

    forgotten-Genuine : (p : Process) → Genuine e output p → Genuine e output (forgotten e r p)
    unfolding forget_disk
    forgotten-Genuine p ((files, arts), kept) =
        ((drop_key-All (GenuineFile e output) (disk_key e r.src) p.files.disk files, arts), kept)

  Served-map :
      (P Q : Artifacts → Type 0) (x : Process × Loaded)
      → ((a : Artifacts) → P a → Q a)
      → After P x
      → After Q x
  Served-map P Q (p, ok a) f (h, s) = (h, f a s)
  Served-map P Q (p, failed_with err) f (h, s) = (h, tt)

  module _ (r : Req) (clean : has_byte 0 r.src ≡ false) (marks : r.fast_math ≡ marked r.src) where
    recover-After :
        (o : Option Str) (p : Process) (err : LoadError)
        → Genuine e output p
        → r.ptx ≡ o
        → After (Answers e output r) (recover e r o (p, err))
    unfolding recover
    recover-After none p err h eq =
        if_either (After (Answers e output r)) (not r.no_disk_cache && rejected_ptx err)
          (Served-map (Fits e output (without_disk r)) (Answers e output r)
            (load_once e (cache_key e r) (without_disk r) (forgotten e r p))
            (λ a fits.
              Fits-Answers e output r.ptx r a refl (without_disk-Fits e output r.ptx r a fits))
            (attempt_without_disk r clean marks (forgotten e r p)
              (forgotten-Genuine r clean marks p h)))
          (h, tt)
    recover-After (some ptx) p err h eq =
        let r' = without_prebuilt r in
        if_either (After (Answers e output r)) (rejected_ptx err)
          (Served-map (Fits e output r') (Answers e output r) (load_once e (cache_key e r') r' p)
            (λ a fits. inl fits) (attempt r' clean marks p h))
          (h, tt)

    after_attempt-After :
        (x : Process × Loaded)
        → After (Fits e output r) x
        → After (Answers e output r) (after_attempt e r x)
    unfolding after_attempt
    after_attempt-After (p, ok a) (h, s) = (h, Fits-Answers e output r.ptx r a refl s)
    after_attempt-After (p, failed_with err) (h, s) = recover-After r.ptx p err h refl

    load-After : (p : Process) → Genuine e output p → After (Answers e output r) (load e r p)
    unfolding load
    load-After p h =
        after_attempt-After (load_once e (cache_key e r) r p) (attempt r clean marks p h)

    -- Load keeps a genuine state genuine, whether it succeeds or fails: every file of the disk was written by
    -- some compiler for the source, the architecture and the compiler under whose key it stands, every artifact
    -- in the table fits the request of its key, and every module in the context's cache has its artifacts in the
    -- table. This is for a hash that tells texts apart, a compiler whose output hangs on the source and the
    -- architecture alone, fast math that the source itself asks for, and a source and an architecture without a
    -- 0 byte.
    pub load-Genuine : (p : Process) → Genuine e output p → Genuine e output (load e r p).0
    load-Genuine p h = (load-After p h).0

    -- On a genuine state a Load that succeeds, by a module that is cached, from the disk, by the compiler or
    -- after a retry, gives PTX that the local compiler writes for the request's own source and the device's
    -- architecture, not marked as prebuilt, or it is marked as prebuilt, the request had prebuilt PTX, and the
    -- architecture is the one that it names. The conditions are those of load-Genuine.
    pub load-Answers :
        (p : Process) (a : Artifacts)
        → Genuine e output p
        → (load e r p).1 ≡ ok a
        → Answers e output r a
    load-Answers p a h eq = subst (Served (Answers e output r)) eq (load-After p h).1
