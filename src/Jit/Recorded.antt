-- ===== src/Jit/Recorded.antt =====
-- internal/jit/jit.go: remember and rememberKeepingLog in the build of load: each key has its artifacts.
use simtgo.Base.{◌≡◌, Bool, true, false, not, ◌||◌, [], Option, some, none, is_empty}
use simtgo.Cuda.Arch.{Str}
use simtgo.Cuda.Modules.{look}
use simtgo.Cuda.Modules.Kept.{Has, Has-cons, Has-self, if_either}
use simtgo.Jit.{
  Req, Artifacts, Compiled, compiled, compile_error, Files, Env, disk_key, write_disk, remember,
  remember_keeping_log, keep_log, store_disk, build_compiled, build_cached, disk_hit, build_from,
  build,
}

-- The artifacts of the key have been recorded.
abbrev pub Recorded : Str → Files → Type 0
Recorded k f = Has k f.artifacts

remember-Recorded :
    (k j : Str) (a : Artifacts) (f : Files) → Recorded j f → Recorded j (remember k a f)
unfolding remember
remember-Recorded k j a f h = Has-cons j k a f.artifacts h

remember_self : (k : Str) (a : Artifacts) (f : Files) → Recorded k (remember k a f)
unfolding remember
remember_self k a f = Has-self k a f.artifacts

module _ (e : Env) (k : Str) (r : Req) where
  store_disk-Recorded :
      (disk : Bool) (ptx : Str) (j : Str) (f : Files)
      → Recorded j f
      → Recorded j (store_disk e disk r.src ptx f)
  unfolding write_disk
  store_disk-Recorded false ptx j f h = h
  store_disk-Recorded true ptx j f h =
      if_either (Recorded j) (is_empty ptx || not (e.writable (disk_key e r.src))) h h

  -- What a build adds: it drops no artifacts, and it records its own.
  abbrev Adds : Files → Files × Option Str → Type 0
  Adds f out =
      ((j : Str) → Recorded j f → Recorded j out.0)
      × ((ptx : Str) → out.1 ≡ some ptx → Recorded k out.0)

  build_compiled-Adds :
      (disk : Bool) (f : Files) (c : Compiled) → Adds f (build_compiled e k r disk f c)
  unfolding build_compiled
  build_compiled-Adds disk f (compile_error err) = ((λ j h. h), (λ ptx eq. cc))
  build_compiled-Adds disk f (compiled ptx log) =
      let a : Artifacts = record { ptx = ptx; log = log; prebuilt = false; arch = e.arch } in
      let f' = store_disk e disk r.src ptx f in
      (
        (λ j h. remember-Recorded k j a f' (store_disk-Recorded disk ptx j f h)),
        (λ ptx' eq. remember_self k a f'),
      )

  build_cached-Adds :
      (disk : Bool) (f : Files) (o : Option Str) → Adds f (build_cached e k r disk f o)
  unfolding build_cached remember_keeping_log
  build_cached-Adds disk f none =
      build_compiled-Adds disk f (e.compile r.src r.name e.arch r.fast_math)
  build_cached-Adds disk f (some ptx) =
      let fresh : Artifacts = record { ptx = ptx; log = []; prebuilt = false; arch = e.arch } in
      let a = keep_log (look k f.artifacts) fresh in
      ((λ j h. remember-Recorded k j a f h), (λ ptx' eq. remember_self k a f))

  build_from-Adds : (o : Option Str) (f : Files) → Adds f (build_from e k r o f)
  unfolding build_from
  build_from-Adds (some ptx) f =
      let a : Artifacts = record { ptx = ptx; log = []; prebuilt = true; arch = r.ptx_arch } in
      ((λ j h. remember-Recorded k j a f h), (λ ptx' eq. remember_self k a f))
  build_from-Adds none f =
      let disk = not r.no_disk_cache in build_cached-Adds disk f (disk_hit e disk r.src f)

  pub build-Recorded : (f : Files) (j : Str) → Recorded j f → Recorded j (build e k r f).0
  unfolding build
  build-Recorded f j h = (build_from-Adds r.ptx f).0 j h

  pub build_self :
      (f : Files) (ptx : Str) → (build e k r f).1 ≡ some ptx → Recorded k (build e k r f).0
  unfolding build
  build_self f ptx h = (build_from-Adds r.ptx f).1 ptx h
