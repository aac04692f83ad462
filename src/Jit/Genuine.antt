-- ===== src/Jit/Genuine.antt =====
-- internal/jit: what a load gives is the compiler's output for its own source, through the module cache of
-- the context, the artifacts' table, the disk and both retries.
use simtgo.Base.{
  ◌≡◌, refl, sym, ap, ◌∙◌, Bool, true, false, not, ◌||◌, List, [], ◌∷◌, Option, some, none, inl,
  inr, Bool-cases, eq_list, is_empty, All,
}
use simtgo.Cuda.Arch.{Str}
use simtgo.Cuda.Modules.{look}
use simtgo.Cuda.Modules.Kept.{look-All, if_either, Kept}
use simtgo.Jit.Recorded.{Recorded}
use simtgo.Jit.Keys.{
  has_byte, disk_text-injective, key_text-injective, origin_of-prebuilt, origin_of-nvrtc,
}
use simtgo.Jit.{
  Req, Artifacts, Compiled, compiled, compile_error, Files, Process, Env, key_text, disk_text,
  origin_of, cache_key, disk_key, read_disk, write_disk, drop_key, remember, remember_keeping_log,
  keep_log, store_disk, build_compiled, build_cached, disk_hit, build_from, build, unless_empty,
}

pub drop_key-All :
    (P : Str × Str → Type 0) (k : Str) (l : List (Str × Str)) → All P l → All P (drop_key k l)
drop_key-All P k [] h = h
drop_key-All P k ((j, b) ∷ l) (p, h) =
    let rest = drop_key-All P k l h in if_either (All P) (eq_list k j) rest (p, rest)

-- `output tag arch src` is what the compiler of that tag writes for a source and an architecture.
module _ (e : Env) (output : Str → Str → Str → Str) where
  -- A file: some process with some compiler wrote it for some source and architecture.
  abbrev pub GenuineFile : Str × Str → Type 0
  GenuineFile (k, ptx) =
      (src : Str) × (arch : Str) × (tag : Str) × (k ≡ e.hash (disk_text src arch tag))
      × (ptx ≡ output tag arch src)

  -- What the artifacts of a request are.
  abbrev pub FitsFor : Option Str → Req → Artifacts → Type 0
  FitsFor none r a = (a.prebuilt ≡ false) × (a.ptx ≡ output e.tag e.arch r.src) × (a.arch ≡ e.arch)
  FitsFor (some ptx) r a = (a.prebuilt ≡ true) × (a.arch ≡ r.ptx_arch)

  abbrev pub Fits : Req → Artifacts → Type 0
  Fits r a = FitsFor r.ptx r a

  abbrev pub GenuineArtifacts : Str × Artifacts → Type 0
  GenuineArtifacts (k, a) = (r : Req) × (has_byte 0 r.src ≡ false) × (k ≡ cache_key e r) × Fits r a

  abbrev pub GenuineFiles : Files → Type 0
  GenuineFiles f = All GenuineFile f.disk × All GenuineArtifacts f.artifacts

  -- The files and the table are genuine, and each module of the context has its artifacts.
  abbrev pub Genuine : Process → Type 0
  Genuine p = Kept e.driver GenuineFiles Recorded p.files p.ctx

-- `marked` says that a source carries the line which asks for fast math. The compiler's answer hangs on
-- nothing else, and the hash tells texts apart.
module _ (e : Env) (output : Str → Str → Str → Str) (marked : Str → Bool)
    (hash-injective : (s t : Str) → e.hash s ≡ e.hash t → s ≡ t)
    (compiles : (src name ptx log : Str)
      → e.compile src name e.arch (marked src) ≡ compiled ptx log
      → ptx ≡ output e.tag e.arch src)
    (arch-clean : has_byte 0 e.arch ≡ false) where
  unless_empty-some : (o : Option Str) (ptx : Str) → unless_empty o ≡ some ptx → o ≡ some ptx
  unless_empty-some none ptx h = cc
  unless_empty-some (some []) ptx h = cc
  unless_empty-some (some (c ∷ b)) ptx h = h

  read_disk-some :
      (k : Str) (f : Files) (ptx : Str) → read_disk e k f ≡ some ptx → look k f.disk ≡ some ptx
  unfolding read_disk
  read_disk-some k f ptx h = elim (Bool-cases (e.readable k)) [
    | inl t ↦ unless_empty-some (look k f.disk) ptx cc
    | inr n ↦ cc
  ]

  -- What is found under the key of a source is that source's.
  disk_key-Genuine :
      (src ptx : Str) → GenuineFile e output (disk_key e src, ptx) → ptx ≡ output e.tag e.arch src
  unfolding disk_key
  disk_key-Genuine src ptx (src', arch, tag, k, out) =
      let t = hash-injective (disk_text src e.arch e.tag) (disk_text src' arch tag) k in
      let same = disk_text-injective src e.arch e.tag src' arch tag t in
      let a = same.0 in let b = same.1 in let c = same.2 in cc

  -- A key's artifacts fit every request of that key.
  origin-Fits :
      (o o' : Option Str) (r r' : Req) (a : Artifacts)
      → r.src ≡ r'.src
      → origin_of o r ≡ origin_of o' r'
      → FitsFor e output o' r' a
      → FitsFor e output o r a
  origin-Fits none none r r' a hs ho (p, q, t) = (p, cc, t)
  origin-Fits none (some x') r r' a hs ho fits = origin_of-nvrtc r.no_disk_cache r'.ptx_arch ho
  origin-Fits (some x) none r r' a hs ho fits = origin_of-nvrtc r'.no_disk_cache r.ptx_arch (sym ho)
  origin-Fits (some x) (some x') r r' a hs ho (p, q) =
      let same = origin_of-prebuilt r.ptx_arch r'.ptx_arch ho in (p, cc)

  pub cache_key-Fits :
      (r : Req) (a : Artifacts)
      → has_byte 0 r.src ≡ false
      → GenuineArtifacts e output (cache_key e r, a)
      → Fits e output r a
  unfolding cache_key
  cache_key-Fits r a h (r', h', k, fits) =
      let o = origin_of r.ptx r in
      let o' = origin_of r'.ptx r' in
      let t = hash-injective (key_text r.src e.arch o) (key_text r'.src e.arch o') k in
      let same = key_text-injective r.src r'.src e.arch o o' h h' arch-clean t in
      origin-Fits r.ptx r'.ptx r r' a same.0 same.1 fits

  keep_log-Fits :
      (r : Req) (o : Option Artifacts) (a : Artifacts)
      → FitsFor e output none r a
      → FitsFor e output none r (keep_log o a)
  keep_log-Fits r none a h = h
  keep_log-Fits r (some old) a h = if_either (FitsFor e output none r) (is_empty old.log) h h

  -- The build keeps the files and the table genuine.
  module _ (k : Str) (r : Req) (marks : r.fast_math ≡ marked r.src)
      (good : (a : Artifacts) → FitsFor e output r.ptx r a → GenuineArtifacts e output (k, a)) where
    store-Genuine :
        (disk : Bool) (ptx : Str) (f : Files)
        → ptx ≡ output e.tag e.arch r.src
        → GenuineFiles e output f
        → GenuineFiles e output (store_disk e disk r.src ptx f)
    unfolding write_disk disk_key
    store-Genuine false ptx f out h = h
    store-Genuine true ptx f out (files, arts) =
        if_either (GenuineFiles e output) (is_empty ptx || not (e.writable (disk_key e r.src)))
          (files, arts) (((r.src, e.arch, e.tag, refl, out), files), arts)

    compiled-Genuine :
        (disk : Bool) (f : Files) (c : Compiled)
        → ((a : Artifacts) → FitsFor e output none r a → GenuineArtifacts e output (k, a))
        → ((ptx log : Str) → c ≡ compiled ptx log → ptx ≡ output e.tag e.arch r.src)
        → GenuineFiles e output f
        → GenuineFiles e output (build_compiled e k r disk f c).0
    unfolding build_compiled remember
    compiled-Genuine disk f (compile_error err) good' out h = h
    compiled-Genuine disk f (compiled ptx log) good' out h =
        let right = out ptx log refl in
        let stored = store-Genuine disk ptx f right h in
        (
          stored.0,
          (
            good' (record { ptx = ptx; log = log; prebuilt = false; arch = e.arch })
                (refl, right, refl),
            stored.1,
          ),
        )

    cached-Genuine :
        (disk : Bool) (f : Files) (o : Option Str)
        → ((a : Artifacts) → FitsFor e output none r a → GenuineArtifacts e output (k, a))
        → ((ptx : Str) → o ≡ some ptx → ptx ≡ output e.tag e.arch r.src)
        → GenuineFiles e output f
        → GenuineFiles e output (build_cached e k r disk f o).0
    unfolding build_cached remember_keeping_log remember
    cached-Genuine disk f none good' out h =
        compiled-Genuine disk f (e.compile r.src r.name e.arch r.fast_math) good'
          (λ ptx log c.
            compiles r.src r.name ptx log (ap (e.compile r.src r.name e.arch) (sym marks) ∙ c))
          h
    cached-Genuine disk f (some ptx) good' out (files, arts) =
        let fresh : Artifacts = record { ptx = ptx; log = []; prebuilt = false; arch = e.arch } in
        (
          files,
          (
            good' (keep_log (look k f.artifacts) fresh)
                (keep_log-Fits r (look k f.artifacts) fresh (refl, out ptx refl, refl)),
            arts,
          ),
        )

    disk_hit-Genuine :
        (disk : Bool) (f : Files) (ptx : Str)
        → GenuineFiles e output f
        → disk_hit e disk r.src f ≡ some ptx
        → ptx ≡ output e.tag e.arch r.src
    disk_hit-Genuine false f ptx h eq = cc
    disk_hit-Genuine true f ptx h eq = disk_key-Genuine r.src ptx (
        look-All (GenuineFile e output) (disk_key e r.src) f.disk ptx h.0
          (read_disk-some (disk_key e r.src) f ptx eq))

    build_from-Genuine :
        (o : Option Str) (f : Files)
        → ((a : Artifacts) → FitsFor e output o r a → GenuineArtifacts e output (k, a))
        → GenuineFiles e output f
        → GenuineFiles e output (build_from e k r o f).0
    unfolding build_from remember
    build_from-Genuine (some ptx) f good' (files, arts) = (
      files,
      (
        good' (record { ptx = ptx; log = []; prebuilt = true; arch = r.ptx_arch }) (refl, refl),
        arts,
      ),
    )
    build_from-Genuine none f good' h =
        let disk = not r.no_disk_cache in
        cached-Genuine disk f (disk_hit e disk r.src f) good'
          (λ ptx eq. disk_hit-Genuine disk f ptx h eq) h

    pub build-Genuine :
        (f : Files) → GenuineFiles e output f → GenuineFiles e output (build e k r f).0
    unfolding build
    build-Genuine f h = build_from-Genuine r.ptx f good h
