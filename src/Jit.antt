-- ===== src/Jit.antt =====
-- internal/jit: Load and load, cacheKey, rejectedPTX and the artifacts' table of jit.go, and the key and the
-- entries of diskcache.go. cuda.Compile, the hash, the driver and whether a file can be read or written are
-- parameters; the dumps, which nothing reads, are left out. A string is its bytes.
use simtgo.Base.{
  ℕ, zero, suc, ◌+◌, Bool, true, false, not, ◌&&◌, ◌||◌, List, [], ◌∷◌, ◌++◌, Option, some, none,
  ◌==◌, if◌then◌else◌, length, eq_list, is_empty,
}
use simtgo.Cuda.Arch.{Str, decimal}
use simtgo.Cuda.Errors.{
  CudaError, has_code, err_invalid_image, err_no_binary_for_gpu, err_invalid_ptx,
  err_unsupported_ptx_version,
}
use simtgo.Cuda.Context.{Driver, Device, Context}
use simtgo.Cuda.Modules.{look, Cached, got, build_failed, refused, load_ptx_cached, function}
pub mod Keys
pub mod Recorded
pub mod Genuine
pub mod Right
mod Tests

pub record Req : Type 0 where
  pub src : Str
  pub name : Str
  pub ptx : Option Str
  pub ptx_arch : Str
  pub fast_math : Bool
  pub no_disk_cache : Bool

pub record Artifacts : Type 0 where
  pub ptx : Str
  pub log : Str
  pub prebuilt : Bool
  pub arch : Str

-- The compiler's answer: its output with its log, or an error.
pub data Compiled : Type 0 where
  compiled : Str → Str → Compiled
  compile_error : Str → Compiled

pub data LoadError : Type 0 where
  compiling : Str → Str → LoadError  -- name, the compiler's error
  loading : Str → CudaError → LoadError
  looking_up : CudaError → LoadError

pub data Loaded : Type 0 where
  ok : Artifacts → Loaded
  failed_with : LoadError → Loaded

-- What a process has: one context on its device, the table of artifacts, the files, and, of the build that
-- is under way, the error of the compiler.
pub record Files : Type 0 where
  pub artifacts : List (Str × Artifacts)
  pub disk : List (Str × Str)
  pub compile_err : Option Str

pub record Process : Type 0 where
  pub files : Files
  pub ctx : Context
  pub dev : Device

-- What the package is given: the hash, the architecture of the device, the compiler with its tag, and
-- whether an entry can be read or written.
pub record Env : Type 0 where
  pub driver : Driver
  pub hash : Str → Str
  pub arch : Str
  pub tag : Str
  pub compile : Str → Str → Str → Bool → Compiled  -- source, file name, architecture, fast math
  pub readable : Str → Bool
  pub writable : Str → Bool

-- "nvrtc", "nvrtc-nodisk" and "prebuilt".
abbrev pub nvrtc_origin : Bool → Str
nvrtc_origin false = 110 ∷ 118 ∷ 114 ∷ 116 ∷ 99 ∷ []
nvrtc_origin true = 110 ∷ 118 ∷ 114 ∷ 116 ∷ 99 ∷ 45 ∷ 110 ∷ 111 ∷ 100 ∷ 105 ∷ 115 ∷ 107 ∷ []

abbrev pub prebuilt_origin : Str → Str
prebuilt_origin arch = (112 ∷ 114 ∷ 101 ∷ 98 ∷ 117 ∷ 105 ∷ 108 ∷ 116 ∷ []) ++ (0 ∷ arch)

abbrev pub origin_of : Option Str → Req → Str
origin_of none r = nvrtc_origin r.no_disk_cache
origin_of (some ptx) r = prebuilt_origin r.ptx_arch

-- What cacheKey hashes.
unfoldable pub key_text : Str → Str → Str → Str
key_text src arch origin = src ++ (0 ∷ (arch ++ (0 ∷ origin)))

-- What diskKey hashes: each term after its length and a colon.
unfoldable pub term_text : Str → Str
term_text t = decimal (length t) ++ (58 ∷ t)

unfoldable pub disk_text : Str → Str → Str → Str
unfolding term_text
disk_text src arch nvrtc = term_text src ++ (term_text arch ++ term_text nvrtc)

-- readDisk: an empty file is a miss.
abbrev pub unless_empty : Option Str → Option Str
unless_empty none = none
unless_empty (some b) = if is_empty b then none else some b

abbrev pub drop_key : Str → List (Str × Str) → List (Str × Str)
drop_key k [] = []
drop_key k ((j, b) ∷ l) = let rest = drop_key k l in if eq_list k j then rest else (j, b) ∷ rest

unfoldable pub forget_disk : Str → Files → Files
forget_disk k f = record f { disk = drop_key k f.disk }

unfoldable pub remember : Str → Artifacts → Files → Files
remember k a f = record f { artifacts = (k, a) ∷ f.artifacts }

-- rememberKeepingLog
abbrev pub keep_log : Option Artifacts → Artifacts → Artifacts
keep_log none a = a
keep_log (some old) a = if is_empty old.log then a else record a { log = old.log }

unfoldable pub remember_keeping_log : Str → Artifacts → Files → Files
unfolding remember look
remember_keeping_log k a f = remember k (keep_log (look k f.artifacts) a) f

abbrev pub no_artifacts : Artifacts
no_artifacts = record { ptx = []; log = []; prebuilt = false; arch = [] }

abbrev pub or_blank : Option Artifacts → Artifacts
or_blank none = no_artifacts
or_blank (some a) = a

unfoldable pub recall : Str → Files → Artifacts
unfolding look
recall k f = or_blank (look k f.artifacts)

-- load: one attempt.
abbrev pub no_error : Files → Files
no_error f = record f { compile_err = none }

abbrev pub build_error : Req → Option Str → LoadError
build_error r none = compiling r.name []
build_error r (some err) = compiling r.name err

abbrev pub looked_up : Str → Files → Device × Option CudaError → Device × Loaded
looked_up k f (w, some err) = (w, failed_with (looking_up err))
looked_up k f (w, none) = (w, ok (recall k f))

-- rejectedPTX
unfoldable pub rejected : CudaError → Bool
unfolding has_code
rejected err =
    has_code err err_unsupported_ptx_version
    || has_code err err_invalid_ptx
    || has_code err err_invalid_image
    || has_code err err_no_binary_for_gpu

unfoldable pub rejected_ptx : LoadError → Bool
unfolding rejected
rejected_ptx (compiling name err) = false
rejected_ptx (loading name err) = rejected err
rejected_ptx (looking_up err) = rejected err

-- Load: an attempt, and the recovery from PTX that the driver turned down.
abbrev pub without_disk : Req → Req
without_disk r = record r { no_disk_cache = true }

abbrev pub without_prebuilt : Req → Req
without_prebuilt r = record r { ptx = none; ptx_arch = [] }

module _ (e : Env) where
  unfoldable pub cache_key : Req → Str
  unfolding key_text
  cache_key r = e.hash (key_text r.src e.arch (origin_of r.ptx r))

  unfoldable pub disk_key : Str → Str
  unfolding disk_text
  disk_key src = e.hash (disk_text src e.arch e.tag)

  unfoldable pub read_disk : Str → Files → Option Str
  unfolding look
  read_disk k f = if e.readable k then unless_empty (look k f.disk) else none

  unfoldable pub write_disk : Str → Str → Files → Files
  write_disk k ptx f =
      if is_empty ptx || not (e.writable k) then f else record f { disk = (k, ptx) ∷ f.disk }

  -- The build of load, from prebuilt bytes, from the disk, or by the compiler. `disk` says whether the disk
  -- cache is used.
  abbrev pub store_disk : Bool → Str → Str → Files → Files
  store_disk true src ptx f = write_disk (disk_key src) ptx f
  store_disk false src ptx f = f

  build_compiled : Str → Req → Bool → Files → Compiled → Files × Option Str
  build_compiled k r disk f (compile_error err) = (record f { compile_err = some err }, none)
  build_compiled k r disk f (compiled ptx log) = (
    remember k (record { ptx = ptx; log = log; prebuilt = false; arch = e.arch })
        (store_disk disk r.src ptx f),
    some ptx,
  )

  build_cached : Str → Req → Bool → Files → Option Str → Files × Option Str
  unfolding build_compiled
  build_cached k r disk f (some ptx) = (
    remember_keeping_log k (record { ptx = ptx; log = []; prebuilt = false; arch = e.arch }) f,
    some ptx,
  )
  build_cached k r disk f none =
      build_compiled k r disk f (e.compile r.src r.name e.arch r.fast_math)

  abbrev pub disk_hit : Bool → Str → Files → Option Str
  disk_hit true src f = read_disk (disk_key src) f
  disk_hit false src f = none

  build_from : Str → Req → Option Str → Files → Files × Option Str
  unfolding build_cached
  build_from k r (some ptx) f =
      (remember k (record { ptx = ptx; log = []; prebuilt = true; arch = r.ptx_arch }) f, some ptx)
  build_from k r none f =
      build_cached k r (not r.no_disk_cache) f (disk_hit (not r.no_disk_cache) r.src f)

  unfoldable pub build : Str → Req → Files → Files × Option Str
  unfolding build_from
  build k r f = build_from k r r.ptx f

  finish : Str → Req → Files × Context × Device × Cached → Process × Loaded
  unfolding function
  finish k r (f, c, w, got m) =
      let q = looked_up k f (function e.driver m r.name c w) in
      (record { files = f; ctx = c; dev = q.0 }, q.1)
  finish k r (f, c, w, build_failed) =
      (record { files = f; ctx = c; dev = w }, failed_with (build_error r f.compile_err))
  finish k r (f, c, w, refused err) =
      (record { files = f; ctx = c; dev = w }, failed_with (loading r.name err))

  unfoldable pub load_once : Str → Req → Process → Process × Loaded
  unfolding finish build load_ptx_cached
  load_once k r p =
      finish k r (load_ptx_cached e.driver k (build k r) (no_error p.files) p.ctx p.dev)

  abbrev pub forgotten : Req → Process → Process
  forgotten r p = record p { files = forget_disk (disk_key r.src) p.files }

  recover : Req → Option Str → Process × LoadError → Process × Loaded
  unfolding load_once cache_key rejected_ptx
  recover r none (p, err) =
      let again = load_once (cache_key r) (without_disk r) (forgotten r p) in
      if not r.no_disk_cache && rejected_ptx err then again else (p, failed_with err)
  recover r (some ptx) (p, err) =
      let again = load_once (cache_key (without_prebuilt r)) (without_prebuilt r) p in
      if rejected_ptx err then again else (p, failed_with err)

  after_attempt : Req → Process × Loaded → Process × Loaded
  unfolding recover
  after_attempt r (p, ok a) = (p, ok a)
  after_attempt r (p, failed_with err) = recover r r.ptx (p, err)

  unfoldable pub load : Req → Process → Process × Loaded
  unfolding after_attempt load_once cache_key
  load r p = after_attempt r (load_once (cache_key r) r p)
