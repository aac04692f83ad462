-- ===== src/Jit/Tests.antt =====
-- internal/jit: a run of Load on a concrete driver.
use simtgo.Base.{
  ℕ, zero, suc, ◌+◌, ◌≡◌, refl, sym, Bool, true, false, List, [], ◌∷◌, ◌++◌, Option, some, none,
  length, ltb, if◌then◌else◌, inl, inr, ◌⊎◌, All, ap,
}
use simtgo.Cuda.Arch.{Str}
use simtgo.Cuda.Errors.{err_invalid_ptx}
use simtgo.Cuda.Context.{Driver, Request, Trace, module_load, call}
use simtgo.Jit.Keys.{disk_text-injective}
use simtgo.Jit.Right.{load-Answers, load-Genuine, Answers}
use simtgo.Jit.Genuine.{Genuine}
use simtgo.Jit.{
  Req, Artifacts, Compiled, compiled, compile_error, ok, Process, Env, disk_text, disk_key,
  read_disk, remember, recall, load,
}

-- The compiler's output is its tag, the architecture and the source, one after the other.
abbrev output : Str → Str → Str → Str
output tag arch src = tag ++ (arch ++ src)

abbrev text_of_compiled : Compiled → Str
text_of_compiled (compiled ptx log) = ptx
text_of_compiled (compile_error err) = []

-- The driver turns down the first image and takes what follows.
abbrev answer : Trace → Request → ℕ
answer t (module_load img) = if ltb (length t) 3 then err_invalid_ptx else 0
answer t q = 0

abbrev driver : Driver
driver = record { answer = answer; handle = λ t. 1; name_of = λ q. []; text_of = λ r. [] }

abbrev env : Env
env = record {
  driver = driver;
  hash = λ s. s;
  arch = 56 ∷ 57 ∷ [];
  tag = 49 ∷ [];
  compile = λ src name arch fast. compiled (output (49 ∷ []) arch src) (87 ∷ []);
  readable = λ k. true;
  writable = λ k. true;
}

abbrev request : Req
request = record {
  src = 65 ∷ [];
  name = 102 ∷ [];
  ptx = none;
  ptx_arch = [];
  fast_math = false;
  no_disk_cache = false;
}

-- The disk holds an entry of the source.
abbrev process : Process
process = record {
  files = record {
    artifacts = [];
    disk =
        (disk_text (65 ∷ []) (56 ∷ 57 ∷ []) (49 ∷ []), output (49 ∷ []) (56 ∷ 57 ∷ []) (65 ∷ []))
        ∷ [];
    compile_err = none;
  };
  ctx = record { modules = []; cache = []; closed = false; handles = [] };
  dev = record { trace = []; poison = none };
}

abbrev recompiled : Artifacts
recompiled = record {
  ptx = output (49 ∷ []) (56 ∷ 57 ∷ []) (65 ∷ []);
  log = 87 ∷ [];
  prebuilt = false;
  arch = 56 ∷ 57 ∷ [];
}

process-Genuine : Genuine env output process
process-Genuine = (((((65 ∷ []), (56 ∷ 57 ∷ []), (49 ∷ []), refl, refl), tt), tt), tt)

process-run : (load env request process).1 ≡ ok recompiled
unfolding load read_disk simtgo.Base.eq_list disk_key simtgo.Cuda.Arch.decimal call recall remember
process-run = refl

-- Prebuilt PTX that the driver turns down, and then the entry of the disk.
fallback_run :
    (load env (record request { ptx = some (80 ∷ []); ptx_arch = 55 ∷ 53 ∷ [] }) process).1
    ≡ ok (record recompiled { log = [] })
unfolding load read_disk simtgo.Base.eq_list disk_key simtgo.Cuda.Arch.decimal call recall remember
    simtgo.Jit.remember_keeping_log
fallback_run = refl

load-Answers_example : Answers env output request recompiled
load-Answers_example =
    load-Answers env output (λ src. false) (λ s t h. h)
      (λ src name ptx log h. ap text_of_compiled (sym h)) refl request refl refl process recompiled
      process-Genuine process-run

load-Genuine_example : Genuine env output (load env request process).0
load-Genuine_example =
    load-Genuine env output (λ src. false) (λ s t h. h)
      (λ src name ptx log h. ap text_of_compiled (sym h)) refl request refl refl process
      process-Genuine

abbrev letter : Str
letter = 65 ∷ []

abbrev colon : Str
colon = 58 ∷ []

abbrev one : Str
one = 49 ∷ []

disk_text-injective_example : (letter ≡ letter) × (colon ≡ colon) × (one ≡ one)
disk_text-injective_example = disk_text-injective letter colon one letter colon one refl
