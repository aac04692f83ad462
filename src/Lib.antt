-- ===== src/Lib.antt =====
-- simtgo compiles kernels written in Go to CUDA C. A kernel is ordinary Go over the package gpu, which
-- also runs it on the CPU (gpu/: threads, warps and blocks as goroutines); the package simt builds
-- a kernel for a device and launches it (simt/kernel.go, simt/prebuilt.go); the package tile fuses a
-- graph of operations into one kernel (tile/); both have their code compiled and loaded by internal/jit,
-- and reach the driver through the package cuda (cuda/). Each file of this library opens with the files of
-- the repository that it is about.
--
-- What models what:
--   Base: native numbers, integers, lists, and the conditional, with their lemmas.
--   Gpu.Dim: extents and positions (Dim, Ctx). Gpu.Barrier, Gpu.Threads: the barrier of a block behind
--     SyncThreads, as steps of its threads. Gpu.WarpBarrier: that of a warp, with its masks.
--     Gpu.Shared: the shared tiles and the first diagnosis of a block (sharedTile, dynamicTile,
--     AssumeBlockDim, divergence). Gpu.Launch: runBlock and the workers of runCPU. Gpu.Atomic: the
--     int32 atomics. Gpu.Warp: shuffles, votes, and WarpReduceSum of kernels/warpreduce.go.
--   Cuda.Arch: ParseArch and Context.Arch. Cuda.Args: Arg, Slice and BuildArgs. Cuda.Marshal: the
--     bytes that Function.launch hands to cuLaunchKernel. Cuda.Errors: the error values.
--     Cuda.Context: Context.call, bind and fault, and how a module is unloaded. Cuda.Elements:
--     checkElem and checkExtent. Cuda.Modules: LoadPTX, LoadPTXCached, Module.Function and Close.
--   Jit: Load with its retries, one attempt, its keys and the artifacts' table (internal/jit/jit.go), and
--     the entries of the disk (internal/jit/diskcache.go). Jit.Keys: what equal keys have in common.
--     Jit.Recorded, Jit.Genuine, Jit.Right: what a load gives.
--   Simt.Kernel, Simt.Alias, Simt.Launch: a kernel, checkAliasing, and every launch with its checks
--     and diagnose. Simt.Prebuilt: RegisterPrebuilt and pickPrebuilt.
--   Tile.Graph: nodes and the operations that build a graph. Tile.Codegen: postorder and generate,
--     the text as the expressions and loops that it says. Tile.Run: what that kernel does for the
--     threads of each block. Tile.Alias: checkAliasing.
--   Lower.Syntax: the trees of go/ast that the analyses of internal/lower walk. Lower.Vary: the objects
--     that vary between threads (varyingObjects, mark, varyingExpr, exitsVarying of
--     internal/lower/diverge.go). Lower.Diverge: check and report, which refuse a barrier.
--     Lower.Device: what a thread of a block does with such a tree, and the lemmas about two threads.
--     Lower.Barriers: what the refusals are worth.
--   The parts meet where the code does: Simt.Launch calls Cuda.Args.build_args, Simt.Prebuilt reads
--     Cuda.Arch.parse_arch, Jit hands its build to Cuda.Modules.load_ptx_cached,
--   and Tile.Alias asks a value for its range as Simt.Alias does.
--
-- How it is modelled:
--   State is passed on. Goroutines are sequences of steps or calls, in any order, each of which is
--   what one of them does while it holds the lock; a timer may fire at any step. The calls of a
--   driver's context come one after the other. The driver, the compiler of CUDA C, the hash, the
--   arithmetic of float32, and the schedule of the threads are parameters. A message is the data that
--   its text is formatted from, and a string is its bytes. Of a generated kernel each operation is taken
--   by itself; NUMERICS.md says where a device contracts two of them, and then results differ.
--   The bits of an integer wrap where the code's do (to_bits, signed, % 2 ^ 32, % 2 ^ 64); the extents of a launch on the CPU are natural numbers, for which an int is taken to
--   be large enough. Recursion on fuel is used for decimal digits, where the fuel is the number plus
--   one, for the staging loop of a tile, where it is the limit that the index climbs to, for the fixed
--   point of varyingObjects, where it is enough for the objects that a declaration names, and for a
--   thread's run of a tree, which need not end: what is said there is of runs that do. That run follows
--   no write to a slice; Lower.Barriers says what it takes of memory.
--
-- Not modelled: the emission of C (the rest of internal/lower), the fuzzer (internal/fuzz), streams and
-- page-locked memory, and what is only input, output or glue: the bindings' symbols, the command, the
-- analyzer, and the examples.
pub mod Base
pub mod Cuda
pub mod Gpu
pub mod Jit
pub mod Lower
pub mod Simt
pub mod Tile
