-- ===== src/Gpu.antt =====
-- gpu/: the CPU emulator that kernels run on.
pub mod Dim
pub mod Threads
pub mod Barrier
pub mod WarpBarrier
pub mod Shared
pub mod Atomic
pub mod Warp
mod Tests
pub mod Launch
