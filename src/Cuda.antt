-- ===== src/Cuda.antt =====
-- The package cuda: architectures, launch arguments, errors, and the driver's context.
pub mod Arch
pub mod Args
pub mod Context
pub mod Modules
pub mod Elements
pub mod Errors
pub mod Marshal
mod Tests
