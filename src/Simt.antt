-- ===== src/Simt.antt =====
-- The package simt: what a launch checks before and after the driver.
pub mod Kernel
pub mod Alias
pub mod Launch
pub mod Prebuilt
mod Tests
