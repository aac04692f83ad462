-- ===== src/Lower.antt =====
-- internal/lower: the analyses that the lowering of a kernel rests on (diverge.go), over the trees of go/ast
-- with what go/types says of them, and a kernel's run by one thread.
pub mod Syntax
pub mod Vary
pub mod Diverge
pub mod Device
pub mod Barriers
mod Tests
