-- ===== src/Runtime.antt =====
-- The runtime layer (include/gr4cp/runtime, src/runtime).
pub mod Manager
pub mod Allocator
pub mod Held
pub mod Stub
pub mod Gr4
