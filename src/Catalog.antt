-- ===== src/Catalog.antt =====
-- The catalog providers (include/gr4cp/catalog, src/catalog).
pub mod StaticProvider
pub mod Wire
pub mod Libraries
pub mod Schedulers
pub mod Reflection
