-- ===== src/Domain.antt =====
-- The domain types (include/gr4cp/domain, src/domain).
pub mod Session
pub mod Catalog
pub mod Stream
