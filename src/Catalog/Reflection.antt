-- ===== src/Catalog/Reflection.antt =====
-- The reflection of GNU Radio's blocks in src/catalog/gr4_block_catalog_provider.cpp.
pub mod Names
pub mod Values
pub mod Ports
pub mod Collections
pub mod Blocks
pub mod Writable
pub mod Provider
pub mod Faithful
pub mod Bounds
