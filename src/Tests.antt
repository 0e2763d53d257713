-- ===== src/Tests.antt =====
-- Runs on small inputs, and the theorems at inputs where their hypotheses hold.
mod Fixtures
mod Sessions
mod Values
mod Streams
mod Catalogs
mod Wire
mod Commands
mod Gr4
mod Settings
mod Paths
mod Http
mod Reflection
