-- ===== src/App.antt =====
-- The application services (include/gr4cp/app, src/app).
pub mod SessionService
pub mod SchedulerCatalog
pub mod BlockCatalog
pub mod BlockSettings
