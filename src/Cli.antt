-- ===== src/Cli.antt =====
-- The command-line client (include/gr4cp/cli, src/cli/cli.cpp).
pub mod Url
pub mod Options
pub mod Requests
pub mod Commands
pub mod Exchanges
pub mod Reports
pub mod Guarantees
