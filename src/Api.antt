-- ===== src/Api.antt =====
-- src/api/http_server.cpp, without its sockets: paths, requests, answers and the handlers of the routes.
pub mod Targets
pub mod Routing
pub mod Errors
pub mod Render
pub mod Messages
pub mod Sessions
pub mod Catalogs
pub mod Settings
pub mod Server
pub mod Answers
