-- ===== src/Server.antt =====
-- internal/server: the handlers of the server.
pub mod Sections
pub mod Rebuild
pub mod Vacuum
pub mod Upload
pub mod Names
pub mod World
pub mod Files
pub mod Listing
pub mod Status
pub mod StartVacuum
