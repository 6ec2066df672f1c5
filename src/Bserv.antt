-- ===== src/Bserv.antt =====
-- The bserv framework (bserv/), part by part.
pub mod Utils
pub mod Database
pub mod Session
pub mod Router
pub mod Server
mod Tests
pub mod Client
