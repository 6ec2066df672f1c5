-- ===== src/Bserv/Router.antt =====
-- bserv/include/bserv/router.hpp: the paths, the placeholders of a handler, and the router.
pub mod Pattern
pub mod Resources
pub mod Placeholders
pub mod Dispatch
