-- ===== src/WebApp.antt =====
-- The web application (WebApp/), part by part.
pub mod Db
pub mod Flow
pub mod Fields
pub mod Permissions
pub mod Tickets
pub mod Users
pub mod Rooms
pub mod Movies
pub mod Screenings
pub mod Pages
pub mod Routes
pub mod Startup
pub mod Views
pub mod Comments
mod Samples
mod Tests
