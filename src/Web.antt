-- ===== src/Web.antt =====
-- frontend/src: what the dashboard keeps in the browser, and how it talks to the server.
pub mod Platform
pub mod Storage
pub mod Http
pub mod Auth
pub mod Api
pub mod Clients
pub mod Wallboard
pub mod Fixtures
mod Examples
