-- ===== src/Web/Clients.antt =====
-- frontend/src/http: a function for each operation of the server that the dashboard calls.
pub mod Requests
pub mod Audit
pub mod Accounts
pub mod Projects
pub mod Monitors
pub mod Notifications
pub mod Studio
pub mod Template
pub mod Tiering
pub mod WallboardCodes
pub mod Endpoint
pub mod Unchecked
