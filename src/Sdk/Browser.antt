-- ===== src/Sdk/Browser.antt =====
-- sdks/browser: the client, and the interceptors of `fetch` and `XMLHttpRequest`.
pub mod Types
pub mod Client
pub mod Fetch
pub mod Xhr
pub mod Init
mod Examples
