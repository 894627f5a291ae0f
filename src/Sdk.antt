-- ===== src/Sdk.antt =====
-- The two SDKs, sdks/node and sdks/browser: what they send to the writer, and when.
pub mod Network
pub mod Pending
pub mod Node
pub mod Browser
mod Agreement
mod Examples
