-- ===== src/Sdk/Node.antt =====
-- sdks/node: the client, and the three ways to attach it to a server.
pub mod Types
pub mod Client
pub mod Express
pub mod Fastify
pub mod Lambda
