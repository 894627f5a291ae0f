-- ===== src/Web/Clients/Endpoint/Refused.antt =====
-- The operations of frontend/src/http where the server does not accept the token.
use bataudit.Web.Platform.{Platform}
use bataudit.Web.Clients.Endpoint.{Endpoint}
