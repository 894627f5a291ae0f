-- ===== src/Dashboard/Settings.antt =====
-- frontend/src/routes/app/_layout/settings: the forms and the rows of the settings. A handler is run
-- to its end; a call of the server yields its result or its exception.
pub mod Profiles
pub mod MonitorForm
pub mod MonitorView
pub mod Webhooks
pub mod Confirm
pub mod People
pub mod Settled
use bataudit.Prelude.{String}
use bataudit.Web.Http.{Error, error}

-- `err instanceof Error ? err.message : …`, where every exception of a call is an `Error`; the
-- messages of the browser's own exceptions are an argument.
abbrev pub message_of : (Error → String) → Error → String
message_of browsers (error message) = message
message_of browsers e = browsers e
