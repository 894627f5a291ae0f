-- ===== src/Sdk/Browser/Types.antt =====
-- sdks/browser/src/types.ts. A property that may be left out is an `Option`; one that may also be
-- given as `undefined` is an `Option` of an `Option`.
use bataudit.Prelude.{ℕ, String, Option, List}
use bataudit.Sdk.Node.Types.{Environment}

pub record BatAuditBrowserConfig : Type 0 where
  pub api_key : String
  pub service_name : String
  pub writer_url : String
  pub environment : Option (Option Environment)

pub record BatAuditUserData : Type 0 where
  pub identifier : String
  pub user_email : Option String
  pub user_name : Option String
  pub user_roles : Option (List String)
  pub user_type : Option String
  pub tenant_id : Option String

-- The property `source`, always "browser".
pub data Source : Type 0 where
  browser : Source

-- `environment` is what the client holds, which may be `undefined`.
pub record AuditEvent : Type 0 where
  pub method : String
  pub path : String
  pub status_code : Option ℕ
  pub response_time : Option ℕ
  pub identifier : String
  pub user_email : Option String
  pub user_name : Option String
  pub user_roles : Option (List String)
  pub user_type : Option String
  pub tenant_id : Option String
  pub user_agent : Option String
  pub request_id : Option String
  pub service_name : String
  pub environment : Option Environment
  pub source : Source
  pub timestamp : String

-- The argument of `buildEvent`: an event without the properties that the client fills in.
pub record Observed : Type 0 where
  pub method : String
  pub path : String
  pub status_code : Option ℕ
  pub response_time : Option ℕ
  pub user_agent : Option String
  pub request_id : Option String
  pub timestamp : String
