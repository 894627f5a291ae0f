-- ===== src/Sdk/Node/Types.antt =====
-- sdks/node/src/types.ts. A property that may be left out is an `Option`; one that may also be
-- given as `undefined` is an `Option` of an `Option`.
use bataudit.Prelude.{ℕ, String, Bool, Option, none, some, List}
use bataudit.Prelude.Json.{Json, Fields}

pub data Environment : Type 0 where
  prod staging dev : Environment

pub record BatAuditConfig : Type 0 where
  pub api_key : String
  pub service_name : String
  pub writer_url : String
  pub environment : Option (Option Environment)
  pub capture_body : Option (Option Bool)
  pub capture_response_body : Option (Option Bool)

pub record BatAuditRequestData : Type 0 where
  pub identifier : Option String
  pub user_email : Option String
  pub user_name : Option String
  pub user_roles : Option (List String)
  pub user_type : Option String
  pub tenant_id : Option String

pub record AuditEvent : Type 0 where
  pub id : Option String
  pub method : String
  pub path : String
  pub status_code : Option ℕ
  pub response_time : Option ℕ
  pub identifier : String
  pub user_email : Option String
  pub user_name : Option String
  pub user_roles : Option (List String)
  pub user_type : Option String
  pub tenant_id : Option String
  pub ip : Option String
  pub user_agent : Option String
  pub request_id : Option String
  pub query_params : Option Fields
  pub path_params : Option Fields
  pub request_body : Option Json
  pub response_body : Option Json
  pub error_message : Option String
  pub service_name : String
  pub environment : Environment
  pub timestamp : String

-- `config.x ?? fallback`: both an absent property and `undefined` give the fallback.
abbrev pub property_or {ℓ} : {A : Type ℓ} → Option (Option A) → A → A
property_or none d = d
property_or (some none) d = d
property_or (some (some a)) d = a
