-- ===== src/Sdk/Network.antt =====
-- What the SDKs do to the world: requests to the writer and pauses. How the network answers is an
-- argument of the model, a reply for each attempt.
use bataudit.Prelude.{ℕ, String, Bool, ◌&&◌, leb, ltb}

pub data Reply : Type 0 where
  -- `fetch` resolves to a response with this status.
  answered : ℕ → Reply
  -- `fetch` rejects, or the event cannot be serialised.
  failed : Reply

-- `res.ok`
abbrev pub is_ok : ℕ → Bool
is_ok status = leb 200 status && ltb status 300

pub record Post (E : Type 0) : Type 0 where
  pub url : String
  pub api_key : String
  pub body : E

pub data Effect (E : Type 0) : Type 0 where
  post : Post E → Effect E
  sleep : ℕ → Effect E
