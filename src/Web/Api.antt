-- ===== src/Web/Api.antt =====
-- frontend/src/lib/api.ts: requests with the token of the signed-in user.
pub mod Refusal
use bataudit.Prelude.{ℕ, String, ◌==◌, if◌then◌else◌}
use bataudit.Web.Storage.{Storage}
use bataudit.Web.Http.{
  Request, Response, Browser, Api, error, ◌>>=◌, ◌>>◌, pure, raise, gets, modify, fetch, spread,
}
use bataudit.Web.Auth.{auth_header, clear_auth}

-- The request that is made of the arguments: headers of the caller win over the token.
unfoldable pub authorised : Storage → Request → Request
unfolding auth_header
authorised s r = record r { headers = spread (auth_header s) r.headers }

-- What a reply with status 401 does to the browser.
unfoldable pub log_out : Browser → Browser
unfolding clear_auth
log_out b = record b { storage = clear_auth b.storage; location = "/login" }

unfoldable pub fetch_with_auth : Request → Api Response
unfolding authorised log_out fetch
fetch_with_auth r = do
  storage ← gets (λ b. b.storage)
  res ← fetch (authorised storage r)
  if res.status == 401 then modify log_out >> raise (error "Unauthorized") else pure res
