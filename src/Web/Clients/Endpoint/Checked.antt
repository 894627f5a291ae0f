-- ===== src/Web/Clients/Endpoint/Checked.antt =====
-- The operations of frontend/src/http that yield a value, and the replies before it; revokeWbCode and listReports,
-- which do not look at the status, are in Web/Clients/Unchecked.antt.
use bataudit.Prelude.{◌≡◌, true, some, [], ◌∷◌, ◌++◌}
use bataudit.Prelude.Json.{Json}
use bataudit.Web.Platform.{Platform}
use bataudit.Web.Http.{Request, Response, Server, Browser, Api, ok, is_ok}
use bataudit.Web.Clients.Endpoint.{Endpoint}

-- A value is yielded only after a reply with a 2xx status, to the one request that was made; the
-- rest of the browser's state is as before.
abbrev pub IsChecked : {A : Type 0} → Api A → Type 0
IsChecked {A} m =
    (net : Server) (b b' : Browser) (v : A)
    → m net b ≡ (ok v, b')
    → (q : Request) × (res : Response) × (net b.sent q ≡ some res)
      × (is_ok res ≡ true)
      × (b' ≡ record b { sent = b.sent ++ q ∷ [] })

-- The same of what follows the reply.
abbrev AfterOk : {A : Type 0} → (Response → Api A) → Type 0
AfterOk {A} k =
    (res : Response) (net : Server) (b b' : Browser) (v : A)
    → k res net b ≡ (ok v, b')
    → (is_ok res ≡ true) × (b' ≡ b)
