-- ===== src/Web/Api/Refusal.antt =====
-- What a refused request, one that is answered 401, does to the action that made it.
use bataudit.Prelude.{◌≡◌, Option, some, List, [], ◌∷◌, ◌++◌, ap}
use bataudit.Prelude.Json.{Json}
use bataudit.Web.Http.{Request, Server, Browser, Api, err, error, ◌>>=◌, then_do}
use bataudit.Web.Api.{authorised, log_out, fetch_with_auth}

-- A server that answers every request with status 401.
abbrev pub Refuses : Server → Type 0
Refuses net =
    (log : List Request) (r : Request)
    → (json : Option Json) × (net log r ≡ some (record { status = 401; json = json }))

-- The action makes one request, signs the user out, goes to the login page and throws.
abbrev pub IsRefused : {A : Type 0} → Api A → Type 0
IsRefused m =
    (net : Server) (b : Browser)
    → Refuses net
    → (q : Request) × (m net b
        ≡ (err (error "Unauthorized"), log_out (record b { sent = b.sent ++ q ∷ [] })))

pub IsRefused-fetch : (r : Request) → IsRefused (fetch_with_auth r)
unfolding fetch_with_auth
IsRefused-fetch r net b refuses =
    let (json, e) = refuses b.sent (authorised b.storage r) in (authorised b.storage r, rw e)

pub IsRefused-bind : {A B : Type 0} (m : Api A) (k : A → Api B) → IsRefused m → IsRefused (m >>= k)
IsRefused-bind m k h net b refuses = let (q, e) = h net b refuses in (q, ap (then_do k net) e)
