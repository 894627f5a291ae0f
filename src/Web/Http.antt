-- ===== src/Web/Http.antt =====
-- Requests, replies and the state of the browser. An action of the dashboard takes the server, the browser's
-- state, and yields a result or a thrown error with the new state.
use bataudit.Prelude.{
  ℕ, String, Bool, true, false, Option, none, some, List, [], ◌∷◌, ◌++◌, leb, ltb, ◌&&◌,
  if◌then◌else◌, str_eq,
}
use bataudit.Prelude.Json.{Json, null, str, arr, obj, nil, get_field}
use bataudit.Web.Storage.{Storage}

pub data Method : Type 0 where
  get post put patch delete : Method

abbrev pub Headers : Type 0
Headers = List (String × String)

pub record Request : Type 0 where
  pub method : Method
  pub url : String
  pub headers : Headers
  pub body : Option Json

-- A reply: its status, and what `json()` resolves to, `none` where it rejects.
pub record Response : Type 0 where
  pub status : ℕ
  pub json : Option Json

-- How the server answers: the requests before this one are known to it. `none` where `fetch`
-- rejects.
abbrev pub Server : Type 0
Server = List Request → Request → Option Response

pub record Browser : Type 0 where
  pub storage : Storage
  -- `window.location.href`
  pub location : String
  -- `Date.now()`
  pub now : ℕ
  -- The requests that were made.
  pub sent : List Request

pub data Error : Type 0 where
  -- `new Error(message)`
  error : String → Error
  -- `new Error(value)` of a value that is no text.
  error_value : Json → Error
  network_error syntax_error type_error : Error

pub data Result (A : Type 0) : Type 0 where
  ok : A → Result A
  err : Error → Result A

abbrev pub Api : Type 0 → Type 0
Api A = Server → Browser → Result A × Browser

abbrev pub then_do : {A B : Type 0} → (A → Api B) → Server → Result A × Browser → Result B × Browser
then_do k net (ok a, b) = k a net b
then_do k net (err e, b) = (err e, b)

infixl 5 ◌>>=◌ ◌>>◌
abbrev pub ◌>>=◌ : {A B : Type 0} → Api A → (A → Api B) → Api B
◌>>=◌ m k net b = then_do k net (m net b)

abbrev pub ◌>>◌ : {A B : Type 0} → Api A → Api B → Api B
m >> k = m >>= λ _. k

abbrev pub pure : {A : Type 0} → A → Api A
pure a net b = (ok a, b)

abbrev pub raise : {A : Type 0} → Error → Api A
raise e net b = (err e, b)

abbrev pub gets : {A : Type 0} → (Browser → A) → Api A
gets f net b = (ok (f b), b)

abbrev pub modify : (Browser → Browser) → Api (Unit {0})
modify f net b = (ok tt, f b)

abbrev pub received : Option Response → Browser → Result Response × Browser
received none b = (err network_error, b)
received (some res) b = (ok res, b)

unfoldable pub fetch : Request → Api Response
fetch r net b = received (net b.sent r) (record b { sent = b.sent ++ r ∷ [] })

-- `res.ok`
abbrev pub is_ok : Response → Bool
is_ok res = leb 200 res.status && ltb res.status 300

-- `if (!test) throw new Error(message)`
abbrev pub ensure : Bool → String → Api (Unit {0})
ensure true message = pure tt
ensure false message = raise (error message)

-- `await res.json()`
abbrev pub read_json : Response → Api Json
read_json res net b = elim res.json [ none ↦ (err syntax_error, b) | some j ↦ (ok j, b) ]

-- The property of a value: an exception at `null`, `undefined` where there is none.
abbrev pub property : String → Json → Api (Option Json)
property k null = raise type_error
property k (obj fs) = pure (get_field k fs)
property k _ = pure none

-- `value?.k`
abbrev pub optional_property : String → Json → Option Json
optional_property k (obj fs) = get_field k fs
optional_property k _ = none

-- `new Error(value ?? message)`
abbrev pub error_or : Option Json → String → Error
error_or (some (str s)) message = error s
error_or none message = error message
error_or (some null) message = error message
error_or (some j) message = error_value j

-- `x ?? []`
abbrev pub or_empty : Option Json → Json
or_empty none = arr nil
or_empty (some null) = arr nil
or_empty (some j) = j

abbrev pub put_header : String → String → Headers → Headers
put_header k v [] = (k, v) ∷ []
put_header k v ((j, w) ∷ hs) =
    let rest = put_header k v hs in if str_eq j k then (k, v) ∷ hs else (j, w) ∷ rest

-- `{ ...first, ...second }`
abbrev pub spread : Headers → Headers → Headers
spread first [] = first
spread first ((k, v) ∷ second) = spread (put_header k v first) second
