-- ===== src/Web/Fixtures.antt =====
-- Values for examples: a user, a platform, a browser and servers.
use bataudit.Prelude.{
  ℕ, zero, suc, String, ◌≡◌, refl, ap, none, some, Option, [], ◌∷◌, str_eq, if◌then◌else◌,
}
use bataudit.Prelude.Json.{Json, num, obj, end, field}
use bataudit.Web.Platform.{Platform}
use bataudit.Web.Http.{Server, Browser}
use bataudit.Web.Auth.{StoredUser, user_json}

abbrev pub ada : StoredUser
ada = record { id = "1"; name = "Ada"; email = "ada@example.org"; role = "owner" }

abbrev pub ada_text : String
ada_text = "{id:1,name:Ada,email:ada@example.org,role:owner}"

-- Numbers as texts of as many strokes.
unfoldable pub strokes : ℕ → String
strokes zero = ""
strokes (suc n) = String.◌∷◌ "|" (strokes n)

unfoldable pub count : String → ℕ
count String.[] = zero
count (String.◌∷◌ c s) = suc (count s)

pub count-strokes : (n : ℕ) → count (strokes n) ≡ n
unfolding count strokes
count-strokes zero = refl
count-strokes (suc n) = ap suc (count-strokes n)

-- A browser that knows the texts of these examples: one user, and a token's payload that expires
-- 900 seconds after 1970.
abbrev pub platform : Platform
platform = record {
  base = "https://api.example";
  encode_uri_component = λ s. s;
  params_to_string = λ search. "query";
  parse_json = λ text.
      if str_eq text ada_text
      then some (user_json ada)
      else if str_eq text "payload"
      then some (obj (field "exp" (num 900) end))
      else none;
  stringify_json = λ json. ada_text;
  atob = λ text. if str_eq text "cGF5" then some "payload" else none;
  to_number = λ json. elim json [ num n ↦ some n | _ ↦ none ];
  number_of_text = λ text. some (count text);
  text_of_number = strokes;
}

abbrev pub browser : Browser
browser = record {
  storage = ("bataudit_token", "h.cGF5.s") ∷ ("bataudit-theme", "dark") ∷ [];
  location = "/app";
  now = 1000;
  sent = [];
}

-- Servers that answer every request alike.
abbrev pub answering : ℕ → Option Json → Server
answering status json log r = some (record { status = status; json = json })
