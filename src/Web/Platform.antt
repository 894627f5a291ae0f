-- ===== src/Web/Platform.antt =====
-- What the code takes from the browser and from the build: encoders, parsers and number
-- conversions, with `none` for a thrown error or `NaN`, and `VITE_API_URL`.
use bataudit.Prelude.{ℕ, String, Option, List}
use bataudit.Prelude.Json.{Json}

pub record Platform : Type 0 where
  -- `import.meta.env.VITE_API_URL ?? ''`
  pub base : String
  pub encode_uri_component : String → String
  -- `new URLSearchParams(…).toString()`
  pub params_to_string : List (String × String) → String
  -- `JSON.parse` and `JSON.stringify`
  pub parse_json : String → Option Json
  pub stringify_json : Json → String
  pub atob : String → Option String
  -- The conversion of a value, and of a text, to a number.
  pub to_number : Json → Option ℕ
  pub number_of_text : String → Option ℕ
  -- `String(n)`
  pub text_of_number : ℕ → String
