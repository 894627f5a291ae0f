-- ===== src/Web/Auth/Refinement.antt =====
-- The storage as an implementation of a session: at most one login, which can expire.
use mathlib.Core.Option
use mathlib.Core.Path.{ap₂}
use bataudit.Prelude.{
  ℕ, String, Bool, true, false, ◌≡◌, ◌≢◌, refl, ap, Option, none, some, List, [], ◌∷◌, All, str_eq,
  eq_iff, arith, if◌then◌else◌,
}
use bataudit.Prelude.Text.{◌<>◌}
use bataudit.Prelude.Json.{Json}
use bataudit.Web.Platform.{Platform}
use bataudit.Web.Storage.{Storage, get_item, get_item-set_item, get_item-remove_item}
use bataudit.Web.Http.{Headers}
use bataudit.Web.Auth.{
  StoredUser, user_json, token_key, get_token, set_auth, clear_auth, get_user, is_token_expired,
  is_authenticated, auth_header,
}

pub data Operation : Type 0 where
  sign_in : String → StoredUser → Operation
  sign_out : Operation
  -- `isAuthenticated()` at a time, `getUser()` and `authHeader()`.
  check : ℕ → Operation
  ask_user : Operation
  ask_header : Operation

pub data Output : Type 0 where
  done : Output
  signed_in : Bool → Output
  user : Option Json → Output
  header : Headers → Output

-- The specification: who is signed in.
pub record Login : Type 0 where
  pub token : String
  pub user : StoredUser

module _ (p : Platform) where
  -- Whether a token has expired, as the code finds it where nothing else is stored.
  abbrev pub expired : ℕ → String → Bool
  expired now token = is_token_expired p now ((token_key, token) ∷ [])

  abbrev check_login : ℕ → Login → Output × Option Login
  check_login now l =
      if str_eq l.token ""
      then (signed_in false, some l)
      else if expired now l.token
      then (signed_in false, none)
      else (signed_in true, some l)

  abbrev pub spec : Operation → Option Login → Output × Option Login
  spec (sign_in token u) a = (done, some (record { token = token; user = u }))
  spec sign_out a = (done, none)
  spec (check now) none = (signed_in false, none)
  spec (check now) (some l) = check_login now l
  spec ask_user a = (user (Option.map (λ (l : Login). user_json l.user) a), a)
  spec ask_header none = (header [], none)
  spec ask_header (some l) = (
    header (if str_eq l.token "" then [] else ("Authorization", "Bearer " <> l.token) ∷ []),
    some l,
  )

  -- The code.
  abbrev pub code : Operation → Storage → Output × Storage
  code (sign_in token u) s = (done, set_auth p token u s)
  code sign_out s = (done, clear_auth s)
  code (check now) s = let (r, s') = is_authenticated p now s in (signed_in r, s')
  code ask_user s = (user (get_user p s), s)
  code ask_header s = (header (auth_header s), s)

  -- The storage holds the login: its token, and the text of its user.
  abbrev pub Refines : Option Login → Storage → Type 0
  Refines a s =
      (get_token s ≡ Option.map (λ (l : Login). l.token) a)
      × (get_user p s ≡ Option.map (λ (l : Login). user_json l.user) a)

  -- The JSON parser reads back what was written for the user, which is not the empty text.
  abbrev pub IsStorable : Operation → Type 0
  IsStorable (sign_in token u) =
      (p.parse_json (p.stringify_json (user_json u)) ≡ some (user_json u))
      × (p.stringify_json (user_json u) ≢ "")
  IsStorable _ = Unit

  pub is_token_expired_token :
      (now : ℕ) (s : Storage) (token : String)
      → get_token s ≡ some token
      → is_token_expired p now s ≡ expired now token
  unfolding is_token_expired get_token get_item
  is_token_expired_token now s token h = cc

  Refines-set_auth :
      (token : String) (u : StoredUser) (s : Storage)
      → IsStorable (sign_in token u)
      → Refines (some (record { token = token; user = u })) (set_auth p token u s)
  unfolding get_token get_user set_auth
  Refines-set_auth token u s (parsed, filled) =
      simp (get_item-set_item)
        (refl, ground (arith, eq_iff (p.stringify_json (user_json u)) "", parsed))

  Refines-clear_auth : (s : Storage) → Refines none (clear_auth s)
  unfolding get_token get_user clear_auth
  Refines-clear_auth s = simp get_item-remove_item (refl, refl)

  code-check :
      (now : ℕ) (a : Option Login) (s : Storage)
      → Refines a s
      → ((code (check now) s).0 ≡ (spec (check now) a).0)
        × Refines (spec (check now) a).1 (code (check now) s).1
  unfolding is_authenticated get_token
  code-check now none s (t, u) = ground (arith, Refines-clear_auth s)
  code-check now (some l) s (t, u) =
      grind (arith, is_token_expired_token now s l.token t, Refines-clear_auth s)

  code-ask_header :
      (a : Option Login) (s : Storage)
      → Refines a s
      → ((code ask_header s).0 ≡ (spec ask_header a).0)
        × Refines (spec ask_header a).1 (code ask_header s).1
  unfolding auth_header get_token
  code-ask_header none s (t, u) = ground arith
  code-ask_header (some l) s (t, u) = ground arith

  code-spec :
      (op : Operation) (a : Option Login) (s : Storage)
      → Refines a s
      → IsStorable op
      → ((code op s).0 ≡ (spec op a).0) × Refines (spec op a).1 (code op s).1
  code-spec (sign_in token u) a s h i = (refl, Refines-set_auth token u s i)
  code-spec sign_out a s h i = (refl, Refines-clear_auth s)
  code-spec (check now) a s h i = code-check now a s h
  code-spec ask_user a s h i = (ap user (h.1), h)
  code-spec ask_header a s h i = code-ask_header a s h

  -- The outputs of the operations, one after another, and the last state.
  abbrev pub spec_all : List Operation → Option Login → List Output × Option Login
  spec_all [] a = ([], a)
  spec_all (op ∷ ops) a = let (o, b) = spec op a in let (os, c) = spec_all ops b in (o ∷ os, c)

  abbrev pub code_all : List Operation → Storage → List Output × Storage
  code_all [] s = ([], s)
  code_all (op ∷ ops) s = let (o, t) = code op s in let (os, u) = code_all ops t in (o ∷ os, u)

  -- Whatever operations are called, one after another, from a storage that holds a login or none,
  -- the results of the code are those of the specification, and at the end the storage holds the
  -- login of the specification, or none. The JSON parser reads back what was written for the users
  -- that sign in, which is not the empty text.
  pub code-Refines :
      (ops : List Operation) (a : Option Login) (s : Storage)
      → Refines a s
      → All IsStorable ops
      → ((code_all ops s).0 ≡ (spec_all ops a).0) × Refines (spec_all ops a).1 (code_all ops s).1
  code-Refines [] a s h i = (refl, h)
  code-Refines (op ∷ ops) a s h (i, is) =
      let (o, r) = code-spec op a s h i in
      let (os, t) = code-Refines ops (spec op a).1 (code op s).1 r is in
      (ap₂ (λ x xs. x ∷ xs) o os, t)
