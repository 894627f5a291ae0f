-- ===== src/Web/Auth/Session.antt =====
-- Signing in, signing out, and what counts as signed in.
use bataudit.Prelude.{
  ℕ, String, true, false, none, some, ◌≡◌, ◌≢◌, refl, ◌↔◌, ◌⊎◌, not, ◌≤◌, str_eq, eq_iff, arith,
}
use bataudit.Prelude.Json.{Json}
use bataudit.Web.Platform.{Platform}
use bataudit.Web.Storage.{Storage, get_item, get_item-set_item, get_item-remove_item}
use bataudit.Web.Auth.{
  StoredUser, user_json, token_key, user_key, get_token, set_auth, clear_auth, get_user,
  is_token_expired, payload_expired, is_authenticated, no_token,
}

-- After `setAuth` the token and the user are read back, the user as the JSON parser reads the text
-- that was stored, and every other key of the storage is as before; after `clearAuth` there is
-- neither token nor user, and every other key is as before.
set_auth-clear_auth :
    (p : Platform) (token : String) (user : StoredUser) (s : Storage) (k : String)
    → p.parse_json (p.stringify_json (user_json user)) ≡ some (user_json user)
    → p.stringify_json (user_json user) ≢ ""
    → str_eq token_key k ≡ false
    → str_eq user_key k ≡ false
    → (get_token (set_auth p token user s) ≡ some token)
      × (get_user p (set_auth p token user s) ≡ some (user_json user))
      × (get_item k (set_auth p token user s) ≡ get_item k s)
      × (get_token (clear_auth s) ≡ none)
      × (get_user p (clear_auth s) ≡ none)
      × (get_item k (clear_auth s) ≡ get_item k s)
unfolding get_token get_user set_auth clear_auth
set_auth-clear_auth p token user s k parsed filled other_token other_user =
    simp (get_item-set_item, get_item-remove_item, other_token, other_user)
      (refl, ground (arith, eq_iff (p.stringify_json (user_json user)) ""), refl, refl, refl, refl)

get_token-clear_auth : (s : Storage) → get_token (clear_auth s) ≡ none
unfolding get_token clear_auth
get_token-clear_auth s = simp get_item-remove_item

-- `isAuthenticated` holds exactly if there is a token that is not empty and has not expired. It
-- leaves a token in the storage exactly if it holds, and where it holds the storage is as before.
is_authenticated_iff :
    (p : Platform) (now : ℕ) (s : Storage)
    → let (signed_in, s') = is_authenticated p now s in
      ((signed_in ≡ true) ↔ ((no_token (get_token s) ≡ false) × (is_token_expired p now s ≡ false)))
      × (no_token (get_token s') ≡ not signed_in)
      × ((signed_in ≡ false) ⊎ (s' ≡ s))
unfolding is_authenticated get_token
is_authenticated_iff p now s = ground (arith, get_token-clear_auth s)

payload_expired_later :
    (p : Platform) (now later : ℕ) (payload : Json)
    → payload_expired p now payload ≡ true
    → now ≤ later
    → payload_expired p later payload ≡ true
unfolding payload_expired
payload_expired_later p now later payload h l = ground arith

-- A token that has expired stays expired.
is_token_expired_later :
    (p : Platform) (now later : ℕ) (s : Storage)
    → is_token_expired p now s ≡ true
    → now ≤ later
    → is_token_expired p later s ≡ true
unfolding is_token_expired
is_token_expired_later p now later s h l = ground (arith, payload_expired_later p now later)
