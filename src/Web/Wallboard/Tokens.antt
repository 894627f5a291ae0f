-- ===== src/Web/Wallboard/Tokens.antt =====
-- What the storage holds after the tokens were saved or cleared.
use bataudit.Prelude.{
  ℕ, ◌+◌, ◌*◌, String, ◌≡◌, Bool, true, false, Option, none, some, if◌then◌else◌,
}
use bataudit.Prelude.Json.{Json}
use bataudit.Web.Platform.{Platform}
use bataudit.Web.Storage.{Storage, set_item, get_item-set_item, get_item-remove_item}
use bataudit.Web.Wallboard.{
  Grant, get_wb_tokens, clear_wb_tokens, save_tokens, stored_text, truthy_json, number_of, set_if,
  set_profile, wb_access_key, wb_refresh_key, wb_project_key, wb_expires_key,
}

-- The profile's name after it was passed, or not.
abbrev pub name_after : Platform → Option (Option Json) → String → String
name_after p none old = old
name_after p (some name) old = stored_text p name

abbrev pub refresh_after : Bool → String → Option String → Option String
refresh_after test new old = if test then some new else old

tokens-set :
    (p : Platform) (test : Bool) (access refresh project : String) (n : ℕ)
    (name : Option (Option Json)) (s : Storage)
    → p.number_of_text (p.text_of_number n) ≡ some n
    → get_wb_tokens p (
        set_profile p name (
          set_item wb_expires_key (p.text_of_number n) (
            set_item wb_project_key project
              (set_if test wb_refresh_key refresh (set_item wb_access_key access s)))))
      ≡ record {
        access = some access;
        refresh = refresh_after test refresh (get_wb_tokens p s).refresh;
        project_id = some project;
        expires_at = some n;
        profile_name = name_after p name (get_wb_tokens p s).profile_name;
      }
unfolding get_wb_tokens
tokens-set p true access refresh project n none s e = simp (get_item-set_item, e)
tokens-set p true access refresh project n (some name) s e = simp (get_item-set_item, e)
tokens-set p false access refresh project n none s e = simp (get_item-set_item, e)
tokens-set p false access refresh project n (some name) s e = simp (get_item-set_item, e)

-- What `getWbTokens` reads after `saveTokens`: the new access token and project, an expiry that
-- lies the granted seconds in the future, and the old refresh token and profile name unless new
-- ones were passed. Numbers are taken to be read back as they were written.
pub get_wb_tokens-save_tokens :
    (p : Platform) (now seconds : ℕ) (g : Grant) (s : Storage)
    → ((n : ℕ) → p.number_of_text (p.text_of_number n) ≡ some n)
    → number_of p g.expires_in ≡ some seconds
    → get_wb_tokens p (save_tokens p now g s) ≡ record {
      access = some (stored_text p g.access);
      refresh =
          refresh_after
            (truthy_json g.refresh)
            (stored_text p g.refresh)
            (get_wb_tokens p s).refresh;
      project_id = some (stored_text p g.project_id);
      expires_at = some (now + seconds * 1000);
      profile_name = name_after p g.profile_name (get_wb_tokens p s).profile_name;
    }
unfolding save_tokens
get_wb_tokens-save_tokens p now seconds g s numbers lifetime = rw lifetime (
    tokens-set p (truthy_json g.refresh) (stored_text p g.access) (stored_text p g.refresh)
      (stored_text p g.project_id) (now + seconds * 1000) g.profile_name s
      (numbers (now + seconds * 1000)))

-- `clearWbTokens` leaves no token, no project, no name, and an expiry of 0.
pub get_wb_tokens-clear_wb_tokens :
    (p : Platform) (s : Storage)
    → get_wb_tokens p (clear_wb_tokens s) ≡ record {
      access = none;
      refresh = none;
      project_id = none;
      expires_at = some 0;
      profile_name = "";
    }
unfolding get_wb_tokens clear_wb_tokens
get_wb_tokens-clear_wb_tokens p s = simp get_item-remove_item
