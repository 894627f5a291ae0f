-- ===== src/Web/Wallboard/Renewal.antt =====
-- When a wallboard renews its token, and what it does where that fails.
use bataudit.Prelude.{
  ℕ, ◌+◌, ◌*◌, ◌≤◌, ◌<◌, String, ◌≡◌, refl, ap, ◌∙◌, Bool, true, false, none, Option, some, [], ◌∷◌,
  ◌++◌, arith, not, ◌||◌, ◌⊎◌, inl, inr, str_eq,
}
use bataudit.Prelude.Text.{truthy, truthy_text}
use bataudit.Prelude.Json.{obj, str, Fields, get_field}
use bataudit.Web.Platform.{Platform}
use bataudit.Web.Http.{Response, Server, Browser, err, error, is_ok, fetch, received}
use bataudit.Web.Storage.{Storage, get_item, get_item-remove_item}
use bataudit.Web.Wallboard.Tokens.{get_wb_tokens-save_tokens, get_wb_tokens-clear_wb_tokens}
use bataudit.Web.Wallboard.{
  WbTokens, Grant, number_of, get_wb_tokens, clear_wb_tokens, expires_soon, current_access,
  refresh_access_token, wb_request, refresh_request, wb_fetch, stored_text, save_tokens, or_no_text,
}

-- What a renewal stores: a new access token, and no other refresh token or name.
abbrev grant : String → Fields → Grant
grant access fs = record {
  access = some (str access);
  refresh = none;
  project_id = or_no_text (get_field "project_id" fs);
  expires_in = get_field "expires_in" fs;
  profile_name = none;
}

module _ (p : Platform) (net : Server) (b : Browser) (path : String)
    (project_id environment : Option String) where
  -- With an access token that is good for another five minutes, a call makes the one request for
  -- the data, with that token, and leaves the storage alone.
  wb_fetch_fresh :
      (access : String) (expires_at : ℕ)
      → (get_wb_tokens p b.storage).access ≡ some access
      → truthy_text access ≡ true
      → (get_wb_tokens p b.storage).expires_at ≡ some expires_at
      → b.now + 5 * 60 * 1000 ≤ expires_at
      → let q = wb_request p path project_id environment access in
        wb_fetch p path project_id environment net b
        ≡ received (net b.sent q) (record b { sent = b.sent ++ q ∷ [] })
  unfolding wb_fetch current_access fetch stored_text
  wb_fetch_fresh access expires_at h t e fresh = ground arith

  -- Without an access token and a refresh token a call makes no request and throws.
  wb_fetch-without :
      (get_wb_tokens p b.storage).access ≡ none
      → (get_wb_tokens p b.storage).refresh ≡ none
      → wb_fetch p path project_id environment net b ≡ (err (error "unauthenticated"), b)
  unfolding wb_fetch current_access refresh_access_token
  wb_fetch-without a r = ground arith

  refusal :
      (refresh : String) (res : Response)
      → (not (truthy (get_wb_tokens p b.storage).access)
          || expires_soon p b.now (get_wb_tokens p b.storage).expires_at)
        ≡ true
      → (get_wb_tokens p b.storage).refresh ≡ some refresh
      → truthy_text refresh ≡ true
      → net b.sent (refresh_request p refresh) ≡ some res
      → is_ok res ≡ false
      → wb_fetch p path project_id environment net b ≡ (
        err (error "unauthenticated"),
        record b {
          storage = clear_wb_tokens b.storage;
          sent = b.sent ++ refresh_request p refresh ∷ [];
        },
      )
  unfolding wb_fetch current_access refresh_access_token fetch
  refusal refresh res stale h t answer bad = ground arith

  renewal :
      (refresh access : String) (fs : Fields) (status : ℕ)
      → (not (truthy (get_wb_tokens p b.storage).access)
          || expires_soon p b.now (get_wb_tokens p b.storage).expires_at)
        ≡ true
      → (get_wb_tokens p b.storage).refresh ≡ some refresh
      → truthy_text refresh ≡ true
      → net b.sent (refresh_request p refresh)
        ≡ some (record { status = status; json = some (obj fs) })
      → is_ok (record { status = status; json = some (obj fs) }) ≡ true
      → get_field "access_token" fs ≡ some (str access)
      → truthy_text access ≡ true
      → let q = wb_request p path project_id environment access in
        let sent = b.sent ++ refresh_request p refresh ∷ [] in
        wb_fetch p path project_id environment net b
        ≡ received (net sent q) (record b {
          storage = save_tokens p b.now (grant access fs) b.storage;
          sent = sent ++ q ∷ [];
        })
  unfolding wb_fetch current_access refresh_access_token fetch stored_text
  renewal refresh access fs status stale h t answer good granted filled = ground arith

-- That a call at a time has to renew the token first: it is missing, or good for less than another
-- five minutes.
abbrev pub IsStale : WbTokens → ℕ → Type 0
IsStale tokens now =
    (tokens.access ≡ none)
    ⊎ (tokens.access ≡ some "")
    ⊎ ((n : ℕ) × (tokens.expires_at ≡ some n) × (n < now + 5 * 60 * 1000))

IsStale-renews :
    (p : Platform) (tokens : WbTokens) (now : ℕ)
    → IsStale tokens now
    → (not (truthy tokens.access) || expires_soon p now tokens.expires_at) ≡ true
IsStale-renews p tokens now (inl h) = rw h refl
IsStale-renews p tokens now (inr (inl h)) = rw h refl
IsStale-renews p tokens now (inr (inr (n, h, soon))) = rw h (ground arith)

-- The keys of the storage that belong to a wallboard.
abbrev pub is_wb_key : String → Bool
is_wb_key k =
    str_eq "wb_access_token" k
    || str_eq "wb_refresh_token" k
    || str_eq "wb_project_id" k
    || str_eq "wb_expires_at" k
    || str_eq "wb_profile_name" k

clear_wb_tokens_other :
    (k : String) (s : Storage) → is_wb_key k ≡ false → get_item k (clear_wb_tokens s) ≡ get_item k s
unfolding clear_wb_tokens
clear_wb_tokens_other k s h = simp get_item-remove_item (ground arith)

module _ (p : Platform) (net : Server) (b : Browser) (path : String)
    (project_id environment : Option String) where
  -- With a token that is missing or good for less than five minutes, and a renewal that the server
  -- refuses, a call makes the one request for the renewal and none for the data, and throws. After
  -- it no token, project, expiry or name of the wallboard is left, whatever else is stored stays, and the
  -- next call, whatever it asks for and of whatever server, makes no request and throws.
  pub wb_fetch_refused :
      (refresh : String) (res : Response) (k : String) (later : Server) (other : String)
      (project e : Option String)
      → IsStale (get_wb_tokens p b.storage) b.now
      → (get_wb_tokens p b.storage).refresh ≡ some refresh
      → truthy_text refresh ≡ true
      → net b.sent (refresh_request p refresh) ≡ some res
      → is_ok res ≡ false
      → is_wb_key k ≡ false
      → (after : Browser) × (wb_fetch p path project_id environment net b
          ≡ (err (error "unauthenticated"), after))
        × (after.sent ≡ b.sent ++ refresh_request p refresh ∷ [])
        × (get_wb_tokens p after.storage ≡ record {
          access = none;
          refresh = none;
          project_id = none;
          expires_at = some 0;
          profile_name = "";
        })
        × (get_item k after.storage ≡ get_item k b.storage)
        × (wb_fetch p other project e later after ≡ (err (error "unauthenticated"), after))
  wb_fetch_refused refresh res k later other project e stale h t answer bad elsewhere =
      let cleared = get_wb_tokens-clear_wb_tokens p b.storage in
      (
        _,
        refusal p net b path project_id environment refresh res
            (IsStale-renews p (get_wb_tokens p b.storage) b.now stale) h t answer bad,
        refl,
        cleared,
        clear_wb_tokens_other k b.storage elsewhere,
        wb_fetch-without p later _ other project e (ap (λ x. x.access) cleared)
            (ap (λ x. x.refresh) cleared),
      )

  -- With a token that is missing or good for less than five minutes, and a renewal that grants a new
  -- one for five minutes or more, a call makes the request for the renewal and then the one for the data with the new
  -- token. After it the new token, its project and its expiry are stored, and the refresh token and the profile's
  -- name are as before; the next call at that time makes its one request with
  -- the new token. Numbers are taken to be read back as they were written.
  pub wb_fetch_renewed :
      (refresh access project : String) (seconds status : ℕ) (fs : Fields) (later : Server)
      (other : String) (project' e : Option String)
      → IsStale (get_wb_tokens p b.storage) b.now
      → (get_wb_tokens p b.storage).refresh ≡ some refresh
      → truthy_text refresh ≡ true
      → net b.sent (refresh_request p refresh)
        ≡ some (record { status = status; json = some (obj fs) })
      → is_ok (record { status = status; json = some (obj fs) }) ≡ true
      → get_field "access_token" fs ≡ some (str access)
      → get_field "project_id" fs ≡ some (str project)
      → number_of p (get_field "expires_in" fs) ≡ some seconds
      → truthy_text access ≡ true
      → ((n : ℕ) → p.number_of_text (p.text_of_number n) ≡ some n)
      → 5 * 60 ≤ seconds
      → let q = wb_request p path project_id environment access in
        let sent = b.sent ++ refresh_request p refresh ∷ [] in
        (after : Browser) × (wb_fetch p path project_id environment net b
          ≡ received (net sent q) after)
        × (after.sent ≡ sent ++ q ∷ [])
        × (get_wb_tokens p after.storage ≡ record {
          access = some access;
          refresh = some refresh;
          project_id = some project;
          expires_at = some (b.now + seconds * 1000);
          profile_name = (get_wb_tokens p b.storage).profile_name;
        })
        × (let next = wb_request p other project' e access in
            wb_fetch p other project' e later after
            ≡ received (later after.sent next) (record after { sent = after.sent ++ next ∷ [] }))
  unfolding stored_text
  wb_fetch_renewed refresh access project seconds status fs later other project' e stale h t answer
        good granted of_project lifetime filled numbers long =
      let saved : get_wb_tokens p (save_tokens p b.now (grant access fs) b.storage) ≡ record {
        access = some access;
        refresh = some refresh;
        project_id = some project;
        expires_at = some (b.now + seconds * 1000);
        profile_name = (get_wb_tokens p b.storage).profile_name;
      } =
        get_wb_tokens-save_tokens p b.now seconds (grant access fs) b.storage numbers lifetime
        ∙ rw (of_project, h) refl in
      (
        _,
        renewal p net b path project_id environment refresh access fs status
            (IsStale-renews p (get_wb_tokens p b.storage) b.now stale) h t answer good granted
            filled,
        refl,
        saved,
        wb_fetch_fresh p later _ other project' e access (b.now + seconds * 1000)
            (ap (λ x. x.access) saved) filled (ap (λ x. x.expires_at) saved) (omega arith),
      )
