-- ===== src/Dashboard/Reports/Saving.antt =====
-- A report that is saved, again, or not.
use mathlib.Core.Bool.{true≢false}
use mathlib.Core.Path.{subst}
use bataudit.Prelude.{
  String, true, false, ◌≡◌, ◌⊎◌, inl, inr, refl, ◌∙◌, ap, sym, Bool-cases, Option, none, some,
  arith,
}
use bataudit.Prelude.Text.{truthy, truthy_text}
use bataudit.Prelude.Json.{Json, str}
use bataudit.Web.Platform.{Platform}
use bataudit.Web.Http.{Server, Browser, Result, ok, err}
use bataudit.Web.Clients.Studio.{update_report}
use bataudit.Dashboard.Studio.{Studio}
use bataudit.Dashboard.Reports.{
  Page, Outcome, set_report_id, id_of, load_list, updated, created, create, save,
}

truthy-some :
    (o : Option String) → truthy o ≡ true → (id : String) × (o ≡ some id) × (truthy_text id ≡ true)
truthy-some none h = absurd (true≢false (sym h))
truthy-some (some id) h = (id, refl, h)

-- The end of a handler that began with the page `s`.
abbrev IsSettled : Page → Outcome → Type 0
IsSettled s (failure, after) =
    (after.saving ≡ false)
    × (after.studio ≡ record s.studio { report_id = after.studio.report_id })
    × ((failure ≡ none) ⊎ (after.studio ≡ s.studio))

module _ (p : Platform) (text_of : Json → String) (project : Option String) where
  -- Loading the list leaves the report.
  studio-load_list :
      (net : Server) (s : Page) → (load_list p text_of project net s).studio ≡ s.studio
  unfolding load_list
  studio-load_list net s = ground arith

  save_new :
      (net : Server) (s : Page)
      → truthy s.studio.report_id ≡ false
      → save p text_of project net s
        ≡ created p text_of project net
            (create p project s.studio net s.browser)
            (record s { saving = true })
  unfolding save
  save_new net s new = ground arith

  save_old :
      (net : Server) (s : Page) (id : String)
      → s.studio.report_id ≡ some id
      → truthy_text id ≡ true
      → save p text_of project net s
        ≡ updated p text_of project net
            (update_report p id s.studio.name s.studio.widgets s.studio.layout net s.browser)
            (record s { saving = true })
  unfolding save
  save_old net s id old filled = ground arith

  created-IsSettled :
      (net : Server) (r : Result (Option Json) × Browser) (s : Page)
      → IsSettled s (created p text_of project net r s)
  unfolding load_list
  created-IsSettled net (err e, b) s = (refl, refl, inr refl)
  created-IsSettled net (ok id, b) s =
      let e = studio-load_list net (set_report_id (id_of text_of id) (record s { browser = b })) in
      (refl, e ∙ ap (λ (u : Studio). record s.studio { report_id = u.report_id }) (sym e), inl refl)

  updated-IsSettled :
      (net : Server) (r : Result (Option Json) × Browser) (s : Page)
      → IsSettled s (updated p text_of project net r s)
  unfolding load_list
  updated-IsSettled net (err e, b) s = (refl, refl, inr refl)
  updated-IsSettled net (ok id, b) s = ground arith

-- Saving a report that has no id, where the server takes it and sends an id that is not empty, keeps
-- the report and gives it that id; the next saving with that id is an update of that report on the
-- server, not another new report.
pub save-save :
    (p : Platform) (text_of : Json → String) (project : Option String) (net later : Server)
    (s t : Page) (id : String) (b : Browser)
    → truthy s.studio.report_id ≡ false
    → truthy_text id ≡ true
    → create p project s.studio net s.browser ≡ (ok (some (str id)), b)
    → t.studio.report_id ≡ (save p text_of project net s).1.studio.report_id
    → ((save p text_of project net s).0 ≡ none)
      × ((save p text_of project net s).1.studio ≡ record s.studio { report_id = some id })
      × (save p text_of project later t
          ≡ updated p text_of project later
              (update_report p id t.studio.name t.studio.widgets t.studio.layout later t.browser)
              (record t { saving = true }))
unfolding save
save-save p text_of project net later s t id b new filled made same =
    let first =
      save_new p text_of project net s new
      ∙ ap (λ r. created p text_of project net r (record s { saving = true })) made in
    let kept = ap (λ (o : Outcome). o.1.studio) first ∙ studio-load_list p text_of project net _ in
    (
      ap (λ (o : Outcome). o.0) first,
      kept,
      save_old p text_of project later t id (same ∙ ap (λ (u : Studio). u.report_id) kept) filled,
    )

-- Whatever the server answers, the page is not left saving, and the report keeps its name, its
-- widgets and their places; where the handler ends with an exception, it also keeps its id, or the
-- lack of one.
save_settles :
    (p : Platform) (text_of : Json → String) (project : Option String) (net : Server) (s : Page)
    → let (failure, after) = save p text_of project net s in
      (after.saving ≡ false)
      × (after.studio ≡ record s.studio { report_id = after.studio.report_id })
      × ((failure ≡ none) ⊎ (after.studio ≡ s.studio))
save_settles p text_of project net s = elim (Bool-cases (truthy s.studio.report_id)) [
  | inl old ↦
      let (id, held, filled) = truthy-some s.studio.report_id old in
      subst (IsSettled s) (sym (save_old p text_of project net s id held filled)) (
        updated-IsSettled p text_of project net
          (update_report p id s.studio.name s.studio.widgets s.studio.layout net s.browser)
          (record s { saving = true }))
  | inr new ↦ subst (IsSettled s) (sym (save_new p text_of project net s new)) (
      created-IsSettled p text_of project net (create p project s.studio net s.browser)
        (record s { saving = true }))
]
