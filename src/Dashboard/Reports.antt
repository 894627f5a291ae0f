-- ===== src/Dashboard/Reports.antt =====
-- The saved reports of frontend/src/routes/app/_layout/studio.tsx: the list, saving and deleting. A
-- handler is run to its end; it yields the exception that it does not catch.
pub mod Saving
use bataudit.Prelude.{
  String, Bool, true, false, not, Option, none, some, List, [], ◌∷◌, if◌then◌else◌,
}
use bataudit.Prelude.Text.{truthy}
use bataudit.Prelude.Json.{Json, null, str, obj}
use bataudit.Web.Platform.{Platform}
use bataudit.Web.Http.{Server, Browser, Error, Result, ok, err, Api, ◌>>=◌, property}
use bataudit.Web.Clients.Studio.{list_reports, create_report, update_report, delete_report}
use bataudit.Dashboard.Studio.{Studio, new_report}

pub record Page : Type 0 where
  pub studio : Studio
  -- The list, as the server sends it.
  pub reports : Json
  pub saving : Bool
  pub browser : Browser

-- The end of a handler: `none`, or the exception.
abbrev pub Outcome : Type 0
Outcome = Option Error × Page

abbrev pub set_report_id : Option String → Page → Page
set_report_id id s = record s { studio = record s.studio { report_id = id } }

-- `setReportId(r.id)`, for an id that is a text by its type.
abbrev pub id_of : (Json → String) → Option Json → Option String
id_of text_of none = none
id_of text_of (some null) = none
id_of text_of (some (str id)) = some id
id_of text_of (some j) = some (text_of j)

-- The request of `save` for a new report, and `r.id`.
abbrev pub create : Platform → Option String → Studio → Api (Option Json)
create p project s = create_report p project s.name s.widgets s.layout >>= property "id"

module _ (p : Platform) (text_of : Json → String) (project : Option String) where
  -- `try { setReports(await listReports(…)) } catch { }`
  unfoldable pub load_list : Server → Page → Page
  load_list net s =
      let (r, b) = list_reports p project net s.browser in
      elim r [
        | ok reports ↦ record s { reports = reports; browser = b }
        | err e ↦ record s { browser = b }
      ]

  -- What follows the call of the server, with `finally`.
  abbrev pub updated : Server → Result (Option Json) × Browser → Page → Outcome
  updated net (err e, b) s = (some e, record s { browser = b; saving = false })
  updated net (ok _, b) s =
      (none, record (load_list net (record s { browser = b })) { saving = false })

  abbrev pub created : Server → Result (Option Json) × Browser → Page → Outcome
  created net (err e, b) s = (some e, record s { browser = b; saving = false })
  created net (ok id, b) s = (
    none,
    record (load_list net (set_report_id (id_of text_of id) (record s { browser = b }))) {
      saving = false;
    },
  )

  unfoldable pub save : Server → Page → Outcome
  save net s =
      let r = record s { saving = true } in
      elim s.studio.report_id [
        | none ↦ created net (create p project s.studio net s.browser) r
        | some id ↦
            if truthy (some id)
            then updated net
                (update_report p id s.studio.name s.studio.widgets s.studio.layout net s.browser) r
            else created net (create p project s.studio net s.browser) r
      ]

  -- What follows the call of the server in `handleDeleteReport`.
  abbrev pub deleted : Server → Result (Option Json) × Browser → Page → Outcome
  deleted net (err e, b) s = (some e, record s { browser = b })
  deleted net (ok _, b) s =
      (none, load_list net (record s { studio = new_report s.studio; browser = b }))

  -- `confirmed` is the answer of `confirm`.
  unfoldable pub handle_delete_report : (confirmed : Bool) → Server → Page → Outcome
  handle_delete_report confirmed net s = elim s.studio.report_id [
    | none ↦ (none, s)
    | some id ↦
        if not (truthy (some id))
        then (none, s)
        else if not confirmed
        then (none, s)
        else deleted net (delete_report p id net s.browser) s
  ]
