-- ===== src/Dashboard/Retention.antt =====
-- frontend/src/routes/app/_layout/settings/retention.tsx: the rows that are stored.
use bataudit.Prelude.{
  ℕ, ◌+◌, String, Bool, not, ◌≡◌, refl, Option, none, some, List, [], ◌∷◌, ◌++◌, ◌or_else◌,
  if◌then◌else◌,
}
use bataudit.Prelude.Text.{◌<>◌, truthy}
use bataudit.Web.Auth.{StoredUser}
use bataudit.Dashboard.Screen.{Screen, text, each}
use bataudit.Dashboard.Screen.Offers.{Offers, Allows-Offers}
use bataudit.Dashboard.ApiKeys.{Project}
use bataudit.Dashboard.Layout.Header.{Header, Action, choose_project, header}
use bataudit.Dashboard.Layout.Offered.{IsAway, IsOpen, header-IsOpen}

pub record UsageStat : Type 0 where
  pub raw_events : ℕ
  pub hourly_summaries : ℕ
  pub daily_summaries : ℕ

abbrev pub no_usage : UsageStat
no_usage = record { raw_events = 0; hourly_summaries = 0; daily_summaries = 0 }

-- `(usage?.raw_events ?? 0) + …`
unfoldable pub total_rows : Option UsageStat → ℕ
total_rows usage =
    let u = usage or_else no_usage in u.raw_events + u.hourly_summaries + u.daily_summaries

-- A setting of the worker's service: its variable, its default and its texts.
pub record Policy : Type 0 where
  pub env : String
  pub default : String
  pub label : String
  pub unit : String
  pub description : String

abbrev pub policies : List Policy
policies =
    record {
      env = "TIERING_RAW_DAYS";
      default = "30";
      label = "Keep raw events for";
      unit = "days";
      description =
          "After this period, events are aggregated into hourly summaries and the raw rows are deleted.";
    }
    ∷ record {
      env = "TIERING_HOURLY_DAYS";
      default = "365";
      label = "Keep hourly summaries for";
      unit = "days";
      description =
          "After this period, hourly summaries are aggregated into daily summaries and deleted.";
    }
    ∷ record {
      env = "TIERING_HOUR";
      default = "2";
      label = "Run aggregation at hour (UTC)";
      unit = "";
      description = "The UTC hour when the nightly tiering job runs.";
    }
    ∷ []

module _ {A : Type 0} where
  abbrev pub policy_row : Policy → Screen A
  policy_row r =
      text r.label
      ∷ text r.description
      ∷ text (r.env <> "=" <> r.default)
      ∷ text ("default: " <> r.default <> " " <> r.unit)
      ∷ []

  abbrev pub usage_shown : (number : ℕ → String) → Option UsageStat → Screen A
  usage_shown number usage =
      let u = usage or_else no_usage in
      text "Raw events"
      ∷ text (number u.raw_events)
      ∷ text "rows"
      ∷ text "Hourly summaries"
      ∷ text (number u.hourly_summaries)
      ∷ text "rows"
      ∷ text "Daily summaries"
      ∷ text (number u.daily_summaries)
      ∷ text "rows"
      ∷ text "Total rows: "
      ∷ text (number (total_rows usage))
      ∷ []

  unfoldable pub view : (number : ℕ → String) → Option String → Option UsageStat → Screen A
  view number project usage =
      if not (truthy project)
      then text "Select a project in the header to view retention settings." ∷ []
      else (text "Data Retention"
          ∷ text
              "BatAudit automatically tiers old data to keep storage costs low without losing history."
          ∷ text "Storage Usage"
          ∷ usage_shown number usage)
        ++ ((text "Tiering Policy"
              ∷ text "Configured via environment variables on the Worker service."
              ∷ each policy_row policies)
            ++ text
                "Daily summaries are kept indefinitely — you always retain statistical history even after raw data is tiered."
              ∷ [])

hidden : IsAway "/app/settings/retention" "/app/settings/retention" → ⊥
hidden h = cc

-- Without a project the page of the retention says to select one in the header, and there the header
-- offers none, whatever its state, its user and its projects are.
view-no_project :
    (number : ℕ → String) (usage : Option UsageStat) (user : Option StoredUser)
    (projects : List Project) (h : Header) (logging_out : Bool) (id : String)
    → (view {A = Action} number none usage
        ≡ text "Select a project in the header to view retention settings." ∷ [])
      × (¬ Offers
          (choose_project (some id))
          (header "/app/settings/retention" user projects logging_out h))
unfolding view
view-no_project number usage user projects h logging_out id = (refl, no_choice)
  where
    no_choice :
        ¬ Offers
          (choose_project (some id))
          (header "/app/settings/retention" user projects logging_out h)
    no_choice offered =
        let (_, _, _, (_, shown, _), _) =
          Allows-Offers (IsOpen "/app/settings/retention" user projects h)
            (choose_project (some id)) _
            (header-IsOpen "/app/settings/retention" user projects h logging_out) offered in
        hidden shown
