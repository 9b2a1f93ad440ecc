-- ===== src/Alerts.antt =====
-- frontend/app/alerts/page.tsx: the list that is asked for, and the texts of an alert's row. A
-- translator is an argument.
pub mod Details
pub mod Reasons
use grouproxy.Base.{
  String, Char, code, ◌<>◌, Option, none, some, List, [], ◌∷◌, if◌then◌else◌, str_eq,
}
use grouproxy.Base.Dict.{Dict}
use grouproxy.Api.Calls.{Call}
use grouproxy.Api.Calls.Operations.{AlertStatus, get_alerts}
use grouproxy.Api.Entities.Nodes.{Node, Site}
use grouproxy.Api.Entities.Telemetry.{Alert}
use grouproxy.Names.{name_map, name_of}
use grouproxy.Release.{Translator, strip_prefix, group, ◌>>=◌, is_digit, not_line_end, at_end}

pub data AlertFilter : Type 0 where
  open_alerts resolved all_alerts : AlertFilter

-- The list that is asked for: `getAlerts(status || undefined)`.
unfoldable pub alerts_call : AlertFilter → Call
alerts_call open_alerts = get_alerts (some AlertStatus.open_alert)
alerts_call resolved = get_alerts (some AlertStatus.resolved_alert)
alerts_call all_alerts = get_alerts none

-- What follows the site in a message on denials.
pub record DenySpike : Type 0 where
  pub recent : String
  pub window : String
  pub baseline : String

-- `: (\d+) denies in the last (\d+)s \(baseline (\d+)\)$`
unfoldable pub parse_counts : String → Option DenySpike
parse_counts s = do
  s₁ ← strip_prefix ": " s
  (recent, s₂) ← group is_digit s₁
  s₃ ← strip_prefix " denies in the last " s₂
  (window, s₄) ← group is_digit s₃
  s₅ ← strip_prefix "s (baseline " s₄
  (baseline, s₆) ← group is_digit s₅
  s₇ ← strip_prefix ")" s₆
  at_end s₇ (record { recent = recent; window = window; baseline = baseline })

abbrev pub with_site : String → Option DenySpike → Option (String × DenySpike)
with_site site none = none
with_site site (some counts) = some (site, counts)

-- `^(.*)` before it, which takes as much as it can.
unfoldable pub parse_deny_spike : String → Option (String × DenySpike)
parse_deny_spike String.[] = none
parse_deny_spike (String.◌∷◌ c s) =
    let here = with_site "" (parse_counts (String.◌∷◌ c s)) in
    elim (parse_deny_spike s) [
      | some (site, counts) ↦
          if not_line_end (code c) then some (String.◌∷◌ c site, counts) else here
      | none ↦ here
    ]

-- The text up to the end of the last `": "`, and the text after it: `slice(0, separator + 2)` and
-- `slice(separator + 2)` for `separator = lastIndexOf(": ")`.
unfoldable pub split_last : String → Option (String × String)
split_last String.[] = none
split_last (String.◌∷◌ c s) = elim (split_last s) [
  | some (before, reason) ↦ some (String.◌∷◌ c before, reason)
  | none ↦ elim (strip_prefix ": " (String.◌∷◌ c s)) [
    | none ↦ none
    | some reason ↦ some (": ", reason)
  ]
]

unfoldable pub translate_reason : Translator → String → String
translate_reason t detail = elim (split_last detail) [
  | none ↦ detail
  | some (before, reason) ↦ if str_eq (t reason []) reason then detail else before <> t reason []
]

unfoldable pub translate_alert_detail : Translator → String → String
unfolding translate_reason
translate_alert_detail t detail =
    if str_eq (t detail []) detail
    then (elim (parse_deny_spike detail) [
      | some (site, counts) ↦
          t "{site}: {recent} denies in the last {window}s (baseline {baseline})" (
            ("site", site)
            ∷ ("recent", counts.recent)
            ∷ ("window", counts.window)
            ∷ ("baseline", counts.baseline)
            ∷ [])
      | none ↦ translate_reason t detail
    ])
    else t detail []

abbrev pub or_dash : String → String
or_dash s = if str_eq s "" then "-" else s

-- The texts of a row that are not dates or badges.
pub record AlertRow : Type 0 where
  pub title : String
  pub detail : String
  pub site : String
  pub node : String

unfoldable pub alert_row : Translator → Dict String → Dict String → Alert → AlertRow
alert_row t site_names node_names a =
    let site = name_of site_names a.site_id in
    record {
      title = t a.title [];
      detail = or_dash (translate_alert_detail t a.detail);
      site = if str_eq site "" then "-" else t site [];
      node = or_dash (name_of node_names a.node_id);
    }

unfoldable pub alert_rows : Translator → List Site → List Node → List Alert → List AlertRow
alert_rows t sites nodes [] = []
alert_rows t sites nodes (a ∷ more) =
    alert_row t (name_map Site.id Site.name sites) (name_map Node.agent_id Node.name nodes) a
    ∷ alert_rows t sites nodes more
