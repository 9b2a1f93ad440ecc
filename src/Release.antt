-- ===== src/Release.antt =====
-- frontend/lib/release-categories.ts and frontend/lib/release-events.ts: how the console shows the
-- canonical texts of releases. A translator is an argument.
pub mod Categories
pub mod Events
use grouproxy.Base.{
  ℕ, String, Char, code, ◌<>◌, Bool, true, false, not, ◌&&◌, ◌||◌, Option, none, some, List, [],
  ◌∷◌, map, leb, ◌==◌, any, if◌then◌else◌, str_eq,
}
use grouproxy.Base.Dict.{Dict}
use grouproxy.Api.Url.{is_space}

abbrev pub Translator : Type 0
Translator = String → Dict String → String

unfoldable pub category_label : String → String
category_label category =
    if str_eq category "access_rules"
    then "Access rules"
    else if str_eq category "routing_rules"
    then "Routing rules"
    else if str_eq category "outbound_service"
    then "Outbound service"
    else if str_eq category "subscription"
    then "Subscription"
    else "Other changes"

unfoldable pub contains : String → List String → Bool
contains s xs = any (λ x. str_eq x s) xs

-- `[...new Set(xs)]`, after the texts in `seen`: each text once, at its first place.
unfoldable pub distinct_from : List String → List String → List String
unfolding contains
distinct_from seen [] = []
distinct_from seen (x ∷ xs) =
    let skipped = distinct_from seen xs in
    let rest = distinct_from (x ∷ seen) xs in if contains x seen then skipped else x ∷ rest

unfoldable pub distinct : List String → List String
unfolding distinct_from
distinct xs = distinct_from [] xs

abbrev or_other : List String → List String
or_other [] = "Other changes" ∷ []
or_other (label ∷ labels) = distinct (label ∷ labels)

abbrev list_or_empty : Option (List String) → List String
list_or_empty none = []
list_or_empty (some xs) = xs

unfoldable pub release_category_labels : Option (List String) → List String
release_category_labels categories =
    or_other (map category_label (distinct (list_or_empty categories)))

-- What follows the prefix, if the text begins with it.
unfoldable pub strip_prefix : String → String → Option String
strip_prefix String.[] s = some s
strip_prefix (String.◌∷◌ p ps) String.[] = none
strip_prefix (String.◌∷◌ p ps) (String.◌∷◌ c s) =
    if code p == code c then strip_prefix ps s else none

-- The longest beginning whose characters pass the test, and what follows it.
unfoldable pub span : (ℕ → Bool) → String → String × String
span test String.[] = ("", "")
span test (String.◌∷◌ c s) =
    let (taken, rest) = span test s in
    if test (code c) then (String.◌∷◌ c taken, rest) else ("", String.◌∷◌ c s)

abbrev non_empty : String × String → Option (String × String)
non_empty (String.[], rest) = none
non_empty (String.◌∷◌ c s, rest) = some (String.◌∷◌ c s, rest)

-- A group `(x+)` of a pattern, where the character that follows in the pattern is no `x`, so that
-- the longest match is the only one.
unfoldable pub group : (ℕ → Bool) → String → Option (String × String)
unfolding span
group test s = non_empty (span test s)

infixl 5 ◌>>=◌
abbrev pub ◌>>=◌ {ℓ κ} : {A : Type ℓ} {B : Type κ} → Option A → (A → Option B) → Option B
none >>= k = none
some a >>= k = k a

-- `\S`, `\d`, `[^;]` and `.`
abbrev pub not_space : ℕ → Bool
not_space c = not (is_space c)

abbrev pub is_digit : ℕ → Bool
is_digit c = leb b'0' c && leb c b'9'

abbrev pub not_semicolon : ℕ → Bool
not_semicolon c = not (c == b';')

abbrev pub not_line_end : ℕ → Bool
not_line_end c = not (c == 10 || c == 13 || c == 0x2028 || c == 0x2029)

abbrev pub at_end : {A : Type 0} → String → A → Option A
at_end String.[] a = some a
at_end (String.◌∷◌ c s) a = none

-- `(pass|fail)`
unfoldable pub pass_or_fail : String → Option (String × String)
unfolding strip_prefix
pass_or_fail s = elim (strip_prefix "pass" s) [
  | some rest ↦ some ("pass", rest)
  | none ↦ elim (strip_prefix "fail" s) [ some rest ↦ some ("fail", rest) | none ↦ none ]
]

-- `^Release (\S+) created for (\d+) node\(s\)\.$`
unfoldable pub parse_created : String → Option (String × String)
parse_created s = do
  s₁ ← strip_prefix "Release " s
  (release_id, s₂) ← group not_space s₁
  s₃ ← strip_prefix " created for " s₂
  (count, s₄) ← group is_digit s₃
  s₅ ← strip_prefix " node(s)." s₄
  at_end s₅ (release_id, count)

-- `^Task (\S+) entered (\S+) state\.$`
unfoldable pub parse_task : String → Option (String × String)
parse_task s = do
  s₁ ← strip_prefix "Task " s
  (task_id, s₂) ← group not_space s₁
  s₃ ← strip_prefix " entered " s₂
  (status, s₄) ← group not_space s₃
  s₅ ← strip_prefix " state." s₄
  at_end s₅ (task_id, status)

pub record Acknowledgement : Type 0 where
  pub stage : String
  pub singbox : String
  pub nftables : String
  pub health : String

-- `^Node ACK received: ([^;]+); sing-box=(pass|fail), nftables=(pass|fail), health=(pass|fail)\.$`
unfoldable pub parse_acknowledgement : String → Option Acknowledgement
parse_acknowledgement s = do
  s₁ ← strip_prefix "Node ACK received: " s
  (stage, s₂) ← group not_semicolon s₁
  s₃ ← strip_prefix "; sing-box=" s₂
  (singbox, s₄) ← pass_or_fail s₃
  s₅ ← strip_prefix ", nftables=" s₄
  (nftables, s₆) ← pass_or_fail s₅
  s₇ ← strip_prefix ", health=" s₆
  (health, s₈) ← pass_or_fail s₇
  s₉ ← strip_prefix "." s₈
  at_end s₉ (record { stage = stage; singbox = singbox; nftables = nftables; health = health })

-- The text before a full stop that ends it.
unfoldable pub before_stop : String → Option String
before_stop String.[] = none
before_stop (String.◌∷◌ c s) = elim s [
  | String.[] ↦ if code c == b'.' then some "" else none
  | String.◌∷◌ _ _ ↦ elim (before_stop s) [ none ↦ none | some taken ↦ some (String.◌∷◌ c taken) ]
]

abbrev only_text : String × String → Option String
only_text (taken, String.[]) = some taken
only_text (taken, String.◌∷◌ c s) = none

abbrev some_text : String → Option String
some_text String.[] = none
some_text (String.◌∷◌ c s) = some (String.◌∷◌ c s)

-- `^Release completed with status (\S+)\.$`: the group is all but the last character.
unfoldable pub parse_completed : String → Option String
parse_completed s = do
  s₁ ← strip_prefix "Release completed with status " s
  all_of_it ← only_text (span not_space s₁)
  status ← before_stop all_of_it
  some_text status

unfoldable pub format_completed : Translator → String → String
format_completed t message = elim (parse_completed message) [
  | some status ↦ t "Release completed with status {status}." (("status", t status []) ∷ [])
  | none ↦ message
]

unfoldable pub format_acknowledgement : Translator → String → String
format_acknowledgement t message = elim (parse_acknowledgement message) [
  | some a ↦
      t
        "Node acknowledgement received: {stage}; sing-box={singbox}, nftables={nftables}, health={health}."
        (("stage", t a.stage [])
          ∷ ("singbox", t a.singbox [])
          ∷ ("nftables", t a.nftables [])
          ∷ ("health", t a.health [])
          ∷ [])
  | none ↦ format_completed t message
]

unfoldable pub format_task : Translator → String → String
format_task t message = elim (parse_task message) [
  | some (task_id, status) ↦
      t "Task {taskId} entered {status} state." (("taskId", task_id) ∷ ("status", t status []) ∷ [])
  | none ↦ format_acknowledgement t message
]

unfoldable pub format_release_event_message : Translator → String → String
format_release_event_message t message = elim (parse_created message) [
  | some (release_id, count) ↦
      t "Release {releaseId} created for {count} nodes."
        (("releaseId", release_id) ∷ ("count", count) ∷ [])
  | none ↦ format_task t message
]

-- `^agent:(.+)$`
unfoldable pub parse_agent : String → Option String
parse_agent s = do
  s₁ ← strip_prefix "agent:" s
  name ← only_text (span not_line_end s₁)
  some_text name

unfoldable pub format_release_event_source : Translator → String → String
format_release_event_source t source =
    if str_eq source "orchestrator"
    then t "Release orchestrator" []
    else if str_eq source "task"
    then t "Task worker" []
    else if str_eq source "coordinator"
    then t "Release coordinator" []
    else (elim (parse_agent source) [
      | some node ↦ t "Node agent: {node}" (("node", node) ∷ [])
      | none ↦ source
    ])
