-- ===== src/Release/Events.antt =====
-- The messages that the control plane writes are recognised, with their parts.
use text.Mathlib.TextLemmas.{nil-append, cons-append}
use grouproxy.Base.{
  ℕ, String, Char, code, ◌<>◌, ◌≡◌, ◌≢◌, refl, Bool, true, false, none, some, [], ◌∷◌, ◌==◌, ==_iff,
}
use grouproxy.Api.Url.Escaping.{AllChars}
use grouproxy.Api.Url.{is_space}
use grouproxy.Release.{
  Translator, strip_prefix, span, group, not_space, is_digit, not_semicolon, pass_or_fail,
  parse_created, parse_task, parse_acknowledgement, format_acknowledgement, format_task,
  format_release_event_message,
}

pub strip_prefix-append : (p s : String) → strip_prefix p (p <> s) ≡ some s
unfolding strip_prefix
strip_prefix-append String.[] s = rw nil-append
strip_prefix-append (String.◌∷◌ c p) s =
    rw (cons-append c p s, (==_iff (code c) (code c)).1 refl) (strip_prefix-append p s)

-- The text does not begin with a character that passes the test.
abbrev pub Stops : (ℕ → Bool) → String → Type 0
Stops test String.[] = Unit
Stops test (String.◌∷◌ c s) = test (code c) ≡ false

abbrev pub Passes : (ℕ → Bool) → String → Type 0
Passes test = AllChars (λ c. test (code c) ≡ true)

span-nil : (test : ℕ → Bool) (rest : String) → Stops test rest → span test rest ≡ ("", rest)
unfolding span
span-nil test String.[] h = refl
span-nil test (String.◌∷◌ c s) h = rw h

span-append :
    (test : ℕ → Bool) (s rest : String)
    → Passes test s
    → Stops test rest
    → span test (s <> rest) ≡ (s, rest)
unfolding span
span-append test String.[] rest h stop = rw nil-append (span-nil test rest stop)
span-append test (String.◌∷◌ c s) rest h stop =
    rw (cons-append c s rest, span, h.0, span-append test s rest h.1 stop)

pub group-append :
    (test : ℕ → Bool) (s rest : String)
    → s ≢ ""
    → Passes test s
    → Stops test rest
    → group test (s <> rest) ≡ some (s, rest)
unfolding group
group-append test String.[] rest h p stop = absurd (h refl)
group-append test (String.◌∷◌ c s) rest h p stop =
    rw (span-append test (String.◌∷◌ c s) rest p stop)

-- What the control plane writes at a release's creation.
abbrev pub created_message : String → String → String
created_message release_id count =
    "Release " <> (release_id <> (" created for " <> (count <> " node(s).")))

pub strip_prefix_self : (p : String) → strip_prefix p p ≡ some ""
unfolding strip_prefix
strip_prefix_self String.[] = refl
strip_prefix_self (String.◌∷◌ c p) = rw ((==_iff (code c) (code c)).1 refl) (strip_prefix_self p)

parse-created_message :
    (release_id count : String)
    → release_id ≢ ""
    → Passes not_space release_id
    → count ≢ ""
    → Passes is_digit count
    → parse_created (created_message release_id count) ≡ some (release_id, count)
unfolding parse_created is_space
parse-created_message release_id count h₁ h₂ h₃ h₄ = rw (
  strip_prefix-append "Release " (release_id <> (" created for " <> (count <> " node(s)."))),
  group-append not_space release_id (" created for " <> (count <> " node(s).")) h₁ h₂
      (rw (cons-append " " "created for " (count <> " node(s).")) refl),
  strip_prefix-append " created for " (count <> " node(s)."),
  group-append is_digit count " node(s)." h₃ h₄ refl,
  strip_prefix_self " node(s).",
)

-- The message of a release's creation is shown in the reader's language, with the release and the
-- count of nodes. The release's name has no white space and the count has only digits.
pub format-created_message :
    (t : Translator) (release_id count : String)
    → release_id ≢ ""
    → Passes not_space release_id
    → count ≢ ""
    → Passes is_digit count
    → format_release_event_message t (created_message release_id count)
      ≡ t "Release {releaseId} created for {count} nodes."
          (("releaseId", release_id) ∷ ("count", count) ∷ [])
unfolding format_release_event_message
format-created_message t release_id count h₁ h₂ h₃ h₄ =
    rw (parse-created_message release_id count h₁ h₂ h₃ h₄, format_release_event_message)

abbrev pub verdict : Bool → String
verdict true = "pass"
verdict false = "fail"

-- What the control plane writes for an acknowledgement of a node.
abbrev pub acknowledgement_message : String → Bool → Bool → Bool → String
acknowledgement_message stage singbox nftables health =
    "Node ACK received: "
    <> (stage
        <> ("; sing-box="
            <> (verdict singbox
                <> (", nftables="
                    <> (verdict nftables <> (", health=" <> (verdict health <> ".")))))))

-- A text that begins with another character than the prefix does.
strip_prefix-mismatch :
    (c d : Char) (p s t : String)
    → (code c == code d) ≡ false
    → strip_prefix (String.◌∷◌ c p) (String.◌∷◌ d s <> t) ≡ none
unfolding strip_prefix
strip_prefix-mismatch c d p s t h = rw (cons-append d s t, h)

pass_or_fail-append : (b : Bool) (s : String) → pass_or_fail (verdict b <> s) ≡ some (verdict b, s)
unfolding pass_or_fail
pass_or_fail-append true s = rw (strip_prefix-append "pass" s, pass_or_fail)
pass_or_fail-append false s =
    rw (strip_prefix-mismatch "p" "f" "ass" "ail" s refl, pass_or_fail)
      (rw (strip_prefix-append "fail" s))

parse-acknowledgement_message :
    (stage : String) (singbox nftables health : Bool)
    → stage ≢ ""
    → Passes not_semicolon stage
    → parse_acknowledgement (acknowledgement_message stage singbox nftables health)
      ≡ some (record {
        stage = stage;
        singbox = verdict singbox;
        nftables = verdict nftables;
        health = verdict health;
      })
unfolding parse_acknowledgement
parse-acknowledgement_message stage singbox nftables health h₁ h₂ =
    let s₈ : String = verdict health <> "." in
    let s₆ : String = ", health=" <> s₈ in
    let s₄ : String = ", nftables=" <> (verdict nftables <> s₆) in
    let s₂ : String = "; sing-box=" <> (verdict singbox <> s₄) in
    rw (
      strip_prefix-append "Node ACK received: " (stage <> s₂),
      group-append not_semicolon stage s₂ h₁ h₂
          (rw (cons-append ";" " sing-box=" (verdict singbox <> s₄)) refl),
      strip_prefix-append "; sing-box=" (verdict singbox <> s₄),
      pass_or_fail-append singbox s₄,
      strip_prefix-append ", nftables=" (verdict nftables <> s₆),
      pass_or_fail-append nftables s₆,
      strip_prefix-append ", health=" s₈,
      pass_or_fail-append health ".",
      strip_prefix_self ".",
    )

parse_created-node : (s : String) → parse_created ("Node ACK received: " <> s) ≡ none
unfolding parse_created
parse_created-node s = rw (strip_prefix-mismatch "R" "N" "elease " "ode ACK received: " s refl)

parse_task-node : (s : String) → parse_task ("Node ACK received: " <> s) ≡ none
unfolding parse_task
parse_task-node s = rw (strip_prefix-mismatch "T" "N" "ask " "ode ACK received: " s refl)

-- The message of a node's acknowledgement is shown in the reader's language, with its stage and its
-- three results in that language too. The stage is not empty and has no semicolon.
pub format-acknowledgement_message :
    (t : Translator) (stage : String) (singbox nftables health : Bool)
    → stage ≢ ""
    → Passes not_semicolon stage
    → format_release_event_message t (acknowledgement_message stage singbox nftables health)
      ≡ t
          "Node acknowledgement received: {stage}; sing-box={singbox}, nftables={nftables}, health={health}."
          (("stage", t stage [])
            ∷ ("singbox", t (verdict singbox) [])
            ∷ ("nftables", t (verdict nftables) [])
            ∷ ("health", t (verdict health) [])
            ∷ [])
unfolding format_release_event_message format_task format_acknowledgement
format-acknowledgement_message t stage singbox nftables health h₁ h₂ = rw (
  parse_created-node _,
  format_release_event_message,
  parse_task-node _,
  format_task,
  parse-acknowledgement_message stage singbox nftables health h₁ h₂,
  format_acknowledgement,
)
