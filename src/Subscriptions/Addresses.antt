-- ===== src/Subscriptions/Addresses.antt =====
-- The address of a source: what is sent carries the scheme that is chosen.
use grouproxy.Base.{String, code, Bool, true, not, ◌&&◌, ◌||◌, ◌≡◌, Option, none, some, arith}
use grouproxy.Api.Url.{is_space}
use grouproxy.Api.Transport.{Entropy}
use grouproxy.Api.Entities.Subscriptions.{SourceType, http, upload, single_node}
use grouproxy.Subscriptions.{SourceForm, submit_source, submit_disabled, is_missing}

-- "https://" and "http://" before a text, a character at a time.
abbrev secure : String → String
secure s = String.◌∷◌ "h" (
    String.◌∷◌ "t" (
      String.◌∷◌ "t"
        (String.◌∷◌ "p" (String.◌∷◌ "s" (String.◌∷◌ ":" (String.◌∷◌ "/" (String.◌∷◌ "/" s)))))))

abbrev plain : String → String
plain s = String.◌∷◌ "h" (
    String.◌∷◌ "t"
      (String.◌∷◌ "t" (String.◌∷◌ "p" (String.◌∷◌ ":" (String.◌∷◌ "/" (String.◌∷◌ "/" s))))))

abbrev is_visible : String → Bool
is_visible String.[] = true
is_visible (String.◌∷◌ c s) = not (is_space (code c)) && is_visible s

disabled_kind :
    (e : Entropy) (busy : Bool) (kind : SourceType) (file : Option String) (f : SourceForm)
    → let g = record f { source_type = kind; file = file } in
      submit_disabled busy g ≡ (busy || is_missing (submit_source e g))
unfolding submit_disabled submit_source
disabled_kind e busy http file f = ground arith
disabled_kind e busy single_node file f = ground arith
disabled_kind e busy upload none f = ground arith
disabled_kind e busy upload (some text) f = ground arith

-- The button that adds a source is disabled exactly while a call is on its way or when the form would
-- make none.
pub submit_disabled-submit_source :
    (e : Entropy) (busy : Bool) (f : SourceForm)
    → submit_disabled busy f ≡ (busy || is_missing (submit_source e f))
submit_disabled-submit_source e busy f = disabled_kind e busy f.source_type f.file f
