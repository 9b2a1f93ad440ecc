-- ===== src/Locale.antt =====
-- frontend/lib/preferences.tsx: translation, and the locale and theme that the console remembers.
-- The message tables are the argument `messages`.
pub mod Placeholders
pub mod Preferences
use grouproxy.Base.{
  ℕ, zero, suc, String, Char, code, ◌<>◌, Bool, ◌||◌, Option, none, some, List, [], ◌∷◌, ◌==◌,
  if◌then◌else◌, str_eq,
}
use grouproxy.Base.Dict.{Dict, lookup, insert}
use grouproxy.Release.{strip_prefix}

pub data Locale : Type 0 where
  zh_cn en es : Locale

pub data Theme : Type 0 where
  light dark : Theme

abbrev pub locale_name : Locale → String
locale_name zh_cn = "zh-CN"
locale_name en = "en"
locale_name es = "es"

abbrev pub theme_name : Theme → String
theme_name light = "light"
theme_name dark = "dark"

abbrev pub locale_key : String
locale_key = "grouproxy.locale"

abbrev pub theme_key : String
theme_key = "grouproxy.theme"

unfoldable pub normalize_message_key : String → String
normalize_message_key String.[] = String.[]
normalize_message_key (String.◌∷◌ c s) =
    let rest = normalize_message_key s in
    if code c == b'_' || code c == b'.' then String.◌∷◌ " " rest else String.◌∷◌ c rest

-- How `replaceAll` reads its second argument: `$$`, `$&`, and, with the backquote and the quote, the
-- text before and after the match.
unfoldable pub expand : String → String → String → String → String
expand String.[] matched before after = ""
expand (String.◌∷◌ c String.[]) matched before after = String.◌∷◌ c ""
expand (String.◌∷◌ c (String.◌∷◌ d s)) matched before after =
    let whole = String.◌∷◌ c (expand (String.◌∷◌ d s) matched before after) in
    let rest = expand s matched before after in
    if code c == b'$'
    then (if code d == b'$'
        then String.◌∷◌ "$" rest
        else if code d == b'&'
        then matched <> rest
        else if code d == 96
        then before <> rest
        else if code d == 39
        then after <> rest
        else whole)
    else whole

unfoldable pub size : String → ℕ
size String.[] = 0
size (String.◌∷◌ c s) = suc (size s)

-- `text.replaceAll(String.◌∷◌ p pattern, value)`, where `before` stands before the text and `skip`
-- characters of the last match are still to be passed over.
unfoldable pub replace_from : Char → String → String → String → ℕ → String → String
replace_from p pattern value before skip String.[] = ""
replace_from p pattern value before (suc skip) (String.◌∷◌ c s) =
    replace_from p pattern value (before <> String.◌∷◌ c "") skip s
replace_from p pattern value before zero (String.◌∷◌ c s) =
    elim (strip_prefix (String.◌∷◌ p pattern) (String.◌∷◌ c s)) [
      | none ↦ String.◌∷◌ c (replace_from p pattern value (before <> String.◌∷◌ c "") zero s)
      | some after ↦
          expand value (String.◌∷◌ p pattern) before after
          <> replace_from p pattern value (before <> String.◌∷◌ c "") (size pattern) s
    ]

-- `message.replaceAll(`{${name}}`, String(value))`
unfoldable pub replace_placeholder : String → String → String → String
unfolding replace_from
replace_placeholder name value message = replace_from "{" (name <> "}") value "" zero message

-- The loop over `Object.entries(values)`.
unfoldable pub fill : Dict String → String → String
fill [] message = message
fill ((name, value) ∷ more) message = fill more (replace_placeholder name value message)

-- `a || b`, where `a` may be missing.
abbrev pub text_or : Option String → String → String
text_or none other = other
text_or (some s) other = if str_eq s "" then other else s

unfoldable pub translate : (Locale → Dict String) → Locale → String → Dict String → String
unfolding fill normalize_message_key
translate messages locale key values = fill values (
    text_or (lookup key (messages locale))
      (text_or (lookup (normalize_message_key key) (messages locale)) key))

abbrev pub parse_locale : Option String → Option Locale
parse_locale none = none
parse_locale (some s) =
    if str_eq s "zh-CN"
    then some zh_cn
    else if str_eq s "en"
    then some en
    else if str_eq s "es"
    then some es
    else none

abbrev pub parse_theme : Option String → Option Theme
parse_theme none = none
parse_theme (some s) =
    if str_eq s "light" then some light else if str_eq s "dark" then some dark else none

-- What the provider keeps, with the local storage and the attributes of the document that its
-- effects write.
pub record Provider : Type 0 where
  pub locale : Locale
  pub theme : Theme
  pub storage : Dict String
  pub document_lang : String
  pub document_theme : String

-- The second and the third effect, which run after a render in which their value is new.
unfoldable pub locale_effect : Provider → Provider
locale_effect p = record p {
  storage = insert locale_key (locale_name p.locale) p.storage;
  document_lang = locale_name p.locale;
}

unfoldable pub theme_effect : Provider → Provider
theme_effect p = record p {
  storage = insert theme_key (theme_name p.theme) p.storage;
  document_theme = theme_name p.theme;
}

abbrev or_locale : Option Locale → Locale → Locale
or_locale none l = l
or_locale (some l) _ = l

abbrev or_theme : Option Theme → Theme → Theme
or_theme none t = t
or_theme (some t) _ = t

-- The first render and its three effects: the saved choices are read before the defaults are
-- written, and the render that they cause runs the effects again. An effect whose value did not
-- change writes what is there already.
unfoldable pub mount : Dict String → Provider
unfolding locale_effect theme_effect
mount storage =
    let first : Provider = record {
      locale = zh_cn;
      theme = light;
      storage = storage;
      document_lang = "zh-CN";
      document_theme = "";
    } in
    let written = theme_effect (locale_effect first) in
    theme_effect (
      locale_effect (record written {
        locale = or_locale (parse_locale (lookup locale_key storage)) zh_cn;
        theme = or_theme (parse_theme (lookup theme_key storage)) light;
      }))

unfoldable pub set_locale : Locale → Provider → Provider
unfolding locale_effect
set_locale l p = locale_effect (record p { locale = l })

unfoldable pub set_theme : Theme → Provider → Provider
unfolding theme_effect
set_theme t p = theme_effect (record p { theme = t })
