-- ===== src/Locale/Preferences.antt =====
-- The remembered choices: what a set locale and theme leave in the storage and on the document.
use grouproxy.Base.{◌≡◌, refl, ap, ◌∙◌, some, String}
use grouproxy.Base.Dict.{Dict, lookup, lookup-insert}
use grouproxy.Locale.{
  Locale, zh_cn, en, es, Theme, light, dark, Provider, parse_locale, parse_theme, or_locale,
  or_theme, locale_name, theme_name, locale_key, theme_key, locale_effect, theme_effect, mount,
  set_locale, set_theme,
}

-- The storage and the document show the provider's choices.
unfoldable pub IsShown : Provider → Type 0
IsShown p =
    (lookup locale_key p.storage ≡ some (locale_name p.locale))
    × (lookup theme_key p.storage ≡ some (theme_name p.theme))
    × (p.document_lang ≡ locale_name p.locale)
    × (p.document_theme ≡ theme_name p.theme)

-- After the first renders the storage and the document show the provider's choices.
pub mount-IsShown : (saved : Dict String) → IsShown (mount saved)
unfolding IsShown mount locale_effect theme_effect
mount-IsShown saved = (simp (lookup-insert), simp (lookup-insert), refl, refl)

-- Whatever is chosen, the storage and the document follow it.
pub set_locale-IsShown : (l : Locale) (p : Provider) → IsShown p → IsShown (set_locale l p)
unfolding IsShown set_locale locale_effect
set_locale-IsShown l p (_, t, _, d) = (simp (lookup-insert), rw (lookup-insert) t, refl, d)

pub set_theme-IsShown : (t : Theme) (p : Provider) → IsShown p → IsShown (set_theme t p)
unfolding IsShown set_theme theme_effect
set_theme-IsShown t p (l, _, d, _) = (rw (lookup-insert) l, simp (lookup-insert), d, refl)

parse_locale-locale_name : (l : Locale) → parse_locale (some (locale_name l)) ≡ some l
parse_locale-locale_name zh_cn = refl
parse_locale-locale_name en = refl
parse_locale-locale_name es = refl

parse_theme-theme_name : (t : Theme) → parse_theme (some (theme_name t)) ≡ some t
parse_theme-theme_name light = refl
parse_theme-theme_name dark = refl

-- A provider mounted on a storage that shows a provider's choices makes the same choices.
pub mount-storage :
    (p : Provider)
    → IsShown p
    → ((mount p.storage).locale ≡ p.locale) × ((mount p.storage).theme ≡ p.theme)
unfolding IsShown mount locale_effect theme_effect
mount-storage p (l, t, _, _) = (
  ap (λ o. or_locale (parse_locale o) zh_cn) l
      ∙ ap (λ o. or_locale o zh_cn) (parse_locale-locale_name p.locale),
  ap (λ o. or_theme (parse_theme o) light) t
      ∙ ap (λ o. or_theme o light) (parse_theme-theme_name p.theme),
)
