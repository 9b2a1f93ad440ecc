-- ===== src/Api/Query.antt =====
-- The query strings of frontend/lib/api.ts: `URLSearchParams`, the guarded `query.set` of each
-- filter, and the suffix that follows a path.
pub mod Filters
use grouproxy.Base.{
  ℕ, String, ◌<>◌, Bool, Option, none, some, List, [], ◌∷◌, ◌==◌, if◌then◌else◌, str_eq,
}
use grouproxy.Base.Dict.{Dict, insert}
use grouproxy.Api.Url.{form_encode, show}

abbrev pub Params : Type 0
Params = Dict String

-- `query.toString()`
unfoldable pub to_string : Params → String
to_string [] = ""
to_string ((name, value) ∷ []) = form_encode name <> ("=" <> form_encode value)
to_string ((name, value) ∷ (next ∷ more)) =
    form_encode name <> ("=" <> (form_encode value <> ("&" <> to_string (next ∷ more))))

-- `if (value) query.set(name, value)`
unfoldable pub set_text : String → Option String → Params → Params
set_text name none query = query
set_text name (some value) query = if str_eq value "" then query else insert name value query

-- `if (value) query.set(name, String(value))`
unfoldable pub set_number : String → Option ℕ → Params → Params
set_number name none query = query
set_number name (some value) query = if value == 0 then query else insert name (show value) query

-- `${path}${query.size ? `?${query.toString()}` : ""}`
unfoldable pub with_query : String → Params → String
unfolding to_string
with_query path [] = path
with_query path (entry ∷ more) = path <> ("?" <> to_string (entry ∷ more))
