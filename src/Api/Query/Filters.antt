-- ===== src/Api/Query/Filters.antt =====
-- Which parameters the filters of a list become.
use grouproxy.Base.{
  ℕ, String, ◌≡◌, refl, Option, none, some, [], ◌==◌, if◌then◌else◌, str_eq, arith, eq_iff,
}
use grouproxy.Base.Dict.{lookup, lookup-insert}
use grouproxy.Api.Url.{show}
use grouproxy.Api.Query.{Params, set_text, set_number}

-- The parameter that a filter asks for: none for a missing or empty text, and none for 0.
abbrev pub given_text : Option String → Option String
given_text none = none
given_text (some value) = if str_eq value "" then none else some value

abbrev pub given_number : Option ℕ → Option String
given_number none = none
given_number (some n) = if n == 0 then none else some (show n)

abbrev pub or_else : Option String → Option String → Option String
or_else none other = other
or_else (some v) other = some v

pub lookup-set_text :
    (key name : String) (value : Option String) (q : Params)
    → lookup key (set_text name value q)
      ≡ (if str_eq name key then or_else (given_text value) (lookup key q) else lookup key q)
unfolding set_text
lookup-set_text key name none q = ground arith
lookup-set_text key name (some value) q =
    ground (arith, lookup-insert name key value q, eq_iff value "", eq_iff name key)

pub lookup-set_number :
    (key name : String) (value : Option ℕ) (q : Params)
    → lookup key (set_number name value q)
      ≡ (if str_eq name key then or_else (given_number value) (lookup key q) else lookup key q)
unfolding set_number
lookup-set_number key name none q = ground arith
lookup-set_number key name (some value) q =
    ground (arith, lookup-insert name key (show value) q, eq_iff name key)

pub lookup-nil : (key : String) → lookup {V = String} key [] ≡ none
unfolding lookup
lookup-nil key = refl

pub or_else-none : (o : Option String) → or_else o none ≡ o
or_else-none none = refl
or_else-none (some v) = refl

pub ruleset query_laws = (lookup-set_text, lookup-set_number, lookup-nil, or_else-none)
