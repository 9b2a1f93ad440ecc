-- ===== src/Names.antt =====
-- The maps from identifiers to names that the pages of frontend/app/ build, and how a name is looked
-- up: frontend/app/alerts/page.tsx, lines 53-54 and 101-102, and frontend/app/releases/page.tsx.
use grouproxy.Base.{String, ◌≡◌, refl, Option, none, some, List, [], ◌∷◌, if◌then◌else◌, str_eq}
use grouproxy.Base.Dict.{Dict, lookup, insert, lookup-insert}
use grouproxy.Locale.{text_or}

module _ {A : Type 0} (key name : A → String) where
  -- `new Map(xs.map((x) => [x.key, x.name]))`, after the entries of `m`.
  unfoldable pub add_names : List A → Dict String → Dict String
  add_names [] m = m
  add_names (x ∷ xs) m = add_names xs (insert (key x) (name x) m)

  unfoldable pub name_map : List A → Dict String
  unfolding add_names
  name_map xs = add_names xs []

  -- The name of the last element with the key, or what is known without the list.
  abbrev pub last_name : String → List A → Option String → Option String
  last_name k [] known = known
  last_name k (x ∷ xs) known = last_name k xs (if str_eq (key x) k then some (name x) else known)

  lookup-add_names :
      (k : String) (xs : List A) (m : Dict String)
      → lookup k (add_names xs m) ≡ last_name k xs (lookup k m)
  unfolding add_names
  lookup-add_names k [] m = refl
  lookup-add_names k (x ∷ xs) m =
      rw (lookup-add_names k xs (insert (key x) (name x) m), lookup-insert (key x) k (name x) m)

  -- A look-up finds the name of the last element with the key.
  pub lookup-name_map : (k : String) (xs : List A) → lookup k (name_map xs) ≡ last_name k xs none
  unfolding name_map lookup
  lookup-name_map k xs = lookup-add_names k xs []

-- `names.get(id) || id`
unfoldable pub name_of : Dict String → String → String
name_of names id = text_or (lookup id names) id
