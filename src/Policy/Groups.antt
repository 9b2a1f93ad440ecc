-- ===== src/Policy/Groups.antt =====
-- The entries of an access group in its form: frontend/app/access-control/groups/page.tsx. The number
-- in the key of an entry stands for the key.
use grouproxy.Base.{
  ℕ, suc, ◌+◌, String, Bool, not, ◌&&◌, Option, none, some, List, [], ◌∷◌, ◌++◌, all, length, ltb,
  ◌==◌, if◌then◌else◌,
}
use grouproxy.Api.Url.{trim}
use grouproxy.Api.Session.{is_truthy}
use grouproxy.Api.Calls.{Call}
use grouproxy.Api.Calls.Access.{
  EntryKind, domain, NetworkGroupEntry, create_network_group, update_network_group,
}
use grouproxy.Api.Entities.Policy.{NetworkGroup}

pub record DraftEntry : Type 0 where
  pub key : ℕ
  pub kind : EntryKind
  pub pattern : String

-- The form, and `entryKey`, which all forms share.
pub record GroupForm : Type 0 where
  pub counter : ℕ
  pub group_id : Option String
  pub name : String
  pub entries : List DraftEntry

-- An entry with the next key.
abbrev pub keyed : ℕ → NetworkGroupEntry → DraftEntry
keyed counter e = record { key = suc counter; kind = e.kind; pattern = e.pattern }

unfoldable pub key_entries : ℕ → List NetworkGroupEntry → List DraftEntry
key_entries counter [] = []
key_entries counter (e ∷ es) = keyed counter e ∷ key_entries (suc counter) es

abbrev pub blank : NetworkGroupEntry
blank = record { kind = domain; pattern = "" }

abbrev pub entries_or_blank : List NetworkGroupEntry → List NetworkGroupEntry
entries_or_blank [] = blank ∷ []
entries_or_blank (e ∷ es) = e ∷ es

-- `draftEntries`: the entries, and how far the keys go then.
unfoldable pub draft_entries : ℕ → Option NetworkGroup → List DraftEntry × ℕ
unfolding key_entries
draft_entries counter none = (keyed counter blank ∷ [], suc counter)
draft_entries counter (some group) =
    let source = entries_or_blank group.entries in
    (key_entries counter source, counter + length source)

abbrev pub id_of : Option NetworkGroup → Option String
id_of none = none
id_of (some group) = some group.id

abbrev pub name_of : Option NetworkGroup → String
name_of none = ""
name_of (some group) = group.name

-- The form as it opens, after others have used keys up to the counter.
unfoldable pub open_form : ℕ → Option NetworkGroup → GroupForm
open_form counter group =
    let (entries, used) = draft_entries counter group in
    record { counter = used; group_id = id_of group; name = name_of group; entries = entries }

unfoldable pub edit_entry : ℕ → (DraftEntry → DraftEntry) → List DraftEntry → List DraftEntry
edit_entry key change [] = []
edit_entry key change (e ∷ es) = (if e.key == key then change e else e) ∷ edit_entry key change es

abbrev pub set_kind : EntryKind → DraftEntry → DraftEntry
set_kind kind e = record e { kind = kind }

abbrev pub set_pattern : String → DraftEntry → DraftEntry
set_pattern pattern e = record e { pattern = pattern }

unfoldable pub remove_entry : ℕ → List DraftEntry → List DraftEntry
remove_entry key [] = []
remove_entry key (e ∷ es) =
    let rest = remove_entry key es in if e.key == key then rest else e ∷ rest

unfoldable pub add_entry : GroupForm → GroupForm
add_entry f = record f {
  counter = suc f.counter;
  entries = f.entries ++ (keyed f.counter blank ∷ []);
}

unfoldable pub plain_entries : List DraftEntry → List NetworkGroupEntry
plain_entries [] = []
plain_entries (e ∷ es) = record { kind = e.kind; pattern = trim e.pattern } ∷ plain_entries es

unfoldable pub group_complete : GroupForm → Bool
group_complete f =
    is_truthy (trim f.name)
    && (ltb 0 (length f.entries) && all (λ e. is_truthy (trim (DraftEntry.pattern e))) f.entries)

unfoldable pub save_group : GroupForm → Call
unfolding plain_entries
save_group f = elim f.group_id [
  | none ↦ create_network_group (trim f.name) (plain_entries f.entries)
  | some id ↦ update_network_group id (trim f.name) (plain_entries f.entries)
]

unfoldable pub submit_group : Bool → GroupForm → Option Call
submit_group saving f = if group_complete f && not saving then some (save_group f) else none

-- What happens to the form.
pub data Step : GroupForm → GroupForm → Type 0 where
  named : (f : GroupForm) (name : String) → Step f (record f { name = name })
  kind_set :
      (f : GroupForm) (key : ℕ) (kind : EntryKind)
      → Step f (record f { entries = edit_entry key (set_kind kind) f.entries })
  pattern_set :
      (f : GroupForm) (key : ℕ) (pattern : String)
      → Step f (record f { entries = edit_entry key (set_pattern pattern) f.entries })
  removed : (f : GroupForm) (key : ℕ) → Step f (record f { entries = remove_entry key f.entries })
  added : (f : GroupForm) → Step f (add_entry f)

pub data Reach : GroupForm → Type 0 where
  start : (counter : ℕ) (group : Option NetworkGroup) → Reach (open_form counter group)
  next : {f g : GroupForm} → Reach f → Step f g → Reach g
