-- ===== src/Policy/Keys.antt =====
-- The keys of the entries tell them apart, so that editing or removing one leaves the others alone.
use grouproxy.Base.{
  take, drop, ◌++◌, ℕ, zero, suc, ◌+◌, ◌≤◌, true, false, ◌≡◌, ◌≢◌, refl, sym, ap, subst, ◌∙◌,
  Option, none, some, List, [], ◌∷◌, ◌++◌, length, get_elem?, All, ◌==◌, arith, if◌then◌else◌,
  Bool-cases, inl, inr,
}
use grouproxy.Api.Calls.Access.{NetworkGroupEntry}
use grouproxy.Api.Entities.Policy.{NetworkGroup}
use grouproxy.Policy.Groups.{
  DraftEntry, GroupForm, keyed, key_entries, blank, entries_or_blank, draft_entries, open_form,
  edit_entry, set_kind, set_pattern, remove_entry, add_entry, Step, named, kind_set, pattern_set,
  removed, added, Reach, start, next,
}

-- No entry has the key.
abbrev Without : ℕ → List DraftEntry → Type 0
Without key = All (λ e. DraftEntry.key e ≢ key)

-- The keys are different, and none is above the counter.
abbrev pub IsKeyed : ℕ → List DraftEntry → Type 0
IsKeyed counter [] = Unit
IsKeyed counter (e ∷ es) = (e.key ≤ counter) × Without e.key es × IsKeyed counter es

above-Without :
    (key low : ℕ) (entries : List NetworkGroupEntry)
    → key ≤ low
    → Without key (key_entries low entries)
unfolding key_entries
above-Without key low [] h = tt
above-Without key low (e ∷ es) h = (λ q. omega arith, above-Without key (suc low) es (omega arith))

key_entries-IsKeyed :
    (low : ℕ) (entries : List NetworkGroupEntry) (counter : ℕ)
    → low + length entries ≤ counter
    → IsKeyed counter (key_entries low entries)
unfolding key_entries
key_entries-IsKeyed low [] counter h = tt
key_entries-IsKeyed low (e ∷ es) counter h = (
  omega arith,
  above-Without (suc low) (suc low) es (omega arith),
  key_entries-IsKeyed (suc low) es counter (omega arith),
)

open_form-IsKeyed :
    (counter : ℕ) (group : Option NetworkGroup)
    → let f = open_form counter group in IsKeyed f.counter f.entries
unfolding open_form draft_entries
open_form-IsKeyed counter none = (omega arith, tt, tt)
open_form-IsKeyed counter (some group) =
    key_entries-IsKeyed counter (entries_or_blank group.entries)
      (counter + length (entries_or_blank group.entries)) (omega arith)

module _ (key : ℕ) (change : DraftEntry → DraftEntry)
    (keeps_key : (e : DraftEntry) → (change e).key ≡ e.key) where
  edited-key : (e : DraftEntry) → (if e.key == key then change e else e).key ≡ e.key
  edited-key e = elim (Bool-cases (e.key == key)) [
    | inl same ↦ rw same (keeps_key e)
    | inr other ↦ rw other refl
  ]

  edit_entry-Without :
      (k : ℕ) (entries : List DraftEntry)
      → Without k entries
      → Without k (edit_entry key change entries)
  unfolding edit_entry
  edit_entry-Without k [] h = tt
  edit_entry-Without k (e ∷ es) h =
      (λ q. h.0 (omega (arith, edited-key e, q)), edit_entry-Without k es h.1)

  edit_entry-IsKeyed :
      (counter : ℕ) (entries : List DraftEntry)
      → IsKeyed counter entries
      → IsKeyed counter (edit_entry key change entries)
  unfolding edit_entry
  edit_entry-IsKeyed counter [] h = tt
  edit_entry-IsKeyed counter (e ∷ es) h = (
    rw (edited-key e) h.0,
    rw (edited-key e) (edit_entry-Without e.key es h.1),
    edit_entry-IsKeyed counter es h.2,
  )

remove_entry-Without :
    (key k : ℕ) (entries : List DraftEntry)
    → Without k entries
    → Without k (remove_entry key entries)
unfolding remove_entry
remove_entry-Without key k [] h = tt
remove_entry-Without key k (e ∷ es) h = elim (Bool-cases (e.key == key)) [
  | inl gone ↦ rw gone (remove_entry-Without key k es h.1)
  | inr kept ↦ rw kept (h.0, remove_entry-Without key k es h.1)
]

remove_entry-IsKeyed :
    (key counter : ℕ) (entries : List DraftEntry)
    → IsKeyed counter entries
    → IsKeyed counter (remove_entry key entries)
unfolding remove_entry
remove_entry-IsKeyed key counter [] h = tt
remove_entry-IsKeyed key counter (e ∷ es) h = elim (Bool-cases (e.key == key)) [
  | inl gone ↦ rw gone (remove_entry-IsKeyed key counter es h.2)
  | inr kept ↦
      rw kept (h.0, remove_entry-Without key e.key es h.1, remove_entry-IsKeyed key counter es h.2)
]

Without-append :
    (k : ℕ) (new : DraftEntry) (entries : List DraftEntry)
    → Without k entries
    → new.key ≢ k
    → Without k (entries ++ (new ∷ []))
Without-append k new [] h other = (other, tt)
Without-append k new (e ∷ es) h other = (h.0, Without-append k new es h.1 other)

IsKeyed-append :
    (counter : ℕ) (new : DraftEntry) (entries : List DraftEntry)
    → new.key ≡ suc counter
    → IsKeyed counter entries
    → IsKeyed (suc counter) (entries ++ (new ∷ []))
IsKeyed-append counter new [] e h = (omega arith, tt, tt)
IsKeyed-append counter new (first ∷ es) e h = (
  omega (arith, h.0),
  Without-append first.key new es h.1 (λ q. omega (arith, h.0)),
  IsKeyed-append counter new es e h.2,
)

Step-IsKeyed :
    {f g : GroupForm} → Step f g → IsKeyed f.counter f.entries → IsKeyed g.counter g.entries
unfolding add_entry
Step-IsKeyed (named f name) h = h
Step-IsKeyed (kind_set f key kind) h =
    edit_entry-IsKeyed key (set_kind kind) (λ e. refl) f.counter f.entries h
Step-IsKeyed (pattern_set f key pattern) h =
    edit_entry-IsKeyed key (set_pattern pattern) (λ e. refl) f.counter f.entries h
Step-IsKeyed (removed f key) h = remove_entry-IsKeyed key f.counter f.entries h
Step-IsKeyed (added f) h = IsKeyed-append f.counter (keyed f.counter blank) f.entries refl h

Reach-IsKeyed : (f : GroupForm) → Reach f → IsKeyed f.counter f.entries
Reach-IsKeyed _ (start counter group) = open_form-IsKeyed counter group
Reach-IsKeyed f (next reached step) = Step-IsKeyed step (Reach-IsKeyed _ reached)

remove_absent :
    (key : ℕ) (entries : List DraftEntry) → Without key entries → remove_entry key entries ≡ entries
unfolding remove_entry
remove_absent key [] h = refl
remove_absent key (e ∷ es) h = elim (Bool-cases (e.key == key)) [
  | inl same ↦ absurd (h.0 (ground arith))
  | inr other ↦ rw (other, remove_absent key es h.1) refl
]

same_key : (d e : DraftEntry) → d ≡ e → d.key ≡ e.key
same_key d e h = ap (λ x. DraftEntry.key x) h

differs : (a b : ℕ) → a ≢ b → (a == b) ≡ false
differs a b h = ground arith

Without-get_elem? :
    (key : ℕ) (entries : List DraftEntry) (i : ℕ) (e : DraftEntry)
    → Without key entries
    → get_elem? entries i ≡ some e
    → e.key ≢ key
Without-get_elem? key [] i e h at = absurd (cc at)
Without-get_elem? key (first ∷ es) zero e h at = λ q. h.0 (same_key first e (cc at) ∙ q)
Without-get_elem? key (first ∷ es) (suc i) e h at = Without-get_elem? key es i e h.1 at

remove_one :
    (counter : ℕ) (entries : List DraftEntry) (i : ℕ) (e : DraftEntry)
    → IsKeyed counter entries
    → get_elem? entries i ≡ some e
    → remove_entry e.key entries ≡ take i entries ++ drop (i + 1) entries
unfolding remove_entry
remove_one counter [] i e h at = absurd (cc at)
remove_one counter (first ∷ es) zero e h at =
    let same = same_key first e (cc at) in
    let own : (e.key == e.key) ≡ true = ground arith in
    rw (same, own, remove_absent e.key es (subst (λ k. Without k es) same h.1)) refl
remove_one counter (first ∷ es) (suc i) e h at =
    let other : (first.key == e.key) ≡ false =
      differs first.key e.key (λ q. Without-get_elem? first.key es i e h.1 at (sym q)) in
    let next : suc i + 1 ≡ suc (i + 1) = omega arith in
    rw (other, next) (ap (λ rest. first ∷ rest) (remove_one counter es i e h.2 at))

-- In every state that the form of a group reaches, the button of an entry removes that entry and no
-- other: the entries before it and those after it are left as they are, in their order.
pub remove_entry_lem :
    (f : GroupForm) (i : ℕ) (e : DraftEntry)
    → Reach f
    → get_elem? f.entries i ≡ some e
    → remove_entry e.key f.entries ≡ take i f.entries ++ drop (i + 1) f.entries
remove_entry_lem f i e reached at = remove_one f.counter f.entries i e (Reach-IsKeyed f reached) at
