-- ===== src/Quality/Sorting.antt =====
-- The order of the table.
use grouproxy.Base.{
  String, Bool, true, false, ◌≡◌, refl, ◌⊎◌, inl, inr, none, some, List, [], ◌∷◌, arith, Bool-cases,
  str_eq, eq_iff, any,
}
use mathlib.Core.List.{Perm}
use mathlib.Core.List.Perm
use grouproxy.Api.Entities.Nodes.{Node, ServiceQualityStat}
use grouproxy.Quality.{
  SortKey, by_node_name, by_outbound_tag, by_average_latency, by_success_rate, by_sample_count,
  by_last_sampled, SortDirection, asc, desc, Sign, lesser, same, greater, flip, is_greater,
  compare_by, compare_present, compare_text, compare_values, tie_broken, compare_rows, place, sort,
  sorted_entries, select_sort, key_number, toggled, PageState, keep_node, node_items,
}

-- The comparator gives the opposite sign when its arguments are exchanged.
abbrev pub IsSigned : {A : Type 0} → (A → A → Sign) → Type 0
IsSigned {A = A} cmp = (a b : A) → cmp b a ≡ flip (cmp a b)

-- The row is not greater than the first of the list.
abbrev pub Leads : {A : Type 0} → (A → A → Sign) → A → List A → Type 0
Leads cmp x [] = Unit
Leads cmp x (y ∷ ys) = is_greater (cmp x y) ≡ false

-- No row is greater than the one below it.
abbrev pub Ascending : {A : Type 0} → (A → A → Sign) → List A → Type 0
Ascending cmp [] = Unit
Ascending cmp (x ∷ xs) = Leads cmp x xs × Ascending cmp xs

is_greater-flip : (s : Sign) → is_greater s ≡ true → is_greater (flip s) ≡ false
is_greater-flip lesser h = absurd (cc h)
is_greater-flip same h = absurd (cc h)
is_greater-flip greater h = refl

tie_broken-flip :
    (tie : Sign) (direction : SortDirection) (s : Sign)
    → tie_broken (flip tie) direction (flip s) ≡ flip (tie_broken tie direction s)
tie_broken-flip tie direction same = refl
tie_broken-flip tie asc lesser = refl
tie_broken-flip tie desc lesser = refl
tie_broken-flip tie asc greater = refl
tie_broken-flip tie desc greater = refl

module _ {A : Type 0} (cmp : A → A → Sign) where
  place-Perm : (x : A) (ys : List A) → Perm (place cmp x ys) (x ∷ ys)
  unfolding place
  place-Perm x [] = Perm.refl _
  place-Perm x (y ∷ ys) = elim (Bool-cases (is_greater (cmp x y))) [
    | inl after ↦ rw after (Perm.trans (Perm.cons y (place-Perm x ys)) (Perm.swap _ _ _))
    | inr before ↦ rw before (Perm.refl _)
  ]

  sort-Perm : (xs : List A) → Perm (sort cmp xs) xs
  unfolding sort
  sort-Perm [] = Perm.refl _
  sort-Perm (x ∷ xs) = Perm.trans (place-Perm x (sort cmp xs)) (Perm.cons x (sort-Perm xs))

  module _ (signed : IsSigned cmp) where
    not_greater : (x y : A) → is_greater (cmp x y) ≡ true → is_greater (cmp y x) ≡ false
    not_greater x y h = rw (signed x y) (is_greater-flip (cmp x y) h)

    place-Leads :
        (x y : A) (ys : List A)
        → is_greater (cmp y x) ≡ false
        → Leads cmp y ys
        → Leads cmp y (place cmp x ys)
    unfolding place
    place-Leads x y [] h k = h
    place-Leads x y (z ∷ zs) h k = elim (Bool-cases (is_greater (cmp x z))) [
      | inl after ↦ rw after k
      | inr before ↦ rw before h
    ]

    place-Ascending : (x : A) (ys : List A) → Ascending cmp ys → Ascending cmp (place cmp x ys)
    unfolding place
    place-Ascending x [] h = (tt, tt)
    place-Ascending x (y ∷ ys) (first, rest) = elim (Bool-cases (is_greater (cmp x y))) [
      | inl after ↦
          rw after (place-Leads x y ys (not_greater x y after) first, place-Ascending x ys rest)
      | inr before ↦ rw before (before, (first, rest))
    ]

    sort-Ascending : (xs : List A) → Ascending cmp (sort cmp xs)
    unfolding sort
    sort-Ascending [] = tt
    sort-Ascending (x ∷ xs) = place-Ascending x (sort cmp xs) (sort-Ascending xs)

-- The comparators of the table are signed, if the collation and the order of the numbers are.
module _ {N : Type 0} (leq : N → N → Bool) (collate : String → String → Sign)
    (total : (a b : N) → leq a b ≡ false → leq b a ≡ true) (signed : IsSigned collate) where
  compare_by-IsSigned : IsSigned (compare_by leq)
  compare_by-IsSigned a b = ground (arith, total a b, total b a)

  compare_text-IsSigned : IsSigned (compare_text collate)
  compare_text-IsSigned a b = ground (arith, eq_iff a b, eq_iff b a, signed a b)

  compare_present-IsSigned :
      {A : Type 0} (cmp : A → A → Sign) → IsSigned cmp → IsSigned (compare_present cmp)
  compare_present-IsSigned cmp h none none = refl
  compare_present-IsSigned cmp h none (some b) = refl
  compare_present-IsSigned cmp h (some a) none = refl
  compare_present-IsSigned cmp h (some a) (some b) = h a b

  compare_values-IsSigned : (key : SortKey) → IsSigned (compare_values leq collate key)
  unfolding compare_values
  compare_values-IsSigned by_node_name l r = compare_text-IsSigned _ _
  compare_values-IsSigned by_outbound_tag l r = compare_text-IsSigned _ _
  compare_values-IsSigned by_average_latency l r =
      compare_present-IsSigned (compare_by leq) compare_by-IsSigned l.average_latency_ms
        r.average_latency_ms
  compare_values-IsSigned by_success_rate l r =
      compare_present-IsSigned (compare_by leq) compare_by-IsSigned l.success_rate r.success_rate
  compare_values-IsSigned by_sample_count l r = ground arith
  compare_values-IsSigned by_last_sampled l r =
      compare_present-IsSigned (compare_text collate) compare_text-IsSigned l.last_sampled_at
        r.last_sampled_at

  compare_rows-IsSigned :
      (key : SortKey) (direction : SortDirection)
      → IsSigned (compare_rows leq collate key direction)
  unfolding compare_rows
  compare_rows-IsSigned key direction l r =
      rw (compare_values-IsSigned key l r, signed l.outbound_tag r.outbound_tag)
        (tie_broken-flip (collate l.outbound_tag r.outbound_tag) direction
          (compare_values leq collate key l r))

  -- The table has the rows of the answer, each as often as it is there, and no row is greater than
  -- the one below it by the chosen column and direction. The collation gives opposite signs in
  -- opposite orders, and of two numbers one is at most the other.
  pub sorted_entries-Ascending :
      (key : SortKey) (direction : SortDirection) (rows : List (ServiceQualityStat N))
      → Perm (sorted_entries leq collate key direction rows) rows
        × Ascending
            (compare_rows leq collate key direction)
            (sorted_entries leq collate key direction rows)
  unfolding sorted_entries
  sorted_entries-Ascending key direction rows = (
    sort-Perm (compare_rows leq collate key direction) rows,
    sort-Ascending (compare_rows leq collate key direction) (compare_rows-IsSigned key direction)
        rows,
  )

key_number-select_sort :
    (key : SortKey) (s : PageState) → key_number (select_sort key s).sort_key ≡ key_number key
unfolding select_sort
key_number-select_sort key s = ground arith

toggled-twice : (d : SortDirection) → toggled (toggled d) ≡ d
toggled-twice asc = refl
toggled-twice desc = refl

select_sort_again :
    (key : SortKey) (s : PageState)
    → key_number s.sort_key ≡ key_number key
    → select_sort key (select_sort key s) ≡ s
unfolding select_sort
select_sort_again key s h = ground (arith, toggled-twice s.sort_direction)

-- Choosing a column three times is choosing it once: the second choice turns the direction, and the
-- third turns it back.
pub select_sort_thrice :
    (key : SortKey) (s : PageState)
    → select_sort key (select_sort key (select_sort key s)) ≡ select_sort key s
unfolding select_sort
select_sort_thrice key s = select_sort_again key (select_sort key s) (key_number-select_sort key s)

-- The chosen node, if there is one, is a node of the chosen site.
pub keep_node-any :
    (nodes : List Node) (s : PageState)
    → ((keep_node nodes s).node_id ≡ "")
      ⊎ (any
            (λ (node : Node). str_eq node.id (keep_node nodes s).node_id)
            (node_items (keep_node nodes s).site_id nodes)
          ≡ true)
unfolding keep_node
keep_node-any nodes s = ground (arith, eq_iff s.node_id "")
