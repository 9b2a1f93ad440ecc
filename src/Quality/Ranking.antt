-- ===== src/Quality/Ranking.antt =====
-- The order of the table, column by column and in both directions.
use mathlib.Core.List.{Perm}
use grouproxy.Base.{
  ℕ, ◌<◌, String, Bool, true, false, ◌≡◌, ◌≢◌, refl, sym, ◌⊎◌, inl, inr, Option, none, some, List,
  [], ◌∷◌, arith, leb, str_eq, eq_iff, Bool-cases,
}
use grouproxy.Api.Entities.Nodes.{ServiceQualityStat}
use grouproxy.Quality.{
  SortKey, by_node_name, by_outbound_tag, by_average_latency, by_success_rate, by_sample_count,
  by_last_sampled, SortDirection, asc, desc, Sign, lesser, same, greater, is_greater, compare_by,
  compare_present, compare_text, compare_values, tie_broken, compare_rows, sorted_entries,
}
use grouproxy.Quality.Sorting.{IsSigned, Ascending, sorted_entries-Ascending}

module _ {N : Type 0} (leq : N → N → Bool) (collate : String → String → Sign) where
  -- One text comes before another one in the collation.
  abbrev pub TextBelow : String → String → Type 0
  TextBelow a b = (a ≢ b) × (collate a b ≡ lesser)

  abbrev pub TextEqual : String → String → Type 0
  TextEqual a b = (a ≡ b) ⊎ (collate a b ≡ same)

  -- Values that can be missing: a missing one is the last.
  abbrev pub GivenBelow : {A : Type 0} → (A → A → Type 0) → Option A → Option A → Type 0
  GivenBelow P (some a) (some b) = P a b
  GivenBelow P (some a) none = Unit
  GivenBelow P none b = ⊥

  abbrev pub GivenEqual : {A : Type 0} → (A → A → Type 0) → Option A → Option A → Type 0
  GivenEqual P (some a) (some b) = P a b
  GivenEqual P none none = Unit
  GivenEqual P (some a) none = ⊥
  GivenEqual P none (some b) = ⊥

  abbrev pub NumberBelow : N → N → Type 0
  NumberBelow a b = leq b a ≡ false

  abbrev pub NumberEqual : N → N → Type 0
  NumberEqual a b = (leq a b ≡ true) × (leq b a ≡ true)

  -- The row `l` comes before the row `r` in the column, upwards.
  abbrev pub Below : SortKey → ServiceQualityStat N → ServiceQualityStat N → Type 0
  Below by_node_name l r = TextBelow l.node_name r.node_name
  Below by_outbound_tag l r = TextBelow l.outbound_tag r.outbound_tag
  Below by_average_latency l r = GivenBelow NumberBelow l.average_latency_ms r.average_latency_ms
  Below by_success_rate l r = GivenBelow NumberBelow l.success_rate r.success_rate
  Below by_sample_count l r = l.sample_count < r.sample_count
  Below by_last_sampled l r = GivenBelow TextBelow l.last_sampled_at r.last_sampled_at

  abbrev pub Equal : SortKey → ServiceQualityStat N → ServiceQualityStat N → Type 0
  Equal by_node_name l r = TextEqual l.node_name r.node_name
  Equal by_outbound_tag l r = TextEqual l.outbound_tag r.outbound_tag
  Equal by_average_latency l r = GivenEqual NumberEqual l.average_latency_ms r.average_latency_ms
  Equal by_success_rate l r = GivenEqual NumberEqual l.success_rate r.success_rate
  Equal by_sample_count l r = l.sample_count ≡ r.sample_count
  Equal by_last_sampled l r = GivenEqual TextEqual l.last_sampled_at r.last_sampled_at

  abbrev pub InDirection :
      SortKey → SortDirection → ServiceQualityStat N → ServiceQualityStat N → Type 0
  InDirection key asc l r = Below key l r
  InDirection key desc l r = Below key r l

  -- The row `l` may stand above the row `r`: it comes before it in the column and direction, or
  -- their values are equal and its tag does not come after the other one.
  abbrev pub MayLead :
      SortKey → SortDirection → ServiceQualityStat N → ServiceQualityStat N → Type 0
  MayLead key direction l r =
      InDirection key direction l r
      ⊎ (Equal key l r × (is_greater (collate l.outbound_tag r.outbound_tag) ≡ false))

  -- Each row may stand above the next one.
  abbrev pub Ranked : SortKey → SortDirection → List (ServiceQualityStat N) → Type 0
  Ranked key direction [] = Unit
  Ranked key direction (x ∷ []) = Unit
  Ranked key direction (x ∷ y ∷ more) = MayLead key direction x y × Ranked key direction (y ∷ more)

  -- What a sign of the comparator says.
  abbrev Says : Type 0 → Type 0 → Type 0 → Sign → Type 0
  Says below equal above lesser = below
  Says below equal above same = equal
  Says below equal above greater = above

  compare_by-Says :
      (a b : N) → Says (NumberBelow a b) (NumberEqual a b) (NumberBelow b a) (compare_by leq a b)
  compare_by-Says a b = elim (Bool-cases (leq a b)) [
    | inl up ↦ elim (Bool-cases (leq b a)) [
      | inl down ↦ rw (up, down) (refl, refl)
      | inr only ↦ rw (up, only) refl
    ]
    | inr above ↦ rw above refl
  ]

  compare_count-Says : (m n : ℕ) → Says (m < n) (m ≡ n) (n < m) (compare_by leb m n)
  compare_count-Says m n = elim (Bool-cases (leb m n)) [
    | inl up ↦ elim (Bool-cases (leb n m)) [
      | inl down ↦ rw (up, down) (ground arith)
      | inr only ↦ rw (up, only) (ground arith)
    ]
    | inr above ↦ rw above (ground arith)
  ]

  compare_present-Says :
      {A : Type 0} (P Q : A → A → Type 0) (cmp : A → A → Sign)
      → ((a b : A) → Says (P a b) (Q a b) (P b a) (cmp a b))
      → (x y : Option A)
      → Says (GivenBelow P x y) (GivenEqual Q x y) (GivenBelow P y x) (compare_present cmp x y)
  compare_present-Says P Q cmp h none none = tt
  compare_present-Says P Q cmp h none (some b) = tt
  compare_present-Says P Q cmp h (some a) none = tt
  compare_present-Says P Q cmp h (some a) (some b) = h a b

  module _ (signed : IsSigned collate) where
    collated :
        (s : Sign) (a b : String)
        → a ≢ b
        → collate a b ≡ s
        → Says (TextBelow a b) (TextEqual a b) (TextBelow b a) s
    collated lesser a b h e = (h, e)
    collated same a b h e = inr e
    collated greater a b h e = (λ q. h (sym q), rw (signed a b, e) refl)

    compare_text-Says :
        (a b : String)
        → Says (TextBelow a b) (TextEqual a b) (TextBelow b a) (compare_text collate a b)
    compare_text-Says a b = elim (Bool-cases (str_eq a b)) [
      | inl one ↦ rw one (inl ((eq_iff a b).0 one))
      | inr two ↦
          rw two (collated (collate a b) a b (λ e. absurd (cc ((eq_iff a b).1 e, two))) refl)
    ]

    -- The comparator of a column says which row comes first in it.
    compare_values-Says :
        (key : SortKey) (l r : ServiceQualityStat N)
        → Says (Below key l r) (Equal key l r) (Below key r l) (compare_values leq collate key l r)
    unfolding compare_values
    compare_values-Says by_node_name l r = compare_text-Says l.node_name r.node_name
    compare_values-Says by_outbound_tag l r = compare_text-Says l.outbound_tag r.outbound_tag
    compare_values-Says by_average_latency l r =
        compare_present-Says NumberBelow NumberEqual (compare_by leq) compare_by-Says
          l.average_latency_ms r.average_latency_ms
    compare_values-Says by_success_rate l r =
        compare_present-Says NumberBelow NumberEqual (compare_by leq) compare_by-Says l.success_rate
          r.success_rate
    compare_values-Says by_sample_count l r = compare_count-Says l.sample_count r.sample_count
    compare_values-Says by_last_sampled l r =
        compare_present-Says TextBelow TextEqual (compare_text collate) compare_text-Says
          l.last_sampled_at r.last_sampled_at

    MayLead-of_sign :
        (key : SortKey) (direction : SortDirection) (s : Sign) (l r : ServiceQualityStat N)
        → Says (Below key l r) (Equal key l r) (Below key r l) s
        → is_greater (tie_broken (collate l.outbound_tag r.outbound_tag) direction s) ≡ false
        → MayLead key direction l r
    MayLead-of_sign key asc lesser l r h e = inl h
    MayLead-of_sign key desc lesser l r h e = absurd (cc e)
    MayLead-of_sign key direction same l r h e = inr (h, e)
    MayLead-of_sign key asc greater l r h e = absurd (cc e)
    MayLead-of_sign key desc greater l r h e = inl h

    MayLead-compare_rows :
        (key : SortKey) (direction : SortDirection) (l r : ServiceQualityStat N)
        → is_greater (compare_rows leq collate key direction l r) ≡ false
        → MayLead key direction l r
    unfolding compare_rows
    MayLead-compare_rows key direction l r =
        MayLead-of_sign key direction (compare_values leq collate key l r) l r
          (compare_values-Says key l r)

    Ascending-Ranked :
        (key : SortKey) (direction : SortDirection) (rows : List (ServiceQualityStat N))
        → Ascending (compare_rows leq collate key direction) rows
        → Ranked key direction rows
    Ascending-Ranked key direction [] h = tt
    Ascending-Ranked key direction (x ∷ []) h = tt
    Ascending-Ranked key direction (x ∷ y ∷ more) h =
        (MayLead-compare_rows key direction x y h.0, Ascending-Ranked key direction (y ∷ more) h.1)

    -- The table has the rows of the answer, each as often as it is there, and each row may stand above
    -- the next one: upwards its value in the chosen column is the smaller one, a missing one being the
    -- last, downwards it is the greater one, a missing one being the first, and of equal values the
    -- tag decides, upwards in both directions. The collation gives opposite signs in opposite orders,
    -- and of two numbers one is at most the other.
    pub sorted_entries-Ranked :
        ((a b : N) → leq a b ≡ false → leq b a ≡ true)
        → (key : SortKey) (direction : SortDirection) (rows : List (ServiceQualityStat N))
        → Perm (sorted_entries leq collate key direction rows) rows
          × Ranked key direction (sorted_entries leq collate key direction rows)
    sorted_entries-Ranked total key direction rows =
        let known = sorted_entries-Ascending leq collate total signed key direction rows in
        (known.0, Ascending-Ranked key direction _ known.1)
