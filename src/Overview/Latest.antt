-- ===== src/Overview/Latest.antt =====
-- What the map of `buildSiteTrafficSeries` holds for a minute and a node, said of the snapshots and
-- their times alone.
use mathlib.Core.List.{append_assoc, append-nil}
use grouproxy.Base.{
  ℕ, ◌+◌, ◌*◌, ◌<◌, ◌≤◌, String, true, false, not, ◌&&◌, ◌≡◌, refl, sym, ap, ◌∙◌, inl, inr, Option,
  none, some, List, [], ◌∷◌, ◌++◌, All, arith, ltb, leb, if◌then◌else◌, str_eq, Bool-cases, subst,
  All-append, All_mono,
}
use grouproxy.Base.Int.{ℤ, pos, negsuc, leb_ℤ}
use grouproxy.Api.Entities.Telemetry.{ConnectionSnapshot}
use grouproxy.Overview.Traffic.{eq_ℤ, bucket_at, is_later, collect}
use grouproxy.Overview.Buckets.{in_minute, counts, chosen, latest, kept, kept-collect-latest}

-- The time, where it is in the minute `m` since 1970.
abbrev pub within : ℕ → Option ℤ → Option ℕ
within m none = none
within m (some (negsuc n)) = none
within m (some (pos n)) = if leb (m * 60000) n && ltb n (m * 60000 + 60000) then some n else none

-- A snapshot that does not count stands behind nothing.
abbrev pub IsBefore : ℕ → Option ℕ → Type 0
IsBefore n none = Unit
IsBefore n (some k) = k < n

abbrev pub IsNotAfter : ℕ → Option ℕ → Type 0
IsNotAfter n none = Unit
IsNotAfter n (some k) = k ≤ n

within-in_minute :
    (m : ℕ) (time : Option ℤ) → in_minute (pos (m * 60000)) time ≡ false → within m time ≡ none
unfolding bucket_at eq_ℤ
within-in_minute m none h = refl
within-in_minute m (some (negsuc n)) h = refl
within-in_minute m (some (pos n)) h = ground arith

in_minute-within :
    (m : ℕ) (time : Option ℤ)
    → in_minute (pos (m * 60000)) time ≡ true
    → (n : ℕ) × (time ≡ some (pos n)) × (within m time ≡ some n)
unfolding bucket_at eq_ℤ
in_minute-within m none h = absurd (cc h)
in_minute-within m (some (negsuc n)) h = absurd (ground arith)
in_minute-within m (some (pos n)) h = (n, refl, ground arith)

module _ (date_parse : String → Option ℤ) (site node : String) (m : ℕ) where
  -- The time of a snapshot that is of the site and of the node, in the minute.
  abbrev pub time_in : ConnectionSnapshot → Option ℕ
  time_in s =
      if str_eq s.site_id site && str_eq s.node_id node
      then within m (date_parse s.sampled_at)
      else none

  -- The snapshot counts; those that count and come before it in the list are older, and those that
  -- come after it are not younger.
  pub record IsLatest (entries : List ConnectionSnapshot) (s : ConnectionSnapshot) : Type 0 where
    pub before : List ConnectionSnapshot
    pub after : List ConnectionSnapshot
    pub time : ℕ
    pub whole : entries ≡ before ++ (s ∷ after)
    pub counted : time_in s ≡ some time
    pub earlier : All (λ r. IsBefore time (time_in r)) before
    pub no_later : All (λ r. IsNotAfter time (time_in r)) after

  -- None of the snapshots counts, or the latest of them is there.
  abbrev pub Holds : List ConnectionSnapshot → Option ConnectionSnapshot → Type 0
  Holds entries none = All (λ r. time_in r ≡ none) entries
  Holds entries (some s) = IsLatest entries s

  counts-time_in :
      (s : ConnectionSnapshot)
      → counts date_parse site (pos (m * 60000)) node s ≡ true
      → (n : ℕ) × (date_parse s.sampled_at ≡ some (pos n)) × (time_in s ≡ some n)
  counts-time_in s h =
      let (n, date, inside) = in_minute-within m (date_parse s.sampled_at) (ground (arith, h)) in
      let own : (str_eq s.site_id site && str_eq s.node_id node) ≡ true = ground (arith, h) in
      (n, date, rw own inside)

  other-time_in :
      (s : ConnectionSnapshot)
      → counts date_parse site (pos (m * 60000)) node s ≡ false
      → time_in s ≡ none
  other-time_in s h = elim (Bool-cases (str_eq s.site_id site && str_eq s.node_id node)) [
    | inl own ↦ rw own (within-in_minute m (date_parse s.sampled_at) (ground (arith, h, own)))
    | inr other ↦ rw other refl
  ]

  time_in-date :
      (s : ConnectionSnapshot) (k : ℕ) → time_in s ≡ some k → date_parse s.sampled_at ≡ some (pos k)
  time_in-date s k h = elim (Bool-cases (counts date_parse site (pos (m * 60000)) node s)) [
    | inl counted ↦
        let (n, date, here) = counts-time_in s counted in
        let same : n ≡ k = cc (here, h) in date ∙ ap (λ x. some (pos x)) same
    | inr other ↦ absurd (cc (other-time_in s other, h))
  ]

  later_lem :
      (entries : List ConnectionSnapshot) (b s : ConnectionSnapshot) (h : IsLatest entries b)
      → IsNotAfter h.time (time_in s)
      → IsLatest (entries ++ (s ∷ [])) b
  later_lem entries b s h k = record {
    before = h.before;
    after = h.after ++ (s ∷ []);
    time = h.time;
    whole = ap (λ xs. xs ++ (s ∷ [])) h.whole ∙ append_assoc h.before (b ∷ h.after) (s ∷ []);
    counted = h.counted;
    earlier = h.earlier;
    no_later = All-append (λ r. IsNotAfter h.time (time_in r)) h.after (s ∷ []) h.no_later (k, tt);
  }

  -- One more snapshot that does not count.
  skip-Holds :
      (entries : List ConnectionSnapshot) (best : Option ConnectionSnapshot)
      (s : ConnectionSnapshot)
      → time_in s ≡ none
      → Holds entries best
      → Holds (entries ++ (s ∷ [])) best
  skip-Holds entries none s e h = All-append (λ r. time_in r ≡ none) entries (s ∷ []) h (e, tt)
  skip-Holds entries (some b) s e h = later_lem entries b s h (rw e tt)

  -- One more snapshot that counts, at the time `n`.
  none-Holds :
      (entries : List ConnectionSnapshot) (s : ConnectionSnapshot) (n : ℕ)
      → time_in s ≡ some n
      → Holds entries none
      → IsLatest (entries ++ (s ∷ [])) s
  none-Holds entries s n here h = record {
    before = entries;
    after = [];
    time = n;
    whole = refl;
    counted = here;
    earlier = All_mono (λ r. time_in r ≡ none) (λ r e. rw e tt) entries h;
    no_later = tt;
  }

  younger-IsBefore : (k n : ℕ) → k < n → (time : Option ℕ) → IsNotAfter k time → IsBefore n time
  younger-IsBefore k n less none h = tt
  younger-IsBefore k n less (some j) h = omega (arith, less, h)

  older-IsBefore : (k n : ℕ) → k < n → (time : Option ℕ) → IsBefore k time → IsBefore n time
  older-IsBefore k n less none h = tt
  older-IsBefore k n less (some j) h = omega (arith, less, h)

  younger-Holds :
      (entries : List ConnectionSnapshot) (b s : ConnectionSnapshot) (n : ℕ)
      (h : IsLatest entries b)
      → time_in s ≡ some n
      → h.time < n
      → IsLatest (entries ++ (s ∷ [])) s
  younger-Holds entries b s n h here less = record {
    before = entries;
    after = [];
    time = n;
    whole = refl;
    counted = here;
    earlier = subst (All (λ r. IsBefore n (time_in r))) (sym h.whole) (
        All-append (λ r. IsBefore n (time_in r)) h.before (b ∷ h.after)
          (All_mono (λ r. IsBefore h.time (time_in r))
            (λ r. older-IsBefore h.time n less (time_in r)) h.before h.earlier)
          (
            rw h.counted less,
            All_mono (λ r. IsNotAfter h.time (time_in r))
                (λ r. younger-IsBefore h.time n less (time_in r)) h.after h.no_later,
          ));
    no_later = tt;
  }

  is_later-times :
      (s b : ConnectionSnapshot) (n k : ℕ)
      → date_parse s.sampled_at ≡ some (pos n)
      → date_parse b.sampled_at ≡ some (pos k)
      → is_later date_parse s b ≡ not (leb n k)
  is_later-times s b n k date known =
      ap
        (λ time. elim time [
          | none ↦ false
          | some t ↦ elim (date_parse b.sampled_at) [ none ↦ false | some u ↦ not (leb_ℤ t u) ]
        ])
        date
      ∙ ap (λ time. elim time [ none ↦ false | some u ↦ not (leb_ℤ (pos n) u) ]) known
      ∙ ground arith

  chosen-Holds :
      (entries : List ConnectionSnapshot) (best : Option ConnectionSnapshot)
      (s : ConnectionSnapshot) (n : ℕ)
      → date_parse s.sampled_at ≡ some (pos n)
      → time_in s ≡ some n
      → Holds entries best
      → Holds (entries ++ (s ∷ [])) (chosen date_parse s best)
  chosen-Holds entries none s n date here h = none-Holds entries s n here h
  chosen-Holds entries (some b) s n date here h =
      let known = time_in-date b h.time h.counted in
      elim (Bool-cases (leb n h.time)) [
        | inl older ↦
            let stays : is_later date_parse s b ≡ false =
              is_later-times s b n h.time date known ∙ rw older refl in
            rw stays (later_lem entries b s h (rw here (ground arith)))
        | inr younger ↦
            let wins : is_later date_parse s b ≡ true =
              is_later-times s b n h.time date known ∙ rw younger refl in
            rw wins (younger-Holds entries b s n h here (ground arith))
      ]

  latest-Holds :
      (entries seen : List ConnectionSnapshot) (best : Option ConnectionSnapshot)
      → Holds seen best
      → Holds (seen ++ entries) (latest date_parse site (pos (m * 60000)) node entries best)
  unfolding latest
  latest-Holds [] seen best h = rw (append-nil seen) h
  latest-Holds (s ∷ entries) seen best h =
      let joined = append_assoc seen (s ∷ []) entries in
      elim (Bool-cases (counts date_parse site (pos (m * 60000)) node s)) [
        | inl counted ↦
            let (n, date, here) = counts-time_in s counted in
            let more = chosen-Holds seen best s n date here h in
            let rest = latest-Holds entries (seen ++ (s ∷ [])) (chosen date_parse s best) more in
            rw counted (rw joined at rest)
        | inr other ↦
            let more = skip-Holds seen best s (other-time_in s other) h in
            let rest = latest-Holds entries (seen ++ (s ∷ [])) best more in
            rw other (rw joined at rest)
      ]

  -- For each minute since 1970 and each node, the map that `buildSiteTrafficSeries` builds keeps the
  -- latest snapshot, and the first of those with the same time: one of the list, of the site and of the
  -- node, with a time in that minute, where those of them that come before it in the list are older, and
  -- those that come after it are not younger. It keeps none only where none of the list is of the site
  -- and of the node with a time in that minute.
  pub kept-collect-Holds :
      (entries : List ConnectionSnapshot)
      → Holds entries (kept (pos (m * 60000)) node (collect date_parse site entries []))
  kept-collect-Holds entries =
      rw (kept-collect-latest date_parse site (pos (m * 60000)) node entries)
        (latest-Holds entries [] none tt)
