-- ===== src/Overview/Buckets.antt =====
-- What `buildSiteTrafficSeries` keeps for a minute and a node: the latest snapshot, the first of those
-- with the same time.
use grouproxy.Base.{
  String, Bool, true, false, ◌&&◌, ◌≡◌, refl, sym, ◌∙◌, ap, Option, none, some, List, [], ◌∷◌,
  arith, if◌then◌else◌, str_eq, eq_iff, Bool-cases, inl, inr,
}
use grouproxy.Base.Int.{ℤ, pos, negsuc}
use grouproxy.Base.Dict.{Dict, lookup, insert, lookup-insert}
use grouproxy.Api.Entities.Telemetry.{ConnectionSnapshot}
use grouproxy.Overview.Traffic.{
  eq_ℤ, Buckets, bucket_at, bucket, set_bucket, replaces, put, put_timed, collect,
}

eq_ℤ-sound : (a b : ℤ) → eq_ℤ a b ≡ true → a ≡ b
unfolding eq_ℤ
eq_ℤ-sound (pos m) (pos n) h = ap pos (ground arith)
eq_ℤ-sound (pos m) (negsuc n) h = absurd (ground arith)
eq_ℤ-sound (negsuc m) (pos n) h = absurd (ground arith)
eq_ℤ-sound (negsuc m) (negsuc n) h = ap negsuc (ground arith)

eq_ℤ-refl : (a : ℤ) → eq_ℤ a a ≡ true
unfolding eq_ℤ
eq_ℤ-refl (pos m) = ground arith
eq_ℤ-refl (negsuc m) = ground arith

other_bucket : (b at asked : ℤ) → eq_ℤ b at ≡ false → eq_ℤ b asked ≡ true → eq_ℤ at asked ≡ false
other_bucket b at asked e g = elim (Bool-cases (eq_ℤ at asked)) [
  | inl q ↦
      let same : b ≡ at = eq_ℤ-sound b asked g ∙ sym (eq_ℤ-sound at asked q) in
      let again : eq_ℤ b at ≡ true = rw same (eq_ℤ-refl at) in absurd (cc (e, again))
  | inr q ↦ q
]

bucket-set_bucket :
    (at asked : ℤ) (new : Dict ConnectionSnapshot) (m : Buckets)
    → bucket asked (set_bucket at new m) ≡ (if eq_ℤ at asked then new else bucket asked m)
unfolding bucket set_bucket
bucket-set_bucket at asked new [] = refl
bucket-set_bucket at asked new ((b, snapshots) ∷ more) = elim (Bool-cases (eq_ℤ b at)) [
  | inl e ↦
      let f : b ≡ at = eq_ℤ-sound b at e in
      rw (e, f) (elim (Bool-cases (eq_ℤ at asked)) [ inl q ↦ rw q refl | inr q ↦ rw q refl ])
  | inr e ↦ elim (Bool-cases (eq_ℤ b asked)) [
    | inl g ↦ rw (e, g, other_bucket b at asked e g) refl
    | inr g ↦ rw (e, g) (bucket-set_bucket at asked new more)
  ]
]

abbrev pub in_minute : ℤ → Option ℤ → Bool
in_minute at none = false
in_minute at (some time) = eq_ℤ (bucket_at time) at

-- The snapshot that is kept for a time and a node.
abbrev pub kept : ℤ → String → Buckets → Option ConnectionSnapshot
kept at node m = lookup node (bucket at m)

module _ (date_parse : String → Option ℤ) where
  -- Whether a snapshot counts: it is of the site and of the node, and its time is in that minute.
  abbrev pub counts : String → ℤ → String → ConnectionSnapshot → Bool
  counts site at node s =
      str_eq s.site_id site && (in_minute at (date_parse s.sampled_at) && str_eq s.node_id node)

  abbrev pub chosen : ConnectionSnapshot → Option ConnectionSnapshot → Option ConnectionSnapshot
  chosen s previous = if replaces date_parse s previous then some s else previous

  -- The latest of the snapshots that count, going through all of them with the test of the program.
  unfoldable pub latest :
      String
      → ℤ
      → String
      → List ConnectionSnapshot
      → Option ConnectionSnapshot
      → Option ConnectionSnapshot
  latest site at node [] best = best
  latest site at node (s ∷ entries) best =
      latest site at node entries (if counts site at node s then chosen s best else best)

  lookup-chosen :
      (node : String) (s : ConnectionSnapshot) (nodes : Dict ConnectionSnapshot)
      → lookup node (
          if replaces date_parse s (lookup s.node_id nodes)
          then insert s.node_id s nodes
          else nodes)
        ≡ (if str_eq s.node_id node then chosen s (lookup node nodes) else lookup node nodes)
  lookup-chosen node s nodes = elim (Bool-cases (str_eq s.node_id node)) [
    | inl own ↦
        let same : s.node_id ≡ node = (eq_iff s.node_id node).0 own in
        let kept_same : lookup s.node_id nodes ≡ lookup node nodes =
          ap (λ key. lookup key nodes) same in
        elim (Bool-cases (replaces date_parse s (lookup node nodes))) [
          | inl later ↦ rw (kept_same, later, lookup-insert s.node_id node s nodes, own) refl
          | inr earlier ↦ rw (kept_same, earlier, own) refl
        ]
    | inr other ↦ elim (Bool-cases (replaces date_parse s (lookup s.node_id nodes))) [
      | inl later ↦ rw (later, lookup-insert s.node_id node s nodes, other) refl
      | inr earlier ↦ rw (earlier, other) refl
    ]
  ]

  kept-put :
      (time at : ℤ) (node : String) (s : ConnectionSnapshot) (m : Buckets)
      → kept at node (put date_parse time s m) ≡ (
          if eq_ℤ (bucket_at time) at && str_eq s.node_id node
          then chosen s (kept at node m)
          else kept at node m)
  unfolding put
  kept-put time at node s m =
      let nodes = bucket (bucket_at time) m in
      let stored =
        bucket-set_bucket (bucket_at time) at
          (if replaces date_parse s (lookup s.node_id nodes)
            then insert s.node_id s nodes
            else nodes)
          m in
      rw stored (elim (Bool-cases (eq_ℤ (bucket_at time) at)) [
        | inl e ↦
            let here = eq_ℤ-sound (bucket_at time) at e in
            rw (e, here) (lookup-chosen node s (bucket at m))
        | inr e ↦ rw e refl
      ])

  kept-put_timed :
      (time : Option ℤ) (at : ℤ) (node : String) (s : ConnectionSnapshot) (m : Buckets)
      → kept at node (put_timed date_parse time s m) ≡ (
          if in_minute at time && str_eq s.node_id node
          then chosen s (kept at node m)
          else kept at node m)
  kept-put_timed none at node s m = refl
  kept-put_timed (some time) at node s m = kept-put time at node s m

  kept-collect :
      (site : String) (at : ℤ) (node : String) (entries : List ConnectionSnapshot) (m : Buckets)
      → kept at node (collect date_parse site entries m)
        ≡ latest site at node entries (kept at node m)
  unfolding collect latest
  kept-collect site at node [] m = refl
  kept-collect site at node (s ∷ entries) m = elim (Bool-cases (str_eq s.site_id site)) [
    | inl own ↦
        rw
          (
            own,
            kept-collect site at node entries (put_timed date_parse (date_parse s.sampled_at) s m),
            kept-put_timed (date_parse s.sampled_at) at node s m,
          )
          refl
    | inr other ↦ rw (other, kept-collect site at node entries m) refl
  ]

  -- For each minute and each node, the map that `buildSiteTrafficSeries` builds keeps what going through
  -- all snapshots finds as the latest one: of the site and the node, with a time in that minute, the
  -- first of those with the same time.
  pub kept-collect-latest :
      (site : String) (at : ℤ) (node : String) (entries : List ConnectionSnapshot)
      → kept at node (collect date_parse site entries []) ≡ latest site at node entries none
  unfolding bucket lookup
  kept-collect-latest site at node entries = kept-collect site at node entries []
