-- ===== src/Sites/Counts.antt =====
-- What the column of nodes shows after some renders of frontend/app/sites/page.tsx.
use grouproxy.Base.{
  ℕ, zero, suc, ◌+◌, ◌*◌, String, List, [], ◌∷◌, ◌≡◌, refl, arith, str_eq, eq_iff, if◌then◌else◌,
  ◌∙◌, Bool-cases, inl, inr,
}
use grouproxy.Base.Dict.{lookup, insert, lookup-insert}
use grouproxy.Api.Entities.Nodes.{Node}
use grouproxy.Sites.{add_zeros, first_counts, count_at, count_nodes, counts_after}

-- How many nodes a site has.
abbrev pub nodes_at : String → List Node → ℕ
nodes_at id [] = 0
nodes_at id (n ∷ ns) = (if str_eq n.site_id id then 1 else 0) + nodes_at id ns

count_at-insert :
    (id key : String) (value : ℕ) (counts : List (String × ℕ))
    → count_at id (insert key value counts) ≡ (if str_eq key id then value else count_at id counts)
unfolding count_at
count_at-insert id key value counts = elim (Bool-cases (str_eq key id)) [
  | inl same ↦ rw (lookup-insert key id value counts, same)
  | inr other ↦ rw (lookup-insert key id value counts, other)
]

count_at-add_zeros :
    (id : String) (nodes : List Node) (counts : List (String × ℕ))
    → count_at id counts ≡ 0
    → count_at id (add_zeros nodes counts) ≡ 0
unfolding add_zeros
count_at-add_zeros id [] counts h = h
count_at-add_zeros id (n ∷ ns) counts h =
    count_at-add_zeros id ns (insert n.site_id 0 counts)
      (ground (arith, count_at-insert id n.site_id 0 counts))

count_at-count_nodes :
    (id : String) (nodes : List Node) (counts : List (String × ℕ))
    → count_at id (count_nodes nodes counts) ≡ nodes_at id nodes + count_at id counts
unfolding count_nodes
count_at-count_nodes id [] counts = omega arith
count_at-count_nodes id (n ∷ ns) counts =
    let more = insert n.site_id (count_at n.site_id counts + 1) counts in
    count_at-count_nodes id ns more
    ∙ ground (
      arith,
      count_at-insert id n.site_id (count_at n.site_id counts + 1) counts,
      eq_iff n.site_id id,
    )

empty : (id : String) → count_at id [] ≡ 0
unfolding count_at lookup
empty id = refl

-- After some renders with the same nodes, the column shows for a site as many times the number of its
-- nodes as there were renders: the number is right after the first, and grows with each further one.
pub count_at-counts_after :
    (renders : ℕ) (nodes : List Node) (id : String)
    → count_at id (counts_after renders nodes) ≡ renders * nodes_at id nodes
unfolding counts_after first_counts
count_at-counts_after zero nodes id =
    let none_yet = count_at-add_zeros id nodes [] (empty id) in omega (arith, none_yet)
count_at-counts_after (suc renders) nodes id =
    count_at-count_nodes id nodes (counts_after renders nodes)
    ∙ grind (arith, count_at-counts_after renders nodes id)
