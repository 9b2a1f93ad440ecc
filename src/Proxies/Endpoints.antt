-- ===== src/Proxies/Endpoints.antt =====
-- Which endpoints a group shows.
use grouproxy.Base.{
  String, ◌≡◌, refl, ap, some, List, [], ◌∷◌, map, arith, eq_iff, Option-cases, inl, inr,
}
use grouproxy.Api.Entities.Nodes.{ProxyEndpoint}
use grouproxy.Proxies.{endpoint_by_name, or_unknown, endpoints_of}

name-endpoint_by_name :
    (name : String) (nodes : List ProxyEndpoint) (found : ProxyEndpoint)
    → endpoint_by_name name nodes ≡ some found
    → found.name ≡ name
unfolding endpoint_by_name
name-endpoint_by_name name [] found e = absurd (cc e)
name-endpoint_by_name name (endpoint ∷ more) found e =
    ground (arith, eq_iff endpoint.name name, name-endpoint_by_name name more found)

name-or_unknown :
    (name : String) (nodes : List ProxyEndpoint)
    → (or_unknown name (endpoint_by_name name nodes)).name ≡ name
name-or_unknown name nodes = elim (Option-cases (endpoint_by_name name nodes)) [
  | inl missing ↦ rw missing refl
  | inr (found, e) ↦ rw e (name-endpoint_by_name name nodes found e)
]

-- The endpoints of a group are those that it names, in its order, whatever the monitor described.
pub names-endpoints_of :
    (nodes : List ProxyEndpoint) (names : List String)
    → map (λ (e : ProxyEndpoint). e.name) (endpoints_of nodes names) ≡ names
unfolding endpoints_of
names-endpoints_of nodes [] = refl
names-endpoints_of nodes (name ∷ names) =
    rw (name-or_unknown name nodes) (ap (λ l. name ∷ l) (names-endpoints_of nodes names))
