-- ===== src/Nodes/Notices.antt =====
-- What frontend/app/nodes/page.tsx tells of the error of the node that is inspected.
use grouproxy.Base.{String, ◌<>◌, not, ◌≡◌, refl, some, str_eq, eq_refl, Bool-cases, inl, inr}
use grouproxy.Api.Session.{is_truthy}
use grouproxy.Api.Url.{trim}
use grouproxy.Api.Entities.Nodes.{Node}
use grouproxy.Nodes.{NodesPage, tell_error}

tell_error-twice :
    (n : Node) (p : NodesPage) → tell_error (some n) (tell_error (some n) p) ≡ tell_error (some n) p
unfolding tell_error
tell_error-twice n p =
    let key : String = n.agent_id <> (":" <> trim n.last_error) in
    elim (Bool-cases (not (is_truthy (trim n.last_error)))) [
      | inl silent ↦ rw silent refl
      | inr error ↦ elim (Bool-cases (str_eq p.error_key key)) [
        | inl told ↦ rw (error, told, told) refl
        | inr new ↦ rw (error, new, eq_refl key) refl
      ]
    ]
