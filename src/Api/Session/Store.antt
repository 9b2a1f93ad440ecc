-- ===== src/Api/Session/Store.antt =====
-- What the session functions of frontend/lib/api.ts promise, without the keys they keep it under: a
-- store that holds one session or none.
use grouproxy.Base.{String, Bool, not, ◌&&◌, Option, none, some, List, [], ◌∷◌, if◌then◌else◌}
use grouproxy.Base.Int.{ℤ}
use grouproxy.Api.Session.{
  Browser, SessionRole, is_truthy, is_employee, has_passed, clear_management_session,
  redirect_for_authentication_failure, management_session_role, save_management_session,
  active_management_token, has_management_session,
}

pub record Session : Type 0 where
  pub token : String
  pub role : SessionRole
  pub expires_at : String

pub record Store : Type 0 where
  pub session : Option Session
  pub now : ℤ

-- What the program does with the session, and the passing of time.
pub data Operation : Type 0 where
  sign_in : Session → Operation
  sign_out : Operation
  fail : String → Operation
  read_token : Operation
  read_role : Operation
  ask_manager : Operation
  wait : ℤ → Operation

pub data Answer : Type 0 where
  silent : Answer
  token : String → Answer
  role : Option SessionRole → Answer
  manager : Bool → Answer

abbrev pub role_of : Option Session → Option SessionRole
role_of none = none
role_of (some s) = some s.role

abbrev pub token_of : Option Session → String
token_of none = ""
token_of (some s) = s.token

abbrev pub at_time : ℤ → Browser → Browser
at_time now w = record w { now = now }

module _ (date_parse : String → Option ℤ) where
  abbrev pub is_over : ℤ → Session → Bool
  is_over now s =
      is_truthy s.token && (is_truthy s.expires_at && has_passed date_parse now s.expires_at)

  -- What is left of a session when it is used.
  abbrev pub current : ℤ → Option Session → Option Session
  current now none = none
  current now (some s) = if is_over now s then none else some s

  -- An operation on the store.
  unfoldable pub act : Operation → Store → Answer × Store
  act (sign_in s) σ = (silent, record σ { session = some s })
  act sign_out σ = (silent, record σ { session = none })
  act (fail detail) σ = (silent, record σ { session = none })
  act read_token σ =
      let left = current σ.now σ.session in (token (token_of left), record σ { session = left })
  act read_role σ = (role (role_of σ.session), σ)
  act ask_manager σ =
      let left = current σ.now σ.session in
      (
        manager (is_truthy (token_of left) && not (is_employee (role_of left))),
        record σ { session = left },
      )
  act (wait now) σ = (silent, record σ { now = now })

  -- The same operation on the browser, by the functions of the program.
  unfoldable pub perform_operation : Operation → Browser → Answer × Browser
  perform_operation (sign_in s) w = (silent, save_management_session s.token s.role s.expires_at w)
  perform_operation sign_out w = (silent, clear_management_session w)
  perform_operation (fail detail) w = (silent, redirect_for_authentication_failure detail w)
  perform_operation read_token w =
      let (found, after) = active_management_token date_parse w in (token found, after)
  perform_operation read_role w = (role (management_session_role w), w)
  perform_operation ask_manager w =
      let (found, after) = has_management_session date_parse w in (manager found, after)
  perform_operation (wait now) w = (silent, at_time now w)

  -- The answers of a run, the first one first, and what stands at its end.
  unfoldable pub run_store : List Operation → Store → List Answer × Store
  run_store [] σ = ([], σ)
  run_store (op ∷ ops) σ =
      let (answer, σ') = act op σ in
      let (answers, end) = run_store ops σ' in (answer ∷ answers, end)

  unfoldable pub run_browser : List Operation → Browser → List Answer × Browser
  run_browser [] w = ([], w)
  run_browser (op ∷ ops) w =
      let (answer, w') = perform_operation op w in
      let (answers, end) = run_browser ops w' in (answer ∷ answers, end)
