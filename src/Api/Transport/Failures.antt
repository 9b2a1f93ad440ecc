-- ===== src/Api/Transport/Failures.antt =====
-- How requests fail, and what a failure does to the stored session.
use grouproxy.Base.{
  test_of_ne, List, [], ◌∷◌, All, ℕ, String, ◌<>◌, true, false, not, ◌&&◌, ◌≡◌, refl, sym, ◌∙◌, ◌≢◌,
  ◌⊎◌, inl, inr, Option, none, some, arith, if◌then◌else◌, eq_iff, Bool-cases, Option-cases,
}
use grouproxy.Base.Int.{ℤ}
use grouproxy.Base.Dict.{lookup, lookup-insert}
use grouproxy.Api.Session.{
  Browser, is_truthy, management_token, stored_session_expired, active_management_token,
}
use grouproxy.Api.Session.Lifecycle.{
  IsSignedOut, HasNotice, redirect-IsSignedOut, redirect-HasNotice,
}
use grouproxy.Api.Transport.{
  is_authentication_failure, RequestInit, Response, api_error, read_error, ok, Fetch, target,
  api_fetch, read_json, public_outcome, ends_session, session_outcome, request_init, request,
}

-- Where an `ApiError` comes from: the network, or a response that is not a success.
pub record IsFailure (reply : Option Response) (status : ℕ) (detail : String) : Type 0 where
  pub source :
      ((reply ≡ none) × (status ≡ 0) × (detail ≡ "network_error"))
      ⊎ ((r : Response) × (reply ≡ some r)
          × (ok r ≡ false)
          × (status ≡ r.status)
          × (detail ≡ read_error r))

read_json-ne-api_error :
    (r : Response) (status : ℕ) (detail : String) → read_json r ≢ api_error status detail
unfolding read_json
read_json-ne-api_error r status detail e = ground arith

public_outcome-IsFailure :
    (reply : Option Response) (status : ℕ) (detail : String)
    → public_outcome read_json reply ≡ api_error status detail
    → IsFailure reply status detail
unfolding public_outcome
public_outcome-IsFailure none status detail e = record { source = inl (refl, cc, cc) }
public_outcome-IsFailure (some r) status detail e = elim (Bool-cases (ok r)) [
  | inl good ↦ absurd (read_json-ne-api_error r status detail (ground arith))
  | inr bad ↦ record { source = inr (r, refl, bad, ground arith, ground arith) }
]

active_management_token-live :
    (date_parse : String → Option ℤ) (w : Browser)
    → stored_session_expired date_parse w ≡ false
    → active_management_token date_parse w ≡ (management_token w, w)
unfolding active_management_token
active_management_token-live date_parse w live = ground arith

active_management_token-expired :
    (date_parse : String → Option ℤ) (w : Browser)
    → stored_session_expired date_parse w ≡ true
    → (active_management_token date_parse w).0 ≡ ""
unfolding active_management_token
active_management_token-expired date_parse w expired =
    ground (arith, eq_iff (management_token w) "")

lookup-request_init :
    (token : String) (init : RequestInit)
    → lookup "Authorization" (request_init token init).headers
      ≡ (if is_truthy token then some ("Bearer " <> token) else lookup "Authorization" init.headers)
unfolding request_init
lookup-request_init token init = elim (Bool-cases (is_truthy token)) [
  | inl present ↦ rw present (simp (lookup-insert))
  | inr absent ↦ rw absent (simp (lookup-insert))
]

-- The codes with which the server says that a session is no longer one.
abbrev pub session_ending_codes : List String
session_ending_codes =
    "management_auth_required" ∷ "management_session_expired" ∷ "management_session_revoked"
    ∷ "management_session_invalid" ∷ "management_account_inactive" ∷ []

-- The answer does not end the session of the token.
abbrev pub IsKept : String → Response → Type 0
IsKept token r =
    (token ≡ "") ⊎ (r.status ≢ 401) ⊎ All (λ code. read_error r ≢ code) session_ending_codes

abbrev pub SessionStays : String → Option Response → Type 0
SessionStays token none = Unit
SessionStays token (some r) = IsKept token r

other_code :
    (detail : String)
    → All (λ code. detail ≢ code) session_ending_codes
    → is_authentication_failure detail ≡ false
unfolding is_authentication_failure
other_code detail (a, (b, (c, (d, (e, _))))) = rw (
  test_of_ne detail "management_auth_required" a,
  test_of_ne detail "management_session_expired" b,
  test_of_ne detail "management_session_revoked" c,
  test_of_ne detail "management_session_invalid" d,
  test_of_ne detail "management_account_inactive" e,
)

IsKept-ends_session :
    (token : String) (r : Response) → IsKept token r → ends_session token r ≡ false
unfolding ends_session
IsKept-ends_session token r (inl e) = ground (arith, eq_iff token "")
IsKept-ends_session token r (inr (inl e)) = ground arith
IsKept-ends_session token r (inr (inr e)) = ground (arith, other_code (read_error r) e)

module _ (base : String) (fetch : Fetch) (date_parse : String → Option ℤ) (path : String)
    (init : RequestInit) where
  -- What the server answers to the request that a browser sends.
  abbrev pub reply : Browser → Option Response
  reply w = fetch (target base path) (request_init (active_management_token date_parse w).0 init)

  outcome-request :
      (w : Browser)
      → (request base fetch date_parse path init w).0 ≡ public_outcome read_json (reply w)
  unfolding request session_outcome api_fetch
  outcome-request w = ground arith

  -- Every `ApiError` of a request is the network's, with status 0, or comes from a response that is
  -- not a success, with its status and the text that `readError` finds.
  pub request-IsFailure :
      (w : Browser) (status : ℕ) (detail : String)
      → (request base fetch date_parse path init w).0 ≡ api_error status detail
      → IsFailure (reply w) status detail
  request-IsFailure w status detail e =
      public_outcome-IsFailure (reply w) status detail (sym (outcome-request w) ∙ e)

  -- While the session has not expired, a request leaves the browser as it was, unless the server
  -- answers a request with a token with the status 401 and one of the five codes that end a session:
  -- there is no token, or every answer has another status or another code.
  pub request-keeps_browser :
      (w : Browser)
      → stored_session_expired date_parse w ≡ false
      → SessionStays (management_token w) (reply w)
      → (request base fetch date_parse path init w).1 ≡ w
  unfolding request session_outcome api_fetch
  request-keeps_browser w live kept = elim (Option-cases (reply w)) [
    | inl lost ↦ ground (arith, active_management_token-live date_parse w live)
    | inr (r, answered) ↦
        let kept_here : IsKept (management_token w) r = rw answered at kept in
        ground (
          arith,
          active_management_token-live date_parse w live,
          IsKept-ends_session (management_token w) r kept_here,
        )
  ]

  -- Where there is a window and the stored session has not expired, a 401 with one of the codes that
  -- end a session makes the request fail with that code, leaves no session in local storage, and
  -- stores the code as the notice for the login page, where session storage can be used.
  pub request-IsSignedOut :
      (w : Browser) (r : Response)
      → w.has_window ≡ true
      → stored_session_expired date_parse w ≡ false
      → reply w ≡ some r
      → ends_session (management_token w) r ≡ true
      → ((request base fetch date_parse path init w).0 ≡ api_error 401 (read_error r))
        × IsSignedOut (request base fetch date_parse path init w).1
        × HasNotice (read_error r) (request base fetch date_parse path init w).1
  unfolding request session_outcome api_fetch public_outcome ends_session
  request-IsSignedOut w r window live answered ended = ground (
    arith,
    active_management_token-live date_parse w live,
    redirect-IsSignedOut (read_error r) w window,
    redirect-HasNotice (read_error r) w window,
  )

  -- A request carries the stored token, unless the session has expired or there is none: then it
  -- carries the authorization that its caller gave it.
  pub request_init-Authorization :
      (w : Browser)
      → lookup "Authorization" (request_init (active_management_token date_parse w).0 init).headers
        ≡ (if is_truthy (management_token w) && not (stored_session_expired date_parse w)
            then some ("Bearer " <> management_token w)
            else lookup "Authorization" init.headers)
  request_init-Authorization w = elim (Bool-cases (stored_session_expired date_parse w)) [
    | inl expired ↦
        ground
          (arith, active_management_token-expired date_parse w expired, lookup-request_init "" init)
    | inr live ↦ ground (
      arith,
      active_management_token-live date_parse w live,
      lookup-request_init (management_token w) init,
    )
  ]
