-- ===== src/Api/Session/Refinement.antt =====
-- The browser's local storage implements the session store.
use grouproxy.Base.{
  String, true, ◌≡◌, ◌∙◌, refl, sym, ap, Option, none, some, List, [], ◌∷◌, arith, ◌&&◌, Bool-cases,
  inl, inr,
}
use grouproxy.Base.Int.{ℤ}
use grouproxy.Base.Dict.{lookup, lookup-insert}
use grouproxy.Api.Session.{
  Browser, role_name, token_key, role_key, expires_at_key, has_passed, clear_management_session,
  set_session_item, redirect_for_authentication_failure, management_token, management_session_role,
  save_management_session, stored_session_expired, active_management_token, has_management_session,
  is_truthy, is_public_access_path,
}
use grouproxy.Api.Session.Lifecycle.{
  IsSignedOut, clear_management_session-IsSignedOut, redirect-IsSignedOut,
  local_storage-set_session_item, local_storage-save, has_window-save, now-save,
  parse_role-role_name,
}
use grouproxy.Api.Session.Store.{
  Session, Store, Operation, sign_in, sign_out, fail, read_token, read_role, ask_manager, wait,
  Answer, is_over, current, role_of, token_of, act, perform_operation, run_store, run_browser,
  at_time,
}

-- The three keys of local storage hold the parts of the session, or none of them is there; the
-- clocks agree, and there is a window.
abbrev Keeps : Browser → Option Session → Type 0
Keeps w none = IsSignedOut w
Keeps w (some s) =
    (lookup token_key w.local_storage ≡ some s.token)
    × (lookup role_key w.local_storage ≡ some (role_name s.role))
    × (lookup expires_at_key w.local_storage ≡ some s.expires_at)

abbrev pub Represents : Browser → Store → Type 0
Represents w σ = (w.has_window ≡ true) × (w.now ≡ σ.now) × Keeps w σ.session

Keeps-of_local_storage :
    (w w' : Browser) (o : Option Session)
    → w'.local_storage ≡ w.local_storage
    → Keeps w o
    → Keeps w' o
Keeps-of_local_storage w w' none e h = record {
  no_token = rw e h.no_token;
  no_role = rw e h.no_role;
  no_expiry = rw e h.no_expiry;
}
Keeps-of_local_storage w w' (some s) e h = (rw e h.0, rw e h.1, rw e h.2)

has_window-clear : (w : Browser) → (clear_management_session w).has_window ≡ w.has_window
unfolding clear_management_session
has_window-clear w = ground arith

now-clear : (w : Browser) → (clear_management_session w).now ≡ w.now
unfolding clear_management_session
now-clear w = ground arith

pub has_window-redirect :
    (detail : String) (w : Browser)
    → (redirect_for_authentication_failure detail w).has_window ≡ w.has_window
unfolding redirect_for_authentication_failure clear_management_session set_session_item
has_window-redirect detail w = ground arith

now-redirect :
    (detail : String) (w : Browser) → (redirect_for_authentication_failure detail w).now ≡ w.now
unfolding redirect_for_authentication_failure clear_management_session set_session_item
now-redirect detail w = ground arith

has_window-set_session_item :
    (key value : String) (w : Browser) → (set_session_item key value w).has_window ≡ w.has_window
unfolding set_session_item
has_window-set_session_item key value w = ground arith

now-set_session_item :
    (key value : String) (w : Browser) → (set_session_item key value w).now ≡ w.now
unfolding set_session_item
now-set_session_item key value w = ground arith

Represents-clear :
    (w : Browser) (now : ℤ)
    → w.has_window ≡ true
    → w.now ≡ now
    → Represents (clear_management_session w) (record { session = none; now = now })
Represents-clear w now h t =
    (has_window-clear w ∙ h, now-clear w ∙ t, clear_management_session-IsSignedOut w h)

Represents-redirect :
    (detail : String) (w : Browser) (now : ℤ)
    → w.has_window ≡ true
    → w.now ≡ now
    → Represents
        (redirect_for_authentication_failure detail w)
        (record { session = none; now = now })
Represents-redirect detail w now h t =
    (has_window-redirect detail w ∙ h, now-redirect detail w ∙ t, redirect-IsSignedOut detail w h)

Represents-save :
    (s : Session) (w : Browser) (now : ℤ)
    → w.has_window ≡ true
    → w.now ≡ now
    → Represents
        (save_management_session s.token s.role s.expires_at w)
        (record { session = some s; now = now })
Represents-save s w now h t =
    let e = local_storage-save s.token s.role s.expires_at w h in
    (
      has_window-save s.token s.role s.expires_at w ∙ h,
      now-save s.token s.role s.expires_at w ∙ t,
      (rw e (simp (lookup-insert)), rw e (simp (lookup-insert)), rw e (simp (lookup-insert))),
    )

Represents-set_session_item :
    (key value : String) (w : Browser) (σ : Store)
    → Represents w σ
    → Represents (set_session_item key value w) σ
Represents-set_session_item key value w σ h = (
  has_window-set_session_item key value w ∙ h.0,
  now-set_session_item key value w ∙ h.1,
  Keeps-of_local_storage w (set_session_item key value w) σ.session
      (local_storage-set_session_item key value w) h.2,
)

module _ (date_parse : String → Option ℤ) where
  token_of_kept :
      (w : Browser) (o : Option Session)
      → w.has_window ≡ true
      → Keeps w o
      → management_token w ≡ token_of o
  unfolding management_token
  token_of_kept w none window h = rw (window, h.no_token) refl
  token_of_kept w (some s) window h = rw (window, h.0) refl

  role_of_kept :
      (w : Browser) (o : Option Session)
      → w.has_window ≡ true
      → Keeps w o
      → management_session_role w ≡ role_of o
  unfolding management_session_role
  role_of_kept w none window h = rw (window, h.no_role) refl
  role_of_kept w (some s) window h = rw (window, h.1) (parse_role-role_name s.role)

  stored_session_expired_of_kept :
      (w : Browser) (s : Session)
      → w.has_window ≡ true
      → Keeps w (some s)
      → stored_session_expired date_parse w
        ≡ (is_truthy s.expires_at && has_passed date_parse w.now s.expires_at)
  unfolding stored_session_expired
  stored_session_expired_of_kept w s window h = rw (window, h.2) refl

  -- Reading the token uses the session: what is left of it is kept.
  active_management_token-current :
      (w : Browser) (o : Option Session)
      → w.has_window ≡ true
      → Keeps w o
      → let (found, after) = active_management_token date_parse w in
        let left = current date_parse w.now o in
        (found ≡ token_of left) × Represents after (record { session = left; now = w.now })
  unfolding active_management_token
  active_management_token-current w none window h =
      let e = token_of_kept w none window h in rw e (refl, (window, refl, h))
  active_management_token-current w (some s) window h =
      elim (Bool-cases (is_over date_parse w.now s)) [
        | inl over ↦
            rw
              (token_of_kept w (some s) window h, stored_session_expired_of_kept w s window h, over)
              (elim (Bool-cases (is_public_access_path w)) [
                | inl public ↦ rw public (
                  refl,
                  Represents-set_session_item _ _ _ (record { session = none; now = w.now })
                      (Represents-clear w w.now window refl),
                )
                | inr inside ↦ rw inside (refl, Represents-redirect _ w w.now window refl)
              ])
        | inr live ↦
            rw
              (token_of_kept w (some s) window h, stored_session_expired_of_kept w s window h, live)
              (refl, (window, refl, h))
      ]

  management_session_role_of :
      (w : Browser) (σ : Store) → Represents w σ → management_session_role w ≡ role_of σ.session
  management_session_role_of w σ h = role_of_kept w σ.session h.0 h.2

  active_management_token_of :
      (w : Browser) (σ : Store)
      → Represents w σ
      → let (found, after) = active_management_token date_parse w in
        let left = current date_parse σ.now σ.session in
        (found ≡ token_of left) × Represents after (record { session = left; now = σ.now })
  active_management_token_of w σ h =
      rw (sym h.1) (active_management_token-current w σ.session h.0 h.2)

  perform_operation-act :
      (op : Operation) (w : Browser) (σ : Store)
      → Represents w σ
      → ((perform_operation date_parse op w).0 ≡ (act date_parse op σ).0)
        × Represents (perform_operation date_parse op w).1 (act date_parse op σ).1
  unfolding perform_operation act has_management_session
  perform_operation-act (sign_in s) w σ h = (refl, Represents-save s w σ.now h.0 h.1)
  perform_operation-act sign_out w σ h = (refl, Represents-clear w σ.now h.0 h.1)
  perform_operation-act (fail detail) w σ h = (refl, Represents-redirect detail w σ.now h.0 h.1)
  perform_operation-act read_token w σ h =
      let read = active_management_token_of w σ h in (ap (λ t. Answer.token t) read.0, read.1)
  perform_operation-act read_role w σ h =
      (ap (λ r. Answer.role r) (management_session_role_of w σ h), h)
  perform_operation-act ask_manager w σ h =
      let read = active_management_token_of w σ h in
      (
        rw
            (
              read.0,
              management_session_role_of _
                  (record σ { session = current date_parse σ.now σ.session }) read.1,
            )
            refl,
        read.1,
      )
  perform_operation-act (wait now) w σ h =
      (refl, (h.0, refl, Keeps-of_local_storage w (at_time now w) σ.session refl h.2))

  -- The session functions of the program do what a store with one session or none does. From a
  -- browser whose local storage represents the store, every run of operations gives the same answers,
  -- and the browser after it represents the store after it.
  pub run_browser-run_store :
      (ops : List Operation) (w : Browser) (σ : Store)
      → Represents w σ
      → ((run_browser date_parse ops w).0 ≡ (run_store date_parse ops σ).0)
        × Represents (run_browser date_parse ops w).1 (run_store date_parse ops σ).1
  unfolding run_browser run_store
  run_browser-run_store [] w σ h = (refl, h)
  run_browser-run_store (op ∷ ops) w σ h =
      let step = perform_operation-act op w σ h in
      let rest =
        run_browser-run_store ops (perform_operation date_parse op w).1 (act date_parse op σ).1
          step.1 in
      (rw (step.0, rest.0) refl, rest.1)
