-- ===== src/Api/Session/Lifecycle.antt =====
-- The life of a stored session: saving, reading, expiry, clearing and the notice of the login page.
use grouproxy.Base.{
  String, ◌<>◌, true, false, not, ◌≡◌, refl, ◌≢◌, Option, none, some, [], ◌∷◌, ◌++◌, arith,
  if◌then◌else◌, str_eq, eq_iff, eq_refl,
}
use grouproxy.Base.Int.{ℤ}
use grouproxy.Base.Dict.{lookup, insert, erase, lookup-insert, lookup-erase}
use grouproxy.Api.Url.{encode_uri_component}
use grouproxy.Api.Session.{
  Browser, SessionRole, root, admin, employee, role_name, token_key, role_key, expires_at_key,
  auth_notice_key, login_path, set_session_item, session_item, clear_management_session,
  redirect_for_authentication_failure, management_token, management_session_role,
  save_management_session, consume_authentication_notice, is_employee, has_passed, parse_role,
  stored_session_expired, active_management_token, has_management_session,
}

-- No part of a session is left in local storage.
pub record IsSignedOut (w : Browser) : Type 0 where
  pub no_token : lookup token_key w.local_storage ≡ none
  pub no_role : lookup role_key w.local_storage ≡ none
  pub no_expiry : lookup expires_at_key w.local_storage ≡ none

pub clear_management_session-IsSignedOut :
    (w : Browser) → w.has_window ≡ true → IsSignedOut (clear_management_session w)
unfolding clear_management_session
clear_management_session-IsSignedOut w h = record {
  no_token = rw h (simp (lookup-erase));
  no_role = rw h (simp (lookup-erase));
  no_expiry = rw h (simp (lookup-erase));
}

-- Clearing the session leaves every other key of local storage as it was.
pub clear_management_session-lookup :
    (w : Browser) (key : String)
    → key ≢ token_key
    → key ≢ role_key
    → key ≢ expires_at_key
    → lookup key (clear_management_session w).local_storage ≡ lookup key w.local_storage
unfolding clear_management_session
clear_management_session-lookup w key p q r = ground (
  arith,
  lookup-erase expires_at_key key (erase role_key (erase token_key w.local_storage)),
  lookup-erase role_key key (erase token_key w.local_storage),
  lookup-erase token_key key w.local_storage,
  eq_iff expires_at_key key,
  eq_iff role_key key,
  eq_iff token_key key,
)

-- What a text reads back as once it is put into session storage: nothing where that cannot be used.
abbrev pub as_stored : Browser → String → String
as_stored w detail = elim w.session_storage [ none ↦ "" | some _ ↦ detail ]

-- The notice that the login page reads is the given text, where session storage can be used.
abbrev pub HasNotice : String → Browser → Type 0
HasNotice detail w = session_item auth_notice_key w ≡ as_stored w detail

pub set_session_item-HasNotice :
    (detail : String) (w : Browser) → HasNotice detail (set_session_item auth_notice_key detail w)
unfolding set_session_item session_item
set_session_item-HasNotice detail w = grind (arith, lookup-insert, eq_refl)

IsSignedOut-of_local_storage :
    {w w' : Browser} → w'.local_storage ≡ w.local_storage → IsSignedOut w → IsSignedOut w'
IsSignedOut-of_local_storage e h = record {
  no_token = rw e h.no_token;
  no_role = rw e h.no_role;
  no_expiry = rw e h.no_expiry;
}

pub local_storage-set_session_item :
    (key value : String) (w : Browser)
    → (set_session_item key value w).local_storage ≡ w.local_storage
unfolding set_session_item
local_storage-set_session_item key value w = ground arith

cleared_in_place-IsSignedOut :
    (detail : String) (w : Browser)
    → w.has_window ≡ true
    → IsSignedOut (set_session_item auth_notice_key detail (clear_management_session w))
cleared_in_place-IsSignedOut detail w h =
    IsSignedOut-of_local_storage
      (local_storage-set_session_item auth_notice_key detail (clear_management_session w))
      (clear_management_session-IsSignedOut w h)

pub local_storage-redirect :
    (detail : String) (w : Browser)
    → (redirect_for_authentication_failure detail w).local_storage
      ≡ (clear_management_session w).local_storage
unfolding redirect_for_authentication_failure
local_storage-redirect detail w = ground arith

-- Where a window is, the redirection signs the browser out.
pub redirect-IsSignedOut :
    (detail : String) (w : Browser)
    → w.has_window ≡ true
    → IsSignedOut (redirect_for_authentication_failure detail w)
redirect-IsSignedOut detail w h =
    IsSignedOut-of_local_storage (local_storage-redirect detail w)
      (clear_management_session-IsSignedOut w h)

pub redirect-HasNotice :
    (detail : String) (w : Browser)
    → w.has_window ≡ true
    → HasNotice detail (redirect_for_authentication_failure detail w)
unfolding redirect_for_authentication_failure session_item
redirect-HasNotice detail w h = grind (arith, lookup-insert, eq_refl)

-- The redirection goes to the login page, once, unless the login page is shown already.
pub redirect-replaced :
    (detail : String) (w : Browser)
    → w.has_window ≡ true
    → (redirect_for_authentication_failure detail w).replaced ≡ (
        if str_eq w.pathname login_path
        then w.replaced
        else w.replaced ++ (("/login?reason=" <> encode_uri_component detail) ∷ []))
unfolding redirect_for_authentication_failure
redirect-replaced detail w h = ground arith

pub parse_role-role_name : (role : SessionRole) → parse_role (some (role_name role)) ≡ some role
parse_role-role_name root = refl
parse_role-role_name admin = refl
parse_role-role_name employee = refl

module _ (token : String) (role : SessionRole) (expires_at : String) (w : Browser) where
  pub has_window-save : (save_management_session token role expires_at w).has_window ≡ w.has_window
  unfolding save_management_session
  has_window-save = ground arith

  pub now-save : (save_management_session token role expires_at w).now ≡ w.now
  unfolding save_management_session
  now-save = ground arith

  module _ (h : w.has_window ≡ true) where
    pub local_storage-save :
        (save_management_session token role expires_at w).local_storage
        ≡ insert expires_at_key expires_at
            (insert role_key (role_name role) (insert token_key token w.local_storage))
    unfolding save_management_session
    local_storage-save = ground arith

    management_token-save :
        management_token (save_management_session token role expires_at w) ≡ token
    unfolding management_token
    management_token-save = rw (local_storage-save, has_window-save, h) (simp (lookup-insert))

    session_item-save :
        session_item auth_notice_key (save_management_session token role expires_at w) ≡ ""
    unfolding save_management_session session_item
    session_item-save = grind (arith, lookup-erase, eq_refl)

    stored_session_expired-save :
        (date_parse : String → Option ℤ)
        → has_passed date_parse w.now expires_at ≡ false
        → stored_session_expired date_parse (save_management_session token role expires_at w)
          ≡ false
    unfolding stored_session_expired
    stored_session_expired-save date_parse live =
        rw (local_storage-save, now-save, has_window-save, h) (simp (lookup-insert) (ground arith))

    management_session_role-save :
        management_session_role (save_management_session token role expires_at w) ≡ some role
    unfolding management_session_role
    management_session_role-save =
        rw (local_storage-save, has_window-save, h)
          (simp (lookup-insert) (parse_role-role_name role))

module _ (date_parse : String → Option ℤ) where
  has_window_of_expired :
      (w : Browser) → stored_session_expired date_parse w ≡ true → w.has_window ≡ true
  unfolding stored_session_expired
  has_window_of_expired w e = ground arith

  -- A token that is handed out is the stored one, its session has not expired, and reading it
  -- changed nothing.
  pub active_management_token-genuine :
      (w : Browser)
      → (active_management_token date_parse w).0 ≢ ""
      → ((active_management_token date_parse w).0 ≡ management_token w)
        × (stored_session_expired date_parse w ≡ false)
        × ((active_management_token date_parse w).1 ≡ w)
  unfolding active_management_token
  active_management_token-genuine w h = ground (arith, eq_iff (management_token w) "")

  -- An expired session is not used again: reading its token yields the empty text, nothing of it is
  -- left in local storage, and the notice for the login page says that it expired, where session
  -- storage can be used. A token is stored.
  pub active_management_token-IsSignedOut :
      (w : Browser)
      → management_token w ≢ ""
      → stored_session_expired date_parse w ≡ true
      → ((active_management_token date_parse w).0 ≡ "")
        × IsSignedOut (active_management_token date_parse w).1
        × HasNotice "management_session_expired" (active_management_token date_parse w).1
  unfolding active_management_token
  active_management_token-IsSignedOut w h e =
      let window = has_window_of_expired w e in
      ground (
        arith,
        eq_iff (management_token w) "",
        redirect-IsSignedOut "management_session_expired" w window,
        redirect-HasNotice "management_session_expired" w window,
        cleared_in_place-IsSignedOut "management_session_expired" w window,
        set_session_item-HasNotice "management_session_expired" (clear_management_session w),
      )

  -- A session that was just saved is the one that is read back: its token and role, and whether it
  -- may manage, and the notice of an earlier failure is gone. There is a window, the token is not
  -- empty, and the expiry has not passed.
  pub active_management_token-save_management_session :
      (token : String) (role : SessionRole) (expires_at : String) (w : Browser)
      → w.has_window ≡ true
      → token ≢ ""
      → has_passed date_parse w.now expires_at ≡ false
      → let saved = save_management_session token role expires_at w in
        (active_management_token date_parse saved ≡ (token, saved))
        × (management_session_role saved ≡ some role)
        × ((has_management_session date_parse saved).0 ≡ not (is_employee (some role)))
        × (session_item auth_notice_key saved ≡ "")
  unfolding active_management_token has_management_session
  active_management_token-save_management_session token role expires_at w h t live = ground (
    arith,
    eq_iff token "",
    management_token-save token role expires_at w h,
    management_session_role-save token role expires_at w h,
    session_item-save token role expires_at w h,
    stored_session_expired-save token role expires_at w h date_parse live,
  )

-- The notice is shown once: reading it a second time finds nothing.
pub consume_authentication_notice-once :
    (w : Browser) → (consume_authentication_notice (consume_authentication_notice w).1).0 ≡ ""
unfolding consume_authentication_notice session_item
consume_authentication_notice-once w = grind (arith, lookup-erase, eq_refl)
