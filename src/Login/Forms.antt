-- ===== src/Login/Forms.antt =====
-- What the two forms of the sign-in page keep while they are used, and that each handler keeps it.
use grouproxy.Base.{
  ℕ, String, Bool, false, ◌≡◌, ◌≢◌, refl, ap, Option, none, some, List, [], ◌∷◌, map, arith,
  Bool-cases, inl, inr,
}
use grouproxy.Api.Session.{Browser}
use grouproxy.Login.{
  LoginMode, password, gquan, AccountAction, AuthBusy, send, submit, code_input, is_busy,
  send_disabled,
}
use grouproxy.Login.Page.{
  LoginForm, AccountForm, empty_account, select_login_mode, update_login_itcode,
  open_account_action, close_account_action, reset_account_form,
}
use grouproxy.Login.Submission.{login_disabled, account_disabled}
use grouproxy.Login.Machine.{
  LoginRequest, login_code_request, session_request, AccountRequest, account_code_request,
  account_request, Page, opened, Removed, here, there,
}
use grouproxy.Login.Codes.{IsCode, code_input-IsCode, empty-IsCode}

abbrev pub login_kind : LoginRequest → AuthBusy
login_kind (login_code_request _) = send
login_kind (session_request _) = submit

abbrev pub account_kind : AccountRequest → AuthBusy
account_kind (account_code_request _) = send
account_kind (account_request _ _ _) = submit

-- The kinds of the calls that a form waits for.
abbrev pub waited : Option AuthBusy → List AuthBusy
waited none = []
waited (some b) = b ∷ []

pub record LoginHolds (f : LoginForm) (requests : List LoginRequest) : Type 0 where
  pub waits : map login_kind requests ≡ waited f.busy
  pub is_code : IsCode f.code
  pub hidden : f.mode ≡ gquan → f.password ≡ ""

pub record AccountHolds (f : AccountForm) (requests : List AccountRequest) : Type 0 where
  pub waits : map account_kind requests ≡ waited f.busy
  pub is_code : IsCode f.code
  pub closed : f.action ≡ none → f ≡ empty_account

-- A form is busy exactly while one call of its own is on its way, and that call is of the kind it is
-- busy with. Both codes are at most six digits. No password is kept in the mode that does not show
-- it. A closed dialog holds nothing.
abbrev pub IsConsistent : Page → Type 0
IsConsistent p = LoginHolds p.login p.login_requests × AccountHolds p.account p.account_requests

some_waits :
    {A : Type 0} (kind : A → AuthBusy) {x : A} {xs ys : List A} → Removed x xs ys → map kind xs ≢ []
some_waits kind (here x xs) h = cc h
some_waits kind (there x y xs ys r) h = cc h

-- The only request is the one that goes.
pub none_waits :
    {A : Type 0} (kind : A → AuthBusy) (busy : Option AuthBusy) {x : A} {xs ys : List A}
    → Removed x xs ys
    → map kind xs ≡ waited busy
    → map kind ys ≡ []
none_waits kind none r h = absurd (some_waits kind r h)
none_waits kind (some b) (here x xs) h = cc h
none_waits kind (some b) (there x y xs ys r) h =
    let e : map kind xs ≡ [] = cc h in absurd (some_waits kind r e)

idle_of_free : (busy : Option AuthBusy) → is_busy busy ≡ false → busy ≡ none
idle_of_free none h = refl
idle_of_free (some b) h = absurd (cc h)

pub idle_of_enabled :
    (can_send : Bool) (busy : Option AuthBusy) (wait : ℕ)
    → send_disabled can_send busy wait ≡ false
    → busy ≡ none
unfolding send_disabled
idle_of_enabled can_send busy wait h = idle_of_free busy (ground arith)

pub idle_of_login_enabled : (f : LoginForm) → login_disabled f ≡ false → f.busy ≡ none
unfolding login_disabled
idle_of_login_enabled f h = idle_of_free f.busy (ground arith)

pub idle_of_account_enabled : (f : AccountForm) → account_disabled f ≡ false → f.busy ≡ none
unfolding account_disabled
idle_of_account_enabled f h = idle_of_free f.busy (ground arith)

pub opened-IsConsistent : (w : Browser) → IsConsistent (opened w)
opened-IsConsistent w = (
  record { waits = refl; is_code = empty-IsCode; hidden = λ e. refl },
  record { waits = refl; is_code = empty-IsCode; closed = λ e. refl },
)

module _ (f : LoginForm) (requests : List LoginRequest) (h : LoginHolds f requests) where
  pub select_login_mode-LoginHolds :
      (mode : LoginMode) → LoginHolds (select_login_mode mode f) requests
  unfolding select_login_mode
  select_login_mode-LoginHolds mode = record {
    waits = h.waits;
    is_code = empty-IsCode;
    hidden = λ e. refl;
  }

  pub update_login_itcode-LoginHolds :
      (value : String) → LoginHolds (update_login_itcode value f) requests
  unfolding update_login_itcode
  update_login_itcode-LoginHolds value = record {
    waits = h.waits;
    is_code = empty-IsCode;
    hidden = h.hidden;
  }

  pub login_password-LoginHolds :
      (value : String) → f.mode ≡ password → LoginHolds (record f { password = value }) requests
  login_password-LoginHolds value e = record {
    waits = h.waits;
    is_code = h.is_code;
    hidden = λ g. cc (e, g);
  }

  pub login_code-LoginHolds :
      (value : String) → LoginHolds (record f { code = code_input value }) requests
  login_code-LoginHolds value = record {
    waits = h.waits;
    is_code = code_input-IsCode value;
    hidden = h.hidden;
  }

  -- A form that is idle and starts to wait for a call of its own.
  pub begun-LoginHolds :
      (r : LoginRequest)
      → f.busy ≡ none
      → LoginHolds (record f { busy = some (login_kind r) }) (r ∷ requests)
  begun-LoginHolds r e = record {
    waits = rw (h.waits, e) refl;
    is_code = h.is_code;
    hidden = h.hidden;
  }

  pub idle-LoginHolds : f.busy ≡ none → LoginHolds (record f { busy = none }) requests
  idle-LoginHolds e = record {
    waits = rw (h.waits, e) refl;
    is_code = h.is_code;
    hidden = h.hidden;
  }

  -- The form after its call has settled.
  pub settled-LoginHolds :
      {r : LoginRequest} {rest : List LoginRequest}
      → Removed r requests rest
      → LoginHolds (record f { busy = none }) rest
  settled-LoginHolds r = record {
    waits = none_waits login_kind f.busy r h.waits;
    is_code = h.is_code;
    hidden = h.hidden;
  }

module _ (f : AccountForm) (requests : List AccountRequest) (h : AccountHolds f requests) where
  pub open_account_action-AccountHolds :
      (action : AccountAction) (login : LoginForm)
      → AccountHolds (open_account_action action login f) requests
  unfolding open_account_action
  open_account_action-AccountHolds action login = record {
    waits = h.waits;
    is_code = empty-IsCode;
    closed = λ e. absurd (cc e);
  }

  pub close_account_action-AccountHolds : AccountHolds (close_account_action f) requests
  unfolding close_account_action reset_account_form
  close_account_action-AccountHolds = elim (Bool-cases (is_busy f.busy)) [
    | inl busy ↦ rw busy h
    | inr free ↦
        let idle = idle_of_free f.busy free in
        rw free (record {
          waits = h.waits;
          is_code = empty-IsCode;
          closed = λ e. ap (λ b. record empty_account { busy = b }) idle;
        })
  ]

  pub edited-AccountHolds :
      (g : AccountForm)
      → g.busy ≡ f.busy
      → g.action ≢ none
      → IsCode g.code
      → AccountHolds g requests
  edited-AccountHolds g same is_open is_code = record {
    waits = rw same h.waits;
    is_code = is_code;
    closed = λ e. absurd (is_open e);
  }

  pub begun-AccountHolds :
      (r : AccountRequest)
      → f.busy ≡ none
      → f.action ≢ none
      → AccountHolds (record f { busy = some (account_kind r) }) (r ∷ requests)
  begun-AccountHolds r e is_open = record {
    waits = rw (h.waits, e) refl;
    is_code = h.is_code;
    closed = λ g. absurd (is_open g);
  }

  pub idle-AccountHolds : f.busy ≡ none → AccountHolds (record f { busy = none }) requests
  idle-AccountHolds e = record {
    waits = rw (h.waits, e) refl;
    is_code = h.is_code;
    closed = λ g. ap {A = AccountForm} (λ k. record k { busy = none }) (h.closed g);
  }

  -- The dialog after its call has settled, with or without a new challenge, or closed.
  pub settled-AccountHolds :
      {r : AccountRequest} {rest : List AccountRequest}
      → Removed r requests rest
      → (g : AccountForm) → g.busy ≡ none
      → IsCode g.code
      → (g.action ≡ none → g ≡ empty_account)
      → AccountHolds g rest
  settled-AccountHolds r g idle is_code closed = record {
    waits = rw idle (none_waits account_kind f.busy r h.waits);
    is_code = is_code;
    closed = closed;
  }

  pub open_of_busy :
      {r : AccountRequest} {rest : List AccountRequest} → Removed r requests rest → f.action ≢ none
  open_of_busy r e = some_waits account_kind r (rw (h.waits, h.closed e) refl)
