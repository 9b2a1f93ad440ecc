-- ===== src/Shell.antt =====
-- frontend/components/app-shell.tsx: the navigation, the page label, the sidebar and signing out.
-- frontend/components/session-gate.tsx: what a page shows before and after the session is read.
pub mod SignOut
pub mod Navigation
use grouproxy.Base.{
  String, Bool, true, false, not, ◌||◌, Option, none, some, List, [], ◌∷◌, ◌++◌, any, str_eq,
  starts_with, if◌then◌else◌,
}
use grouproxy.Base.Int.{ℤ}
use grouproxy.Base.Dict.{insert, lookup}
use grouproxy.Api.Session.{
  Browser, SessionRole, root, admin, employee, clear_management_session, has_management_session,
}
use grouproxy.Api.Transport.{Fetch}
use grouproxy.Api.Calls.{perform}
use grouproxy.Api.Calls.Account.{logout_management_session}

pub record NavigationItem : Type 0 where
  pub href : String
  pub label : String
  pub matches : Option (List String)

pub record NavigationGroup : Type 0 where
  pub label : String
  pub items : List NavigationItem

abbrev plain : String → String → NavigationItem
plain href label = record { href = href; label = label; matches = none }

abbrev pub navigation : List NavigationGroup
navigation =
    record {
      label = "OPERATE";
      items =
          plain "/" "Access"
          ∷ plain "/overview" "Overview"
          ∷ plain "/nodes" "Nodes"
          ∷ plain "/proxies" "Outbound services"
          ∷ [];
    }
    ∷ record {
      label = "POLICY";
      items =
          record {
            href = "/access-control/groups";
            label = "Access groups";
            matches = some ("/access-control/groups" ∷ "/blacklist" ∷ []);
          }
          ∷ plain "/access-control/rules" "Access rules"
          ∷ plain "/routing" "Routing rules"
          ∷ [];
    }
    ∷ record {
      label = "DEPLOY";
      items =
          plain "/subscriptions" "Subscriptions"
          ∷ plain "/releases" "Releases"
          ∷ plain "/tasks" "Tasks"
          ∷ [];
    }
    ∷ record {
      label = "OBSERVE";
      items =
          plain "/logs" "Logs"
          ∷ plain "/connections" "Connections"
          ∷ plain "/service-quality" "Service quality"
          ∷ plain "/probes" "Probes"
          ∷ plain "/alerts" "Alerts"
          ∷ [];
    }
    ∷ record {
      label = "GOVERN";
      items =
          plain "/employees" "Roles"
          ∷ plain "/audit" "Audit"
          ∷ plain "/backups" "Backups"
          ∷ plain "/settings" "Settings"
          ∷ [];
    }
    ∷ []

abbrev pub employee_navigation : List NavigationGroup
employee_navigation = record { label = "GOVERN"; items = plain "/" "Access" ∷ [] } ∷ []

abbrev prefixes : NavigationItem → List String
prefixes item = elim item.matches [ none ↦ item.href ∷ [] | some paths ↦ paths ]

unfoldable pub is_current : String → NavigationItem → Bool
is_current pathname item =
    if str_eq item.href "/"
    then str_eq pathname "/"
    else any (λ path. starts_with pathname path) (prefixes item)

unfoldable pub find_item : String → List NavigationItem → Option NavigationItem
unfolding is_current
find_item pathname [] = none
find_item pathname (item ∷ items) =
    if is_current pathname item then some item else find_item pathname items

unfoldable pub find_label : String → List NavigationGroup → String
unfolding find_item
find_label pathname [] = "Control plane"
find_label pathname (group ∷ groups) = elim (find_item pathname group.items) [
  | none ↦ find_label pathname groups
  | some item ↦ item.label
]

unfoldable pub page_label : String → String
unfolding find_label
page_label pathname = if str_eq pathname "/access" then "Access" else find_label pathname navigation

abbrev pub active_navigation : Option SessionRole → List NavigationGroup
active_navigation (some employee) = employee_navigation
active_navigation _ = navigation

abbrev pub sidebar_key : String
sidebar_key = "grouproxy.sidebar.collapsed"

-- `toggleSidebar`: the new state, and the browser that remembers it.
unfoldable pub toggle_sidebar : Bool → Browser → Bool × Browser
toggle_sidebar collapsed w = (
  not collapsed,
  record w {
    local_storage = insert sidebar_key (if collapsed then "false" else "true") w.local_storage;
  },
)

-- The state that the sidebar starts with.
unfoldable pub stored_collapsed : Browser → Bool
stored_collapsed w = elim (lookup sidebar_key w.local_storage) [
  | none ↦ false
  | some value ↦ str_eq value "true"
]

-- What the shell keeps of signing out; `redirects` lists the targets of `router.replace`.
pub record ShellState : Type 0 where
  pub sign_out_confirm_open : Bool
  pub signing_out : Bool
  pub redirects : List String

-- What a page shows for its session: nothing is known before the first effect runs.
pub data Gate : Type 0 where
  loading sign_in content : Gate

unfoldable pub gate : Option Bool → Gate
gate none = loading
gate (some session) = if session then content else sign_in

module _ (base : String) (fetch : Fetch) (date_parse : String → Option ℤ) where
  -- `signOut`: the server is told, and whatever it answers the session ends here.
  unfoldable pub sign_out : ShellState → Browser → ShellState × Browser
  sign_out s w = if s.signing_out then (s, w) else (
    record s {
      sign_out_confirm_open = false;
      signing_out = true;
      redirects = s.redirects ++ ("/login" ∷ []);
    },
    clear_management_session (perform base fetch date_parse logout_management_session w).1,
  )

  -- `useManagementSession` after its effect.
  unfoldable pub management_gate : Browser → Gate × Browser
  unfolding gate
  management_gate w =
      let (session, w') = has_management_session date_parse w in (gate (some session), w')
