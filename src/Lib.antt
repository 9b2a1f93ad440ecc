-- ===== src/Lib.antt =====
-- grouproxy: the management console of a control plane for group proxies, as far as its logic goes.
--
-- The console (frontend/) is a web application that keeps a session in the browser's storage and
-- talks to the control plane's HTTP API. Its parts and the files that model them:
--
-- Api/Session: the stored session of frontend/lib/api.ts (`saveManagementSession`,
-- `activeManagementToken`, `clearManagementSession`, `redirectForAuthenticationFailure`, ...). A
-- `Browser` holds local storage, session storage (`none` where it throws), the path, the targets
-- of `location.replace` and the clock; each function takes it and returns the one after it.
-- Lifecycle has the theorems; Store says what the functions promise, as a store of one session or
-- none, and Refinement that they do.
-- Api/Settled: how a handler of a page sees a call end, as a value or by the message of the error.
-- Api/Transport: `request`, `requestPublic`, `requestPublicText`, `requestText`, `requestForm` and
--   the texts of errors. The server is the argument `fetch`, from an address and a `RequestInit` to a
--   response, or `none` where `fetch` rejects; `Date.parse` is the argument `date_parse`. An
--   `Outcome` is a value, an `ApiError`, or the exception of `response.json()`. Failures and Targets
--   have the theorems.
-- Api/Calls: the exported calls, `getSites` as `get_sites` and so on, each a `Call` that `perform`
--   sends; Api/Query builds their query strings. Queries, Effects and Laws have the theorems.
-- Api/Url and Api/Json: `encodeURIComponent`, `URLSearchParams` and JSON values, which are the
--   language's and not the program's.
-- Shell: frontend/components/app-shell.tsx (navigation, sidebar, `signOut`) and session-gate.tsx.
-- Toast: frontend/components/toast.tsx; what can happen to the messages is the relation `Step`.
-- Release: frontend/lib/release-categories.ts and release-events.ts; each regular expression is a
--   parser by clauses.
-- Locale: the translator and the provider of frontend/lib/preferences.tsx; the message tables are
--   the argument `messages`.
-- Api/Entities: the types of what the control plane sends (frontend/lib/api.ts, from line 1), as records.
-- Topology: the layout of frontend/components/control-plane-topology.tsx, in whole points.
-- Quality: frontend/app/service-quality/page.tsx. The numbers with a fraction are the argument `N` with
--   its order, and `localeCompare` is the argument `collate`; `Array.prototype.sort` is the stable
--   insertion. Sorting and Ranking have the theorems; Ranking says column by column which row may
--   stand above which.
-- Proxies: frontend/app/proxies/page.tsx; `run_effects` is both effects after a render.
-- Login: frontend/app/login/page.tsx. Page and Submission have the two forms and the handlers, each
--   cut in two at its `await`; Machine has the page with the calls that are on their way, and `Step`
--   is one event, an answer of the server included; its calls clear an expired or ended session as
--   `request` does. Notices is the message at the opening, with `URLSearchParams` as the argument
--   `reason_in`. Codes,
--   Forms, Transitions and Invariant prove the invariant, Settling and SignIn what an answer does.
-- Subscriptions: frontend/app/subscriptions/page.tsx (addresses, form, filter). Refresh is the loop of
--   `waitForRefreshTask` over the answers that come; Publish is the choice of a version and of sites
--   with its three effects; Ticking is the page step by step, where each selected site has the version
--   it was ticked for. Addresses, Effects and Targets have the theorems.
-- Overview: frontend/app/overview/page.tsx. Traffic is `buildSiteTrafficSeries`, with a `Map` as a list
--   of pairs; Buckets, Latest and Selected have the theorems; Latest says of the snapshots and
--   their times what is kept.
-- Policy: frontend/app/access-control/ (rules, list-controls.tsx); Groups is the form of a group.
--   Paging, Rules and Keys have the theorems.
-- Connections: frontend/app/connections/page.tsx and `timeRangeStart` of list-filters.tsx; History and
--   Rows have the theorems.
-- Routing: frontend/app/routing/. Importer is routing-import.tsx, and Editor `RoutingEditor` of page.tsx;
--   Sameness compares what the code compares as texts of `JSON.stringify`. Machine has both step by
--   step, for a page that stays with one site (`sole`) or changes it. Answers, Published and Switching
--   have the theorems.
-- Releases: frontend/app/releases/page.tsx (pipeline, headings). Page is which draft or release is
--   shown and the publication of a draft. Pipeline and Selection have the theorems.
-- Settings: frontend/app/settings/page.tsx, with `URL` as the argument `protocol_of`; Api/Url/Decimal
--   reads and writes decimal numbers. Submission has the theorems.
-- Probes: frontend/app/probes/page.tsx; `Step` is one event, a render with its effects or an answer of
--   the server included. Running and Stuck have the theorems.
-- Sites: frontend/app/sites/page.tsx; `counts_after` is the map of counts after some renders, and
--   Counts has the theorem. Nodes: frontend/app/nodes/page.tsx; Rows and Notices have its lemmas.
-- Alerts: frontend/app/alerts/page.tsx; its pattern is a parser by clauses. Details and Reasons have the
--   theorems. Names: the maps from identifiers to names that the pages build.
-- Access: frontend/app/access/page.tsx. Tokens has the two patterns of the highlighting as parsers, in
--   the order of their groups; Matches and Highlight prove that it keeps the text, and Quoting what a
--   shell reads.
-- Controls: frontend/components/ui.tsx (buttons, badges, the refresh button); Refreshing has the
--   theorems. Clipboard: frontend/lib/clipboard.ts, with the answers of the browser as a record.
-- Format: frontend/lib/utils.ts; the loop of `formatBytes` runs over the four units that are left, and
--   the amount is kept as the value over its scale.
-- Base: shared names, Boolean tests, lists, dictionaries and integers. Examples: the theorems at
--   concrete inputs.
--
-- Every function is total by structural recursion. A loop that waits for the server runs over the list
-- of its answers, and says that it still waits where they end. Only `show_from` of Api/Url, which
-- writes a number, has fuel: it begins with one more than the number, which is enough, since each
-- digit divides it by ten. A text is a sequence of code
-- points, a dictionary a list of pairs with the first entry of a key in force, and times are whole
-- milliseconds. Where the code runs over the prototype of an object, as a look-up of `constructor`
-- in a table of labels does, the model has no entry.
--
-- The hooks of React are taken as they are documented: a setter of state takes effect before the next
-- event, and an effect runs after the render that its values come from. The cache of queries belongs
-- to a library: what a query has loaded is an argument, or an event of its page. A query that is given
-- another key keeps its last data until that of the key arrives, which is `placeholderData` of
-- frontend/app/providers.tsx; this is part of the models of Probes and Routing. A mutation is as the
-- library documents it: `mutate` makes it pending, and a mutation that begins anew has no answer.
--
-- Not modelled: markup and styles, most timers and animation, the message tables, the lists of logs,
-- tasks, audit entries, backups and employees (frontend/app/), the formatters of `Intl`, and the
-- programs in other languages (backend/, monitor/, scripts/).
pub mod Base
pub mod Api
pub mod Shell
pub mod Toast
pub mod Locale
pub mod Release
pub mod Names
pub mod Nodes
pub mod Releases
pub mod Access
pub mod Controls
pub mod Clipboard
pub mod Sites
pub mod Probes
pub mod Settings
pub mod Alerts
pub mod Routing
pub mod Login
pub mod Subscriptions
pub mod Overview
pub mod Policy
pub mod Connections
pub mod Topology
pub mod Quality
pub mod Proxies
pub mod Format
pub mod Examples
