-- ===== src/Routing/Published.antt =====
-- What the editor of frontend/app/routing/page.tsx publishes.
use grouproxy.Base.{
  Bool, true, false, not, ◌≡◌, refl, sym, ◌∙◌, inl, inr, arith, Bool-cases, ◌<◌, ◌||◌, str_eq, ◌==◌,
  ==_iff,
}
use grouproxy.Api.Settled.{fulfilled, rejected}
use grouproxy.Api.Calls.Sites.{RoutingPolicyResponse, publish_routing_policy}
use grouproxy.Routing.Editor.{
  is_pending, succeeded, Editor, opened, is_dirty, editor_busy, save_disabled, publish_disabled,
  receive, save_settled, publish_settled, apply_to_editor, publish_call,
}
use grouproxy.Routing.Machine.{
  IsEnabled, Step, edited, typed, mode_chosen, file_chosen, file_read, validated, preview_answered,
  import_applied, save_clicked, save_answered, publish_clicked, confirm_closed, publish_confirmed,
  publish_answered, received, site_chosen, Reach, start, next,
}
use grouproxy.Routing.Sameness.{same_policy_sound}

-- The dialog is open, or the call is on its way.
abbrev publishing : Editor → Bool
publishing e = e.confirm || is_pending e.publish

-- While something is about to be published, it is what the editor shows and what the server has
-- saved, and no save is on its way.
record IsSafe (e : Editor) : Type 0 where
  shown : publishing e ≡ true → is_dirty e ≡ false
  saved : publishing e ≡ true → 0 < e.loaded.revision
  alone : is_pending e.save ≡ true → publishing e ≡ false

quiet-IsSafe : (e : Editor) → publishing e ≡ false → IsSafe e
quiet-IsSafe e h = record {
  shown = λ p. absurd (false_true (sym h ∙ p));
  saved = λ p. absurd (false_true (sym h ∙ p));
  alone = λ _. h;
}
  where
    false_true : ◌≡◌ {A = Bool} false true → ⊥
    false_true e = cc

enabled-quiet : (e : Editor) → IsEnabled e → publishing e ≡ false
unfolding editor_busy
enabled-quiet e h = ground arith

receive-IsSafe :
    (loaded : RoutingPolicyResponse) (e : Editor)
    → (loaded.revision ≡ e.loaded.revision → loaded.policy ≡ e.loaded.policy)
    → IsSafe e
    → IsSafe (receive loaded e)
unfolding receive is_dirty
receive-IsSafe loaded e fixed safe = elim (Bool-cases (loaded.revision == e.loaded.revision)) [
  | inl same ↦
      let revision : loaded.revision ≡ e.loaded.revision =
        (==_iff loaded.revision e.loaded.revision).0 same in
      rw same (record {
        shown = λ p. rw (fixed revision) (safe.shown p);
        saved = λ p. rw revision (safe.saved p);
        alone = safe.alone;
      })
  | inr other ↦ rw other (quiet-IsSafe (opened e.site loaded) refl)
]

receive_quiet :
    (loaded : RoutingPolicyResponse) (e : Editor) → publishing e ≡ false → IsSafe (receive loaded e)
unfolding receive
receive_quiet loaded e h = elim (Bool-cases (loaded.revision == e.loaded.revision)) [
  | inl same ↦ rw same (quiet-IsSafe (record e { loaded = loaded }) h)
  | inr other ↦ rw other (quiet-IsSafe (opened e.site loaded) refl)
]

all_false :
    (a b c d : Bool)
    → (a || b || c || d) ≡ false
    → (a ≡ false) × (b ≡ false) × (c ≡ false) × (d ≡ false)
all_false a b c d h = ground arith

not_busy : (e : Editor) → editor_busy e ≡ false → is_pending e.save ≡ false
unfolding editor_busy
not_busy e h = ground arith

enabled-IsSafe :
    (e : Editor) (has_nodes : Bool)
    → publish_disabled has_nodes e ≡ false
    → (is_dirty e ≡ false) × (0 < e.loaded.revision) × (is_pending e.save ≡ false)
unfolding publish_disabled
enabled-IsSafe e has_nodes h =
    let four = all_false (editor_busy e) (is_dirty e) (e.loaded.revision == 0) (not has_nodes) h in
    (four.1, ground (arith, four.2), not_busy e four.0)

save_enabled-quiet :
    (e : Editor) → e.confirm ≡ false → save_disabled e ≡ false → publishing e ≡ false
unfolding save_disabled
save_enabled-quiet e closed h = ground arith

Step-IsSafe : {e f : Editor} → Step true e f → IsSafe e → IsSafe f
unfolding save_settled publish_settled is_dirty editor_busy apply_to_editor
Step-IsSafe (edited e edit h) safe = quiet-IsSafe _ (enabled-quiet e h)
Step-IsSafe (typed e value h _) safe = quiet-IsSafe _ (enabled-quiet e h)
Step-IsSafe (mode_chosen e mode h _) safe = quiet-IsSafe _ (enabled-quiet e h)
Step-IsSafe (file_chosen e size h _) safe = quiet-IsSafe _ (enabled-quiet e h)
Step-IsSafe (file_read e file _) safe = record {
  shown = safe.shown;
  saved = safe.saved;
  alone = safe.alone;
}
Step-IsSafe (validated e h _) safe = quiet-IsSafe _ (enabled-quiet e h)
Step-IsSafe (preview_answered e answer) safe = record {
  shown = safe.shown;
  saved = safe.saved;
  alone = safe.alone;
}
Step-IsSafe (import_applied e h _) safe = quiet-IsSafe _ (enabled-quiet e h)
Step-IsSafe (save_clicked e closed enabled) safe =
    quiet-IsSafe _ (save_enabled-quiet e closed enabled)
Step-IsSafe (save_answered e (fulfilled loaded) waits) safe =
    elim (Bool-cases (str_eq e.loaded.site_id e.site)) [
      | inl own ↦
          rw own (receive_quiet loaded (record e { save = succeeded loaded }) (safe.alone waits))
      | inr other ↦ rw other (quiet-IsSafe _ (safe.alone waits))
    ]
Step-IsSafe (save_answered e (rejected message) waits) safe = quiet-IsSafe _ (safe.alone waits)
Step-IsSafe (publish_clicked e has_nodes enabled) safe =
    let known = enabled-IsSafe e has_nodes enabled in
    record { shown = λ _. known.0; saved = λ _. known.1; alone = λ p. absurd (cc (known.2, p)) }
Step-IsSafe (confirm_closed e) safe = record {
  shown = λ p. safe.shown (ground arith);
  saved = λ p. safe.saved (ground arith);
  alone = λ p. ground (arith, safe.alone p);
}
Step-IsSafe (publish_confirmed e asked free) safe = record {
  shown = λ _. safe.shown (rw asked);
  saved = λ _. safe.saved (rw asked);
  alone = λ p. ground (arith, safe.alone p);
}
Step-IsSafe (publish_answered e (fulfilled release_id) waits) safe = quiet-IsSafe _ refl
Step-IsSafe (publish_answered e (rejected message) waits) safe = record {
  shown = λ p. safe.shown (ground arith);
  saved = λ p. safe.saved (ground arith);
  alone = λ p. ground (arith, safe.alone p);
}
Step-IsSafe (received e loaded fixed) safe = receive-IsSafe loaded e (fixed refl) safe
Step-IsSafe (site_chosen e id cached free) safe = absurd (cc)

Reach-IsSafe : {e : Editor} → Reach true e → IsSafe e
unfolding opened
Reach-IsSafe (start site loaded) = quiet-IsSafe (opened site loaded) refl
Reach-IsSafe (next r step) = Step-IsSafe step (Reach-IsSafe r)

-- While the page stays with one site, whose revisions have one policy each: in every state that it
-- reaches, while the dialog that publishes is open and while its call is on its way, the editor shows
-- the policy that the server has saved, and the call names the site and the revision of that policy,
-- which is not the first, empty one. No save is on its way then.
pub publish_call-shown :
    {e : Editor}
    → Reach true e
    → (e.confirm || is_pending e.publish) ≡ true
    → (e.policy ≡ e.loaded.policy)
      × (publish_call e ≡ publish_routing_policy e.loaded.site_id e.loaded.revision)
      × (0 < e.loaded.revision)
      × (is_pending e.save ≡ false)
unfolding is_dirty publish_call
publish_call-shown {e} reached h =
    let safe = Reach-IsSafe reached in
    (
      same_policy_sound e.policy e.loaded.policy (ground (arith, safe.shown h)),
      refl,
      safe.saved h,
      ground (arith, safe.alone),
    )
