-- ===== src/Examples/Routing.antt =====
-- The theorems of the routing page at two small policies.
use grouproxy.Base.{◌≡◌, ◌<◌, refl, true, false, none, [], ◌∷◌, ◌⊎◌, any}
use grouproxy.Api.Settled.{fulfilled}
use grouproxy.Api.Url.{trim}
use grouproxy.Api.Calls.Sites.{
  RoutingPolicy, RoutingPolicyResponse, proxy, domain, RuleAction, preview_routing_import,
  save_routing_policy, publish_routing_policy,
}
use grouproxy.Routing.Sameness.{same_policy, same_rules, same_rule}
use grouproxy.Routing.Importer.{
  ImportPreview, Question, answered, update_content, validate_import, preview_settled, result_of,
  importer_busy, validate_disabled,
}
use grouproxy.Routing.Editor.{
  Editor, opened, is_pending, apply_to_editor, publish_call, publish_disabled, editor_busy,
  is_dirty, receive, choose_site, save_disabled, save_call, has_no_pattern,
}
use grouproxy.Routing.Machine.{
  IsEnabled, with_importer, Reach, start, next, typed, validated, preview_answered, publish_clicked,
}
use grouproxy.Routing.Answers.{apply-current}
use grouproxy.Routing.Published.{publish_call-shown}
use grouproxy.Routing.Switching.{choose_site-saves}
use grouproxy.Examples.{ne_of_test}

abbrev empty : RoutingPolicy
empty = record { private_direct = true; cn_direct = false; final = proxy; rules = [] }

abbrev one_rule : RoutingPolicy
one_rule = record empty {
  rules = record { kind = domain; pattern = "feed.example"; action = RuleAction.direct } ∷ [];
}

abbrev first_policy : RoutingPolicyResponse
first_policy = record { site_id = "a"; revision = 3; policy = one_rule }

abbrev second_policy : RoutingPolicyResponse
second_policy = record { site_id = "b"; revision = 3; policy = empty }

abbrev preview : ImportPreview
preview = record { policy = empty; source_rules = 0; imported_rules = 0 }

abbrev start_editor : Editor
start_editor = opened "a" first_policy

abbrev typed_editor : Editor
typed_editor = with_importer (update_content "rules") start_editor

abbrev asking_editor : Editor
asking_editor = with_importer (validate_import typed_editor.policy) typed_editor

abbrev answered_editor : Editor
answered_editor = with_importer (preview_settled (fulfilled preview)) asking_editor

start-IsEnabled : IsEnabled start_editor
unfolding opened editor_busy
start-IsEnabled = record { ready = refl; uncovered = refl }

start-importer : importer_busy start_editor.importer ≡ false
unfolding opened importer_busy
start-importer = refl

typed-IsEnabled : IsEnabled typed_editor
unfolding opened editor_busy
typed-IsEnabled = record { ready = refl; uncovered = refl }

typed-importer : validate_disabled typed_editor.importer ≡ false
unfolding validate_disabled importer_busy opened update_content trim
typed-importer = refl

answered-Reach : Reach true answered_editor
answered-Reach =
    next
      (next
        (next (start "a" first_policy) (typed start_editor "rules" start-IsEnabled start-importer))
        (validated typed_editor typed-IsEnabled typed-importer))
      (preview_answered asking_editor (fulfilled preview))

apply-current_example :
    (apply_to_editor answered_editor ≡ answered_editor)
    ⊎ ((q : Question) × (r : ImportPreview) × (answered_editor.importer.preview ≡ answered q r)
        × (q.call
            ≡ preview_routing_import answered_editor.importer.content answered_editor.importer.mode
                answered_editor.policy)
        × ((apply_to_editor answered_editor).policy ≡ r.policy)
        × ((apply_to_editor answered_editor).importer.content ≡ "")
        × (result_of
              (apply_to_editor answered_editor).policy
              (apply_to_editor answered_editor).importer
            ≡ none))
apply-current_example = apply-current answered-Reach

start-publishable : publish_disabled true start_editor ≡ false
unfolding publish_disabled editor_busy is_dirty opened same_policy same_rules same_rule
start-publishable = refl

abbrev asked : Editor
asked = record start_editor { confirm = true }

asked-Reach : Reach true asked
asked-Reach = next (start "a" first_policy) (publish_clicked start_editor true start-publishable)

publish_call-shown_example :
    (asked.policy ≡ asked.loaded.policy)
    × (publish_call asked ≡ publish_routing_policy asked.loaded.site_id asked.loaded.revision)
    × (0 < asked.loaded.revision)
    × (is_pending asked.save ≡ false)
publish_call-shown_example = publish_call-shown asked-Reach refl

policies-differ : same_policy one_rule empty ≡ false
unfolding same_policy same_rules same_rule
policies-differ = refl

rules-given : any has_no_pattern one_rule.rules ≡ false
unfolding trim
rules-given = refl

choose_site-saves_example :
    let e = receive second_policy (choose_site "b" none (opened "a" first_policy)) in
    (e.policy ≡ one_rule)
    × (e.site ≡ "b")
    × (save_disabled e ≡ false)
    × (save_call e ≡ save_routing_policy "b" 3 one_rule)
choose_site-saves_example =
    choose_site-saves first_policy second_policy "a" "b" (ne_of_test _ _ refl) refl policies-differ
      rules-given
