-- ===== src/Routing/Sameness.antt =====
-- The texts of `JSON.stringify` that frontend/app/routing/ compares: for unsaved changes, and for a
-- change since a preview was asked for. The tests say exactly whether something is different.
use grouproxy.Base.{
  not, false, String, ◌≡◌, refl, Bool, true, List, [], ◌∷◌, arith, ◌&&◌, str_eq, eq_iff,
}
use grouproxy.Api.Calls.Sites.{
  RoutingRule, RoutingPolicy, kind_name, action_name, final_name, mode_name, ImportMode, RuleKind,
  RuleAction, FinalOutbound, domain, domain_suffix, ip_cidr, reject, append, replace,
}

-- Two texts of `JSON.stringify` are the same exactly if the values are, so that the values are
-- compared.
abbrev pub same_bool : Bool → Bool → Bool
same_bool true b = b
same_bool false b = not b

unfoldable pub same_rule : RoutingRule → RoutingRule → Bool
same_rule a b =
    str_eq (kind_name a.kind) (kind_name b.kind)
    && str_eq a.pattern b.pattern
    && str_eq (action_name a.action) (action_name b.action)

unfoldable pub same_rules : List RoutingRule → List RoutingRule → Bool
unfolding same_rule
same_rules [] [] = true
same_rules (a ∷ more) (b ∷ bs) = same_rule a b && same_rules more bs
same_rules [] (b ∷ bs) = false
same_rules (a ∷ more) [] = false

unfoldable pub same_policy : RoutingPolicy → RoutingPolicy → Bool
unfolding same_rules
same_policy a b =
    same_bool a.private_direct b.private_direct
    && same_bool a.cn_direct b.cn_direct
    && str_eq (final_name a.final) (final_name b.final)
    && same_rules a.rules b.rules

-- What `fingerprint` is the text of.
pub record Fingerprint : Type 0 where
  pub content : String
  pub mode : ImportMode
  pub policy : RoutingPolicy

unfoldable pub same_fingerprint : Fingerprint → Fingerprint → Bool
unfolding same_policy
same_fingerprint a b =
    str_eq a.content b.content
    && str_eq (mode_name a.mode) (mode_name b.mode)
    && same_policy a.policy b.policy

kind_name-inj : (a b : RuleKind) → str_eq (kind_name a) (kind_name b) ≡ true → a ≡ b
kind_name-inj domain domain h = refl
kind_name-inj domain domain_suffix h = cc
kind_name-inj domain ip_cidr h = cc
kind_name-inj domain_suffix domain h = cc
kind_name-inj domain_suffix domain_suffix h = refl
kind_name-inj domain_suffix ip_cidr h = cc
kind_name-inj ip_cidr domain h = cc
kind_name-inj ip_cidr domain_suffix h = cc
kind_name-inj ip_cidr ip_cidr h = refl

action_name-inj : (a b : RuleAction) → str_eq (action_name a) (action_name b) ≡ true → a ≡ b
action_name-inj RuleAction.direct RuleAction.direct h = refl
action_name-inj RuleAction.direct RuleAction.proxy h = cc
action_name-inj RuleAction.direct reject h = cc
action_name-inj RuleAction.proxy RuleAction.direct h = cc
action_name-inj RuleAction.proxy RuleAction.proxy h = refl
action_name-inj RuleAction.proxy reject h = cc
action_name-inj reject RuleAction.direct h = cc
action_name-inj reject RuleAction.proxy h = cc
action_name-inj reject reject h = refl

final_name-inj : (a b : FinalOutbound) → str_eq (final_name a) (final_name b) ≡ true → a ≡ b
final_name-inj FinalOutbound.proxy FinalOutbound.proxy h = refl
final_name-inj FinalOutbound.proxy FinalOutbound.direct h = cc
final_name-inj FinalOutbound.direct FinalOutbound.proxy h = cc
final_name-inj FinalOutbound.direct FinalOutbound.direct h = refl

mode_name-inj : (a b : ImportMode) → str_eq (mode_name a) (mode_name b) ≡ true → a ≡ b
mode_name-inj append append h = refl
mode_name-inj append replace h = cc
mode_name-inj replace append h = cc
mode_name-inj replace replace h = refl

same_bool_sound : (a b : Bool) → same_bool a b ≡ true → a ≡ b
same_bool_sound a b h = ground arith

&&-parts : (a b : Bool) → (a && b) ≡ true → (a ≡ true) × (b ≡ true)
&&-parts a b h = ground arith

same_rule_sound : (a b : RoutingRule) → same_rule a b ≡ true → a ≡ b
unfolding same_rule
same_rule_sound a b h =
    let outer =
      &&-parts (str_eq (kind_name a.kind) (kind_name b.kind) && str_eq a.pattern b.pattern) _ h in
    let inner =
      &&-parts (str_eq (kind_name a.kind) (kind_name b.kind)) (str_eq a.pattern b.pattern)
        outer.0 in
    λ i. record {
      kind = kind_name-inj a.kind b.kind inner.0 i;
      pattern = (eq_iff a.pattern b.pattern).0 inner.1 i;
      action = action_name-inj a.action b.action outer.1 i;
    }

same_rules_sound : (xs ys : List RoutingRule) → same_rules xs ys ≡ true → xs ≡ ys
unfolding same_rules
same_rules_sound [] [] h = refl
same_rules_sound [] (y ∷ ys) h = cc
same_rules_sound (x ∷ xs) [] h = cc
same_rules_sound (x ∷ xs) (y ∷ ys) h =
    let both = &&-parts (same_rule x y) (same_rules xs ys) h in
    λ i. same_rule_sound x y both.0 i ∷ same_rules_sound xs ys both.1 i

-- Two policies that pass the test are the same.
pub same_policy_sound : (a b : RoutingPolicy) → same_policy a b ≡ true → a ≡ b
unfolding same_policy
same_policy_sound a b h =
    let flags = same_bool a.private_direct b.private_direct in
    let china = same_bool a.cn_direct b.cn_direct in
    let final = str_eq (final_name a.final) (final_name b.final) in
    let three = &&-parts (flags && china && final) (same_rules a.rules b.rules) h in
    let two = &&-parts (flags && china) final three.0 in
    let first = &&-parts flags china two.0 in
    λ i. record {
      private_direct = same_bool_sound a.private_direct b.private_direct first.0 i;
      cn_direct = same_bool_sound a.cn_direct b.cn_direct first.1 i;
      final = final_name-inj a.final b.final two.1 i;
      rules = same_rules_sound a.rules b.rules three.1 i;
    }

-- Two fingerprints that pass the test are the same.
pub same_fingerprint_sound : (a b : Fingerprint) → same_fingerprint a b ≡ true → a ≡ b
unfolding same_fingerprint
same_fingerprint_sound a b h =
    let contents = str_eq a.content b.content in
    let modes = str_eq (mode_name a.mode) (mode_name b.mode) in
    let all_of_it = &&-parts (contents && modes) (same_policy a.policy b.policy) h in
    let two = &&-parts contents modes all_of_it.0 in
    λ i. record {
      content = (eq_iff a.content b.content).0 two.0 i;
      mode = mode_name-inj a.mode b.mode two.1 i;
      policy = same_policy_sound a.policy b.policy all_of_it.1 i;
    }
