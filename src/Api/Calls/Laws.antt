-- ===== src/Api/Calls/Laws.antt =====
-- The idempotency key of a proxy selection, and the path segments of an escaped identifier.
use text.Mathlib.TextLemmas.{nil-append, cons-append, append_cancel_left}
use grouproxy.Base.{false, ℕ, sym, ap, ◌≢◌, Option, none, some, String, ◌<>◌, ◌≡◌, refl, ◌∙◌}
use grouproxy.Api.Url.{is_unreserved, encode_uri_component, trim, show}
use grouproxy.Api.Url.Decimal.{decimal, all_digits, decimal-show, all_digits-show}
use grouproxy.Api.Url.Escaping.{
  Lacks, encode_uri_component-Lacks, encode_uri_component_inj, split_inj,
}
use grouproxy.Api.Calls.Nodes.{
  ProxySelectionRequest, ExpectedVersion, undefined, none_yet, version, version_text, selection_key,
}

colon-append : (s : String) → ":" <> s ≡ String.◌∷◌ ":" s
colon-append s = cons-append ":" "" s ∙ rw nil-append

encode-Lacks_colon : (s : String) → Lacks b':' (encode_uri_component s)
unfolding is_unreserved
encode-Lacks_colon s = encode_uri_component-Lacks b':' s refl

-- One part of a key and the rest, from the whole.
key_part :
    (s t r q : String)
    → encode_uri_component s <> (":" <> r) ≡ encode_uri_component t <> (":" <> q)
    → (s ≡ t) × (r ≡ q)
key_part s t r q e =
    let (same, rest) =
      split_inj ":" (encode_uri_component s) r (encode_uri_component t) q (encode-Lacks_colon s)
        (encode-Lacks_colon t) (rw (← colon-append r, ← colon-append q) e) in
    (encode_uri_component_inj s t same, rest)

-- The number of the version that is expected, if there is one.
abbrev pub expected_number : ExpectedVersion → Option ℕ
expected_number undefined = none
expected_number none_yet = none
expected_number (version n) = some n

show-ne-latest : (n : ℕ) → show n ≢ "latest"
unfolding all_digits
show-ne-latest n e =
    let digits = all_digits-show n in
    let letters : all_digits "latest" ≡ false = refl in
    absurd (cc (ap all_digits e, digits, letters))

show_inj : (m n : ℕ) → show m ≡ show n → m ≡ n
show_inj m n e = sym (decimal-show m) ∙ ap decimal e ∙ decimal-show n

version_text_inj :
    (a b : ExpectedVersion)
    → version_text a ≡ version_text b
    → expected_number a ≡ expected_number b
version_text_inj undefined undefined e = refl
version_text_inj undefined none_yet e = refl
version_text_inj undefined (version n) e = absurd (show-ne-latest n (sym e))
version_text_inj none_yet undefined e = refl
version_text_inj none_yet none_yet e = refl
version_text_inj none_yet (version n) e = absurd (show-ne-latest n (sym e))
version_text_inj (version m) undefined e = absurd (show-ne-latest m e)
version_text_inj (version m) none_yet e = absurd (show-ne-latest m e)
version_text_inj (version m) (version n) e = ap some (show_inj m n e)

-- Two proxy selections with the same idempotency key are for the same node, the same group and
-- outbound up to white space at the ends, and the same expected version: the same number, or none
-- in both, where a version that is missing and one that is `null` count alike.
pub selection_key_inj :
    (m n : String) (v w : ProxySelectionRequest)
    → selection_key m v ≡ selection_key n w
    → (m ≡ n)
      × (trim v.group ≡ trim w.group)
      × (trim v.outbound ≡ trim w.outbound)
      × (expected_number v.expected_current_version ≡ expected_number w.expected_current_version)
unfolding selection_key
selection_key_inj m n v w e =
    let (node, rest) = key_part m n _ _ (append_cancel_left "proxy-selection:" _ _ e) in
    let (group, rest') = key_part (trim v.group) (trim w.group) _ _ rest in
    let (outbound, number) = key_part (trim v.outbound) (trim w.outbound) _ _ rest' in
    (
      node,
      group,
      outbound,
      version_text_inj v.expected_current_version w.expected_current_version
          (encode_uri_component_inj _ _ number),
    )
