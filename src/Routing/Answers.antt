-- ===== src/Routing/Answers.antt =====
-- What an import puts into the editor: frontend/app/routing/routing-import.tsx.
use grouproxy.Base.{
  ltb, ℕ, String, Bool, ◌≡◌, refl, sym, ap, ◌∙◌, Option, none, some, ◌⊎◌, inl, inr, Bool-cases,
  Option-cases, if◌then◌else◌, str_eq, ◌==◌,
}
use grouproxy.Api.Settled.{Settled, fulfilled, rejected}
use grouproxy.Api.Calls.{Call}
use grouproxy.Api.Calls.Sites.{preview_routing_import, RoutingPolicyResponse, RoutingPolicy}
use grouproxy.Routing.Sameness.{Fingerprint, same_fingerprint}
use grouproxy.Routing.Importer.{
  ImportPreview, Question, Preview, none_yet, asking, refused, answered, Importer, fingerprint,
  result_of, update_content, choose_mode, read_file, file_settled, validate_import, preview_settled,
  settle_preview, result_for, apply_result, apply_import, max_file_bytes,
}
use grouproxy.Routing.Editor.{
  succeeded, Editor, opened, receive, choose_site, save_settled, publish_settled, apply_to_editor,
}
use grouproxy.Routing.Machine.{
  Step, edited, typed, mode_chosen, file_chosen, file_read, validated, preview_answered,
  import_applied, save_clicked, save_answered, publish_clicked, confirm_closed, publish_confirmed,
  publish_answered, received, site_chosen, Reach, start, next,
}
use grouproxy.Routing.Sameness.{same_fingerprint_sound}

-- The call that asks for the preview of a fingerprint.
abbrev pub call_of : Fingerprint → Call
call_of f = preview_routing_import f.content f.mode f.policy

-- The call of a preview was made for its snapshot.
abbrev IsCoherent : Preview → Type 0
IsCoherent none_yet = Unit
IsCoherent (asking q) = q.call ≡ call_of q.snapshot
IsCoherent (refused _) = Unit
IsCoherent (answered q _) = q.call ≡ call_of q.snapshot

settle_preview-IsCoherent :
    (answer : Settled ImportPreview) (p : Preview)
    → IsCoherent p
    → IsCoherent (settle_preview answer p)
unfolding settle_preview
settle_preview-IsCoherent (fulfilled r) none_yet h = tt
settle_preview-IsCoherent (fulfilled r) (asking q) h = h
settle_preview-IsCoherent (fulfilled r) (refused m) h = tt
settle_preview-IsCoherent (fulfilled r) (answered q a) h = h
settle_preview-IsCoherent (rejected m) none_yet h = tt
settle_preview-IsCoherent (rejected m) (asking q) h = tt
settle_preview-IsCoherent (rejected m) (refused n) h = tt
settle_preview-IsCoherent (rejected m) (answered q a) h = h

read_file-IsCoherent :
    (size : Option ℕ) (i : Importer) → IsCoherent i.preview → IsCoherent (read_file size i).preview
unfolding read_file
read_file-IsCoherent none i h = h
read_file-IsCoherent (some size) i h = elim (Bool-cases (ltb max_file_bytes size)) [
  | inl large ↦ rw large tt
  | inr small ↦ rw small tt
]

file_settled-IsCoherent :
    (file : Option (String × String)) (i : Importer)
    → IsCoherent i.preview
    → IsCoherent (file_settled file i).preview
unfolding file_settled
file_settled-IsCoherent none i h = h
file_settled-IsCoherent (some (name, text)) i h = tt

apply_result-IsCoherent :
    (r : Option (Question × ImportPreview)) (p : RoutingPolicy) (i : Importer)
    → IsCoherent i.preview
    → IsCoherent (apply_result r p i).1.preview
unfolding apply_result
apply_result-IsCoherent none p i h = h
apply_result-IsCoherent (some (q, r)) p i h = tt

receive-IsCoherent :
    (loaded : RoutingPolicyResponse) (e : Editor)
    → IsCoherent e.importer.preview
    → IsCoherent (receive loaded e).importer.preview
unfolding receive
receive-IsCoherent loaded e h = elim (Bool-cases (loaded.revision == e.loaded.revision)) [
  | inl same ↦ rw same h
  | inr other ↦ rw other tt
]

choose_site-IsCoherent :
    (id : String) (cached : Option RoutingPolicyResponse) (e : Editor)
    → IsCoherent e.importer.preview
    → IsCoherent (choose_site id cached e).importer.preview
unfolding choose_site
choose_site-IsCoherent id none e h = elim (Bool-cases (str_eq id e.site)) [
  | inl same ↦ rw same h
  | inr other ↦ rw other tt
]
choose_site-IsCoherent id (some loaded) e h = elim (Bool-cases (str_eq id e.site)) [
  | inl same ↦ rw same h
  | inr other ↦ rw other tt
]

Step-IsCoherent :
    {sole : Bool} {e f : Editor}
    → Step sole e f
    → IsCoherent e.importer.preview
    → IsCoherent f.importer.preview
unfolding update_content choose_mode validate_import fingerprint preview_settled apply_to_editor
    apply_import save_settled publish_settled
Step-IsCoherent (edited e edit _) h = h
Step-IsCoherent (typed e value _ _) h = tt
Step-IsCoherent (mode_chosen e mode _ _) h = tt
Step-IsCoherent (file_chosen e size _ _) h = read_file-IsCoherent size e.importer h
Step-IsCoherent (file_read e file _) h = file_settled-IsCoherent file e.importer h
Step-IsCoherent (validated e _ _) h = refl
Step-IsCoherent (preview_answered e answer) h =
    settle_preview-IsCoherent answer e.importer.preview h
Step-IsCoherent (import_applied e _ _) h =
    apply_result-IsCoherent (result_of e.policy e.importer) e.policy e.importer h
Step-IsCoherent (save_clicked e _ _) h = h
Step-IsCoherent (save_answered e (fulfilled loaded) _) h =
    elim (Bool-cases (str_eq e.loaded.site_id e.site)) [
      | inl own ↦ rw own (receive-IsCoherent loaded (record e { save = succeeded loaded }) h)
      | inr other ↦ rw other h
    ]
Step-IsCoherent (save_answered e (rejected message) _) h = h
Step-IsCoherent (publish_clicked e has_nodes _) h = h
Step-IsCoherent (confirm_closed e) h = h
Step-IsCoherent (publish_confirmed e _ _) h = h
Step-IsCoherent (publish_answered e (fulfilled release_id) _) h = h
Step-IsCoherent (publish_answered e (rejected message) _) h = h
Step-IsCoherent (received e loaded _) h = receive-IsCoherent loaded e h
Step-IsCoherent (site_chosen e id cached _) h = choose_site-IsCoherent id cached e h

Reach-IsCoherent : {sole : Bool} {e : Editor} → Reach sole e → IsCoherent e.importer.preview
unfolding opened
Reach-IsCoherent (start site loaded) = tt
Reach-IsCoherent (next r step) = Step-IsCoherent step (Reach-IsCoherent r)

question_or : Question → Option (Question × ImportPreview) → Question
question_or q none = q
question_or q (some (a, r)) = a

answer_or : Preview → Option (Question × ImportPreview) → Preview
answer_or p none = p
answer_or p (some (a, r)) = answered a r

-- An answer that counts is the one that the mutation has, and was asked for with what stands on the
-- page.
result_for-current :
    (now : Fingerprint) (p : Preview) (q : Question) (r : ImportPreview)
    → IsCoherent p
    → result_for now p ≡ some (q, r)
    → (p ≡ answered q r) × (q.call ≡ call_of now)
unfolding result_for question_or answer_or
result_for-current now none_yet q r h e = cc
result_for-current now (asking a) q r h e = cc
result_for-current now (refused m) q r h e = cc
result_for-current now (answered a b) q r h e =
    let chosen : Bool → Option (Question × ImportPreview) = λ t. if t then some (a, b) else none in
    elim (Bool-cases (same_fingerprint a.snapshot now)) [
      | inl same ↦
          let snap = ap call_of (same_fingerprint_sound a.snapshot now same) in
          let found : ◌≡◌ {A = Option (Question × ImportPreview)} (some (a, b)) (some (q, r)) =
            sym (ap chosen same) ∙ e in
          let one : a ≡ q = ap (question_or a) found in
          (ap (answer_or (answered a b)) found, sym (ap Question.call one) ∙ h ∙ snap)
      | inr other ↦
          let missed : ◌≡◌ {A = Option (Question × ImportPreview)} none (some (q, r)) =
            sym (ap chosen other) ∙ e in
          absurd (cc)
    ]

-- Whatever happens on the page, applying an import changes nothing, or it puts into the editor the
-- policy of an answer that the server gave to a preview of exactly the text, the behaviour and the
-- policy that stand on the page now. The importer is then empty, and has no answer left to apply.
pub apply-current :
    {sole : Bool} {e : Editor}
    → Reach sole e
    → (apply_to_editor e ≡ e)
      ⊎ ((q : Question) × (r : ImportPreview) × (e.importer.preview ≡ answered q r)
          × (q.call ≡ preview_routing_import e.importer.content e.importer.mode e.policy)
          × ((apply_to_editor e).policy ≡ r.policy)
          × ((apply_to_editor e).importer.content ≡ "")
          × (result_of (apply_to_editor e).policy (apply_to_editor e).importer ≡ none))
unfolding apply_to_editor apply_import update_content result_of fingerprint
apply-current {e} reached = elim (Option-cases (result_of e.policy e.importer)) [
  | inl nothing ↦ inl (rw (nothing, apply_result))
  | inr ((q, r), found) ↦
      let known =
        result_for-current (fingerprint e.policy e.importer) e.importer.preview q r
          (Reach-IsCoherent reached) found in
      inr (
        q,
        r,
        known.0,
        known.1,
        rw (found, apply_result),
        rw (found, apply_result),
        rw (found, apply_result),
      )
]
