-- ===== src/Routing/Machine.antt =====
-- The page of frontend/app/routing/ step by step. A field set holds the controls of the policy and the
-- importer: it is disabled while the editor is busy. A dialog covers the page.
use grouproxy.Base.{ℕ, String, Bool, true, false, ◌≡◌, Option}
use grouproxy.Api.Settled.{Settled}
use grouproxy.Api.Calls.Sites.{RoutingPolicyResponse, ImportMode}
use grouproxy.Routing.Importer.{
  ImportPreview, importer_busy, update_content, choose_mode, read_file, file_settled,
  validate_disabled, validate_import, preview_settled, Importer,
}
use grouproxy.Routing.Editor.{
  is_pending, pending, Editor, opened, choose_site, editor_busy, save_disabled, publish_disabled,
  receive, save_settled, publish_settled, Edit, edit_policy, apply_to_editor,
}

-- The field set can be used.
pub record IsEnabled (e : Editor) : Type 0 where
  pub ready : editor_busy e ≡ false
  pub uncovered : e.confirm ≡ false

abbrev pub with_importer : (Importer → Importer) → Editor → Editor
with_importer f e = record e { importer = f e.importer }

-- Either any site can be chosen, or `sole` says that the page stays with one site, whose revisions have
-- one policy each.
pub data Step (sole : Bool) : Editor → Editor → Type 0 where
  edited :
      (e : Editor) (edit : Edit)
      → IsEnabled e
      → Step sole e (record e { policy = edit_policy edit e.policy })
  typed :
      (e : Editor) (value : String)
      → IsEnabled e
      → importer_busy e.importer ≡ false
      → Step sole e (with_importer (update_content value) e)
  mode_chosen :
      (e : Editor) (mode : ImportMode)
      → IsEnabled e
      → importer_busy e.importer ≡ false
      → Step sole e (with_importer (choose_mode mode) e)
  file_chosen :
      (e : Editor) (size : Option ℕ)
      → IsEnabled e
      → importer_busy e.importer ≡ false
      → Step sole e (with_importer (read_file size) e)
  file_read :
      (e : Editor) (file : Option (String × String))
      → e.importer.reading ≡ true
      → Step sole e (with_importer (file_settled file) e)
  validated :
      (e : Editor)
      → IsEnabled e
      → validate_disabled e.importer ≡ false
      → Step sole e (with_importer (validate_import e.policy) e)
  preview_answered :
      (e : Editor) (answer : Settled ImportPreview)
      → Step sole e (with_importer (preview_settled answer) e)
  import_applied :
      (e : Editor)
      → IsEnabled e
      → importer_busy e.importer ≡ false
      → Step sole e (apply_to_editor e)
  save_clicked :
      (e : Editor)
      → e.confirm ≡ false
      → save_disabled e ≡ false
      → Step sole e (record e { save = pending })
  save_answered :
      (e : Editor) (answer : Settled RoutingPolicyResponse)
      → is_pending e.save ≡ true
      → Step sole e (save_settled answer e)
  publish_clicked :
      (e : Editor) (has_nodes : Bool)
      → publish_disabled has_nodes e ≡ false
      → Step sole e (record e { confirm = true })
  confirm_closed : (e : Editor) → Step sole e (record e { confirm = false })
  publish_confirmed :
      (e : Editor)
      → e.confirm ≡ true
      → is_pending e.publish ≡ false
      → Step sole e (record e { publish = pending })
  publish_answered :
      (e : Editor) (answer : Settled String)
      → is_pending e.publish ≡ true
      → Step sole e (publish_settled answer e)
  -- The policy of the site was read again.
  received :
      (e : Editor) (loaded : RoutingPolicyResponse)
      → (sole ≡ true → loaded.revision ≡ e.loaded.revision → loaded.policy ≡ e.loaded.policy)
      → Step sole e (receive loaded e)
  site_chosen :
      (e : Editor) (id : String) (cached : Option RoutingPolicyResponse)
      → sole ≡ false
      → Step sole e (choose_site id cached e)

pub data Reach (sole : Bool) : Editor → Type 0 where
  start : (site : String) (loaded : RoutingPolicyResponse) → Reach sole (opened site loaded)
  next : {e f : Editor} → Reach sole e → Step sole e f → Reach sole f
