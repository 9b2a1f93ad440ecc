-- ===== src/Routing/Importer.antt =====
-- The importer: frontend/app/routing/routing-import.tsx.
use grouproxy.Base.{ℕ, String, Bool, true, false, not, ◌||◌, Option, none, some, ltb, if◌then◌else◌}
use grouproxy.Api.Settled.{Settled, fulfilled, rejected}
use grouproxy.Api.Session.{is_truthy}
use grouproxy.Api.Url.{trim}
use grouproxy.Api.Calls.{Call}
use grouproxy.Api.Calls.Sites.{RoutingPolicy, ImportMode, append, preview_routing_import}
use grouproxy.Routing.Sameness.{Fingerprint, same_fingerprint}

-- What the server answers to a preview.
pub record ImportPreview : Type 0 where
  pub policy : RoutingPolicy
  pub source_rules : ℕ
  pub imported_rules : ℕ

-- A preview that is asked for: the call, and the snapshot of the fingerprint that `mutationFn` takes.
pub record Question : Type 0 where
  pub call : Call
  pub snapshot : Fingerprint

-- The mutation `preview`.
pub data Preview : Type 0 where
  none_yet : Preview
  asking : Question → Preview
  refused : String → Preview
  answered : Question → ImportPreview → Preview

-- What the importer remembers.
pub record Importer : Type 0 where
  pub content : String
  pub mode : ImportMode
  pub file_error : String
  pub reading : Bool
  pub file_name : String
  pub applied : Bool
  pub preview : Preview

abbrev pub first_importer : Importer
first_importer = record {
  content = "";
  mode = append;
  file_error = "";
  reading = false;
  file_name = "";
  applied = false;
  preview = none_yet;
}

abbrev pub is_asking : Preview → Bool
is_asking none_yet = false
is_asking (asking _) = true
is_asking (refused _) = false
is_asking (answered _ _) = false

-- `busy` of the importer.
unfoldable pub importer_busy : Importer → Bool
importer_busy i = i.reading || is_asking i.preview

unfoldable pub fingerprint : RoutingPolicy → Importer → Fingerprint
fingerprint policy i = record { content = i.content; mode = i.mode; policy = policy }

-- `result`: the answer, if nothing has changed since it was asked for.
unfoldable pub result_for : Fingerprint → Preview → Option (Question × ImportPreview)
unfolding same_fingerprint
result_for now none_yet = none
result_for now (asking _) = none
result_for now (refused _) = none
result_for now (answered question response) =
    if same_fingerprint question.snapshot now then some (question, response) else none

unfoldable pub result_of : RoutingPolicy → Importer → Option (Question × ImportPreview)
unfolding result_for fingerprint
result_of policy i = result_for (fingerprint policy i) i.preview

unfoldable pub update_content : String → Importer → Importer
update_content value i = record i {
  content = value;
  file_name = "";
  applied = false;
  file_error = "";
  preview = none_yet;
}

unfoldable pub choose_mode : ImportMode → Importer → Importer
choose_mode mode i = record i { mode = mode; preview = none_yet; applied = false }

abbrev pub max_file_bytes : ℕ
max_file_bytes = 1048576

-- `readFile` up to its `await`, with the size of the chosen file, if there is one.
unfoldable pub read_file : Option ℕ → Importer → Importer
read_file none i = i
read_file (some size) i =
    if ltb max_file_bytes size
    then record i {
      preview = none_yet;
      applied = false;
      file_error = "Routing import files must not exceed 1 MiB.";
    }
    else record i { preview = none_yet; applied = false; reading = true; file_error = "" }

-- `readFile` after it: the text of the file with its name, or nothing where it cannot be read.
unfoldable pub file_settled : Option (String × String) → Importer → Importer
unfolding update_content
file_settled none i = record i { file_error = "Unable to read the routing file."; reading = false }
file_settled (some (name, text)) i = record (update_content text i) {
  file_name = name;
  reading = false;
}

unfoldable pub validate_disabled : Importer → Bool
unfolding importer_busy
validate_disabled i = importer_busy i || not (is_truthy (trim i.content))

-- The button "Validate and preview import": `preview.mutate()` runs `mutationFn`.
unfoldable pub validate_import : RoutingPolicy → Importer → Importer
unfolding fingerprint
validate_import policy i = record i {
  applied = false;
  preview = asking (record {
    call = preview_routing_import i.content i.mode policy;
    snapshot = fingerprint policy i;
  });
}

-- The answer of the server: it counts while the mutation waits for it.
unfoldable pub settle_preview : Settled ImportPreview → Preview → Preview
settle_preview (fulfilled response) (asking question) = answered question response
settle_preview (rejected message) (asking question) = refused message
settle_preview answer none_yet = none_yet
settle_preview answer (refused message) = refused message
settle_preview answer (answered question response) = answered question response

unfoldable pub preview_settled : Settled ImportPreview → Importer → Importer
unfolding settle_preview
preview_settled answer i = record i { preview = settle_preview answer i.preview }

-- The button "Apply import to editor": the policy of the editor, and the importer.
unfoldable pub apply_result :
    Option (Question × ImportPreview) → RoutingPolicy → Importer → RoutingPolicy × Importer
unfolding update_content
apply_result none policy i = (policy, i)
apply_result (some (question, response)) policy i =
    (response.policy, record (update_content "" i) { applied = true })

unfoldable pub apply_import : RoutingPolicy → Importer → RoutingPolicy × Importer
unfolding result_of apply_result
apply_import policy i = apply_result (result_of policy i) policy i
