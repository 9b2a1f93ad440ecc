-- ===== src/Clipboard.antt =====
-- frontend/lib/clipboard.ts: copying a text by the Clipboard API, and else by a text area. What the
-- browser does is a record of its answers.
pub mod Copying
use grouproxy.Base.{String, Bool, true, false, Option, none, some, List, [], ◌∷◌, if◌then◌else◌}

-- What the browser offers. `write_text` is none where there is no `navigator.clipboard.writeText`, and
-- else whether it accepts the text; `has_body` is whether there is a document with a body;
-- `exec_copy` is what `document.execCommand("copy")` returns, or none where copying throws.
pub record Environment : Type 0 where
  pub write_text : Option Bool
  pub has_body : Bool
  pub exec_copy : Option Bool

-- The page around it: the clipboard, the text areas that the function has put into the body, and
-- which element has the focus.
pub data Focus : Type 0 where
  element : String → Focus
  text_area : Focus
  nowhere : Focus

pub record Document : Type 0 where
  pub clipboard : String
  pub text_areas : List String
  pub focus : Focus

-- `previouslyFocused?.focus()`
abbrev pub refocus : Focus → Focus → Focus
refocus (element id) now = element id
refocus text_area now = now
refocus nowhere now = now

-- An element that is taken out loses the focus.
abbrev pub unfocus : Focus → Focus
unfocus (element id) = element id
unfocus text_area = nowhere
unfocus nowhere = nowhere

abbrev pub drop_area : List String → List String
drop_area [] = []
drop_area (area ∷ areas) = areas

abbrev pub copied_by : Option Bool → Bool
copied_by none = false
copied_by (some copied) = copied

-- The text area: it is put into the body, selected and copied, and taken out again. Whether the text
-- was copied, and the document.
unfoldable pub copy_by_area : Environment → String → Document → Bool × Document
copy_by_area env value d =
    let copied = copied_by env.exec_copy in
    (
      copied,
      record {
        clipboard = if copied then value else d.clipboard;
        text_areas = drop_area (value ∷ d.text_areas);
        focus = refocus d.focus (unfocus text_area);
      },
    )

-- Whether the function returns or throws, and the document after it.
unfoldable pub write_by_area : Environment → String → Document → Bool × Document
unfolding copy_by_area
write_by_area env value d = if env.has_body then copy_by_area env value d else (false, d)

unfoldable pub write_clipboard : Environment → String → Document → Bool × Document
unfolding write_by_area
write_clipboard env value d = elim env.write_text [
  | none ↦ write_by_area env value d
  | some accepted ↦
      if accepted then (true, record d { clipboard = value }) else write_by_area env value d
]
