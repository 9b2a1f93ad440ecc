-- ===== src/Clipboard/Copying.antt =====
-- What copying leaves behind.
use grouproxy.Base.{String, true, ◌≡◌, ◌≢◌, ◌&&◌, arith, if◌then◌else◌}
use grouproxy.Clipboard.{Environment, Document, text_area, write_clipboard, copied_by}

-- Where the function returns, the clipboard has the text, and where it throws, what it had before. It
-- throws exactly if the Clipboard API is missing or refuses, and there is no document or its command
-- fails. Either way no text area stays in the page,
-- and the focus is where it was, which was not a text area of this kind.
pub write_clipboard_lem :
    (env : Environment) (value : String) (d : Document)
    → d.focus ≢ text_area
    → let r = write_clipboard env value d in
      (r.1.clipboard ≡ (if r.0 then value else d.clipboard))
      × (r.0 ≡ (if copied_by env.write_text then true else env.has_body && copied_by env.exec_copy))
      × (r.1.text_areas ≡ d.text_areas)
      × (r.1.focus ≡ d.focus)
unfolding write_clipboard
write_clipboard_lem env value d h = ground arith
