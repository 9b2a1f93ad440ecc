-- ===== src/Access/Quoting.antt =====
-- What a POSIX shell reads where the guide of frontend/app/access/page.tsx puts a quoted value.
use text.Mathlib.TextLemmas.{cons-append, nil-append, append_assoc}
use text.Mathlib.TextEquality.{Char-path}
use grouproxy.Base.{
  String, Char, code, ◌<>◌, ◌≡◌, false, Option, none, some, ◌==◌, ==_iff, if◌then◌else◌, Bool-cases,
  inl, inr,
}
use grouproxy.Api.Entities.Accounts.{AccessConfig}
use grouproxy.Api.Url.{is_alnum}
use grouproxy.Release.{strip_prefix, ◌>>=◌}
use grouproxy.Release.Events.{strip_prefix-append}
use grouproxy.Access.{
  escape_quotes, shell_quote, newline, endpoint, linux_quick_command, linux_validation_command,
  other_exports, curl_command,
}

abbrev pub with_char : Char → Option (String × String) → Option (String × String)
with_char c none = none
with_char c (some (word, rest)) = some (String.◌∷◌ c word, rest)

-- One word of a shell command, to the end of its line, and what follows: between quotes every
-- character stands for itself, outside a backslash takes the next one as it is. `none` where a quote
-- stays open, or where a character outside of quotes may mean something else to the shell.
mutual
  pub read_word : String → Option (String × String)
  read_word String.[] = some ("", "")
  read_word (String.◌∷◌ c s) =
      let inside = read_quoted s in
      let escaped = read_escaped s in
      let plain = read_word s in
      if code c == 39
      then inside
      else if code c == b'\\'
      then escaped
      else if code c == 10
      then some ("", s)
      else if is_alnum (code c)
      then with_char c plain
      else none

  pub read_escaped : String → Option (String × String)
  read_escaped String.[] = none
  read_escaped (String.◌∷◌ c s) = with_char c (read_word s)

  pub read_quoted : String → Option (String × String)
  read_quoted String.[] = none
  read_quoted (String.◌∷◌ c s) =
      let outside = read_word s in
      let more = read_quoted s in if code c == 39 then outside else with_char c more

-- A quote that is written as the end of a quoted part, one escaped, and the next part.
reopened :
    (s word rest : String)
    → read_quoted s ≡ some (word, rest)
    → read_quoted (String.◌∷◌ "'" (String.◌∷◌ "\\" (String.◌∷◌ "'" (String.◌∷◌ "'" s))))
      ≡ some (String.◌∷◌ "'" word, rest)
unfolding read_quoted read_word read_escaped
reopened s word rest h = rw h

quoted_char :
    (c : Char) (s word rest : String)
    → (code c == 39) ≡ false
    → read_quoted s ≡ some (word, rest)
    → read_quoted (String.◌∷◌ c s) ≡ some (String.◌∷◌ c word, rest)
unfolding read_quoted
quoted_char c s word rest other h = rw (other, h)

closed : (rest : String) → read_quoted ("'" <> (newline <> rest)) ≡ some ("", rest)
unfolding read_quoted read_word
closed rest =
    rw (cons-append "'" "" (newline <> rest), nil-append (newline <> rest))
      (rw (cons-append "\n" "" rest, nil-append rest, read_word))

read_quoted-escape_quotes :
    (value rest : String)
    → read_quoted (escape_quotes value <> ("'" <> (newline <> rest))) ≡ some (value, rest)
unfolding escape_quotes
read_quoted-escape_quotes String.[] rest = rw (nil-append ("'" <> (newline <> rest))) (closed rest)
read_quoted-escape_quotes (String.◌∷◌ c s) rest =
    let after : String = "'" <> (newline <> rest) in
    let known = read_quoted-escape_quotes s rest in
    elim (Bool-cases (code c == 39)) [
      | inl quote ↦
          rw (quote, Char-path c "'" ((==_iff (code c) 39).0 quote))
            (rw
              (
                cons-append "'"
                    (String.◌∷◌ "\\" (String.◌∷◌ "'" (String.◌∷◌ "'" (escape_quotes s)))) after,
                cons-append "\\" (String.◌∷◌ "'" (String.◌∷◌ "'" (escape_quotes s))) after,
                cons-append "'" (String.◌∷◌ "'" (escape_quotes s)) after,
                cons-append "'" (escape_quotes s) after,
              )
              (reopened (escape_quotes s <> after) s rest known))
      | inr other ↦ rw other (
          rw (cons-append c (escape_quotes s) after)
            (quoted_char c (escape_quotes s <> after) s rest other known))
    ]

-- A shell reads a quoted value as the value, whatever characters it has.
pub read_word-shell_quote :
    (value rest : String) → read_word (shell_quote value <> (newline <> rest)) ≡ some (value, rest)
unfolding read_word shell_quote
read_word-shell_quote value rest =
    let after : String = newline <> rest in
    rw
      (
        append_assoc "'" (escape_quotes value <> "'") after,
        append_assoc (escape_quotes value) "'" after,
        cons-append "'" "" (escape_quotes value <> ("'" <> after)),
        nil-append (escape_quotes value <> ("'" <> after)),
      )
      (read_quoted-escape_quotes value rest)

-- Reading a command of the guide as an assignment: its name, its value, and what follows the line.
abbrev pub assigned : String → String → Option (String × String)
assigned name command = do value ← strip_prefix name command; read_word value

assigned-shell_quote :
    (name value rest : String)
    → assigned name (name <> (shell_quote value <> (newline <> rest))) ≡ some (value, rest)
assigned-shell_quote name value rest =
    rw (strip_prefix-append name (shell_quote value <> (newline <> rest)))
      (read_word-shell_quote value rest)

-- In both commands for Linux the first line assigns the address of the proxy, whatever characters
-- the name of the host has, and the other commands follow as they are.
pub assigned-endpoint :
    (config : AccessConfig)
    → (assigned "export http_proxy=" (linux_quick_command config)
        ≡ some (endpoint config, other_exports))
      × (assigned "proxy=" (linux_validation_command config) ≡ some (endpoint config, curl_command))
unfolding linux_quick_command linux_validation_command
assigned-endpoint config = (
  assigned-shell_quote "export http_proxy=" (endpoint config) other_exports,
  assigned-shell_quote "proxy=" (endpoint config) curl_command,
)
