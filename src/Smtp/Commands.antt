-- ===== src/Smtp/Commands.antt =====
-- src/smtp/commands.rs: the commands, and how a line is read as one.
use anony_mail.Base.{
  ◌+◌, Option, none, some, [], ◌∷◌, ◌++◌, if◌then◌else◌, ◌==◌, length, drop, nat_eq, str_eq,
}
use mathlib.Core.Option
use anony_mail.Base.Text.{
  Str, text, is_whitespace, to_ascii_lowercase, to_ascii_uppercase, trim, trim_start, split_once,
  find_str,
}

pub data Command : Type 0 where
  helo : Str → Command
  ehlo : Str → Command
  mail_from : Str → Command
  rcpt_to : Str → Command
  data_command : Command
  rset : Command
  noop : Command
  quit : Command
  start_tls : Command
  vrfy : Command
  help : Command
  unknown : Str → Command

-- The parts of a `split_once` that may have found nothing.
abbrev before : Str → Option (Str × Str) → Str
before s none = s
before s (some (a, b)) = a

abbrev behind : Option (Str × Str) → Str
behind none = []
behind (some (a, b)) = b

-- The address behind `keyword:`, with its brackets or bare.
path_at : Str → Option Str
path_at after = elim (split_once (λ c. c == b'<') after) [
  | some (_, rest) ↦ Option.map (λ r. trim r.0) (split_once (λ c. c == b'>') rest)
  | none ↦ let bare = trim_start after in some (before bare (split_once is_whitespace bare))
]

unfoldable pub extract_path : Str → Str → Option Str
unfolding path_at
extract_path args keyword =
    let needle = to_ascii_lowercase keyword ++ (b':' ∷ []) in
    Option.bind (find_str (to_ascii_lowercase args) needle)
      (λ idx. path_at (trim_start (drop (idx + length needle) args)))

path_or_unknown : (Str → Command) → Str → Option Str → Command
path_or_unknown f line none = unknown line
path_or_unknown f line (some addr) = f addr

unfoldable pub parse : Str → Command
unfolding extract_path path_or_unknown
parse line =
    let trimmed = trim line in
    let parts = split_once is_whitespace trimmed in
    let verb = to_ascii_uppercase (before trimmed parts) in
    let rest = trim (behind parts) in
    if verb == text "HELO"
    then helo rest
    else if verb == text "EHLO"
    then ehlo rest
    else if verb == text "MAIL"
    then path_or_unknown mail_from trimmed (extract_path rest (text "FROM"))
    else if verb == text "RCPT"
    then path_or_unknown rcpt_to trimmed (extract_path rest (text "TO"))
    else if verb == text "DATA"
    then data_command
    else if verb == text "RSET"
    then rset
    else if verb == text "NOOP"
    then noop
    else if verb == text "QUIT"
    then quit
    else if verb == text "STARTTLS"
    then start_tls
    else if verb == text "VRFY"
    then vrfy
    else if verb == text "HELP"
    then help
    else unknown trimmed
