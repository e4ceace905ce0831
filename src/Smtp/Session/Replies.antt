-- ===== src/Smtp/Session/Replies.antt =====
-- The greeting of src/smtp/session.rs, and its watermark of free space.
use anony_mail.Base.{
  ℕ, Bool, true, false, not, ◌&&◌, Option, none, some, List, [], ◌∷◌, ◌++◌, leb, if◌then◌else◌,
  ◌==◌, nat_eq, str_eq,
}
use anony_mail.Base.Text.{Str, text, decimal}
use anony_mail.Config.{Config, sqlite_path}
use anony_mail.Smtp.Session.{Context, Session}

-- `write_multiline`: all lines but the last have a dash behind the code.
unfoldable pub multiline : Str → List Str → List Str
multiline code [] = []
multiline code (l ∷ []) = (code ++ b' ' ∷ l) ∷ []
multiline code (l ∷ m ∷ ls) = (code ++ b'-' ∷ l) ∷ multiline code (m ∷ ls)

starttls_cap : Bool → List Str
starttls_cap true = text "STARTTLS" ∷ []
starttls_cap false = []

unfoldable pub write_ehlo : {Db : Type 0} → Context → Session Db → Session Db
unfolding multiline starttls_cap
write_ehlo ctx s =
    let caps =
      (ctx.config.smtp_hostname ++ text " at your service")
        ∷ starttls_cap (ctx.tls_acceptor && not s.tls_active)
      ++ (text "SIZE " ++ decimal ctx.config.max_message_size)
        ∷ text "8BITMIME"
        ∷ text "PIPELINING"
        ∷ text "ENHANCEDSTATUSCODES"
        ∷ text "SMTPUTF8"
        ∷ [] in
    record s { replies = s.replies ++ multiline (text "250") caps }

enough : ℕ → Option ℕ → Bool
enough watermark none = true
enough watermark (some free) = leb watermark free

unfoldable pub storage_has_headroom : Config → (Str → Option ℕ) → Bool
unfolding enough
storage_has_headroom config free_space =
    if config.min_free_disk_bytes == 0 then true else elim (sqlite_path config) [
      | none ↦ true
      | some db_path ↦ enough config.min_free_disk_bytes (free_space db_path)
    ]
