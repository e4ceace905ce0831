-- ===== src/Smtp/Session/Handlers.antt =====
-- What src/smtp/session.rs does on each command.
use anony_mail.Base.{
  ℕ, true, not, none, some, [], ◌∷◌, ◌++◌, leb, if◌then◌else◌, Result, is_some, is_none, length,
  contains, ok, err, nat_eq, str_eq,
}
use anony_mail.Base.Text.{Str, text, trim, to_ascii_lowercase, decimal, is_empty}
use anony_mail.Store.{Store, StoreError}
use anony_mail.Smtp.Commands.{
  Command, helo, ehlo, mail_from, rcpt_to, data_command, rset, noop, quit, start_tls, vrfy, help,
  unknown,
}
use anony_mail.Smtp.Data.{DataOutcome, complete, too_large, connection_closed, read_data}
use anony_mail.Smtp.Recipient.{
  RecipientCheck, accept, not_our_domain, no_mailbox, error, validate_recipient,
}
use anony_mail.Smtp.Session.{
  Context, Session, Outcome, next, stop, closed, io_failed, out_of_fuel, reset_tx, write_line,
}
use anony_mail.Smtp.Session.Delivery.{store_message}
use anony_mail.Smtp.Session.Replies.{write_ehlo, storage_has_headroom}

unfoldable pub handle_mail : {Db : Type 0} → Str → Session Db → Session Db
unfolding write_line
handle_mail addr s =
    if is_none s.helo
    then write_line (text "503 5.5.1 Send HELO/EHLO first") s
    else if is_some s.mail_from
    then write_line (text "503 5.5.1 Sender already specified") s
    else write_line (text "250 2.1.0 Sender OK") (record s { mail_from = some addr; rcpts = [] })

unfoldable pub answer_check : {Db : Type 0} → RecipientCheck → Session Db → Session Db
unfolding write_line
answer_check (accept delivery) s =
    write_line (text "250 2.1.5 Recipient OK")
      (if contains s.rcpts delivery then s else record s { rcpts = s.rcpts ++ delivery ∷ [] })
answer_check not_our_domain s = write_line (text "550 5.7.1 Relaying denied, not a local domain") s
answer_check no_mailbox s = write_line (text "550 5.1.1 No such user here") s
answer_check error s = write_line (text "451 4.3.0 Temporary lookup failure, try again later") s

module _ (store : Store) (ctx : Context) where
  unfoldable pub handle_rcpt : Str → Session store.State → Session store.State
  unfolding write_line answer_check
  handle_rcpt addr s =
      let recipient = to_ascii_lowercase (trim addr) in
      let (check, db') =
        validate_recipient store ctx.config (ctx.clock s.commands) s.db recipient in
      if is_none s.mail_from
      then write_line (text "503 5.5.1 Need MAIL before RCPT") s
      else if leb ctx.config.max_recipients (length s.rcpts)
      then write_line (text "452 4.5.3 Too many recipients") s
      else answer_check check (record s { db = db' })

  unfoldable pub answer_stored : Result ℕ StoreError × Session store.State → Session store.State
  unfolding write_line
  answer_stored (ok count, s) =
      write_line (text "250 2.0.0 Message accepted (" ++ decimal count ++ text " recipient(s))") s
  answer_stored (err e, s) =
      write_line (text "451 4.3.0 Could not store message, try again later") s

  -- What follows the body of a message.
  unfoldable pub after_data : DataOutcome → Session store.State → Outcome store.State
  unfolding answer_stored store_message reset_tx write_line
  after_data (complete data') s = next (reset_tx (answer_stored (store_message store ctx data' s)))
  after_data too_large s = next (reset_tx (write_line (text "552 5.3.4 Message too large") s))
  after_data connection_closed s = stop closed s

  unfoldable pub receive : Session store.State → Outcome store.State
  unfolding after_data read_data
  receive s = elim (read_data ctx.config.max_message_size s.reader) [
    | none ↦ stop out_of_fuel s
    | some (err e) ↦ stop io_failed s
    | some (ok (outcome, r)) ↦ after_data outcome (record s { reader = r })
  ]

  unfoldable pub handle_data : Session store.State → Outcome store.State
  unfolding receive write_line storage_has_headroom
  handle_data s =
      if is_none s.mail_from
      then next (write_line (text "503 5.5.1 Need MAIL before DATA") s)
      else if is_empty s.rcpts
      then next (write_line (text "554 5.5.1 No valid recipients") s)
      else if not (storage_has_headroom ctx.config (ctx.free_space s.commands))
      then next (write_line (text "452 4.3.1 Insufficient system storage") s)
      else receive (write_line (text "354 Start mail input; end with <CRLF>.<CRLF>") s)

  -- The socket is plain as long as TLS is not active, so its `already_tls` arm is never taken.
  unfoldable pub handle_start_tls : Session store.State → Outcome store.State
  unfolding write_line reset_tx
  handle_start_tls s =
      if s.tls_active
      then next (write_line (text "503 5.5.1 TLS already active") s)
      else if ctx.tls_acceptor
      then (let s' = write_line (text "220 2.0.0 Ready to start TLS") s in
          elim ctx.handshake [
            | none ↦ stop closed s'
            | some incoming ↦ next (
                reset_tx (record s' {
                  reader = record { buffered = []; incoming = incoming };
                  tls_active = true;
                  helo = none;
                }))
          ])
      else next (write_line (text "502 5.5.1 STARTTLS not supported") s)

  unfoldable pub handle_command : Command → Session store.State → Outcome store.State
  unfolding handle_mail handle_rcpt handle_data handle_start_tls write_line reset_tx write_ehlo
  handle_command quit s = stop closed (write_line (text "221 2.0.0 Bye") s)
  handle_command (ehlo domain) s =
      next (write_ehlo ctx (reset_tx (record s { helo = some domain })))
  handle_command (helo domain) s = next (
      write_line (text "250 " ++ ctx.config.smtp_hostname ++ text " Hello")
        (reset_tx (record s { helo = some domain })))
  handle_command (mail_from addr) s = next (handle_mail addr s)
  handle_command (rcpt_to addr) s = next (handle_rcpt addr s)
  handle_command data_command s = handle_data s
  handle_command rset s = next (write_line (text "250 2.0.0 OK") (reset_tx s))
  handle_command noop s = next (write_line (text "250 2.0.0 OK") s)
  handle_command start_tls s = handle_start_tls s
  handle_command vrfy s = next (write_line (text "252 2.5.2 Cannot VRFY user") s)
  handle_command help s = next (write_line (text "214 2.0.0 anony-mail inbound-only SMTP") s)
  handle_command (unknown line) s = next (write_line (text "500 5.5.2 Command not recognized") s)
