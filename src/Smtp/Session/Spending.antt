-- ===== src/Smtp/Session/Spending.antt =====
-- No command of src/smtp/session.rs makes more to read: what is left of the streams after one is at
-- most what was left before.
use anony_mail.Base.{
  ℕ, ◌≤◌, ◌≡◌, refl, ◌⊎◌, inl, inr, [], arith, leb, Bool-cases, Option-cases, Result, is_none,
  unwrap_or, length, ok, err,
}
use anony_mail.Base.Text.{Str, text, is_empty, trim, to_ascii_lowercase}
use anony_mail.Store.{Store, StoreError}
use anony_mail.Model.{Bytes}
use anony_mail.Smtp.Commands.{
  Command, helo, ehlo, mail_from, rcpt_to, data_command, rset, noop, quit, start_tls, vrfy, help,
  unknown,
}
use anony_mail.Smtp.Data.{DataOutcome, complete, too_large, connection_closed, read_data}
use anony_mail.Smtp.Data.Ends.{read_data-ends, read_data-IsBehind}
use anony_mail.Smtp.Recipient.{
  RecipientCheck, accept, not_our_domain, no_mailbox, error, validate_recipient,
}
use anony_mail.Smtp.Wire.{Reader}
use anony_mail.Smtp.Wire.Progress.{size}
use anony_mail.Smtp.Session.{
  Context, Session, Ending, Outcome, next, stop, closed, io_failed, reset_tx, write_line,
}
use anony_mail.Smtp.Session.Delivery.{store_message, deliver, to_store}
use anony_mail.Smtp.Session.Replies.{write_ehlo, storage_has_headroom}
use anony_mail.Smtp.Session.Handlers.{
  handle_mail, answer_check, handle_rcpt, answer_stored, after_data, receive, handle_data,
  handle_start_tls, handle_command,
}
use anony_mail.Smtp.Session.Run.{budget}

-- An ending that is one of the code's.
abbrev pub IsReal : Ending → Type 0
IsReal e = (e ≡ closed) ⊎ (e ≡ io_failed)

module _ (store : Store) (ctx : Context) where
  -- No more than `b` to read is left, or the session has ended.
  abbrev pub Spends : ℕ → Outcome store.State → Type 0
  Spends b (next s) = budget store ctx s ≤ b
  Spends b (stop e s) = IsReal e

  -- Nothing is read, nor is TLS begun.
  abbrev SameWire : Session store.State → Session store.State → Type 0
  SameWire s s' = (s'.reader ≡ s.reader) × (s'.tls_active ≡ s.tls_active)

  same-budget :
      (s s' : Session store.State) → SameWire s s' → budget store ctx s' ≤ budget store ctx s
  same-budget s s' (r, t) = rw (r, t) (omega arith)

  budget-reader :
      (s : Session store.State) (r : Reader)
      → size r ≤ size s.reader
      → budget store ctx (record s { reader = r }) ≤ budget store ctx s
  budget-reader s r h = omega (arith, h)

  Spends-le : (a b : ℕ) (o : Outcome store.State) → a ≤ b → Spends a o → Spends b o
  Spends-le a b (next s) h k = omega (arith, h, k)
  Spends-le a b (stop e s) h k = k

  handle_mail-SameWire : (addr : Str) (s : Session store.State) → SameWire s (handle_mail addr s)
  unfolding handle_mail write_line
  handle_mail-SameWire addr s = (ground arith, ground arith)

  answer_check-SameWire :
      (check : RecipientCheck) (s : Session store.State) → SameWire s (answer_check check s)
  unfolding answer_check write_line
  answer_check-SameWire (accept d) s = (ground arith, ground arith)
  answer_check-SameWire not_our_domain s = (refl, refl)
  answer_check-SameWire no_mailbox s = (refl, refl)
  answer_check-SameWire error s = (refl, refl)

  handle_rcpt-SameWire :
      (addr : Str) (s : Session store.State) → SameWire s (handle_rcpt store ctx addr s)
  unfolding handle_rcpt write_line
  handle_rcpt-SameWire addr s = elim (Bool-cases (is_none s.mail_from)) [
    | inl t ↦ rw t (refl, refl)
    | inr f ↦ elim (Bool-cases (leb ctx.config.max_recipients (length s.rcpts))) [
      | inl t ↦ rw (f, t) (refl, refl)
      | inr g ↦
          rw (f, g)
            (answer_check-SameWire
              (validate_recipient store ctx.config (ctx.clock s.commands) s.db
                (to_ascii_lowercase (trim addr))).0
              (record s {
                db =
                    (validate_recipient store ctx.config (ctx.clock s.commands) s.db
                      (to_ascii_lowercase (trim addr))).1;
              }))
    ]
  ]

  store_message-SameWire :
      (raw : Bytes) (s : Session store.State) → SameWire s (store_message store ctx raw s).1
  unfolding store_message
  store_message-SameWire raw s =
      elim (Option-cases
        (deliver store ctx.patterns (to_store ctx (unwrap_or s.mail_from []) raw) s.rcpts s.db
          s.events).0) [
            | inl e ↦ rw (store_message, e) (refl, refl)
            | inr (x, e) ↦ rw (store_message, e) (refl, refl)
          ]

  answer_stored-SameWire :
      (s : Session store.State) (o : Result ℕ StoreError × Session store.State)
      → SameWire s o.1
      → SameWire s (answer_stored store ctx o)
  unfolding answer_stored write_line
  answer_stored-SameWire s (ok n, s') h = h
  answer_stored-SameWire s (err e, s') h = h

  after_data-Spends :
      (o : DataOutcome) (s : Session store.State)
      → Spends (budget store ctx s) (after_data store ctx o s)
  unfolding after_data reset_tx write_line
  after_data-Spends (complete d) s =
      let same =
        answer_stored-SameWire s (store_message store ctx d s) (store_message-SameWire d s) in
      same-budget s (reset_tx (answer_stored store ctx (store_message store ctx d s))) same
  after_data-Spends too_large s = omega arith
  after_data-Spends connection_closed s = inl refl

  receive-Spends : (s : Session store.State) → Spends (budget store ctx s) (receive store ctx s)
  unfolding receive
  receive-Spends s = elim (Option-cases (read_data ctx.config.max_message_size s.reader)) [
    | inl e ↦ absurd (ground (arith, e, read_data-ends ctx.config.max_message_size s.reader))
    | inr (err x, e) ↦ rw (receive, e) (inr refl)
    | inr (ok (o, r), e) ↦
        rw (receive, e)
          (Spends-le _ _ (after_data store ctx o (record s { reader = r }))
            (budget-reader s r (rw e at (read_data-IsBehind ctx.config.max_message_size s.reader)))
            (after_data-Spends o (record s { reader = r })))
  ]

  handle_data-Spends :
      (s : Session store.State) → Spends (budget store ctx s) (handle_data store ctx s)
  unfolding handle_data write_line
  handle_data-Spends s = elim (Bool-cases (is_none s.mail_from)) [
    | inl t ↦ rw t (omega arith)
    | inr f ↦ elim (Bool-cases (is_empty s.rcpts)) [
      | inl t ↦ rw (f, t) (omega arith)
      | inr g ↦ elim (Bool-cases (storage_has_headroom ctx.config (ctx.free_space s.commands))) [
        | inr t ↦ rw (f, g, t) (omega arith)
        | inl h ↦
            rw (f, g, h)
              (receive-Spends (write_line (text "354 Start mail input; end with <CRLF>.<CRLF>") s))
      ]
    ]
  ]

  handle_start_tls-Spends :
      (s : Session store.State) → Spends (budget store ctx s) (handle_start_tls store ctx s)
  unfolding handle_start_tls write_line reset_tx
  handle_start_tls-Spends s = elim (Bool-cases s.tls_active) [
    | inl t ↦ rw t (omega arith)
    | inr f ↦ elim (Bool-cases ctx.tls_acceptor) [
      | inr t ↦ rw (f, t) (omega arith)
      | inl g ↦ elim (Option-cases ctx.handshake) [
        | inl e ↦ rw (f, g, e) (inl refl)
        | inr (fs, e) ↦ rw (f, g, e) (omega arith)
      ]
    ]
  ]

  pub handle_command-Spends :
      (c : Command) (s : Session store.State)
      → Spends (budget store ctx s) (handle_command store ctx c s)
  unfolding handle_command write_line reset_tx write_ehlo
  handle_command-Spends quit s = inl refl
  handle_command-Spends (ehlo domain) s = omega arith
  handle_command-Spends (helo domain) s = omega arith
  handle_command-Spends (mail_from addr) s =
      same-budget s (handle_mail addr s) (handle_mail-SameWire addr s)
  handle_command-Spends (rcpt_to addr) s =
      same-budget s (handle_rcpt store ctx addr s) (handle_rcpt-SameWire addr s)
  handle_command-Spends data_command s = handle_data-Spends s
  handle_command-Spends rset s = omega arith
  handle_command-Spends noop s = omega arith
  handle_command-Spends start_tls s = handle_start_tls-Spends s
  handle_command-Spends vrfy s = omega arith
  handle_command-Spends help s = omega arith
  handle_command-Spends (unknown l) s = omega arith
