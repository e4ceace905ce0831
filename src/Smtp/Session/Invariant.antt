-- ===== src/Smtp/Session/Invariant.antt =====
-- The order of a transaction is kept by every command and every line of src/smtp/session.rs.
use anony_mail.Base.{
  ℕ, zero, suc, refl, sym, ◌∙◌, inl, inr, true, none, some, List, [], arith, if-true, if-false,
  Bool-cases, Option-cases, Result-cases, is_none, ok, err,
}
use anony_mail.Base.Text.{text, is_empty}
use mathlib.Core.Path.{subst}
use anony_mail.Model.{Bytes}
use anony_mail.Events.{MailEvent}
use anony_mail.Store.{Store}
use anony_mail.Smtp.Commands.{
  Command, helo, ehlo, mail_from, rcpt_to, data_command, rset, noop, quit, start_tls, vrfy, help,
  unknown,
}
use anony_mail.Smtp.Data.{DataOutcome, complete, too_large, connection_closed, read_data}
use anony_mail.Smtp.Wire.{Reader, LineStatus, line, eof, too_long, read_line}
use anony_mail.Smtp.Session.{
  Context, Session, handle, Outcome-cases, Outcome, next, stop, reset_tx, write_line,
}
use anony_mail.Smtp.Session.Delivery.{store_message}
use anony_mail.Smtp.Session.Replies.{storage_has_headroom}
use anony_mail.Smtp.Session.Handlers.{
  answer_stored, after_data, receive, handle_data, handle_start_tls, handle_command,
}
use anony_mail.Smtp.Session.Run.{command_line_max, command_of, on_line, round, rounds}
use anony_mail.Smtp.Session.Order.{
  IsOrderly, reset-IsOrderly, same-IsOrderly, write-IsOrderly, ehlo-IsOrderly,
  handle_mail-IsOrderly, handle_rcpt-IsOrderly,
}

module _ (store : Store) (ctx : Context) where
  abbrev max : ℕ
  max = ctx.config.max_recipients

  abbrev Keeps : Outcome store.State → Type 0
  Keeps (next s) = IsOrderly max s
  Keeps (stop e s) = IsOrderly max s

  after_data-IsOrderly :
      (o : DataOutcome) (s : Session store.State)
      → IsOrderly max s
      → Keeps (after_data store ctx o s)
  unfolding after_data
  after_data-IsOrderly (complete d) s h =
      reset-IsOrderly store ctx (answer_stored store ctx (store_message store ctx d s))
  after_data-IsOrderly too_large s h =
      reset-IsOrderly store ctx (write_line (text "552 5.3.4 Message too large") s)
  after_data-IsOrderly connection_closed s h = h

  receive-IsOrderly : (s : Session store.State) → IsOrderly max s → Keeps (receive store ctx s)
  unfolding receive
  receive-IsOrderly s h = elim (Option-cases (read_data ctx.config.max_message_size s.reader)) [
    | inl e ↦ rw (receive, e) h
    | inr (err x, e) ↦ rw (receive, e) h
    | inr (ok (o, r), e) ↦
        let s' : Session store.State = record s { reader = r } in
        rw (receive, e) (after_data-IsOrderly o s' (same-IsOrderly store ctx s s' refl refl refl h))
  ]

  handle_data-IsOrderly :
      (s : Session store.State) → IsOrderly max s → Keeps (handle_data store ctx s)
  unfolding handle_data
  handle_data-IsOrderly s h = elim (Bool-cases (is_none s.mail_from)) [
    | inl t ↦ rw t (write-IsOrderly store ctx _ s h)
    | inr f ↦ elim (Bool-cases (is_empty s.rcpts)) [
      | inl t ↦ rw (f, t) (write-IsOrderly store ctx _ s h)
      | inr g ↦ elim (Bool-cases (storage_has_headroom ctx.config (ctx.free_space s.commands))) [
        | inr t ↦ rw (f, g, t) (write-IsOrderly store ctx _ s h)
        | inl k ↦ rw (f, g, k) (receive-IsOrderly _ (write-IsOrderly store ctx _ s h))
      ]
    ]
  ]

  handle_start_tls-IsOrderly :
      (s : Session store.State) → IsOrderly max s → Keeps (handle_start_tls store ctx s)
  unfolding handle_start_tls
  handle_start_tls-IsOrderly s h = elim (Bool-cases s.tls_active) [
    | inl t ↦ subst Keeps (sym (if-true _ _ t)) (write-IsOrderly store ctx _ s h)
    | inr f ↦ elim (Bool-cases ctx.tls_acceptor) [
      | inr t ↦
          subst Keeps (sym (if-false _ _ f ∙ if-false _ _ t)) (write-IsOrderly store ctx _ s h)
      | inl g ↦ elim (Option-cases ctx.handshake) [
        | inl e ↦
            subst Keeps (sym (if-false _ _ f ∙ if-true _ _ g))
              (rw e (write-IsOrderly store ctx _ s h))
        | inr (fs, e) ↦ subst Keeps (sym (if-false _ _ f ∙ if-true _ _ g)) (
            rw e (
              reset-IsOrderly store ctx
                (record (write_line (text "220 2.0.0 Ready to start TLS") s) {
                  reader = record { buffered = []; incoming = fs };
                  tls_active = true;
                  helo = none;
                })))
      ]
    ]
  ]

  -- Every command keeps the transaction in order, whatever the store answers, and a session that
  -- ends, ends in order.
  pub handle_command-IsOrderly :
      (c : Command) (s : Session store.State)
      → IsOrderly max s
      → Keeps (handle_command store ctx c s)
  unfolding handle_command
  handle_command-IsOrderly quit s h = write-IsOrderly store ctx _ s h
  handle_command-IsOrderly (ehlo domain) s h =
      ehlo-IsOrderly store ctx (reset_tx (record s { helo = some domain }))
        (reset-IsOrderly store ctx (record s { helo = some domain }))
  handle_command-IsOrderly (helo domain) s h =
      write-IsOrderly store ctx _ (reset_tx (record s { helo = some domain }))
        (reset-IsOrderly store ctx (record s { helo = some domain }))
  handle_command-IsOrderly (mail_from addr) s h = handle_mail-IsOrderly store ctx addr s h
  handle_command-IsOrderly (rcpt_to addr) s h = handle_rcpt-IsOrderly store ctx addr s h
  handle_command-IsOrderly data_command s h = handle_data-IsOrderly s h
  handle_command-IsOrderly rset s h =
      write-IsOrderly store ctx _ (reset_tx s) (reset-IsOrderly store ctx s)
  handle_command-IsOrderly noop s h = write-IsOrderly store ctx _ s h
  handle_command-IsOrderly start_tls s h = handle_start_tls-IsOrderly s h
  handle_command-IsOrderly vrfy s h = write-IsOrderly store ctx _ s h
  handle_command-IsOrderly help s h = write-IsOrderly store ctx _ s h
  handle_command-IsOrderly (unknown l) s h = write-IsOrderly store ctx _ s h

  on_line-IsOrderly :
      (status : LineStatus) (l : Bytes) (r : Reader) (s : Session store.State)
      → IsOrderly max s
      → Keeps (on_line store ctx (record { status = status; buf = l; reader = r }) s)
  unfolding on_line
  on_line-IsOrderly status l r s h =
      let s' : Session store.State = record s { reader = r; commands = suc s.commands } in
      let o : IsOrderly max s' = same-IsOrderly store ctx s s' refl refl refl h in
      elim status
        as (λ x. Keeps (on_line store ctx (record { status = x; buf = l; reader = r }) s)) [
          | eof ↦ o
          | too_long ↦ write-IsOrderly store ctx _ s' o
          | line ↦ handle_command-IsOrderly (command_of l) s' o
        ]

  round-IsOrderly : (s : Session store.State) → IsOrderly max s → Keeps (round store ctx s)
  unfolding round
  round-IsOrderly s h = elim (Result-cases (read_line command_line_max s.reader)) [
    | inr (e, q) ↦ rw (round, q) h
    | inl (out, q) ↦ rw (round, q) (on_line-IsOrderly out.status out.buf out.reader s h)
  ]

  rounds-IsOrderly :
      (fuel : ℕ) (s : Session store.State)
      → IsOrderly max s
      → IsOrderly max (rounds store ctx fuel s).1
  unfolding rounds
  rounds-IsOrderly zero s h = h
  rounds-IsOrderly (suc fuel) s h = elim (Outcome-cases (round store ctx s)) [
    | inr (e, s', q) ↦ let w : Keeps (stop e s') = rw q at (round-IsOrderly s h) in rw (rounds, q) w
    | inl (s', q) ↦
        let w : Keeps (next s') = rw q at (round-IsOrderly s h) in
        rw (rounds, q) (rounds-IsOrderly fuel s' w)
  ]

  -- After any number of lines of a new connection, the transaction is in order: there are recipients
  -- only behind a sender and a sender only behind a greeting, and the recipients are distinct and no
  -- more than the configuration allows.
  pub connection-IsOrderly :
      (lines : ℕ) (reader : Reader) (db : store.State) (events : List MailEvent)
      → IsOrderly max (rounds store ctx lines (handle reader db events)).1
  connection-IsOrderly lines reader db events =
      rounds-IsOrderly lines (handle reader db events)
        (record { after_mail = refl; after_helo = refl; few = omega arith; distinct = tt })
