-- ===== src/Smtp/Session/Run.antt =====
-- The loop of src/smtp/session.rs.
use anony_mail.Base.{ℕ, zero, suc, ◌+◌, none, some, ◌++◌, if◌then◌else◌, ok, err}
use anony_mail.Base.Text.{text}
use anony_mail.Model.{Bytes}
use anony_mail.Store.{Store}
use anony_mail.Smtp.Commands.{Command, parse}
use anony_mail.Smtp.Utf8.{from_utf8_lossy}
use anony_mail.Smtp.Wire.{line, eof, too_long, ReadLine, read_line, strip_eol}
use anony_mail.Smtp.Wire.Progress.{size, weight}
use anony_mail.Smtp.Session.{
  Context, Session, Ending, closed, io_failed, out_of_fuel, Outcome, next, stop, write_line,
}
use anony_mail.Smtp.Session.Handlers.{handle_command}

abbrev pub command_line_max : ℕ
command_line_max = 4096

-- The command that a line is.
unfoldable pub command_of : Bytes → Command
unfolding parse from_utf8_lossy strip_eol
command_of l = parse (from_utf8_lossy (strip_eol l))

module _ (store : Store) (ctx : Context) where
  -- One line, and what is done on it.
  unfoldable pub on_line : ReadLine → Session store.State → Outcome store.State
  unfolding write_line handle_command command_of
  on_line out s =
      let s' = record s { reader = out.reader; commands = suc s.commands } in
      elim out.status [
        | eof ↦ stop closed s'
        | too_long ↦ stop closed (write_line (text "500 5.5.2 Line too long") s')
        | line ↦ handle_command store ctx (command_of out.buf) s'
      ]

  unfoldable pub round : Session store.State → Outcome store.State
  unfolding read_line on_line
  round s = elim (read_line command_line_max s.reader) [
    | err e ↦ stop io_failed s
    | ok out ↦ on_line out s
  ]

  unfoldable pub rounds : ℕ → Session store.State → Ending × Session store.State
  unfolding round
  rounds zero s = (out_of_fuel, s)
  rounds (suc fuel) s = elim (round s) [ stop ending s' ↦ (ending, s') | next s' ↦ rounds fuel s' ]

  -- What may still be read, on the plain stream and on the one behind a handshake.
  abbrev pub budget : Session store.State → ℕ
  budget s =
      size s.reader
      + (if s.tls_active then 0 else elim ctx.handshake [ none ↦ 0 | some fs ↦ weight fs ])

  unfoldable pub run : Session store.State → Ending × Session store.State
  unfolding rounds write_line
  run s =
      let greeting = text "220 " ++ ctx.config.smtp_hostname ++ text " ESMTP anony-mail" in
      rounds (suc (budget s)) (write_line greeting s)
