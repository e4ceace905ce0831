-- ===== src/Smtp/Session/StartTls.antt =====
-- The command-injection guard of src/smtp/session.rs: nothing of the plain part of a connection
-- counts once TLS is up.
use anony_mail.Base.{◌≡◌, refl, true, false, Option, some, List}
use anony_mail.Base.Text.{Str}
use anony_mail.Store.{Store}
use anony_mail.Smtp.Wire.{Fill, Reader}
use anony_mail.Smtp.Session.{Context, Session, reset_tx, write_line}
use anony_mail.Smtp.Session.Handlers.{handle_start_tls}

-- Once a handshake succeeds, the session is the same whatever was greeted, whatever transaction was
-- open and whatever plaintext had arrived behind the STARTTLS, buffered or not.
pub start_tls-forgets :
    (store : Store) (ctx : Context) (s : Session store.State) (fs : List Fill)
    → s.tls_active ≡ false
    → ctx.tls_acceptor ≡ true
    → ctx.handshake ≡ some fs
    → (helo mail_from : Option Str) (rcpts : List Str) (reader : Reader)
    → handle_start_tls store ctx
        (record s { helo = helo; mail_from = mail_from; rcpts = rcpts; reader = reader })
      ≡ handle_start_tls store ctx s
unfolding handle_start_tls write_line reset_tx
start_tls-forgets store ctx s fs p a h helo mail_from rcpts reader = rw (p, a, h) refl
