-- ===== src/Smtp/Session/Ends.antt =====
-- A session of src/smtp/session.rs comes to an end where its client sends finitely much.
use anony_mail.Base.{ℕ, zero, suc, ◌<◌, ◌≡◌, refl, ◌⊎◌, inl, inr, ◌++◌, arith, Result-cases}
use anony_mail.Base.Text.{text}
use anony_mail.Store.{Store}
use anony_mail.Model.{Bytes}
use anony_mail.Smtp.Wire.{Reader, LineStatus, line, eof, too_long, read_line}
use anony_mail.Smtp.Wire.Progress.{size, read_line-progress}
use anony_mail.Smtp.Session.{Context, Session, Outcome-cases, Outcome, next, stop, write_line}
use anony_mail.Smtp.Session.Handlers.{handle_command}
use anony_mail.Smtp.Session.Run.{command_line_max, command_of, on_line, round, rounds, budget, run}
use anony_mail.Smtp.Session.Spending.{IsReal, Spends, handle_command-Spends}

module _ (store : Store) (ctx : Context) where
  abbrev read_from : Reader → Session store.State → Session store.State
  read_from r s = record s { reader = r; commands = suc s.commands }

  abbrev SpendsLess : ℕ → Outcome store.State → Type 0
  SpendsLess b (next s) = budget store ctx s < b
  SpendsLess b (stop e s) = IsReal e

  Spends-lt : (a b : ℕ) (o : Outcome store.State) → a < b → Spends store ctx a o → SpendsLess b o
  Spends-lt a b (next s) h k = omega (arith, h, k)
  Spends-lt a b (stop e s) h k = k

  on_line-SpendsLess :
      (status : LineStatus) (l : Bytes) (r : Reader) (s : Session store.State)
      → (status ≡ eof) ⊎ (size r < size s.reader)
      → SpendsLess
          (budget store ctx s)
          (on_line store ctx (record { status = status; buf = l; reader = r }) s)
  unfolding on_line write_line
  on_line-SpendsLess eof l r s h = inl refl
  on_line-SpendsLess too_long l r s h = inl refl
  on_line-SpendsLess line l r s (inl e) = absurd (ground arith)
  on_line-SpendsLess line l r s (inr h) =
      Spends-lt (budget store ctx (read_from r s)) (budget store ctx s)
        (handle_command store ctx (command_of l) (read_from r s)) (omega (arith, h))
        (handle_command-Spends store ctx (command_of l) (read_from r s))

  round-SpendsLess : (s : Session store.State) → SpendsLess (budget store ctx s) (round store ctx s)
  unfolding round
  round-SpendsLess s = elim (Result-cases (read_line command_line_max s.reader)) [
    | inr (e, q) ↦ rw (round, q) (inr refl)
    | inl (out, q) ↦
        rw (round, q)
          (on_line-SpendsLess out.status out.buf out.reader s
            (read_line-progress command_line_max s.reader out q))
  ]

  rounds-IsReal :
      (fuel : ℕ) (s : Session store.State)
      → budget store ctx s < fuel
      → IsReal (rounds store ctx fuel s).0
  unfolding rounds
  rounds-IsReal zero s h = absurd (omega arith)
  rounds-IsReal (suc fuel) s h = elim (Outcome-cases (round store ctx s)) [
    | inr (e, s', q) ↦
        let w : SpendsLess (budget store ctx s) (stop e s') = rw q at (round-SpendsLess s) in
        rw (rounds, q) w
    | inl (s', q) ↦
        let w : SpendsLess (budget store ctx s) (next s') = rw q at (round-SpendsLess s) in
        rw (rounds, q) (rounds-IsReal fuel s' (omega (arith, h, w)))
  ]

  -- A session whose client sends finitely much and then closes, or stays silent until a read fails,
  -- comes to an end, closed or broken off by a failed read, whatever it is that the client sends, on
  -- the plain stream and on that behind a handshake, and whatever the store does.
  pub run-IsReal : (s : Session store.State) → IsReal (run store ctx s).0
  unfolding run write_line
  run-IsReal s =
      rounds-IsReal (suc (budget store ctx s))
        (write_line (text "220 " ++ ctx.config.smtp_hostname ++ text " ESMTP anony-mail") s)
        (omega arith)
