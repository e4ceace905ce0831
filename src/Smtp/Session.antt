-- ===== src/Smtp/Session.antt =====
-- The session of src/smtp/session.rs. A line that is written is taken to arrive; the stream that a
-- handshake of the TLS library leads to, the free space that `fs4` reports and the clock are given.
pub mod Replies
pub mod Delivery
pub mod Handlers
pub mod Run
pub mod Order
pub mod Invariant
pub mod Spending
pub mod Ends
pub mod StartTls
pub mod Notices
use anony_mail.Base.{ℕ, ◌≡◌, refl, ◌⊎◌, inl, inr, Bool, false, Option, none, List, [], ◌∷◌, ◌++◌}
use anony_mail.Base.Text.{Str}
use anony_mail.Model.{Time, Bytes}
use anony_mail.Config.{Config}
use anony_mail.Events.{MailEvent}
use anony_mail.Mime.{Parsed}
use anony_mail.Otp.{Patterns}
use anony_mail.Smtp.Wire.{Fill, Reader}

-- `SmtpContext`, and what the session asks of its surroundings: `clock c i` is the i-th reading of
-- the clock in command `c`; `free_space c path` is `fs4::available_space` for the directory of
-- `path`, `none` on an error; `handshake` is what comes on the TLS stream, `none` if it fails.
pub record Context : Type 0 where
  pub config : Config
  pub tls_acceptor : Bool
  pub patterns : Patterns
  pub parser : Bytes → Option Parsed
  pub clock : ℕ → ℕ → Time
  pub free_space : ℕ → Str → Option ℕ
  pub handshake : Option (List Fill)

-- The session, its socket both ways, and the store and the channel that it shares with the others.
pub record Session (Db : Type 0) : Type 0 where
  pub helo : Option Str
  pub mail_from : Option Str
  pub rcpts : List Str
  pub tls_active : Bool
  pub reader : Reader
  pub replies : List Str
  pub commands : ℕ
  pub db : Db
  pub events : List MailEvent

-- How a session ends.
pub data Ending : Type 0 where
  closed : Ending
  io_failed : Ending
  out_of_fuel : Ending

pub data Outcome (Db : Type 0) : Type 0 where
  next : Session Db → Outcome Db
  stop : Ending → Session Db → Outcome Db

-- A session that has only just been accepted.
abbrev pub handle : {Db : Type 0} → Reader → Db → List MailEvent → Session Db
handle reader db events = record {
  helo = none;
  mail_from = none;
  rcpts = [];
  tls_active = false;
  reader = reader;
  replies = [];
  commands = 0;
  db = db;
  events = events;
}

unfoldable pub reset_tx : {Db : Type 0} → Session Db → Session Db
reset_tx s = record s { mail_from = none; rcpts = [] }

unfoldable pub write_line : {Db : Type 0} → Str → Session Db → Session Db
write_line reply s = record s { replies = s.replies ++ reply ∷ [] }

pub Outcome-cases :
    {Db : Type 0} (o : Outcome Db)
    → ((s : Session Db) × (o ≡ next s)) ⊎ ((e : Ending) × (s : Session Db) × (o ≡ stop e s))
Outcome-cases (next s) = inl (s, refl)
Outcome-cases (stop e s) = inr (e, s, refl)
