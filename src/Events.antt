-- ===== src/Events.antt =====
-- src/events.rs: what the subscribers of the event stream are told of a stored message. The channel
-- is the list of the events that were published, the latest last.
use anony_mail.Base.{Bool, not, Option, List, [], ◌∷◌, ◌++◌}
use anony_mail.Base.Text.{Str, is_empty}
use anony_mail.Model.{Time, Uuid, StoredMessage}
use anony_mail.Otp.{Patterns, extract}

pub record MailEvent : Type 0 where
  pub address : Str
  pub id : Uuid
  pub mail_from : Str
  pub subject : Option Str
  pub received_at : Time
  pub has_attachments : Bool
  pub code : Option Str

unfoldable pub from_stored : Patterns → Str → StoredMessage → MailEvent
from_stored patterns address msg = record {
  address = address;
  id = msg.id;
  mail_from = msg.mail_from;
  subject = msg.subject;
  received_at = msg.received_at;
  has_attachments = not (is_empty msg.attachments);
  code = extract patterns msg.subject msg.text_body;
}

unfoldable pub publish : List MailEvent → MailEvent → List MailEvent
publish sent event = sent ++ event ∷ []
