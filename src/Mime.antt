-- ===== src/Mime.antt =====
-- src/mime.rs: a raw message as the record to store. `MessageParser` of the `mail_parser` crate is a
-- parameter; a `Parsed` is what the source asks of its result.
use anony_mail.Base.{
  ℕ, min, Bool, not, Option, none, some, List, [], ◌∷◌, ◌++◌, map, if◌then◌else◌, length, retain,
}
use anony_mail.Base.Int.{pos}
use anony_mail.Base.Text.{Str, text, is_empty, trim}
use anony_mail.Model.{Time, Bytes, NewAttachment, NewMessage}

pub record Addr : Type 0 where
  pub name : Option Str
  pub address : Option Str

pub record ContentType : Type 0 where
  pub ctype : Str
  pub subtype : Option Str

pub record Part : Type 0 where
  pub is_multipart : Bool
  pub content_type : Option ContentType
  pub attachment_name : Option Str
  pub contents : Bytes

pub record Parsed : Type 0 where
  pub from : Option (List Addr)
  pub subject : Option Str
  pub date : Option Time
  pub body_text : Option Str
  pub body_html : Option Str
  pub attachments : List Part

-- i32::MAX
abbrev pub i32_max : ℕ
i32_max = 2147483647

-- `.map(str::trim).filter(|s| !s.is_empty())`
non_blank : Option Str → Option Str
non_blank none = none
non_blank (some s) = let s' = trim s in if is_empty s' then none else some s'

display : Option Str → Option Str → Str
display (some name) (some email) = name ++ text " <" ++ email ++ text ">"
display none (some email) = email
display (some name) none = name
display none none = []

unfoldable pub format_addr : Addr → Str
unfolding non_blank display
format_addr addr = display (non_blank addr.name) (non_blank addr.address)

first_addr : Option (List Addr) → Option Addr
first_addr none = none
first_addr (some []) = none
first_addr (some (a ∷ as')) = some a

sender : Option Addr → Str → Str
unfolding format_addr
sender none envelope_from = envelope_from
sender (some a) envelope_from = if is_empty (format_addr a) then envelope_from else format_addr a

media_type : Option ContentType → Str
media_type none = text "application/octet-stream"
media_type (some ct) = elim ct.subtype [ some sub ↦ ct.ctype ++ text "/" ++ sub | none ↦ ct.ctype ]

new_attachment : Part → NewAttachment
unfolding media_type
new_attachment part = record {
  filename = part.attachment_name;
  content_type = media_type part.content_type;
  content = part.contents;
}

unfoldable pub parse_message : (Bytes → Option Parsed) → Bytes → Str → NewMessage
unfolding sender first_addr new_attachment
parse_message parser raw envelope_from =
    let raw_size = pos (min (length raw) i32_max) in
    elim (parser raw) [
      | none ↦ record {
        mail_from = envelope_from;
        subject = none;
        message_date = none;
        text_body = none;
        html_body = none;
        raw_size = raw_size;
        raw_content = none;
        attachments = [];
      }
      | some message ↦ record {
        mail_from = sender (first_addr message.from) envelope_from;
        subject = message.subject;
        message_date = message.date;
        text_body = message.body_text;
        html_body = message.body_html;
        raw_size = raw_size;
        raw_content = none;
        attachments = map new_attachment (retain (λ p. not p.is_multipart) message.attachments);
      }
    ]
