-- ===== src/Store/Memory/Messages.antt =====
-- The message operations of src/store/memory.rs. `now` is the reading of the clock; `new_v4 i` is
-- the i-th identifier that the call draws, the attachments' before the message's.
use anony_mail.Base.{
  ℕ, ◌+◌, ◌-◌, Bool, true, false, not, ◌&&◌, Option, none, some, List, [], ◌∷◌, ◌++◌, map, ltb,
  if◌then◌else◌, ◌==◌, is_some, is_none_or, length, take, retain, find, nat_eq, str_eq,
}
use mathlib.Core.Option
use anony_mail.Base.Int.{as_i32}
use anony_mail.Base.Sort.{sort_by}
use anony_mail.Base.Text.{Str, is_empty}
use anony_mail.Model.{
  Time, Uuid, Bytes, MessageSummary, AttachmentMeta, StoredMessage, Attachment, NewAttachment,
  NewMessage,
}
use anony_mail.Store.{MailboxQuotas}
use anony_mail.Store.Memory.{Inner, Entry}
use anony_mail.Store.Memory.Quota.{newer, in_mailbox, enforce_quotas}

unfoldable pub metas : (ℕ → Uuid) → ℕ → List NewAttachment → List AttachmentMeta
metas new_v4 i [] = []
metas new_v4 i (att ∷ atts) =
    record {
      id = new_v4 i;
      filename = att.filename;
      content_type = att.content_type;
      size = as_i32 (length att.content);
    }
    ∷ metas new_v4 (i + 1) atts

unfoldable pub contents : (ℕ → Uuid) → ℕ → List NewAttachment → List (Uuid × Bytes)
contents new_v4 i [] = []
contents new_v4 i (att ∷ atts) = (new_v4 i, att.content) ∷ contents new_v4 (i + 1) atts

unfoldable pub stored_message : (ℕ → Uuid) → Time → Str → NewMessage → StoredMessage
unfolding metas
stored_message new_v4 now address message = record {
  id = new_v4 (length message.attachments);
  mailbox_address = address;
  mail_from = message.mail_from;
  subject = message.subject;
  message_date = message.message_date;
  text_body = message.text_body;
  html_body = message.html_body;
  raw_size = message.raw_size;
  received_at = now;
  seen = false;
  attachments = metas new_v4 0 message.attachments;
}

unfoldable pub new_entry : (ℕ → Uuid) → Time → Str → NewMessage → Entry
unfolding stored_message contents
new_entry new_v4 now address message = record {
  message = stored_message new_v4 now address message;
  contents = contents new_v4 0 message.attachments;
  raw = message.raw_content;
}

unfoldable pub save_message :
    MailboxQuotas → (ℕ → Uuid) → Time → Inner → Str → NewMessage → StoredMessage × Inner
unfolding new_entry
save_message quotas new_v4 now inner address message =
    let e = new_entry new_v4 now address message in
    (
      e.message,
      enforce_quotas (record inner { messages = inner.messages ++ e ∷ [] }) address e.message.id
          quotas,
    )

unfoldable pub has_id : Str → Uuid → Entry → Bool
has_id address id e = e.message.mailbox_address == address && e.message.id == id

-- The keyset anchor; one that has vanished means no cursor.
unfoldable pub anchor_of : Inner → Str → Option Uuid → Option (Time × Uuid)
unfolding has_id
anchor_of inner address none = none
anchor_of inner address (some id) =
    Option.map (λ (e : Entry). (e.message.received_at, e.message.id))
      (find (has_id address id) inner.messages)

unfoldable pub summary : Entry → MessageSummary
summary e = record {
  id = e.message.id;
  mail_from = e.message.mail_from;
  subject = e.message.subject;
  received_at = e.message.received_at;
  has_attachments = not (is_empty e.message.attachments);
  seen = e.message.seen;
}

unfoldable pub newer_summary : MessageSummary → MessageSummary → Bool
unfolding newer
newer_summary a b = newer (a.received_at, a.id) (b.received_at, b.id)

unfoldable pub after_anchor : Option (Time × Uuid) → Entry → Bool
unfolding newer
after_anchor anchor e = is_none_or anchor (λ a. newer (e.message.received_at, e.message.id) a)

unfoldable pub list_messages : Inner → Str → ℕ → Option Uuid → List MessageSummary
unfolding anchor_of summary newer_summary after_anchor in_mailbox
list_messages inner address limit since =
    let anchor = anchor_of inner address since in
    let summaries =
      sort_by newer_summary
        (map summary (retain (after_anchor anchor) (retain (in_mailbox address) inner.messages))) in
    if ltb 0 limit then take limit summaries else summaries

unfoldable pub get_message : Inner → Str → Uuid → Option StoredMessage
unfolding has_id
get_message inner address id =
    Option.map (λ (e : Entry). e.message) (find (has_id address id) inner.messages)

unfoldable pub get_raw_message : Inner → Str → Uuid → Option Bytes
unfolding has_id
get_raw_message inner address id =
    Option.bind (find (has_id address id) inner.messages) (λ (e : Entry). e.raw)

unfoldable pub attachment_of : Uuid → Entry → Option Attachment
attachment_of attachment_id entry =
    Option.bind (find (λ (a : AttachmentMeta). a.id == attachment_id) entry.message.attachments)
      λ meta.
        Option.map
          (λ (c : Uuid × Bytes). record {
            filename = meta.filename;
            content_type = meta.content_type;
            content = c.1;
          })
          (find (λ (c : Uuid × Bytes). c.0 == attachment_id) entry.contents)

unfoldable pub get_attachment : Inner → Str → Uuid → Uuid → Option Attachment
unfolding has_id attachment_of
get_attachment inner address message_id attachment_id =
    Option.bind (find (has_id address message_id) inner.messages) (attachment_of attachment_id)

unfoldable pub delete_message : Inner → Str → Uuid → Bool × Inner
unfolding has_id
delete_message inner address id =
    let messages' = retain (λ e. not (has_id address id e)) inner.messages in
    (not (length messages' == length inner.messages), record inner { messages = messages' })

-- `iter_mut().find(..)` and the write of `seen`.
unfoldable pub see : (Entry → Bool) → List Entry → List Entry
see p [] = []
see p (e ∷ es) =
    if p e then record e { message = record e.message { seen = true } } ∷ es else e ∷ see p es

unfoldable pub mark_seen : Inner → Str → Uuid → Bool × Inner
unfolding has_id see
mark_seen inner address id = (
  is_some (find (has_id address id) inner.messages),
  record inner { messages = see (has_id address id) inner.messages },
)

unfoldable pub delete_all_messages : Inner → Str → ℕ × Inner
unfolding in_mailbox
delete_all_messages inner address =
    let messages' = retain (λ e. not (in_mailbox address e)) inner.messages in
    (length inner.messages - length messages', record inner { messages = messages' })
