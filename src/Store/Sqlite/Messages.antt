-- ===== src/Store/Sqlite/Messages.antt =====
-- The message queries of src/store/sqlite.rs. `new_v4 i` is the i-th identifier that a call draws,
-- the message's before the attachments'.
use anony_mail.Base.{
  ℕ, ◌+◌, Bool, false, not, ◌&&◌, ◌||◌, List, [], ◌∷◌, map, ltb, if◌then◌else◌, ◌==◌, Result,
  length, take, retain, sum_by, contains, ok, nat_eq, str_eq,
}
use anony_mail.Base.Results.{◌>>=◌}
use anony_mail.Base.Int.{ℤ, as_i32, as_i64, ltb_ℤ, sub_ℕ, pos_part, neg_part}
use anony_mail.Base.Sort.{sort_by}
use anony_mail.Base.Text.{Str}
use anony_mail.Model.{Time, Uuid, AttachmentMeta, StoredMessage, NewAttachment, NewMessage}
use anony_mail.Store.{StoreError, MailboxQuotas}
use anony_mail.Store.Sqlite.{
  UuidCodec, Db, MessageRow, AttachmentRow, text_ltb, delete_messages, insert_message,
  insert_attachment, commit,
}

-- ORDER BY received_at DESC, id DESC
unfoldable pub newer : MessageRow → MessageRow → Bool
unfolding text_ltb
newer a b = ltb b.received_at a.received_at || a.received_at == b.received_at && text_ltb b.id a.id

unfoldable pub in_mailbox : Str → MessageRow → Bool
in_mailbox address m = m.mailbox_address == address

unfoldable pub newest_first : Db → Str → List MessageRow
unfolding newer in_mailbox
newest_first db address = sort_by newer (retain (in_mailbox address) db.messages)

-- The rows beyond the newest `max_messages` of the mailbox.
unfoldable pub beyond_count : ℕ → Db → Str → MessageRow → Bool
unfolding in_mailbox newest_first
beyond_count max_messages db address m =
    in_mailbox address m
    && not (
        contains (map (λ (s : MessageRow). s.id) (take max_messages (newest_first db address)))
          m.id)

-- SUM(raw_size) OVER (ORDER BY received_at DESC, id DESC), at one row: the sum over the rows of the
-- mailbox that the order does not put behind it.
unfoldable pub running : Db → Str → MessageRow → List MessageRow
unfolding newer in_mailbox
running db address m = retain (λ s. not (newer m s)) (retain (in_mailbox address) db.messages)

abbrev pub total_size : List MessageRow → ℤ
total_size rows =
    sub_ℕ (sum_by (λ (m : MessageRow). pos_part m.raw_size) rows)
      (sum_by (λ (m : MessageRow). neg_part m.raw_size) rows)

-- The rows, other than the new one, at which the running total is over the budget.
unfoldable pub beyond_bytes : ℕ → Str → Db → Str → MessageRow → Bool
unfolding running in_mailbox as_i64
beyond_bytes max_bytes new_id db address m =
    in_mailbox address m
    && ltb_ℤ (as_i64 max_bytes) (total_size (running db address m))
    && not (m.id == new_id)

unfoldable pub enforce_max_messages : MailboxQuotas → Str → Db → Db
unfolding beyond_count delete_messages
enforce_max_messages quotas address db =
    if ltb 0 quotas.max_messages
    then delete_messages (beyond_count quotas.max_messages db address) db
    else db

unfoldable pub enforce_max_bytes : MailboxQuotas → Str → Str → Db → Db
unfolding beyond_bytes delete_messages
enforce_max_bytes quotas address new_id db =
    if ltb 0 quotas.max_bytes
    then delete_messages (beyond_bytes quotas.max_bytes new_id db address) db
    else db

unfoldable pub attachment_row : UuidCodec → Uuid → Str → NewAttachment → AttachmentRow
attachment_row uuid att_id message_id att = record {
  id = uuid.to_string att_id;
  message_id = message_id;
  filename = att.filename;
  content_type = att.content_type;
  size = as_i32 (length att.content);
  content = att.content;
}

unfoldable pub meta_of : Uuid → NewAttachment → AttachmentMeta
meta_of att_id att = record {
  id = att_id;
  filename = att.filename;
  content_type = att.content_type;
  size = as_i32 (length att.content);
}

unfoldable pub insert_attachments :
    UuidCodec
    → (ℕ → Uuid)
    → ℕ
    → Str
    → List NewAttachment
    → Db
    → Result (List AttachmentMeta × Db) StoreError
unfolding attachment_row meta_of insert_attachment
insert_attachments uuid new_v4 i message_id [] db = ok ([], db)
insert_attachments uuid new_v4 i message_id (att ∷ atts) db = do
  db' ← insert_attachment (attachment_row uuid (new_v4 i) message_id att) db
  rest ← insert_attachments uuid new_v4 (i + 1) message_id atts db'
  ok (meta_of (new_v4 i) att ∷ rest.0, rest.1)

unfoldable pub message_row : Str → Time → Str → NewMessage → MessageRow
message_row id received_at address message = record {
  id = id;
  mailbox_address = address;
  mail_from = message.mail_from;
  subject = message.subject;
  message_date = message.message_date;
  text_body = message.text_body;
  html_body = message.html_body;
  raw_size = message.raw_size;
  received_at = received_at;
  seen = false;
  raw_content = message.raw_content;
}

-- The message that a row is, with an identifier and the metadata of its attachments.
unfoldable pub stored_from : MessageRow → Uuid → List AttachmentMeta → StoredMessage
stored_from row id attachments = record {
  id = id;
  mailbox_address = row.mailbox_address;
  mail_from = row.mail_from;
  subject = row.subject;
  message_date = row.message_date;
  text_body = row.text_body;
  html_body = row.html_body;
  raw_size = row.raw_size;
  received_at = row.received_at;
  seen = row.seen;
  attachments = attachments;
}

unfoldable pub save_message :
    UuidCodec
    → MailboxQuotas
    → (ℕ → Uuid)
    → Time
    → Db
    → Str
    → NewMessage
    → Result StoredMessage StoreError × Db
unfolding message_row insert_message insert_attachments enforce_max_messages enforce_max_bytes
    stored_from
save_message uuid quotas new_v4 received_at db address message = commit db do
  let id = uuid.to_string (new_v4 0)
  let row = message_row id received_at address message
  db' ← insert_message row db
  inserted ← insert_attachments uuid new_v4 1 id message.attachments db'
  let kept = enforce_max_bytes quotas address id (enforce_max_messages quotas address inserted.1)
  ok (stored_from row (new_v4 0) inserted.0, kept)
