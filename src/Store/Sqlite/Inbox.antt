-- ===== src/Store/Sqlite/Inbox.antt =====
-- The queries of src/store/sqlite.rs that read, mark and delete messages.
use anony_mail.Base.{
  ℕ, Bool, true, ◌&&◌, Option, none, some, List, ltb, if◌then◌else◌, ◌==◌, Result, is_none_or, take,
  retain, find, any, ok, nat_eq, str_eq,
}
use mathlib.Core.Option
use anony_mail.Base.Results.{◌>>=◌, collect}
use anony_mail.Base.Sort.{sort_by}
use anony_mail.Base.Table.{update_where, rows_where}
use anony_mail.Base.Text.{Str}
use anony_mail.Model.{Uuid, Bytes, MessageSummary, AttachmentMeta, StoredMessage, Attachment}
use anony_mail.Store.{StoreError}
use anony_mail.Store.Sqlite.{
  UuidCodec, Db, MessageRow, AttachmentRow, parse_uuid, text_ltb, delete_messages,
}
use anony_mail.Store.Sqlite.Messages.{newer, in_mailbox, stored_from}

unfoldable pub is_message : Str → Str → MessageRow → Bool
is_message address id m = m.mailbox_address == address && m.id == id

-- The keyset cursor of the WHERE clause; an anchor that has vanished disables it.
unfoldable pub after_cursor : Db → Str → Option Str → MessageRow → Bool
unfolding is_message newer
after_cursor db address none m = true
after_cursor db address (some since) m =
    is_none_or (find (is_message address since) db.messages) (λ s. newer m s)

unfoldable pub has_attachments : Db → MessageRow → Bool
has_attachments db m = any (λ a. a.message_id == m.id) db.attachments

unfoldable pub summary_from : UuidCodec → Db → MessageRow → Result MessageSummary StoreError
unfolding parse_uuid has_attachments
summary_from uuid db m = do
  id ← parse_uuid uuid m.id
  ok (record {
    id = id;
    mail_from = m.mail_from;
    subject = m.subject;
    received_at = m.received_at;
    has_attachments = has_attachments db m;
    seen = m.seen;
  })

-- A LIMIT of -1 is none.
unfoldable pub list_messages :
    UuidCodec → Db → Str → ℕ → Option Uuid → Result (List MessageSummary) StoreError
unfolding in_mailbox after_cursor newer summary_from
list_messages uuid db address limit since =
    let cursor = Option.map uuid.to_string since in
    let rows =
      sort_by newer
        (retain (λ m. in_mailbox address m && after_cursor db address cursor m) db.messages) in
    collect (summary_from uuid db) (if limit == 0 then rows else take limit rows)

unfoldable pub meta_from : UuidCodec → AttachmentRow → Result AttachmentMeta StoreError
unfolding parse_uuid
meta_from uuid r = do
  id ← parse_uuid uuid r.id
  ok (record { id = id; filename = r.filename; content_type = r.content_type; size = r.size })

-- ORDER BY id
unfoldable pub by_id : AttachmentRow → AttachmentRow → Bool
unfolding text_ltb
by_id a b = text_ltb a.id b.id

unfoldable pub message_from :
    UuidCodec → Db → Str → Option MessageRow → Result (Option StoredMessage) StoreError
unfolding meta_from by_id parse_uuid stored_from
message_from uuid db id none = ok none
message_from uuid db id (some row) = do
  attachments ←
      collect (meta_from uuid) (sort_by by_id (retain (λ a. a.message_id == id) db.attachments))
  row_id ← parse_uuid uuid row.id
  ok (some (stored_from row row_id attachments))

unfoldable pub get_message : UuidCodec → Db → Str → Uuid → Result (Option StoredMessage) StoreError
unfolding is_message message_from
get_message uuid db address id =
    message_from uuid db (uuid.to_string id)
      (find (is_message address (uuid.to_string id)) db.messages)

unfoldable pub get_raw_message : UuidCodec → Db → Str → Uuid → Option Bytes
unfolding is_message
get_raw_message uuid db address id =
    Option.bind (find (is_message address (uuid.to_string id)) db.messages)
      (λ (m : MessageRow). m.raw_content)

-- The JOIN of the attachment with its message.
unfoldable pub is_attachment : Db → Str → Str → Str → AttachmentRow → Bool
is_attachment db address message_id attachment_id a =
    any (λ m. m.id == a.message_id && m.mailbox_address == address) db.messages
    && a.message_id == message_id
    && a.id == attachment_id

unfoldable pub get_attachment : UuidCodec → Db → Str → Uuid → Uuid → Option Attachment
unfolding is_attachment
get_attachment uuid db address message_id attachment_id =
    Option.map
      (λ (a : AttachmentRow). record {
        filename = a.filename;
        content_type = a.content_type;
        content = a.content;
      })
      (find (is_attachment db address (uuid.to_string message_id) (uuid.to_string attachment_id))
        db.attachments)

unfoldable pub delete_message : UuidCodec → Db → Str → Uuid → Bool × Db
unfolding is_message delete_messages rows_where
delete_message uuid db address id = (
  ltb 0 (rows_where (is_message address (uuid.to_string id)) db.messages),
  delete_messages (is_message address (uuid.to_string id)) db,
)

unfoldable pub mark_seen : UuidCodec → Db → Str → Uuid → Bool × Db
unfolding is_message update_where rows_where
mark_seen uuid db address id = (
  ltb 0 (rows_where (is_message address (uuid.to_string id)) db.messages),
  record db {
    messages =
        update_where (is_message address (uuid.to_string id)) (λ m. record m { seen = true })
          db.messages;
  },
)

unfoldable pub delete_all_messages : Db → Str → ℕ × Db
unfolding in_mailbox delete_messages rows_where
delete_all_messages db address =
    (rows_where (in_mailbox address) db.messages, delete_messages (in_mailbox address) db)
