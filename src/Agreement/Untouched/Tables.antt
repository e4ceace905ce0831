-- ===== src/Agreement/Untouched/Tables.antt =====
-- The operations on messages and subscriptions of src/store/sqlite.rs leave the other tables alone.
use anony_mail.Base.{
  ℕ, ◌+◌, refl, Bool, true, false, Option, none, some, List, [], ◌∷◌, ◌++◌, ltb, if◌then◌else◌,
  Result, ok, err, nat_eq, str_eq,
}
use anony_mail.Base.Results.{Gives, >>=-Gives}
use anony_mail.Base.Text.{Str, text}
use anony_mail.Model.{Time, Uuid, NewAttachment, NewMessage, PushSubscription}
use anony_mail.Store.{
  StoreError, MailboxQuotas, subscription_limit, unique_violation, backend_failure,
}
use anony_mail.Store.Sqlite.{
  UuidCodec, Db, MessageRow, AttachmentRow, PushSubscriptionRow, commit, delete_messages,
  insert_message, insert_attachment, insert_subscription, has_message, has_mailbox, has_attachment,
  has_subscription,
}
use anony_mail.Store.Sqlite.Messages as Sqlite
use anony_mail.Store.Sqlite.Subscriptions as SqliteSubscriptions
use anony_mail.Agreement.Untouched.{UntouchedDb, same_db, trans_db}

-- The tables of SQLite.
abbrev Leaves : {A : Type 0} → Db → A × Db → Type 0
Leaves db p = UntouchedDb db p.1

commit-Untouched :
    {A : Type 0} (db : Db) (r : Result (A × Db) StoreError)
    → Gives (Leaves db) r
    → UntouchedDb db (commit db r).1
commit-Untouched db (ok p) g = g
commit-Untouched db (err e) g = same_db db

insert_message-Untouched :
    (row : MessageRow) (db : Db) → Gives (UntouchedDb db) (insert_message row db)
unfolding insert_message
insert_message-Untouched row db =
    by_tests (has_message db row.id) (has_mailbox db row.mailbox_address)
  where
    by_tests :
        (a b : Bool)
        → Gives (UntouchedDb db) (
            if a
            then err (unique_violation (text "UNIQUE constraint failed: messages.id"))
            else if b
            then ok (record db { messages = db.messages ++ row ∷ [] })
            else err backend_failure)
    by_tests true b = tt
    by_tests false true = record { mailboxes = refl; claims = refl; devices = refl }
    by_tests false false = tt

insert_attachment-Untouched :
    (row : AttachmentRow) (db : Db) → Gives (UntouchedDb db) (insert_attachment row db)
unfolding insert_attachment
insert_attachment-Untouched row db =
    by_tests (has_attachment db row.id) (has_message db row.message_id)
  where
    by_tests :
        (a b : Bool)
        → Gives (UntouchedDb db) (
            if a
            then err (unique_violation (text "UNIQUE constraint failed: attachments.id"))
            else if b
            then ok (record db { attachments = db.attachments ++ row ∷ [] })
            else err backend_failure)
    by_tests true b = tt
    by_tests false true = record { mailboxes = refl; claims = refl; devices = refl }
    by_tests false false = tt

insert_subscription-Untouched :
    (row : PushSubscriptionRow) (db : Db) → Gives (UntouchedDb db) (insert_subscription row db)
unfolding insert_subscription
insert_subscription-Untouched row db =
    by_tests (has_subscription db row) (has_mailbox db row.mailbox_address)
  where
    by_tests :
        (a b : Bool)
        → Gives (UntouchedDb db) (
            if a
            then err (unique_violation (text "UNIQUE constraint failed: push_subscriptions"))
            else if b
            then ok (record db { push_subscriptions = db.push_subscriptions ++ row ∷ [] })
            else err backend_failure)
    by_tests true b = tt
    by_tests false true = record { mailboxes = refl; claims = refl; devices = refl }
    by_tests false false = tt

insert_attachments-Untouched :
    (uuid : UuidCodec) (new_v4 : ℕ → Uuid) (i : ℕ) (message_id : Str) (atts : List NewAttachment)
    (db : Db)
    → Gives (Leaves db) (Sqlite.insert_attachments uuid new_v4 i message_id atts db)
unfolding Sqlite.insert_attachments
insert_attachments-Untouched uuid new_v4 i message_id [] db = same_db db
insert_attachments-Untouched uuid new_v4 i message_id (att ∷ atts) db =
    let row = Sqlite.attachment_row uuid (new_v4 i) message_id att in
    >>=-Gives (UntouchedDb db) (Leaves db) (insert_attachment row db) _
      (insert_attachment-Untouched row db)
      λ db' u.
        >>=-Gives (Leaves db') (Leaves db)
          (Sqlite.insert_attachments uuid new_v4 (i + 1) message_id atts db') _
          (insert_attachments-Untouched uuid new_v4 (i + 1) message_id atts db')
          (λ p v. trans_db u v)

-- A deletion of messages under a test.
deleted_if-Untouched :
    (a : Bool) (p : MessageRow → Bool) (db : Db)
    → UntouchedDb db (if a then delete_messages p db else db)
unfolding delete_messages
deleted_if-Untouched true p db = record { mailboxes = refl; claims = refl; devices = refl }
deleted_if-Untouched false p db = same_db db

counted-UntouchedDb :
    (quotas : MailboxQuotas) (address : Str) (db : Db)
    → UntouchedDb db (Sqlite.enforce_max_messages quotas address db)
unfolding Sqlite.enforce_max_messages
counted-UntouchedDb quotas address db =
    deleted_if-Untouched (ltb 0 quotas.max_messages)
      (Sqlite.beyond_count quotas.max_messages db address) db

sized-UntouchedDb :
    (quotas : MailboxQuotas) (address id : Str) (db : Db)
    → UntouchedDb db (Sqlite.enforce_max_bytes quotas address id db)
unfolding Sqlite.enforce_max_bytes
sized-UntouchedDb quotas address id db =
    deleted_if-Untouched (ltb 0 quotas.max_bytes)
      (Sqlite.beyond_bytes quotas.max_bytes id db address) db

enforced-UntouchedDb :
    (quotas : MailboxQuotas) (address id : Str) (db : Db)
    → UntouchedDb db
        (Sqlite.enforce_max_bytes quotas address id (Sqlite.enforce_max_messages quotas address db))
enforced-UntouchedDb quotas address id db =
    trans_db (counted-UntouchedDb quotas address db)
      (sized-UntouchedDb quotas address id (Sqlite.enforce_max_messages quotas address db))

pub save_message-UntouchedDb :
    (uuid : UuidCodec) (quotas : MailboxQuotas) (new_v4 : ℕ → Uuid) (now : Time) (db : Db)
    (address : Str) (message : NewMessage)
    → UntouchedDb db (Sqlite.save_message uuid quotas new_v4 now db address message).1
unfolding Sqlite.save_message
save_message-UntouchedDb uuid quotas new_v4 now db address message =
    let id = uuid.to_string (new_v4 0) in
    let row = Sqlite.message_row id now address message in
    commit-Untouched db _ (
      >>=-Gives (UntouchedDb db) (Leaves db) (insert_message row db) _
        (insert_message-Untouched row db)
        λ db' u.
          >>=-Gives (Leaves db') (Leaves db)
            (Sqlite.insert_attachments uuid new_v4 1 id message.attachments db') _
            (insert_attachments-Untouched uuid new_v4 1 id message.attachments db')
            (λ p v. trans_db u (trans_db v (enforced-UntouchedDb quotas address id p.1))))

pub add_or_refresh-UntouchedDb :
    (uuid : UuidCodec) (cap : ℕ) (sub : PushSubscription) (db : Db)
    (found : Option PushSubscriptionRow)
    → UntouchedDb db (SqliteSubscriptions.add_or_refresh uuid cap sub db found).1
unfolding SqliteSubscriptions.add_or_refresh SqliteSubscriptions.refresh
    SqliteSubscriptions.insert_new
add_or_refresh-UntouchedDb uuid cap sub db (some row) = record {
  mailboxes = refl;
  claims = refl;
  devices = refl;
}
add_or_refresh-UntouchedDb uuid cap sub db none = by_cap _
  where
    by_cap :
        (full : Bool)
        → UntouchedDb db
            (if full
              then (err (subscription_limit cap), db)
              else commit db (SqliteSubscriptions.insert_new uuid sub db)).1
    by_cap true = same_db db
    by_cap false = commit-Untouched db _ (
        >>=-Gives (UntouchedDb db) (Leaves db) _ _ (insert_subscription-Untouched _ db)
          (λ db' u. u))
