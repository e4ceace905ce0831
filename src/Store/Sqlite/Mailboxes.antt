-- ===== src/Store/Sqlite/Mailboxes.antt =====
-- The mailbox queries of src/store/sqlite.rs.
use anony_mail.Base.{
  ℕ, Bool, ◌&&◌, Option, none, some, ltb, leb, if◌then◌else◌, ◌==◌, Result, is_some_and, find, any,
  ok, nat_eq, str_eq,
}
use mathlib.Core.Option
use anony_mail.Base.Results.{◌>>=◌}
use anony_mail.Base.Table.{update_where, rows_where}
use anony_mail.Base.Text.{Str}
use anony_mail.Model.{Time, Mailbox}
use anony_mail.Store.{StoreError}
use anony_mail.Store.Sqlite.{Db, MailboxRow, mailbox_from, insert_mailbox, delete_mailboxes, commit}

abbrev pub at_address : Str → MailboxRow → Bool
at_address address r = r.address == address

unfoldable pub create_mailbox :
    Db → Str → Str → Time → Option Str → Option Str → Time → Result Mailbox StoreError × Db
unfolding insert_mailbox mailbox_from
create_mailbox db address domain expires_at owner_token_hash creator_device_hash now =
    let row : MailboxRow = record {
      address = address;
      domain = domain;
      created_at = now;
      expires_at = expires_at;
      owner_token_hash = owner_token_hash;
      creator_device_hash = creator_device_hash;
    } in
    commit db do db' ← insert_mailbox row db; ok (mailbox_from row, db')

unfoldable pub get_mailbox : Db → Str → Option Mailbox
unfolding mailbox_from
get_mailbox db address = Option.map mailbox_from (find (at_address address) db.mailboxes)

unfoldable pub mailbox_is_active : Db → Str → Time → Bool
mailbox_is_active db address now =
    any (λ r. r.address == address && ltb now r.expires_at) db.mailboxes

unfoldable pub extend_mailbox : Db → Str → Time → Option Mailbox × Db
unfolding get_mailbox update_where rows_where
extend_mailbox db address new_expires_at =
    let db' = record db {
      mailboxes =
          update_where (at_address address) (λ r. record r { expires_at = new_expires_at })
            db.mailboxes;
    } in
    (
      if rows_where (at_address address) db.mailboxes == 0 then none else get_mailbox db' address,
      db',
    )

unfoldable pub delete_mailbox : Db → Str → Bool × Db
unfolding delete_mailboxes rows_where
delete_mailbox db address =
    (ltb 0 (rows_where (at_address address) db.mailboxes), delete_mailboxes (at_address address) db)

unfoldable pub rotate_owner_token : Db → Str → Str → Bool × Db
unfolding update_where rows_where
rotate_owner_token db address new_hash = (
  ltb 0 (rows_where (at_address address) db.mailboxes),
  record db {
    mailboxes =
        update_where (at_address address) (λ r. record r { owner_token_hash = some new_hash })
          db.mailboxes;
  },
)

unfoldable pub purge_expired : Db → Time → ℕ × Db
unfolding delete_mailboxes rows_where
purge_expired db now = (
  rows_where (λ r. leb r.expires_at now) db.mailboxes,
  delete_mailboxes (λ r. leb r.expires_at now) db,
)

unfoldable pub count_active_mailboxes_by_device : Db → Str → Time → ℕ
unfolding rows_where
count_active_mailboxes_by_device db creator_device_hash now =
    rows_where
      (λ r.
        is_some_and r.creator_device_hash (λ h. h == creator_device_hash) && ltb now r.expires_at)
      db.mailboxes
