-- ===== src/Store/Sqlite/Saved/Insertion.antt =====
-- The tables of src/store/sqlite.rs behind the insertions of a message and its attachments.
use anony_mail.Base.{
  ℕ, ◌+◌, ◌≡◌, refl, sym, ap, ◌∙◌, inl, inr, Bool, true, false, ◌&&◌, some, List, [], ◌∷◌, ◌++◌,
  arith, ◌==◌, ==_iff, Bool-cases, retain, find, retain-last, All, nat_eq, str_eq,
}
use mathlib.Core.List.{append_assoc, append-nil}
use anony_mail.Base.Results.{Gives, >>=-Gives}
use anony_mail.Base.Text.{Str}
use anony_mail.Model.{Uuid, AttachmentMeta, NewAttachment}
use anony_mail.Store.Sqlite.{
  UuidCodec, Db, MessageRow, AttachmentRow, has_message, has_mailbox, has_attachment,
  insert_message, insert_attachment,
}
use anony_mail.Store.Sqlite.Messages.{attachment_row, meta_of, insert_attachments}
use anony_mail.Store.Sqlite.Inbox.{is_message}
use anony_mail.Store.Sqlite.Integrity.{IsSound}
use anony_mail.Store.Sqlite.Saved.{Holds, find-last, any-weaker}

and_false : (b : Bool) → (b && false) ≡ false
and_false true = refl
and_false false = refl

no_attachments :
    (db : Db) (id : Str) (xs : List AttachmentRow)
    → has_message db id ≡ false
    → All (λ a. has_message db a.message_id ≡ true) xs
    → retain (λ a. a.message_id == id) xs ≡ []
unfolding retain
no_attachments db id [] n o = refl
no_attachments db id (a ∷ xs) n o =
    ground (arith, n, o.0, ==_iff a.message_id id, no_attachments db id xs n o.1)

found :
    (row : MessageRow) (db : Db)
    → has_message db row.id ≡ false
    → find (is_message row.mailbox_address row.id) (db.messages ++ row ∷ []) ≡ some row
unfolding has_message is_message
found row db n =
    find-last (is_message row.mailbox_address row.id) db.messages row
      (any-weaker (λ m. m.id == row.id) (is_message row.mailbox_address row.id) db.messages
        (λ m e. rw e (and_false (m.mailbox_address == row.mailbox_address))) n)
      (rw ((==_iff row.id row.id).1 refl, (==_iff row.mailbox_address row.mailbox_address).1 refl)
        refl)

pub insert_message-Holds :
    (row : MessageRow) (db : Db)
    → IsSound db
    → Gives (λ d. Holds d row.mailbox_address row.id row []) (insert_message row db)
unfolding insert_message
insert_message-Holds row db w = elim (Bool-cases (has_message db row.id)) [
  | inl t ↦ rw t tt
  | inr n ↦ elim (Bool-cases (has_mailbox db row.mailbox_address)) [
    | inl t ↦
        rw (n, t)
          record {
            message = found row db n;
            attached = no_attachments db row.id db.attachments n w.attachment_owners;
          }
    | inr f ↦ rw (n, f) tt
  ]
]

insert_attachment-Holds :
    (r : AttachmentRow) (db : Db) (address id : Str) (row : MessageRow) (rows : List AttachmentRow)
    → r.message_id ≡ id
    → Holds db address id row rows
    → Gives (λ d. Holds d address id row (rows ++ r ∷ [])) (insert_attachment r db)
unfolding insert_attachment
insert_attachment-Holds r db address id row rows e h = elim (Bool-cases (has_attachment db r.id)) [
  | inl t ↦ rw t tt
  | inr n ↦ elim (Bool-cases (has_message db r.message_id)) [
    | inl t ↦
        rw (n, t)
          record {
            message = h.message;
            attached =
                retain-last (λ a. a.message_id == id) db.attachments r
                  ((==_iff r.message_id id).1 e)
                ∙ ap (λ (xs : List AttachmentRow). xs ++ r ∷ []) h.attached;
          }
    | inr f ↦ rw (n, f) tt
  ]
]

same_id :
    (uuid : UuidCodec) (i : Uuid) (id : Str) (att : NewAttachment)
    → (attachment_row uuid i id att).message_id ≡ id
unfolding attachment_row
same_id uuid i id att = refl

-- The rows and the metadata of the attachments of a call.
unfoldable pub new_rows : UuidCodec → (ℕ → Uuid) → ℕ → Str → List NewAttachment → List AttachmentRow
new_rows uuid new_v4 i id [] = []
new_rows uuid new_v4 i id (att ∷ atts) =
    attachment_row uuid (new_v4 i) id att ∷ new_rows uuid new_v4 (i + 1) id atts

unfoldable pub new_metas : (ℕ → Uuid) → ℕ → List NewAttachment → List AttachmentMeta
new_metas new_v4 i [] = []
new_metas new_v4 i (att ∷ atts) = meta_of (new_v4 i) att ∷ new_metas new_v4 (i + 1) atts

abbrev pub Inserted :
    UuidCodec
    → (ℕ → Uuid)
    → ℕ
    → Str
    → Str
    → MessageRow
    → List AttachmentRow
    → List NewAttachment
    → List AttachmentMeta × Db
    → Type 0
Inserted uuid new_v4 i address id row rows atts p =
    (p.0 ≡ new_metas new_v4 i atts)
    × Holds p.1 address id row (rows ++ new_rows uuid new_v4 i id atts)

pub insert_attachments-Holds :
    (uuid : UuidCodec) (new_v4 : ℕ → Uuid) (i : ℕ) (address id : Str) (row : MessageRow)
    (rows : List AttachmentRow) (atts : List NewAttachment) (db : Db)
    → Holds db address id row rows
    → Gives
        (Inserted uuid new_v4 i address id row rows atts)
        (insert_attachments uuid new_v4 i id atts db)
unfolding insert_attachments new_rows new_metas
insert_attachments-Holds uuid new_v4 i address id row rows [] db h =
    (refl, record { message = h.message; attached = h.attached ∙ sym (append-nil rows) })
insert_attachments-Holds uuid new_v4 i address id row rows (att ∷ atts) db h =
    let r = attachment_row uuid (new_v4 i) id att in
    >>=-Gives (λ d. Holds d address id row (rows ++ r ∷ []))
      (Inserted uuid new_v4 i address id row rows (att ∷ atts)) (insert_attachment r db) _
      (insert_attachment-Holds r db address id row rows (same_id uuid (new_v4 i) id att) h)
      λ db' h'.
        >>=-Gives (Inserted uuid new_v4 (i + 1) address id row (rows ++ r ∷ []) atts)
          (Inserted uuid new_v4 i address id row rows (att ∷ atts))
          (insert_attachments uuid new_v4 (i + 1) id atts db') _
          (insert_attachments-Holds uuid new_v4 (i + 1) address id row (rows ++ r ∷ []) atts db' h')
          (λ p v. (
            ap (λ (ms : List AttachmentMeta). meta_of (new_v4 i) att ∷ ms) v.0,
            record {
              message = v.1.message;
              attached =
                  v.1.attached ∙ append_assoc rows (r ∷ []) (new_rows uuid new_v4 (i + 1) id atts);
            },
          ))
