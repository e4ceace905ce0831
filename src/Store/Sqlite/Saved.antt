-- ===== src/Store/Sqlite/Saved.antt =====
-- What the deletions of `save_message` of src/store/sqlite.rs leave of the message that it saves.
pub mod Insertion
pub mod RoundTrip
use anony_mail.Base.{
  ℕ, ◌≡◌, refl, sym, ◌∙◌, inl, inr, Bool, true, false, not, ◌&&◌, some, List, [], ◌∷◌, ◌++◌, arith,
  ltb, ◌==◌, ==_iff, Bool-cases, retain, find, any, nat_eq, str_eq,
}
use mathlib.Core.Path.{subst}
use anony_mail.Base.Results.{Gives}
use anony_mail.Base.Table.{delete_where}
use anony_mail.Base.Table.Counts.{retain-delete_where}
use anony_mail.Base.Text.{Str}
use anony_mail.Store.{StoreError, MailboxQuotas}
use anony_mail.Store.Sqlite.{
  Db, MessageRow, AttachmentRow, has_message, insert_message, delete_messages,
}
use anony_mail.Store.Sqlite.Messages.{enforce_max_messages, enforce_max_bytes, beyond_bytes}
use anony_mail.Store.Sqlite.Inbox.{is_message}

-- The row of an address and an identifier, and the attachments of that identifier.
pub record Holds (db : Db) (address id : Str) (row : MessageRow) (rows : List AttachmentRow)
    : Type 0 where
  pub message : find (is_message address id) db.messages ≡ some row
  pub attached : retain (λ a. a.message_id == id) db.attachments ≡ rows

pub find-last :
    {A : Type 0} (p : A → Bool) (xs : List A) (y : A)
    → any p xs ≡ false
    → p y ≡ true
    → find p (xs ++ y ∷ []) ≡ some y
unfolding find any
find-last p [] y n t = ground (arith, t)
find-last p (x ∷ xs) y n t = ground (arith, t, find-last p xs y)

pub any-weaker :
    {A : Type 0} (p q : A → Bool) (xs : List A)
    → ((x : A) → p x ≡ false → q x ≡ false)
    → any p xs ≡ false
    → any q xs ≡ false
unfolding any
any-weaker p q [] h n = refl
any-weaker p q (x ∷ xs) h n = ground (arith, h x, any-weaker p q xs h)

-- What is found is found behind a deletion that does not meet it.
find-delete_where :
    {A : Type 0} (p q : A → Bool) (xs : List A) (y : A)
    → find p xs ≡ some y
    → q y ≡ false
    → find p (delete_where q xs) ≡ some y
unfolding find delete_where retain
find-delete_where {A} p q [] y f n = f
find-delete_where {A} p q (x ∷ xs) y f n = elim (Bool-cases (p x)) [
  | inl t ↦
      let e : x ≡ y = ground (arith, t, f) in
      let k : q x ≡ false = subst (λ (z : A). q z ≡ false) (sym e) n in ground (arith, t, k, f)
  | inr s ↦ ground (arith, s, f, n, find-delete_where p q xs y)
]

-- The attachments of an identifier that no deleted message has are kept.
kept_attachments :
    (id : Str) (q : MessageRow → Bool) (messages : List MessageRow) (xs : List AttachmentRow)
    → any (λ m. q m && m.id == id) messages ≡ false
    → retain
        (λ a. a.message_id == id)
        (delete_where (λ a. any (λ m. q m && m.id == a.message_id) messages) xs)
      ≡ retain (λ a. a.message_id == id) xs
unfolding retain delete_where
kept_attachments id q messages [] h = refl
kept_attachments id q messages (a ∷ xs) h = elim (Bool-cases (a.message_id == id)) [
  | inl t ↦
      let k =
        subst (λ (j : Str). any (λ (m : MessageRow). q m && m.id == j) messages ≡ false)
          (sym ((==_iff a.message_id id).0 t)) h in
      ground (arith, t, k, kept_attachments id q messages xs h)
  | inr n ↦ ground (arith, n, kept_attachments id q messages xs h)
]

beyond_bytes-new :
    (max_bytes : ℕ) (db : Db) (address id : Str) (m : MessageRow)
    → m.id ≡ id
    → beyond_bytes max_bytes id db address m ≡ false
unfolding beyond_bytes
beyond_bytes-new max_bytes db address id m e = rw ((==_iff m.id id).1 e) (ground arith)

never_with :
    (q : MessageRow → Bool) (id : Str) (xs : List MessageRow)
    → ((m : MessageRow) → m.id ≡ id → q m ≡ false)
    → any (λ m. q m && m.id == id) xs ≡ false
unfolding any
never_with q id [] h = refl
never_with q id (x ∷ xs) h = ground (arith, h x, ==_iff x.id id, never_with q id xs h)

-- The byte cap spares the new message and its attachments.
pub enforce_max_bytes-Holds :
    (quotas : MailboxQuotas) (address id : Str) (db : Db) (row : MessageRow)
    (rows : List AttachmentRow)
    → row.id ≡ id
    → Holds db address id row rows
    → Holds (enforce_max_bytes quotas address id db) address id row rows
unfolding enforce_max_bytes delete_messages
enforce_max_bytes-Holds quotas address id db row rows e h =
    elim (Bool-cases (ltb 0 quotas.max_bytes)) [
      | inr n ↦ rw n h
      | inl t ↦ rw t record {
        message =
            find-delete_where (is_message address id) (beyond_bytes quotas.max_bytes id db address)
              db.messages row h.message (beyond_bytes-new quotas.max_bytes db address id row e);
        attached =
            kept_attachments id (beyond_bytes quotas.max_bytes id db address) db.messages
              db.attachments
              (never_with (beyond_bytes quotas.max_bytes id db address) id db.messages
                (beyond_bytes-new quotas.max_bytes db address id))
            ∙ h.attached;
      }
    ]
