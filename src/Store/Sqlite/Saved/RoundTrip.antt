-- ===== src/Store/Sqlite/Saved/RoundTrip.antt =====
-- A message that src/store/sqlite.rs saves is there to read.
use anony_mail.Base.{
  ℕ, ◌+◌, ◌≡◌, refl, sym, ap, ◌∙◌, inl, inr, Bool, some, List, [], ◌∷◌, arith, Bool-cases, Result,
  ok, err,
}
use mathlib.Core.Path.{subst}
use anony_mail.Base.Results.{Gives, >>=-Gives, collect}
use anony_mail.Base.Sort.{sort_by, insert_sorted}
use anony_mail.Base.Text.{Str}
use anony_mail.Model.{Time, Uuid, AttachmentMeta, NewAttachment, NewMessage, StoredMessage}
use anony_mail.Store.{StoreError, MailboxQuotas}
use anony_mail.Store.Sqlite.{
  UuidCodec, Db, MessageRow, AttachmentRow, commit, parse_uuid, text_ltb, insert_message,
}
use anony_mail.Store.Sqlite.Messages.{
  attachment_row, meta_of, insert_attachments, message_row, stored_from, save_message,
  enforce_max_messages,
}
use anony_mail.Store.Sqlite.Inbox.{meta_from, by_id, message_from, get_message}
use anony_mail.Store.Sqlite.Integrity.{IsSound}
use anony_mail.Store.Sqlite.Saved.{Holds, enforce_max_bytes-Holds}
use anony_mail.Store.Sqlite.Saved.Insertion.{
  insert_message-Holds, new_rows, new_metas, Inserted, insert_attachments-Holds,
}

-- A row is read as the metadata.
abbrev Reads : UuidCodec → AttachmentRow → AttachmentMeta → Type 0
Reads uuid r m = (meta_from uuid r ≡ ok m) × (r.id ≡ uuid.to_string m.id)

abbrev ReadsAll : UuidCodec → List AttachmentRow → List AttachmentMeta → Type 0
ReadsAll uuid [] [] = Unit
ReadsAll uuid [] (m ∷ ms) = ⊥
ReadsAll uuid (r ∷ rs) [] = ⊥
ReadsAll uuid (r ∷ rs) (m ∷ ms) = Reads uuid r m × ReadsAll uuid rs ms

-- The order of the metadata in the answer: by the text of the identifier.
unfoldable pub by_text : UuidCodec → AttachmentMeta → AttachmentMeta → Bool
by_text uuid a b = text_ltb (uuid.to_string a.id) (uuid.to_string b.id)

same_order :
    (uuid : UuidCodec) (x r : AttachmentRow) (n m : AttachmentMeta)
    → x.id ≡ uuid.to_string n.id
    → r.id ≡ uuid.to_string m.id
    → by_text uuid n m ≡ by_id x r
unfolding by_text by_id
same_order uuid x r n m e f =
    sym (ap (λ (t : Str). text_ltb t r.id) e ∙ ap (text_ltb (uuid.to_string n.id)) f)

insert_sorted-Reads :
    (uuid : UuidCodec) (r : AttachmentRow) (m : AttachmentMeta) (rs : List AttachmentRow)
    (ms : List AttachmentMeta)
    → Reads uuid r m
    → ReadsAll uuid rs ms
    → ReadsAll uuid (insert_sorted by_id r rs) (insert_sorted (by_text uuid) m ms)
unfolding insert_sorted
insert_sorted-Reads uuid r m [] [] a b = (a, tt)
insert_sorted-Reads uuid r m [] (n ∷ ms) a b = absurd b
insert_sorted-Reads uuid r m (x ∷ rs) [] a b = absurd b
insert_sorted-Reads uuid r m (x ∷ rs) (n ∷ ms) a b = elim (Bool-cases (by_id x r)) [
  | inl t ↦
      rw (t, same_order uuid x r n m b.0.1 a.1 ∙ t) (b.0, insert_sorted-Reads uuid r m rs ms a b.1)
  | inr f ↦ rw (f, same_order uuid x r n m b.0.1 a.1 ∙ f) (a, b)
]

sort_by-Reads :
    (uuid : UuidCodec) (rs : List AttachmentRow) (ms : List AttachmentMeta)
    → ReadsAll uuid rs ms
    → ReadsAll uuid (sort_by by_id rs) (sort_by (by_text uuid) ms)
unfolding sort_by
sort_by-Reads uuid [] [] a = tt
sort_by-Reads uuid [] (m ∷ ms) a = absurd a
sort_by-Reads uuid (r ∷ rs) [] a = absurd a
sort_by-Reads uuid (r ∷ rs) (m ∷ ms) a =
    insert_sorted-Reads uuid r m (sort_by by_id rs) (sort_by (by_text uuid) ms) a.0
      (sort_by-Reads uuid rs ms a.1)

collect-Reads :
    (uuid : UuidCodec) (rs : List AttachmentRow) (ms : List AttachmentMeta)
    → ReadsAll uuid rs ms
    → collect (meta_from uuid) rs ≡ ok ms
unfolding collect
collect-Reads uuid [] [] a = refl
collect-Reads uuid [] (m ∷ ms) a = absurd a
collect-Reads uuid (r ∷ rs) [] a = absurd a
collect-Reads uuid (r ∷ rs) (m ∷ ms) a = rw (a.0.0, collect-Reads uuid rs ms a.1) refl

module _ (uuid : UuidCodec) (back : (i : Uuid) → uuid.parse_str (uuid.to_string i) ≡ some i) where
  parse_back : (i : Uuid) → parse_uuid uuid (uuid.to_string i) ≡ ok i
  unfolding parse_uuid
  parse_back i = ground (arith, back i)

  meta_back :
      (i : Uuid) (id : Str) (att : NewAttachment)
      → meta_from uuid (attachment_row uuid i id att) ≡ ok (meta_of i att)
  unfolding meta_from attachment_row meta_of
  meta_back i id att = rw (parse_back i) refl

  new_rows-Reads :
      (new_v4 : ℕ → Uuid) (i : ℕ) (id : Str) (atts : List NewAttachment)
      → ReadsAll uuid (new_rows uuid new_v4 i id atts) (new_metas new_v4 i atts)
  unfolding new_rows new_metas meta_of attachment_row
  new_rows-Reads new_v4 i id [] = tt
  new_rows-Reads new_v4 i id (att ∷ atts) =
      ((meta_back (new_v4 i) id att, refl), new_rows-Reads new_v4 (i + 1) id atts)

  read_back :
      (row : MessageRow) (i : Uuid) (ms : List AttachmentMeta) (rows : List AttachmentRow) (db : Db)
      (address : Str)
      → row.id ≡ uuid.to_string i
      → ReadsAll uuid rows ms
      → Holds db address (uuid.to_string i) row rows
      → get_message uuid db address i ≡ ok (some (stored_from row i (sort_by (by_text uuid) ms)))
  unfolding get_message message_from
  read_back row i ms rows db address e a h =
      let id = uuid.to_string i in
      ap (message_from uuid db id) h.message
      ∙ rw
          (
            h.attached,
            collect-Reads uuid (sort_by by_id rows) (sort_by (by_text uuid) ms)
                (sort_by-Reads uuid rows ms a),
            e,
            parse_back i,
          )
          refl

  -- What is read back of a message: its attachments are in the order of their texts.
  abbrev ReadBack : Str → StoredMessage × Db → Type 0
  ReadBack address p =
      get_message uuid p.1 address p.0.id
      ≡ ok (some (record p.0 { attachments = sort_by (by_text uuid) p.0.attachments }))

  commit-ReadBack :
      (db : Db) (r : Result (StoredMessage × Db) StoreError) (address : Str)
      (stored : StoredMessage)
      → Gives (ReadBack address) r
      → (commit db r).0 ≡ ok stored
      → ReadBack address (stored, (commit db r).1)
  commit-ReadBack db (ok p) address stored g h =
      let e : p.0 ≡ stored = cc in subst (λ (x : StoredMessage). ReadBack address (x, p.1)) e g
  commit-ReadBack db (err e) address stored g h = absurd (ground arith)

  uncapped :
      (quotas : MailboxQuotas) (address : Str) (db : Db)
      → quotas.max_messages ≡ 0
      → enforce_max_messages quotas address db ≡ db
  unfolding enforce_max_messages
  uncapped quotas address db z = rw z refl

  -- Where the texts of identifiers are read back as the identifiers, and there is no cap on the
  -- messages of a mailbox, whatever the cap on their bytes: in tables that satisfy the constraints of
  -- the schema, a message that is saved is there to read, as it was returned but for the order of its
  -- attachments, which are in the order of the texts of their identifiers.
  pub get_message-saved :
      (quotas : MailboxQuotas) (new_v4 : ℕ → Uuid) (now : Time) (db : Db) (address : Str)
      (message : NewMessage) (stored : StoredMessage)
      → IsSound db
      → quotas.max_messages ≡ 0
      → (save_message uuid quotas new_v4 now db address message).0 ≡ ok stored
      → get_message uuid
          (save_message uuid quotas new_v4 now db address message).1
          address
          stored.id
        ≡ ok (some (record stored { attachments = sort_by (by_text uuid) stored.attachments }))
  unfolding save_message message_row stored_from
  get_message-saved quotas new_v4 now db address message stored w z saved =
      let id = uuid.to_string (new_v4 0) in
      let row = message_row id now address message in
      commit-ReadBack db _ address stored
        (>>=-Gives (λ d. Holds d address id row []) (ReadBack address) (insert_message row db) _
          (insert_message-Holds row db w)
          λ db' h.
            >>=-Gives (Inserted uuid new_v4 1 address id row [] message.attachments)
              (ReadBack address) (insert_attachments uuid new_v4 1 id message.attachments db') _
              (insert_attachments-Holds uuid new_v4 1 address id row [] message.attachments db' h)
              (λ p v.
                read_back row (new_v4 0) p.0 (new_rows uuid new_v4 1 id message.attachments) _
                  address refl
                  (subst (ReadsAll uuid (new_rows uuid new_v4 1 id message.attachments)) (sym v.0)
                    (new_rows-Reads new_v4 1 id message.attachments))
                  (enforce_max_bytes-Holds quotas address id
                    (enforce_max_messages quotas address p.1) row
                    (new_rows uuid new_v4 1 id message.attachments) refl
                    (subst
                      (λ (d : Db).
                        Holds d address id row (new_rows uuid new_v4 1 id message.attachments))
                      (sym (uncapped quotas address p.1 z)) v.1))))
        saved
