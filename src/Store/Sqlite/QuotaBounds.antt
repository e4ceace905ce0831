-- ===== src/Store/Sqlite/QuotaBounds.antt =====
-- What src/store/sqlite.rs keeps of a mailbox after `save_message`.
use anony_mail.Base.{
  ℕ, zero, suc, ◌≤◌, ◌<◌, ◌≡◌, inl, inr, true, not, ◌&&◌, List, [], ◌∷◌, map, arith, ltb,
  Bool-cases, Result, length, take, retain, contains, ok, err, nat_eq, str_eq,
}
use anony_mail.Base.Results.{Gives, >>=-Gives}
use anony_mail.Base.Table.Counts.{
  length-retain_mono, length-delete_where, retain-delete_where, length-keys_among,
}
use anony_mail.Base.Text.{Str}
use anony_mail.Model.{Time, Uuid, NewMessage, StoredMessage}
use anony_mail.Store.{StoreError, MailboxQuotas}
use anony_mail.Store.Sqlite.{UuidCodec, Db, MessageRow, commit, insert_message, delete_messages}
use anony_mail.Store.Sqlite.Messages.{
  save_message, message_row, insert_attachments, enforce_max_messages, enforce_max_bytes,
  beyond_count, in_mailbox, newest_first,
}
use anony_mail.Store.Sqlite.Integrity.{IsSound, message_id}
use anony_mail.Store.Sqlite.Insertions.{insert_message-IsSound}
use anony_mail.Store.Sqlite.Sound.{Kept, insert_attachments-IsSound}

-- The rows of a mailbox.
abbrev pub inbox : Db → Str → List MessageRow
inbox db address = retain (in_mailbox address) db.messages

length-map-take : (n : ℕ) (xs : List MessageRow) → length (map message_id (take n xs)) ≤ n
length-map-take zero xs = omega arith
length-map-take (suc n) [] = omega arith
length-map-take (suc n) (x ∷ xs) = omega (arith, length-map-take n xs)

-- A row that the first deletion leaves in the mailbox is among the newest.
among :
    (n : ℕ) (db : Db) (address : Str) (m : MessageRow)
    → (in_mailbox address m && not (beyond_count n db address m)) ≡ true
    → contains (map message_id (take n (newest_first db address))) (message_id m) ≡ true
unfolding beyond_count
among n db address m h = ground (arith, h)

counted :
    (quotas : MailboxQuotas) (db : Db) (address : Str)
    → ltb 0 quotas.max_messages ≡ true
    → IsSound db
    → length (inbox (enforce_max_messages quotas address db) address) ≤ quotas.max_messages
unfolding enforce_max_messages delete_messages
counted quotas db address t w =
    let n = quotas.max_messages in
    let newest = map message_id (take n (newest_first db address)) in
    rw t (
      rw (retain-delete_where (in_mailbox address) (beyond_count n db address) db.messages) (
        omega (
          arith,
          length-retain_mono (λ m. in_mailbox address m && not (beyond_count n db address m))
              (λ m. contains newest (message_id m)) db.messages (among n db address),
          length-keys_among message_id newest db.messages w.message_keys,
          length-map-take n (newest_first db address),
        )))

sized :
    (quotas : MailboxQuotas) (db : Db) (address id : Str)
    → length (inbox (enforce_max_bytes quotas address id db) address) ≤ length (inbox db address)
unfolding enforce_max_bytes delete_messages
sized quotas db address id = elim (Bool-cases (ltb 0 quotas.max_bytes)) [
  | inl t ↦ rw t (length-delete_where (in_mailbox address) _ db.messages)
  | inr n ↦ rw n (omega arith)
]

-- What the result of a transaction satisfies holds of the tables where it is committed.
commit-Gives :
    {A : Type 0} (P : Db → Type 0) (db : Db) (r : Result (A × Db) StoreError) (a : A)
    → Gives (λ p. P p.1) r
    → (commit db r).0 ≡ ok a
    → P (commit db r).1
commit-Gives P db (ok p) a g h = g
commit-Gives P db (err e) a g h = absurd (ground arith)

-- With a cap on the messages of a mailbox, a message that is saved leaves no more messages than the
-- cap in its mailbox, in any tables that satisfy the constraints of the schema.
pub save_message-count :
    (uuid : UuidCodec) (quotas : MailboxQuotas) (new_v4 : ℕ → Uuid) (now : Time) (db : Db)
    (address : Str) (message : NewMessage) (stored : StoredMessage)
    → IsSound db
    → 0 < quotas.max_messages
    → (save_message uuid quotas new_v4 now db address message).0 ≡ ok stored
    → length (inbox (save_message uuid quotas new_v4 now db address message).1 address)
      ≤ quotas.max_messages
unfolding save_message
save_message-count uuid quotas new_v4 now db address message stored w cap saved =
    let id = uuid.to_string (new_v4 0) in
    let row = message_row id now address message in
    let Within = λ (d : Db). length (inbox d address) ≤ quotas.max_messages in
    commit-Gives Within db _ stored
      (>>=-Gives IsSound (λ p. Within p.1) (insert_message row db) _
        (insert_message-IsSound row db w)
        λ db' w'.
          >>=-Gives Kept (λ p. Within p.1)
            (insert_attachments uuid new_v4 1 id message.attachments db') _
            (insert_attachments-IsSound uuid new_v4 1 id message.attachments db' w')
            (λ p v. within p.1 v))
      saved
  where
    within :
        (d : Db)
        → IsSound d
        → length (
            inbox
              (enforce_max_bytes quotas address
                (uuid.to_string (new_v4 0))
                (enforce_max_messages quotas address d))
              address)
          ≤ quotas.max_messages
    within d v = omega (
      arith,
      counted quotas d address (ground (arith, cap)) v,
      sized quotas (enforce_max_messages quotas address d) address (uuid.to_string (new_v4 0)),
    )
