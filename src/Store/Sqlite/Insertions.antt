-- ===== src/Store/Sqlite/Insertions.antt =====
-- The insertions of src/store/sqlite.rs keep the constraints of the schema.
use anony_mail.Base.{
  ◌≡◌, refl, ◌∙◌, inl, inr, Bool, true, false, ◌||◌, List, [], ◌∷◌, ◌++◌, arith, ◌==◌, Bool-cases,
  Result, any, nat_eq, str_eq,
}
use anony_mail.Base.Results.{Gives}
use anony_mail.Base.Table.Keys.{Distinct-append, All-append, All-imp, any-append}
use anony_mail.Store.{StoreError}
use anony_mail.Store.Sqlite.{
  Db, MailboxRow, MessageRow, AttachmentRow, PushSubscriptionRow, CustomDomainRow, has_mailbox,
  has_message, has_attachment, has_subscription, is_subscription, insert_mailbox, insert_message,
  insert_attachment, insert_subscription, insert_custom_domain,
}
use anony_mail.Store.Sqlite.Integrity.{
  IsSound, address_of, message_id, attachment_id, subscription_id, domain_of,
}

abbrev pub Sound : Result Db StoreError → Type 0
Sound = Gives IsSound

any-last :
    {A : Type 0} (p : A → Bool) (xs : List A) (y : A)
    → any p xs ≡ true
    → any p (xs ++ y ∷ []) ≡ true
any-last p xs y h = any-append p xs (y ∷ []) ∙ ground (arith, h)

pub insert_mailbox-IsSound :
    (row : MailboxRow) (db : Db) → IsSound db → Sound (insert_mailbox row db)
unfolding insert_mailbox has_mailbox has_message
insert_mailbox-IsSound row db w =
    elim (Bool-cases (any (λ b. b.address == row.address) db.mailboxes)) [
      | inl t ↦ rw t tt
      | inr n ↦ rw n record {
        mailbox_keys = Distinct-append address_of db.mailboxes row n w.mailbox_keys;
        message_keys = w.message_keys;
        attachment_keys = w.attachment_keys;
        subscription_keys = w.subscription_keys;
        claim_keys = w.claim_keys;
        device_keys = w.device_keys;
        message_owners = All-imp _ _ db.messages (λ m h. any-last _ _ row h) w.message_owners;
        subscription_owners =
            All-imp _ _ db.push_subscriptions (λ s h. any-last _ _ row h) w.subscription_owners;
        attachment_owners = w.attachment_owners;
      }
    ]

pub insert_message-IsSound :
    (row : MessageRow) (db : Db) → IsSound db → Sound (insert_message row db)
unfolding insert_message has_mailbox has_message
insert_message-IsSound row db w = elim (Bool-cases (any (λ m. m.id == row.id) db.messages)) [
  | inl t ↦ rw t tt
  | inr n ↦ elim (Bool-cases (any (λ b. b.address == row.mailbox_address) db.mailboxes)) [
    | inl t ↦
        rw (n, t)
          record {
            mailbox_keys = w.mailbox_keys;
            message_keys = Distinct-append message_id db.messages row n w.message_keys;
            attachment_keys = w.attachment_keys;
            subscription_keys = w.subscription_keys;
            claim_keys = w.claim_keys;
            device_keys = w.device_keys;
            message_owners = All-append _ db.messages row w.message_owners t;
            subscription_owners = w.subscription_owners;
            attachment_owners =
                All-imp _ _ db.attachments (λ a h. any-last _ _ row h) w.attachment_owners;
          }
    | inr f ↦ rw (n, f) tt
  ]
]

pub insert_attachment-IsSound :
    (row : AttachmentRow) (db : Db) → IsSound db → Sound (insert_attachment row db)
unfolding insert_attachment has_attachment has_mailbox has_message
insert_attachment-IsSound row db w = elim (Bool-cases (any (λ a. a.id == row.id) db.attachments)) [
  | inl t ↦ rw t tt
  | inr n ↦ elim (Bool-cases (any (λ m. m.id == row.message_id) db.messages)) [
    | inl t ↦
        rw (n, t)
          record {
            mailbox_keys = w.mailbox_keys;
            message_keys = w.message_keys;
            attachment_keys = Distinct-append attachment_id db.attachments row n w.attachment_keys;
            subscription_keys = w.subscription_keys;
            claim_keys = w.claim_keys;
            device_keys = w.device_keys;
            message_owners = w.message_owners;
            subscription_owners = w.subscription_owners;
            attachment_owners = All-append _ db.attachments row w.attachment_owners t;
          }
    | inr f ↦ rw (n, f) tt
  ]
]

new_id :
    (row : PushSubscriptionRow) (rs : List PushSubscriptionRow)
    → any (λ s. s.id == row.id || is_subscription row.mailbox_address row.endpoint s) rs ≡ false
    → any (λ s. s.id == row.id) rs ≡ false
unfolding any
new_id row [] h = refl
new_id row (s ∷ rs) h = ground (arith, new_id row rs)

pub insert_subscription-IsSound :
    (row : PushSubscriptionRow) (db : Db) → IsSound db → Sound (insert_subscription row db)
unfolding insert_subscription has_subscription has_mailbox has_message
insert_subscription-IsSound row db w =
    elim (Bool-cases (
      any (λ s. s.id == row.id || is_subscription row.mailbox_address row.endpoint s)
        db.push_subscriptions)) [
          | inl t ↦ rw t tt
          | inr n ↦ elim (Bool-cases (any (λ b. b.address == row.mailbox_address) db.mailboxes)) [
            | inl t ↦
                rw (n, t)
                  record {
                    mailbox_keys = w.mailbox_keys;
                    message_keys = w.message_keys;
                    attachment_keys = w.attachment_keys;
                    subscription_keys =
                        Distinct-append subscription_id db.push_subscriptions row
                          (new_id row db.push_subscriptions n) w.subscription_keys;
                    claim_keys = w.claim_keys;
                    device_keys = w.device_keys;
                    message_owners = w.message_owners;
                    subscription_owners =
                        All-append _ db.push_subscriptions row w.subscription_owners t;
                    attachment_owners = w.attachment_owners;
                  }
            | inr f ↦ rw (n, f) tt
          ]
        ]

pub insert_custom_domain-IsSound :
    (row : CustomDomainRow) (db : Db) → IsSound db → Sound (insert_custom_domain row db)
unfolding insert_custom_domain has_mailbox has_message
insert_custom_domain-IsSound row db w =
    elim (Bool-cases (any (λ d. d.domain == row.domain) db.custom_domains)) [
      | inl t ↦ rw t tt
      | inr n ↦ rw n record {
        mailbox_keys = w.mailbox_keys;
        message_keys = w.message_keys;
        attachment_keys = w.attachment_keys;
        subscription_keys = w.subscription_keys;
        claim_keys = Distinct-append domain_of db.custom_domains row n w.claim_keys;
        device_keys = w.device_keys;
        message_owners = w.message_owners;
        subscription_owners = w.subscription_owners;
        attachment_owners = w.attachment_owners;
      }
    ]
