-- ===== src/Tests/SqliteCases.antt =====
-- The theorems on src/store/sqlite.rs at concrete inputs, and runs of its operations.
use anony_mail.Base.{
  ℕ, ◌+◌, ◌-◌, ◌≤◌, ◌≡◌, refl, none, some, List, [], ◌∷◌, map, arith, str_beq, length, retain, any,
  contains, ok, err, nat_eq, str_eq,
}
use mathlib.Core.List.Perm
use mathlib.Core.List.{Perm}
use anony_mail.Model.Kinds.{verified, failed}
use anony_mail.Base.Sort.{sort_by}
use anony_mail.Store.Sqlite.Mailboxes
use anony_mail.Base.Int.{pos, as_i32}
use anony_mail.Base.Text.{text}
use anony_mail.Model.{Uuid, Time, CustomDomain, StoredMessage, NewMessage}
use anony_mail.Store.{unlimited, backend_failure, MailboxQuotas}
use anony_mail.Store.Steps
use anony_mail.Store.Steps.{Call, Reachable, start, step}
use anony_mail.Store.Memory.Backend as Memory
use anony_mail.Store.Memory.Backend.{memory_store}
use anony_mail.Store.Sqlite.{UuidCodec, Db, MessageRow, empty_db, has_mailbox}
use anony_mail.Store.Sqlite.Backend as Sqlite
use anony_mail.Store.Sqlite.Backend.{SqliteStore, sqlite_store}
use anony_mail.Store.Sqlite.Messages.{save_message, message_row, stored_from}
use anony_mail.Store.Sqlite.Integrity.{IsSound}
use anony_mail.Store.Sqlite.QuotaBounds.{inbox, save_message-count}
use anony_mail.Store.Sqlite.Sound.Calls.{Reachable-IsSound}
use anony_mail.Store.Sqlite.Inbox.{get_message}
use anony_mail.Store.Sqlite.Saved.RoundTrip.{by_text, get_message-saved}
use anony_mail.Agreement.Answers.{answer, list_custom_domains_to_recheck}
use anony_mail.Agreement.Answers.Replies.{Matches, stores_agree}
use anony_mail.Tests.Fixtures.{alice, bob, letter, one_message, counting}

-- An identifier as the text of one code point.
abbrev one_letter : UuidCodec
one_letter = record {
  to_string = λ id. id ∷ [];
  parse_str = λ s. elim s [ [] ↦ none | c ∷ rest ↦ some c ];
}

abbrev clock : ℕ → Time
clock n = n + 10

-- The first two of a list the other way round.
abbrev backwards : List CustomDomain → List CustomDomain
backwards [] = []
backwards (d ∷ []) = d ∷ []
backwards (d ∷ e ∷ ds) = e ∷ d ∷ ds

backwards-perm : (ds : List CustomDomain) → Perm (backwards ds) ds
backwards-perm [] = Perm.refl _
backwards-perm (d ∷ []) = Perm.refl _
backwards-perm (d ∷ e ∷ ds) = Perm.swap d e ds

abbrev fresh : SqliteStore
fresh = Sqlite.with_quotas (Sqlite.new clock counting (λ db. backwards)) one_message

-- Two mailboxes are made, one gets mail, and it is deleted.
abbrev history : List Call
history =
    Steps.create_mailbox alice (text "a.io") 50 none none
    ∷ Steps.create_mailbox bob (text "a.io") 90 none none
    ∷ Steps.save_message alice letter
    ∷ Steps.delete_mailbox alice
    ∷ []

Reachable-IsSound_example :
    IsSound
      (Steps.call (sqlite_store one_letter) (Steps.save_message alice letter) (
        Steps.call
          (sqlite_store one_letter)
          (Steps.create_mailbox alice (text "a.io") 50 none none)
          fresh)).db
Reachable-IsSound_example =
    Reachable-IsSound one_letter one_message clock counting (λ db. backwards) _
      (step (Steps.save_message alice letter)
        (step (Steps.create_mailbox alice (text "a.io") 50 none none) start))

-- Two claims, checked and due again.
abbrev claims_history : List Call
claims_history =
    Steps.create_custom_domain (text "x.io") (text "h") (text "t")
    ∷ Steps.create_custom_domain (text "y.io") (text "h") (text "t")
    ∷ Steps.record_custom_domain_check (text "x.io") verified (some 20) 20
    ∷ Steps.record_custom_domain_check (text "y.io") failed none 21
    ∷ history

stores_agree_example :
    Matches
      (answer memory_store (list_custom_domains_to_recheck 30) (
        Steps.calls memory_store claims_history
          (Memory.with_quotas one_message clock counting (λ inner ds. ds))))
      (answer
        (sqlite_store one_letter)
        (list_custom_domains_to_recheck 30)
        (Steps.calls (sqlite_store one_letter) claims_history fresh))
stores_agree_example =
    stores_agree one_letter one_message one_message clock counting counting (λ inner ds. ds)
      (λ db. backwards) claims_history (list_custom_domains_to_recheck 30)
      (λ inner ds. Perm.refl ds) (λ db ds. backwards-perm ds)

abbrev old_mail : MessageRow
old_mail = message_row (1 ∷ []) 5 alice letter

abbrev one_mail : Db
one_mail = record empty_db {
  mailboxes =
      record {
        address = alice;
        domain = text "a.io";
        created_at = 1;
        expires_at = 50;
        owner_token_hash = none;
        creator_device_hash = none;
      }
      ∷ [];
  messages = old_mail ∷ [];
}

one_mail-IsSound : IsSound one_mail
unfolding any str_beq has_mailbox message_row
one_mail-IsSound = record {
  mailbox_keys = (refl, tt);
  message_keys = (refl, tt);
  attachment_keys = tt;
  subscription_keys = tt;
  claim_keys = tt;
  device_keys = tt;
  message_owners = (refl, tt);
  subscription_owners = tt;
  attachment_owners = tt;
}

save_message-count_example :
    length (inbox (save_message one_letter one_message counting 20 one_mail alice letter).1 alice)
    ≤ 1
unfolding save_message any str_beq stored_from message_row as_i32
save_message-count_example =
    save_message-count one_letter one_message counting 20 one_mail alice letter
      (stored_from (message_row (100 ∷ []) 20 alice letter) 100 []) one_mail-IsSound (omega arith)
      refl

-- The cap of one message drops the older one.
quota_keeps_newest :
    map
      (λ (m : MessageRow). m.id)
      (inbox (save_message one_letter one_message counting 20 one_mail alice letter).1 alice)
    ≡ (100 ∷ []) ∷ []
unfolding retain save_message any str_beq contains sort_by
quota_keeps_newest = refl

-- Mail goes with its mailbox.
cascade : (Steps.calls (sqlite_store one_letter) history fresh).db.messages ≡ []
unfolding Steps.calls Steps.call Mailboxes.delete_mailbox retain save_message any
    Mailboxes.create_mailbox str_beq contains sort_by
cascade = refl

-- Mail to an address without a mailbox is refused.
no_mailbox :
    (save_message one_letter unlimited counting 20 one_mail bob letter)
    ≡ (err backend_failure, one_mail)
unfolding save_message any str_beq
no_mailbox = refl

abbrev bytes_only : MailboxQuotas
bytes_only = record { max_messages = 0; max_bytes = 5 }

-- Mail with two attachments, and a cap on the bytes that it exceeds.
abbrev parcel : NewMessage
parcel = record letter {
  attachments =
      record { filename = none; content_type = text "a/b"; content = 1 ∷ [] }
      ∷ record { filename = some (text "f"); content_type = text "c/d"; content = [] }
      ∷ [];
}

-- The identifiers fall, so that the attachments are read in the other order.
abbrev falling : ℕ → Uuid
falling n = 50 - n

abbrev parcel_stored : StoredMessage
parcel_stored = stored_from (message_row (50 ∷ []) 20 alice parcel) 50 (
    record { id = 49; filename = none; content_type = text "a/b"; size = pos 1 }
    ∷ record { id = 48; filename = some (text "f"); content_type = text "c/d"; size = pos 0 }
    ∷ [])

get_message-saved_example :
    get_message one_letter
      (save_message one_letter bytes_only falling 20 one_mail alice parcel).1
      alice
      50
    ≡ ok (
        some (record parcel_stored {
          attachments = sort_by (by_text one_letter) parcel_stored.attachments;
        }))
unfolding save_message any str_beq stored_from message_row as_i32
get_message-saved_example =
    get_message-saved one_letter (λ i. refl) bytes_only falling 20 one_mail alice parcel
      parcel_stored one_mail-IsSound refl refl
