-- ===== src/Store/Memory/Mailboxes.antt =====
-- The mailbox operations of src/store/memory.rs.
use anony_mail.Base.{
  ℕ, Bool, not, ◌&&◌, Option, none, some, List, ◌++◌, map, ltb, leb, if◌then◌else◌, ◌==◌, Result,
  is_some, is_some_and, length, retain, contains, ok, err, nat_eq, str_eq,
}
use anony_mail.Base.Assoc.{get, insert, remove, values}
use anony_mail.Base.Text.{Str, text}
use anony_mail.Model.{Time, Mailbox}
use anony_mail.Store.{StoreError, unique_violation}
use anony_mail.Store.Memory.{Inner}

abbrev pub contains_key : Inner → Str → Bool
contains_key inner address = is_some (get inner.mailboxes address)

unfoldable pub create_mailbox :
    Inner → Str → Str → Time → Option Str → Option Str → Time → Result Mailbox StoreError × Inner
create_mailbox inner address domain expires_at owner_token_hash creator_device_hash now =
    let mailbox : Mailbox = record {
      address = address;
      domain = domain;
      created_at = now;
      expires_at = expires_at;
      owner_token_hash = owner_token_hash;
      creator_device_hash = creator_device_hash;
    } in
    if contains_key inner address
    then (err (unique_violation (text "mailbox already exists: " ++ address)), inner)
    else (ok mailbox, record inner { mailboxes = insert inner.mailboxes address mailbox })

unfoldable pub get_mailbox : Inner → Str → Option Mailbox
get_mailbox inner address = get inner.mailboxes address

unfoldable pub mailbox_is_active : Inner → Str → Time → Bool
mailbox_is_active inner address now =
    is_some_and (get inner.mailboxes address) (λ m. ltb now m.expires_at)

-- `get_mut` and a change of the entry, with what the match returns.
unfoldable pub update_mailbox :
    Inner → Str → (Mailbox → Mailbox) → Option Mailbox → Option Mailbox × Inner
update_mailbox inner address change none = (none, inner)
update_mailbox inner address change (some mb) =
    (some (change mb), record inner { mailboxes = insert inner.mailboxes address (change mb) })

unfoldable pub extend_mailbox : Inner → Str → Time → Option Mailbox × Inner
unfolding update_mailbox
extend_mailbox inner address new_expires_at =
    update_mailbox inner address (λ mb. record mb { expires_at = new_expires_at })
      (get inner.mailboxes address)

unfoldable pub rotate_owner_token : Inner → Str → Str → Bool × Inner
unfolding update_mailbox
rotate_owner_token inner address new_hash =
    let (mb, inner') =
      update_mailbox inner address (λ mb. record mb { owner_token_hash = some new_hash })
        (get inner.mailboxes address) in
    (is_some mb, inner')

unfoldable pub delete_mailbox : Inner → Str → Bool × Inner
delete_mailbox inner address = (
  contains_key inner address,
  record inner {
    mailboxes = remove inner.mailboxes address;
    messages = retain (λ e. not (e.message.mailbox_address == address)) inner.messages;
    subscriptions = retain (λ s. not (s.mailbox_address == address)) inner.subscriptions;
  },
)

-- The addresses of the mailboxes that expired on or before `now`.
unfoldable pub expired_addresses : Inner → Time → List Str
expired_addresses inner now =
    map (λ (m : Mailbox). m.address) (retain (λ m. leb m.expires_at now) (values inner.mailboxes))

abbrev pub remove_all : Inner → List Str → Inner
remove_all inner List.[] = inner
remove_all inner (List.◌∷◌ a as') =
    remove_all (record inner { mailboxes = remove inner.mailboxes a }) as'

unfoldable pub purge_expired : Inner → Time → ℕ × Inner
unfolding expired_addresses
purge_expired inner now =
    let expired = expired_addresses inner now in
    let inner' = remove_all inner expired in
    (
      length expired,
      record inner' {
        messages = retain (λ e. not (contains expired e.message.mailbox_address)) inner'.messages;
        subscriptions = retain (λ s. not (contains expired s.mailbox_address)) inner'.subscriptions;
      },
    )

unfoldable pub count_active_mailboxes_by_device : Inner → Str → Time → ℕ
count_active_mailboxes_by_device inner creator_device_hash now = length (
    retain
      (λ m.
        is_some_and m.creator_device_hash (λ h. h == creator_device_hash) && ltb now m.expires_at)
      (values inner.mailboxes))
