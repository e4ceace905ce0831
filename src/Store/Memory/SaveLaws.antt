-- ===== src/Store/Memory/SaveLaws.antt =====
-- What `save_message` of src/store/memory.rs keeps: the new message, and the other mailboxes.
use anony_mail.Base.{
  ℕ, ◌≡◌, ap, ◌∙◌, inl, inr, Bool, true, false, some, List, [], ◌∷◌, ◌++◌, map, arith, ◌==◌,
  ==_refl, Bool-cases, length, retain, find, retain-last-false, retain-last, retain_comm, All,
  contains, retain-All, nat_eq, str_eq,
}
use mathlib.Core.List.{map-append}
use anony_mail.Base.Sort.{sort_by-All}
use anony_mail.Base.Sort.{sort_by-first}
use anony_mail.Base.Text.{Str}
use anony_mail.Model.{Time, Uuid, NewMessage}
use anony_mail.Store.{MailboxQuotas}
use anony_mail.Store.Memory.{Inner, Entry}
use anony_mail.Store.Memory.Quota.{sized, newer_sized, in_mailbox, newest_first}
use anony_mail.Store.Memory.QuotaBounds.{inbox, dropped, keeps, messages-enforce_quotas}
use anony_mail.Store.Memory.Messages.{new_entry, save_message, get_message, has_id}
use anony_mail.Store.Memory.Spared.{
  Unused, OlderThan, first_spared, to_drop-foreign, older-newer_sized,
}

-- The sizes of a mailbox, the newest first, when a newer message than all is put at the end.
newest_first-append :
    (inner : Inner) (address : Str) (e : Entry)
    → in_mailbox address e ≡ true
    → OlderThan e.message.received_at (inbox inner address)
    → newest_first (record inner { messages = inner.messages ++ e ∷ [] }) address
      ≡ sized e ∷ newest_first inner address
unfolding newest_first
newest_first-append inner address e h o =
    rw (retain-last (in_mailbox address) inner.messages e h, map-append)
      (sort_by-first newer_sized (sized e) (map sized (inbox inner address))
        (older-newer_sized e (inbox inner address) o))

Unused-sized :
    (id : Uuid) (xs : List Entry) → Unused id xs → All (λ s. (s.id == id) ≡ false) (map sized xs)
unfolding sized
Unused-sized id [] u = tt
Unused-sized id (x ∷ xs) u = (u.0, Unused-sized id xs u.1)

-- The set to drop spares a message that is newer than the rest of its mailbox.
newest_spared :
    (quotas : MailboxQuotas) (inner : Inner) (address : Str) (e : Entry)
    → in_mailbox address e ≡ true
    → OlderThan e.message.received_at (inbox inner address)
    → Unused e.message.id (inbox inner address)
    → contains
        (dropped (record inner { messages = inner.messages ++ e ∷ [] }) address e.message.id quotas)
        e.message.id
      ≡ false
unfolding sized
newest_spared quotas inner address e h o u = rw (newest_first-append inner address e h o) (
    first_spared quotas (sized e) (newest_first inner address)
      (unfold newest_first in sort_by-All newer_sized _ _ (Unused-sized e.message.id _ u)))

find-retain-last :
    (p q : Entry → Bool) (xs : List Entry) (e : Entry)
    → All (λ x. p x ≡ false) xs
    → p e ≡ true
    → q e ≡ true
    → find p (retain q (xs ++ e ∷ [])) ≡ some e
unfolding find retain
find-retain-last p q [] e a h k = ground arith
find-retain-last p q (x ∷ xs) e a h k = ground (arith, a.0, find-retain-last p q xs e a.1 h k)

Unused-has_id :
    (address : Str) (id : Uuid) (xs : List Entry)
    → Unused id (retain (in_mailbox address) xs)
    → All (λ e. has_id address id e ≡ false) xs
unfolding has_id in_mailbox retain
Unused-has_id address id [] u = tt
Unused-has_id address id (x ∷ xs) u = elim (Bool-cases (x.message.mailbox_address == address)) [
  | inl t ↦
      let v : Unused id (x ∷ retain (in_mailbox address) xs) = rw t at u in
      (ground (arith, v.0), Unused-has_id address id xs v.1)
  | inr f ↦
      let v : Unused id (retain (in_mailbox address) xs) = rw f at u in
      (ground arith, Unused-has_id address id xs v)
]

Unused-append :
    (id : Uuid) (xs : List Entry) (e : Entry)
    → Unused id xs
    → (e.message.id == id) ≡ false
    → Unused id (xs ++ e ∷ [])
Unused-append id [] e u h = (h, tt)
Unused-append id (x ∷ xs) e u h = (u.0, Unused-append id xs e u.1 h)

foreign_kept :
    (D : List Uuid) (xs ys : List Entry) (new_id : Uuid)
    → ((i : Uuid) → Unused i xs → (new_id == i) ≡ false → contains D i ≡ false)
    → All (λ e. Unused e.message.id xs) ys
    → Unused new_id ys
    → All (λ e. keeps D e.message.id ≡ true) ys
foreign_kept D xs [] new_id h d u = tt
foreign_kept D xs (y ∷ ys) new_id h d u =
    (rw (h y.message.id d.0 (ground (arith, u.0))), foreign_kept D xs ys new_id h d.1 u.1)

module _ (quotas : MailboxQuotas) (new_v4 : ℕ → Uuid) (now : Time) (inner : Inner) (address : Str)
    (message : NewMessage) where
  abbrev pub new_id : Uuid
  new_id = new_v4 (length message.attachments)

  -- Whatever the quotas, a saved message that is later than the rest of its mailbox, under an id
  -- that the mailbox does not hold, is there to read, as it was returned.
  pub get_message-save_message :
      OlderThan now (inbox inner address)
      → Unused new_id (inbox inner address)
      → get_message (save_message quotas new_v4 now inner address message).1 address new_id
        ≡ some (save_message quotas new_v4 now inner address message).0
  unfolding save_message get_message in_mailbox
  get_message-save_message o u = rw messages-enforce_quotas (
      rw (
        find-retain-last (has_id address new_id)
          (λ e. keeps (dropped saved address new_id quotas) e.message.id) inner.messages entry
          (Unused-has_id address new_id inner.messages u)
          (ground (arith, ==_refl address, ==_refl new_id))
          (ground (arith, newest_spared quotas inner address entry (==_refl address) o u))))
    where
      entry : Entry
      entry = new_entry new_v4 now address message

      saved : Inner
      saved = record inner { messages = inner.messages ++ entry ∷ [] }

  -- Messages of another mailbox stay as they were, if no two messages share an id.
  pub inbox-save_message_other :
      (other : Str)
      → (address == other) ≡ false
      → All
          (λ e. All (λ f. (f.message.id == e.message.id) ≡ false) (inbox inner address))
          (inbox inner other)
      → Unused new_id (inbox inner other)
      → inbox (save_message quotas new_v4 now inner address message).1 other ≡ inbox inner other
  unfolding save_message in_mailbox newest_first
  inbox-save_message_other other n d u = rw messages-enforce_quotas (
      retain_comm _ _ saved.messages
      ∙ ap (retain keep) (retain-last-false (in_mailbox other) inner.messages entry n)
      ∙ retain-All keep (inbox inner other) (
          foreign_kept (dropped saved address new_id quotas) (inbox inner address)
            (inbox inner other) new_id spared d u))
    where
      entry : Entry
      entry = new_entry new_v4 now address message

      saved : Inner
      saved = record inner { messages = inner.messages ++ entry ∷ [] }

      keep : Entry → Bool
      keep e = keeps (dropped saved address new_id quotas) e.message.id

      spared :
          (i : Uuid)
          → Unused i (inbox inner address)
          → (new_id == i) ≡ false
          → contains (dropped saved address new_id quotas) i ≡ false
      spared i v w = to_drop-foreign quotas new_id i _ (
          sort_by-All newer_sized _ _ (
            Unused-sized i (inbox saved address) (
              rw (retain-last (in_mailbox address) inner.messages entry (==_refl address))
                (Unused-append i (inbox inner address) entry v w))))
