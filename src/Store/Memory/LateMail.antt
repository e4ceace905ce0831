-- ===== src/Store/Memory/LateMail.antt =====
-- Where the message cap of src/store/memory.rs takes the message that was just saved.
use anony_mail.Base.{
  ℕ, ◌≤◌, ◌<◌, ◌≡◌, true, false, none, List, [], ◌∷◌, ◌++◌, map, arith, ltb, ==_refl, length,
  retain-last, sum_by-map, length-sum_by, All, contains, contains-append, find-retain_out,
  contains-drop_last, nat_eq, str_eq,
}
use mathlib.Core.List.{map-append}
use anony_mail.Base.Sort.{sort_by-last, sum_by-sort_by}
use anony_mail.Base.Text.{Str}
use anony_mail.Model.{Time, Uuid, NewMessage}
use anony_mail.Store.{MailboxQuotas}
use anony_mail.Store.Memory.{Inner, Entry}
use anony_mail.Store.Memory.Quota.{Sized, sized, newer_sized, in_mailbox, newest_first, to_drop}
use anony_mail.Store.Memory.QuotaBounds.{inbox, dropped, keeps, messages-enforce_quotas}
use anony_mail.Store.Memory.Messages.{new_entry, save_message, get_message, has_id}

-- Every message was received later: the clock has been set back since.
abbrev pub LaterThan : Time → List Entry → Type 0
LaterThan now = All (λ e. now < e.message.received_at)

later-newer_sized :
    (e : Entry) (xs : List Entry)
    → LaterThan e.message.received_at xs
    → All (λ s. newer_sized (sized e) s ≡ false) (map sized xs)
unfolding newer_sized sized
later-newer_sized e [] o = tt
later-newer_sized e (x ∷ xs) o = (ground (arith, o.0), later-newer_sized e xs o.1)

newest_first-late :
    (inner : Inner) (address : Str) (e : Entry)
    → in_mailbox address e ≡ true
    → LaterThan e.message.received_at (inbox inner address)
    → newest_first (record inner { messages = inner.messages ++ e ∷ [] }) address
      ≡ newest_first inner address ++ sized e ∷ []
unfolding newest_first
newest_first-late inner address e h o =
    rw (retain-last (in_mailbox address) inner.messages e h, map-append)
      (sort_by-last newer_sized (sized e) (map sized (inbox inner address))
        (later-newer_sized e (inbox inner address) o))

length-newest_first :
    (inner : Inner) (address : Str)
    → length (newest_first inner address) ≡ length (inbox inner address)
unfolding newest_first
length-newest_first inner address = omega (
  arith,
  length-sum_by (newest_first inner address),
  sum_by-sort_by newer_sized (λ s. 1) (map sized (inbox inner address)),
  sum_by-map (λ s. 1) sized (inbox inner address),
  length-sum_by (inbox inner address),
)

module _ (quotas : MailboxQuotas) (new_v4 : ℕ → Uuid) (now : Time) (inner : Inner) (address : Str)
    (message : NewMessage) where
  entry : Entry
  entry = new_entry new_v4 now address message

  saved : Inner
  unfolding entry
  saved = record inner { messages = inner.messages ++ entry ∷ [] }

  late_dropped :
      0 < quotas.max_messages
      → quotas.max_messages ≤ length (inbox inner address)
      → LaterThan now (inbox inner address)
      → contains (dropped saved address entry.message.id quotas) entry.message.id ≡ true
  unfolding to_drop saved sized in_mailbox new_entry
  late_dropped on full o =
      let t : ltb 0 quotas.max_messages ≡ true = ground arith in
      rw (
        contains-append,
        t,
        newest_first-late inner address entry (==_refl address) o,
        contains-drop_last (λ (s : Sized). s.id) quotas.max_messages (newest_first inner address)
            (sized entry) (omega (arith, length-newest_first inner address)),
      )

  -- The message cap has no exception for the message just saved: in a full mailbox whose messages
  -- all bear a later time, the new message is reported as stored and is not there to read.
  pub get_message-save_message_late :
      0 < quotas.max_messages
      → quotas.max_messages ≤ length (inbox inner address)
      → LaterThan now (inbox inner address)
      → get_message
          (save_message quotas new_v4 now inner address message).1
          address
          (save_message quotas new_v4 now inner address message).0.id
        ≡ none
  unfolding save_message get_message saved
  get_message-save_message_late on full o = rw messages-enforce_quotas (
      rw (
        find-retain_out (has_id address entry.message.id)
          (λ e. keeps (dropped saved address entry.message.id quotas) e.message.id) saved.messages
          (λ e h.
            let q : e.message.id ≡ entry.message.id = ground arith in
            rw (q, late_dropped on full o))))
