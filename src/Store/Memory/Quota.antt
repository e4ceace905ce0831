-- ===== src/Store/Memory/Quota.antt =====
-- `enforce_quotas` of src/store/memory.rs: drop-oldest within one mailbox.
use anony_mail.Base.{
  ℕ, ◌+◌, ◌-◌, ◌^◌, Bool, not, ◌&&◌, ◌||◌, ◌==◌, nat_eq, str_eq, List, [], ◌∷◌, ◌++◌, map, ltb,
  drop, retain, contains, min, if◌then◌else◌,
}
use anony_mail.Base.Int.{pos_part}
use anony_mail.Base.Sort.{sort_by}
use anony_mail.Base.Text.{Str, is_empty}
use anony_mail.Model.{Time, Uuid}
use anony_mail.Store.{MailboxQuotas}
use anony_mail.Store.Memory.{Inner, Entry}

-- The order of the listings: by (received_at, id), the greater first.
unfoldable pub newer : Time × Uuid → Time × Uuid → Bool
newer (t, i) (u, j) = ltb u t || (t == u && ltb j i)

-- (received_at, id, raw_size.max(0))
pub record Sized : Type 0 where
  pub received_at : Time
  pub id : Uuid
  pub size : ℕ

unfoldable pub sized : Entry → Sized
sized e = record {
  received_at = e.message.received_at;
  id = e.message.id;
  size = pos_part e.message.raw_size;
}

unfoldable pub newer_sized : Sized → Sized → Bool
unfolding newer
newer_sized a b = newer (a.received_at, a.id) (b.received_at, b.id)

unfoldable pub in_mailbox : Str → Entry → Bool
in_mailbox address e = e.message.mailbox_address == address

unfoldable pub newest_first : Inner → Str → List Sized
unfolding sized newer_sized in_mailbox
newest_first inner address =
    sort_by newer_sized (map sized (retain (in_mailbox address) inner.messages))

abbrev pub ids : List Sized → List Uuid
ids = map (λ s. s.id)

abbrev pub u64_max : ℕ
u64_max = 2 ^ 64 - 1

-- The walk that adds up the sizes: the messages at which the running total passes `max_bytes`.
unfoldable pub over_bytes : ℕ → Uuid → ℕ → List Sized → List Uuid
over_bytes max_bytes new_id running [] = []
over_bytes max_bytes new_id running (s ∷ rest) =
    let running' = min (running + s.size) u64_max in
    let dropped = over_bytes max_bytes new_id running' rest in
    if ltb max_bytes running' && not (s.id == new_id) then s.id ∷ dropped else dropped

-- The set of ids to drop.
unfoldable pub to_drop : MailboxQuotas → Uuid → List Sized → List Uuid
unfolding over_bytes
to_drop quotas new_id newest =
    (if ltb 0 quotas.max_messages then ids (drop quotas.max_messages newest) else [])
    ++ (if ltb 0 quotas.max_bytes then over_bytes quotas.max_bytes new_id 0 newest else [])

unfoldable pub enforce_quotas : Inner → Str → Uuid → MailboxQuotas → Inner
unfolding newest_first to_drop
enforce_quotas inner address new_id quotas =
    let drop_ids = to_drop quotas new_id (newest_first inner address) in
    if quotas.max_messages == 0 && quotas.max_bytes == 0
    then inner
    else if is_empty drop_ids
    then inner
    else record inner {
      messages = retain (λ e. not (contains drop_ids e.message.id)) inner.messages;
    }
