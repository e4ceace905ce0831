-- ===== src/Store/Steps.antt =====
-- The states of a store that its operations lead to, for any implementation of the interface of
-- src/store/mod.rs.
use anony_mail.Base.{ℕ, Option, List, [], ◌∷◌}
use anony_mail.Base.Text.{Str}
use anony_mail.Base.Int.{ℤ}
use anony_mail.Model.{Time, Uuid, Bytes, NewMessage}
use anony_mail.Model.Kinds.{SubscriptionKind, CustomDomainStatus}
use anony_mail.Store.{Store}

-- One call of an operation that may change the state.
pub data Call : Type 0 where
  create_mailbox : Str → Str → Time → Option Str → Option Str → Call
  extend_mailbox : Str → Time → Call
  delete_mailbox : Str → Call
  rotate_owner_token : Str → Str → Call
  save_message : Str → NewMessage → Call
  delete_message : Str → Uuid → Call
  mark_seen : Str → Uuid → Call
  delete_all_messages : Str → Call
  purge_expired : Time → Call
  add_subscription : Str → SubscriptionKind → Str → Str → Str → ℕ → Call
  delete_subscription : Str → Str → Call
  create_custom_domain : Str → Str → Str → Call
  delete_custom_domain : Str → Call
  record_custom_domain_check : Str → CustomDomainStatus → Option Time → Time → Call
  upsert_attested_device : Str → Bytes → Time → Call
  advance_attested_device_counter : Str → ℤ → Time → Call
  prune_attested_devices : Time → Call
  run_maintenance : Call

module _ (store : Store) where
  unfoldable pub call : Call → store.State → store.State
  call (create_mailbox address domain expires_at owner device) s =
      (store.create_mailbox s address domain expires_at owner device).1
  call (extend_mailbox address t) s = (store.extend_mailbox s address t).1
  call (delete_mailbox address) s = (store.delete_mailbox s address).1
  call (rotate_owner_token address h) s = (store.rotate_owner_token s address h).1
  call (save_message address message) s = (store.save_message s address message).1
  call (delete_message address id) s = (store.delete_message s address id).1
  call (mark_seen address id) s = (store.mark_seen s address id).1
  call (delete_all_messages address) s = (store.delete_all_messages s address).1
  call (purge_expired t) s = (store.purge_expired s t).1
  call (add_subscription address kind endpoint p256dh auth cap) s =
      (store.add_subscription s address kind endpoint p256dh auth cap).1
  call (delete_subscription address endpoint) s = (store.delete_subscription s address endpoint).1
  call (create_custom_domain domain hash token) s =
      (store.create_custom_domain s domain hash token).1
  call (delete_custom_domain domain) s = (store.delete_custom_domain s domain).1
  call (record_custom_domain_check domain status verified_at t) s =
      (store.record_custom_domain_check s domain status verified_at t).1
  call (upsert_attested_device key_id public_key t) s =
      (store.upsert_attested_device s key_id public_key t).1
  call (advance_attested_device_counter key_id counter t) s =
      (store.advance_attested_device_counter s key_id counter t).1
  call (prune_attested_devices t) s = (store.prune_attested_devices s t).1
  call run_maintenance s = (store.run_maintenance s).1

  -- The states that calls lead to from a first one.
  pub data Reachable (first : store.State) : store.State → Type 0 where
    start : Reachable first first
    step : (c : Call) {s : store.State} → Reachable first s → Reachable first (call c s)

  -- A predicate that every call keeps holds wherever calls lead.
  pub Reachable-ind {ℓ} :
      (P : store.State → Type ℓ)
      → ((c : Call) (s : store.State) → P s → P (call c s))
      → {first s : store.State} → P first
      → Reachable first s
      → P s
  Reachable-ind P keep p start = p
  Reachable-ind P keep p (step c {s} r) = keep c s (Reachable-ind P keep p r)

  -- A sequence of calls.
  unfoldable pub calls : List Call → store.State → store.State
  calls [] s = s
  calls (c ∷ cs) s = calls cs (call c s)
