-- ===== src/Cleanup/Sweep.antt =====
-- What a tick of src/cleanup.rs leaves of the memory store.
use anony_mail.Base.{◌-◌, ◌≡◌, refl, ap, ◌∙◌, true, false, List, [], ◌∷◌, leb, nat_eq, str_eq}
use anony_mail.Base.Text.{Str}
use anony_mail.Base.Assoc.{get, remove, retain_values}
use anony_mail.Base.Assoc.Unique.{IsUnique, keep_if, get-retain_values}
use anony_mail.Cleanup.{tick, device_idle_window}
use anony_mail.Model.{Time, AttestedDevice}
use anony_mail.Store.Memory.{Inner}
use anony_mail.Store.Memory.Backend.{MemoryStore, memory_store}
use anony_mail.Store.Memory.Devices.{prune_attested_devices}
use anony_mail.Store.Memory.Lifecycle.{IsKeyed}
use anony_mail.Store.Memory.Mailboxes.{get_mailbox, purge_expired, remove_all, expired_addresses}
use anony_mail.Store.Memory.Subscriptions.{list_subscriptions}
use anony_mail.Store.Memory.Purge.{IsGone, IsKept, has_expired, purge_expired_exact}

devices-remove_all :
    (inner : Inner) (as' : List Str)
    → (remove_all inner as').attested_devices ≡ inner.attested_devices
devices-remove_all inner [] = refl
devices-remove_all inner (b ∷ bs) =
    devices-remove_all (record inner { mailboxes = remove inner.mailboxes b }) bs

devices-purge_expired :
    (inner : Inner) (now : Time)
    → (purge_expired inner now).1.attested_devices ≡ inner.attested_devices
unfolding purge_expired
devices-purge_expired inner now = devices-remove_all inner (expired_addresses inner now)

-- A tick leaves nothing of an address whose mailbox has expired by its first reading of the clock, and
-- all of any other, where each address has one mailbox, which bears it; and it keeps a device, of
-- those that have one entry to a key, exactly if it was seen within the window before the second.
pub tick_exact :
    (s : MemoryStore) (now later : Time) (a key : Str)
    → IsKeyed s.inner
    → IsUnique s.inner.attested_devices
    → (has_expired s.inner now a ≡ true → IsGone (tick memory_store now later s).inner a)
      × (has_expired s.inner now a ≡ false → IsKept s.inner (tick memory_store now later s).inner a)
      × (get (tick memory_store now later s).inner.attested_devices key
          ≡ keep_if
              (λ (d : AttestedDevice). leb (later - device_idle_window) d.last_seen_at)
              (get s.inner.attested_devices key))
unfolding tick prune_attested_devices get_mailbox list_subscriptions
tick_exact s now later a key w u =
    let (purged, kept) = purge_expired_exact s.inner now a w in
    (
      (λ h.
          let g = purged h in
          record { mailbox = g.mailbox; messages = g.messages; subscriptions = g.subscriptions }),
      (λ h.
          let g = kept h in
          record { mailbox = g.mailbox; messages = g.messages; subscriptions = g.subscriptions }),
      ap
            (λ ds.
              get
                (retain_values
                  (λ (d : AttestedDevice). leb (later - device_idle_window) d.last_seen_at) ds)
                key)
            (devices-purge_expired s.inner now)
          ∙ get-retain_values _ s.inner.attested_devices key u,
    )
