-- ===== src/Tests/TaskCases.antt =====
-- The theorems on the tasks, src/push.rs and src/cleanup.rs, at concrete inputs.
use anony_mail.Base.{
  ◌+◌, ◌-◌, ◌≡◌, refl, true, false, not, ◌&&◌, none, some, [], ◌∷◌, leb, str_beq, retain, any,
  nat_eq, str_eq,
}
use anony_mail.Base.Text.{text}
use anony_mail.Base.Assoc.{get}
use anony_mail.Base.Assoc.Unique.{keep_if}
use anony_mail.Cleanup.{tick, device_idle_window}
use anony_mail.Cleanup.Sweep.{tick_exact}
use anony_mail.Store.Memory.Purge.{IsGone, IsKept, has_expired}
use anony_mail.Events.{MailEvent}
use anony_mail.Model.{Time, AttestedDevice, PushSubscription}
use anony_mail.Base.Int.{pos}
use anony_mail.Model.Kinds.{apns, web_push}
use anony_mail.Store.Memory.Backend.{MemoryStore, memory_store}
use anony_mail.Store.Memory.Subscriptions.{delete_subscription, list_subscriptions, is_subscription}
use anony_mail.Push.{
  gone, Configured, deliver, deliver_to, prune, results_of, outcome_of, for_kind, prune_one,
}
use anony_mail.Push.Pruning.{is_pruned, deliver_exact}
use anony_mail.Tests.Fixtures.{alice, bob, server, two_mails}

abbrev phone : PushSubscription
phone = record {
  id = 1;
  mailbox_address = alice;
  kind = apns;
  endpoint = text "token";
  p256dh = [];
  auth = [];
  created_at = 1;
}

-- The token of a phone that both have registered, and a browser.
abbrev subscribed : MemoryStore
subscribed = record server {
  inner = record two_mails {
    subscriptions =
        phone
        ∷ record phone { id = 2; mailbox_address = bob }
        ∷ record phone { id = 3; kind = web_push; endpoint = text "https://push" }
        ∷ [];
  };
}

-- The phone is gone; there is no sender for browsers.
abbrev phones_only : Configured
phones_only = record { webpush = none; apns = some (λ n sub payload. gone) }

abbrev arrival : MailEvent
arrival = record {
  address = alice;
  id = 1;
  mail_from = text "x@y";
  subject = none;
  received_at = 10;
  has_attachments = false;
  code = none;
}

deliver_exact_example : deliver memory_store phones_only 0 arrival subscribed ≡ record subscribed {
  inner = record subscribed.inner {
    subscriptions =
        retain
          (λ t. not (
            any
              (λ sub.
                is_pruned phones_only 0 arrival sub
                && is_subscription sub.mailbox_address sub.endpoint t)
              (list_subscriptions subscribed.inner alice)))
          subscribed.inner.subscriptions;
  };
}
deliver_exact_example = deliver_exact phones_only 0 arrival subscribed

-- One subscription is dropped.
dropped : (deliver memory_store phones_only 0 arrival subscribed).inner.subscriptions ≡ (
    record phone { id = 2; mailbox_address = bob }
    ∷ record phone { id = 3; kind = web_push; endpoint = text "https://push" }
    ∷ [])
unfolding deliver deliver_to prune results_of list_subscriptions retain str_beq outcome_of for_kind
    prune_one delete_subscription
dropped = refl

-- A device that was not seen for long, and one that was.
abbrev device_seen : Time → AttestedDevice
device_seen t = record {
  key_id = text "key";
  public_key = [];
  counter = pos 1;
  created_at = 1;
  last_seen_at = t;
}

abbrev with_devices : MemoryStore
with_devices = record server {
  inner = record two_mails {
    attested_devices =
        (text "old", device_seen 20) ∷ (text "key", device_seen (device_idle_window + 70)) ∷ [];
  };
}

abbrev much_later : Time
much_later = device_idle_window + 61

tick_exact_example :
    (has_expired with_devices.inner 60 alice ≡ true
      → IsGone (tick memory_store 60 much_later with_devices).inner alice)
    × (has_expired with_devices.inner 60 alice ≡ false
        → IsKept with_devices.inner (tick memory_store 60 much_later with_devices).inner alice)
    × (get (tick memory_store 60 much_later with_devices).inner.attested_devices (text "old")
        ≡ keep_if
            (λ (d : AttestedDevice). leb (much_later - device_idle_window) d.last_seen_at)
            (get with_devices.inner.attested_devices (text "old")))
unfolding str_beq
tick_exact_example =
    tick_exact with_devices 60 much_later alice (text "old") (refl, (refl, tt), (refl, tt, tt))
      ((refl, tt), (tt, tt))
