-- ===== src/Tests/MemoryStoreCases.antt =====
-- The theorems on src/store/memory.rs at concrete inputs.
use anony_mail.Base.{
  ◌≤◌, min, ◌≡◌, refl, false, none, some, [], ◌∷◌, arith, str_beq, length, retain, nat_eq, str_eq,
}
use anony_mail.Base.Assoc.{get, insert}
use anony_mail.Base.Int.{pos}
use anony_mail.Base.Text.{text}
use anony_mail.Model.Kinds.{web_push}
use anony_mail.Store.Memory.{Inner, empty_inner}
use anony_mail.Store.Memory.Devices.{upsert_attested_device, advance_attested_device_counter}
use anony_mail.Store.Memory.Messages.{save_message, get_message, list_messages}
use anony_mail.Store.Memory.LateMail.{get_message-save_message_late}
use anony_mail.Store.Memory.Listing.{IsPage, list_messages-IsPage}
use anony_mail.Store.Memory.Quota.{in_mailbox, enforce_quotas, u64_max}
use anony_mail.Store.Memory.QuotaBounds.{inbox, bytes_besides, quota-count, quota-bytes}
use anony_mail.Store.Memory.Replay.{upsert, device_run, accepted_counter_is_spent}
use anony_mail.Store.Memory.SaveLaws.{get_message-save_message}
use anony_mail.Store.Memory.SubscriptionCap.{IsCapped, add_subscription-IsCapped}
use anony_mail.Store.Memory.Subscriptions.{add_subscription, list_subscriptions}
use anony_mail.Tests.Fixtures.{alice, device, letter, two_mails, one_message, counting}

quota-count_example : length (inbox (enforce_quotas two_mails alice 3 one_message) alice) ≤ 1
quota-count_example = quota-count two_mails alice 3 one_message (omega arith)

quota-bytes_example :
    min (bytes_besides 3 (inbox (enforce_quotas two_mails alice 3 one_message) alice)) u64_max ≤ 15
quota-bytes_example = quota-bytes two_mails alice 3 one_message (omega arith)

get_message-save_message_example :
    get_message (save_message one_message counting 20 two_mails alice letter).1 alice 100
    ≡ some (save_message one_message counting 20 two_mails alice letter).0
unfolding retain in_mailbox str_beq
get_message-save_message_example =
    get_message-save_message one_message counting 20 two_mails alice letter
      (omega arith, (omega arith, tt)) (refl, (refl, tt))

get_message-save_message_late_example :
    get_message
      (save_message one_message counting 5 two_mails alice letter).1
      alice
      (save_message one_message counting 5 two_mails alice letter).0.id
    ≡ none
unfolding retain in_mailbox str_beq
get_message-save_message_late_example =
    get_message-save_message_late one_message counting 5 two_mails alice letter (omega arith)
      (omega arith) (omega arith, (omega arith, tt))

list_messages-IsPage_example :
    IsPage two_mails alice 1 (some 1) (list_messages two_mails alice 1 (some 1))
list_messages-IsPage_example = list_messages-IsPage two_mails alice 1 (some 1)

-- A registered device whose counter has gone to 7.
abbrev attested : Inner
attested = (upsert_attested_device empty_inner device [] 1).1

accepted_counter_is_spent_example :
    (advance_attested_device_counter
      (device_run
        (advance_attested_device_counter attested device (pos 7) 2).1
        (upsert device [] 3 ∷ []))
      device
      (pos 7)
      4).0
    ≡ false
unfolding upsert_attested_device advance_attested_device_counter get insert str_beq
accepted_counter_is_spent_example =
    accepted_counter_is_spent attested device (pos 7) (pos 7) 2 4 (upsert device [] 3 ∷ []) refl
      refl

add_subscription-IsCapped_example :
    IsCapped 2 (add_subscription 7 1 empty_inner alice web_push (text "e") [] [] 2).1
unfolding list_subscriptions retain
add_subscription-IsCapped_example =
    add_subscription-IsCapped 7 1 empty_inner alice web_push (text "e") [] [] 2
      (record { within = λ a h. omega arith; distinct = λ a e. omega arith })
