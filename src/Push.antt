-- ===== src/Push.antt =====
-- src/push.rs: what the push worker does with an event. A sender tells what became of the send of a
-- delivery, which is given by its number; the sends of one delivery run at once and do not touch the
-- store. The senders over the crates web-push and a2 are in Push/Senders.
pub mod Senders
pub mod Pruning
use anony_mail.Base.{
  ℕ, ◌+◌, Bool, true, false, not, ◌&&◌, Option, none, some, List, [], ◌∷◌, ◌++◌, if◌then◌else◌,
  Result, is_none, ok, err,
}
use anony_mail.Base.Text.{Str, text, trim, is_empty}
use anony_mail.Events.{MailEvent}
use anony_mail.Model.{Uuid, PushSubscription}
use anony_mail.Model.Kinds.{SubscriptionKind, web_push, apns}
use anony_mail.Store.{Store, StoreError}

pub data PushOutcome : Type 0 where
  delivered gone transient_failure : PushOutcome

unfoldable pub is_gone : PushOutcome → Bool
is_gone delivered = false
is_gone gone = true
is_gone transient_failure = false

pub record PushPayload : Type 0 where
  pub address : Str
  pub id : Uuid
  pub mail_from : Str
  pub subject : Option Str
  pub code : Option Str

-- `filter` and `unwrap_or` on the subject.
abbrev pub title_of : Option Str → Str
title_of none = text "New mail"
title_of (some s) = if is_empty (trim s) then text "New mail" else s

-- The title and the body.
unfoldable pub alert : PushPayload → Str × Str
alert payload = (
  title_of payload.subject,
  elim payload.code [
    | some code ↦ text "Code " ++ code ++ text " — " ++ payload.mail_from
    | none ↦ text "From " ++ payload.mail_from
  ],
)

abbrev pub Sender : Type 0
Sender = ℕ → PushSubscription → PushPayload → PushOutcome

-- The fields of `Senders`.
pub record Configured : Type 0 where
  pub webpush : Option Sender
  pub apns : Option Sender

unfoldable pub for_kind : Configured → SubscriptionKind → Option Sender
for_kind senders web_push = senders.webpush
for_kind senders apns = senders.apns

unfoldable pub no_senders : Configured → Bool
no_senders senders = is_none senders.webpush && is_none senders.apns

abbrev pub payload_of : MailEvent → PushPayload
payload_of event = record {
  address = event.address;
  id = event.id;
  mail_from = event.mail_from;
  subject = event.subject;
  code = event.code;
}

-- The outcome of the send to one subscription, if its kind has a sender.
unfoldable pub outcome_of : Configured → ℕ → MailEvent → PushSubscription → Option PushOutcome
outcome_of senders n event sub = elim (for_kind senders sub.kind) [
  | none ↦ none
  | some send ↦ some (send n sub (payload_of event))
]

abbrev with_result :
    PushSubscription
    → Option PushOutcome
    → List (PushSubscription × PushOutcome)
    → List (PushSubscription × PushOutcome)
with_result sub none results = results
with_result sub (some outcome) results = (sub, outcome) ∷ results

-- The `filter_map` behind `join_all`.
unfoldable pub results_of :
    Configured → ℕ → MailEvent → List PushSubscription → List (PushSubscription × PushOutcome)
results_of senders n event [] = []
results_of senders n event (sub ∷ subs) =
    with_result sub (outcome_of senders n event sub) (results_of senders n event subs)

module _ (store : Store) where
  unfoldable pub prune_one : PushSubscription → PushOutcome → store.State → store.State
  prune_one sub delivered s = s
  prune_one sub gone s = (store.delete_subscription s sub.mailbox_address sub.endpoint).1
  prune_one sub transient_failure s = s

  -- The loop over the results; a failure to delete is logged, and the loop goes on.
  unfoldable pub prune : List (PushSubscription × PushOutcome) → store.State → store.State
  prune [] s = s
  prune ((sub, outcome) ∷ results) s = prune results (prune_one sub outcome s)

  unfoldable pub deliver_to :
      Configured
      → ℕ
      → MailEvent
      → Result (List PushSubscription) StoreError
      → store.State
      → store.State
  deliver_to senders n event (err e) s = s
  deliver_to senders n event (ok subscriptions) s =
      prune (results_of senders n event subscriptions) s

  unfoldable pub deliver : Configured → ℕ → MailEvent → store.State → store.State
  deliver senders n event s =
      deliver_to senders n event (store.list_subscriptions s event.address) s

  -- The loop of `run` over what it receives until the bus closes; `none` is a lag.
  unfoldable pub run : Configured → ℕ → List (Option MailEvent) → store.State → store.State
  run senders n [] s = s
  run senders n (none ∷ received) s = run senders n received s
  run senders n (some event ∷ received) s = run senders (n + 1) received (deliver senders n event s)
