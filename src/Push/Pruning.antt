-- ===== src/Push/Pruning.antt =====
-- What a delivery of src/push.rs leaves of the subscriptions in the memory store.
use anony_mail.Base.{
  ℕ, ◌≡◌, refl, sym, ap, ◌∙◌, Bool, false, not, ◌&&◌, ◌||◌, Option, none, some, List, [], ◌∷◌,
  arith, retain, any,
}
use anony_mail.Events.{MailEvent}
use anony_mail.Model.{PushSubscription}
use anony_mail.Store.Memory.Backend.{MemoryStore, memory_store}
use anony_mail.Store.Memory.Subscriptions.{list_subscriptions, delete_subscription, is_subscription}
use anony_mail.Push.{
  PushOutcome, delivered, gone, transient_failure, is_gone, Configured, outcome_of, with_result,
  results_of, prune_one, prune, deliver_to, deliver,
}

retain-retain :
    {A : Type 0} (p q r : A → Bool) (xs : List A)
    → ((x : A) → r x ≡ (p x && q x))
    → retain q (retain p xs) ≡ retain r xs
unfolding retain
retain-retain p q r [] h = refl
retain-retain p q r (x ∷ xs) h = ground (arith, h x, retain-retain p q r xs h)

retain_same :
    {A : Type 0} (p q : A → Bool) (xs : List A) → ((x : A) → p x ≡ q x) → retain p xs ≡ retain q xs
unfolding retain
retain_same p q [] h = refl
retain_same p q (x ∷ xs) h = ground (arith, h x, retain_same p q xs h)

retained : (xs : List PushSubscription) → retain (λ t. not false) xs ≡ xs
unfolding retain
retained [] = refl
retained (x ∷ xs) = ap (λ r. x ∷ r) (retained xs)

-- The subscription is that of a send that came back as gone.
abbrev is_dead : List (PushSubscription × PushOutcome) → PushSubscription → Bool
is_dead results t =
    any (λ r. is_gone r.1 && is_subscription r.0.mailbox_address r.0.endpoint t) results

abbrev with_subscriptions : MemoryStore → List PushSubscription → MemoryStore
with_subscriptions s subs = record s { inner = record s.inner { subscriptions = subs } }

prune_exact :
    (results : List (PushSubscription × PushOutcome)) (s : MemoryStore)
    → prune memory_store results s
      ≡ with_subscriptions s (retain (λ t. not (is_dead results t)) s.inner.subscriptions)
unfolding prune prune_one any is_gone delete_subscription
prune_exact [] s = ap (with_subscriptions s) (sym (retained s.inner.subscriptions))
prune_exact ((sub, delivered) ∷ results) s = prune_exact results s
prune_exact ((sub, transient_failure) ∷ results) s = prune_exact results s
prune_exact ((sub, gone) ∷ results) s =
    prune_exact results _
    ∙ ap (with_subscriptions s) (
        retain-retain (λ t. not (is_subscription sub.mailbox_address sub.endpoint t))
          (λ t. not (is_dead results t)) _ s.inner.subscriptions (λ t. ground arith))

module _ (senders : Configured) (n : ℕ) (event : MailEvent) where
  -- The send to a subscription comes back as gone.
  abbrev pub is_pruned : PushSubscription → Bool
  is_pruned sub = elim (outcome_of senders n event sub) [ none ↦ false | some o ↦ is_gone o ]

  one_dead :
      (sub t : PushSubscription) (o : Option PushOutcome)
      (results : List (PushSubscription × PushOutcome))
      → is_dead (with_result sub o results) t ≡ (
          (elim o [ none ↦ false | some o' ↦ is_gone o' ]
            && is_subscription sub.mailbox_address sub.endpoint t)
          || is_dead results t)
  unfolding any
  one_dead sub t none results = refl
  one_dead sub t (some o) results = refl

  dead_exact :
      (subs : List PushSubscription) (t : PushSubscription)
      → is_dead (results_of senders n event subs) t
        ≡ any (λ sub. is_pruned sub && is_subscription sub.mailbox_address sub.endpoint t) subs
  unfolding results_of any
  dead_exact [] t = refl
  dead_exact (sub ∷ subs) t =
      one_dead sub t (outcome_of senders n event sub) (results_of senders n event subs)
      ∙ ap (λ b. (is_pruned sub && is_subscription sub.mailbox_address sub.endpoint t) || b)
          (dead_exact subs t)

  -- A delivery changes nothing in the memory store but the subscriptions, of which it drops those
  -- that bear the address and the endpoint of a subscription of the event's mailbox to which the send
  -- came back as gone.
  pub deliver_exact :
      (s : MemoryStore)
      → deliver memory_store senders n event s ≡ record s {
        inner = record s.inner {
          subscriptions =
              retain
                (λ t. not (
                  any
                    (λ sub. is_pruned sub && is_subscription sub.mailbox_address sub.endpoint t)
                    (list_subscriptions s.inner event.address)))
                s.inner.subscriptions;
        };
      }
  unfolding deliver deliver_to
  deliver_exact s =
      prune_exact (results_of senders n event (list_subscriptions s.inner event.address)) s
      ∙ ap (with_subscriptions s) (
          retain_same _ _ s.inner.subscriptions
            (λ t. ap not (dead_exact (list_subscriptions s.inner event.address) t)))
