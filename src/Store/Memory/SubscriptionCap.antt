-- ===== src/Store/Memory/SubscriptionCap.antt =====
-- The push subscriptions of src/store/memory.rs stay distinct and within the cap of a mailbox.
use anony_mail.Base.{
  ℕ, ◌+◌, ◌≤◌, ◌<◌, ◌≡◌, refl, inl, inr, Bool, false, ◌&&◌, none, List, [], ◌∷◌, ◌++◌, arith, ltb,
  leb, if◌then◌else◌, ==_iff, Bool-cases, Option-cases, length, retain, find, nat_eq, str_eq,
}
use anony_mail.Base.Text.{Str}
use anony_mail.Model.{Time, Uuid, PushSubscription}
use anony_mail.Model.Kinds.{SubscriptionKind}
use anony_mail.Store.Memory.{Inner}
use anony_mail.Store.Memory.Subscriptions.{
  is_subscription, subscribed_to, refresh, refreshed, add_subscription, list_subscriptions,
}

-- No mailbox has more subscriptions than the cap (0 is none), and none has two at one endpoint.
pub record IsCapped (cap : ℕ) (inner : Inner) : Type 0 where
  pub within : (a : Str) → 0 < cap → length (list_subscriptions inner a) ≤ cap
  pub distinct : (a e : Str) → length (retain (is_subscription a e) inner.subscriptions) ≤ 1

-- A refresh keeps what each subscription is for.
length-retain-refresh :
    (p q : PushSubscription → Bool) (change : PushSubscription → PushSubscription)
    (xs : List PushSubscription)
    → ((s : PushSubscription) → q (change s) ≡ q s)
    → length (retain q (refresh p change xs)) ≡ length (retain q xs)
unfolding refresh retain
length-retain-refresh p q change [] h = refl
length-retain-refresh p q change (x ∷ xs) h =
    ground (arith, h x, length-retain-refresh p q change xs h)

find-none :
    (p : PushSubscription → Bool) (xs : List PushSubscription)
    → find p xs ≡ none
    → length (retain p xs) ≡ 0
unfolding find retain
find-none p [] h = refl
find-none p (x ∷ xs) h = ground (arith, find-none p xs)

-- Adding at the end adds one to the count of those tests that the new element passes.
length-retain-snoc :
    (p : PushSubscription → Bool) (xs : List PushSubscription) (x : PushSubscription)
    → length (retain p (xs ++ x ∷ [])) ≡ length (retain p xs) + (if p x then 1 else 0)
unfolding retain
length-retain-snoc p [] x = ground arith
length-retain-snoc p (y ∷ ys) x = ground (arith, length-retain-snoc p ys x)

module _ (new_id : Uuid) (now : Time) (inner : Inner) (address : Str) (kind : SubscriptionKind)
    (endpoint p256dh auth : Str) (cap : ℕ) where
  sub : PushSubscription
  sub = record {
    id = new_id;
    mailbox_address = address;
    kind = kind;
    endpoint = endpoint;
    p256dh = p256dh;
    auth = auth;
    created_at = now;
  }

  refreshed_subs : List PushSubscription
  refreshed_subs =
      refresh (is_subscription address endpoint) (refreshed kind p256dh auth) inner.subscriptions

  refreshed-IsCapped :
      IsCapped cap inner → IsCapped cap (record inner { subscriptions = refreshed_subs })
  unfolding refreshed_subs refreshed subscribed_to is_subscription list_subscriptions
  refreshed-IsCapped v = record {
    within = λ a h. omega (
      arith,
      length-retain-refresh (is_subscription address endpoint) (subscribed_to a)
          (refreshed kind p256dh auth) inner.subscriptions (λ s. refl),
      v.within a h,
    );
    distinct = λ a f. omega (
      arith,
      length-retain-refresh (is_subscription address endpoint) (is_subscription a f)
          (refreshed kind p256dh auth) inner.subscriptions (λ s. refl),
      v.distinct a f,
    );
  }

  appended-IsCapped :
      find (is_subscription address endpoint) inner.subscriptions ≡ none
      → (ltb 0 cap && leb cap (length (retain (subscribed_to address) inner.subscriptions))) ≡ false
      → IsCapped cap inner
      → IsCapped cap (record inner { subscriptions = inner.subscriptions ++ sub ∷ [] })
  unfolding sub list_subscriptions subscribed_to is_subscription
  appended-IsCapped n t v = record {
    within = λ a h. ground (
      arith,
      length-retain-snoc (subscribed_to a) inner.subscriptions sub,
      ==_iff address a,
      v.within a h,
    );
    distinct = λ a f. ground (
      arith,
      length-retain-snoc (is_subscription a f) inner.subscriptions sub,
      ==_iff address a,
      ==_iff endpoint f,
      find-none (is_subscription address endpoint) inner.subscriptions n,
      v.distinct a f,
    );
  }

  -- Every registration, accepted or refused, keeps the subscriptions of the mailboxes within the
  -- cap and distinct.
  pub add_subscription-IsCapped :
      IsCapped cap inner
      → IsCapped cap (add_subscription new_id now inner address kind endpoint p256dh auth cap).1
  unfolding add_subscription sub refreshed_subs
  add_subscription-IsCapped v =
      elim (Option-cases (find (is_subscription address endpoint) inner.subscriptions)) [
        | inr (s, e) ↦ rw (e, add_subscription) (refreshed-IsCapped v)
        | inl e ↦
            rw (e, add_subscription)
              (elim (Bool-cases (
                ltb 0 cap
                && leb cap (length (retain (subscribed_to address) inner.subscriptions)))) [
                  | inl t ↦ rw t v
                  | inr t ↦ rw t (appended-IsCapped e t v)
                ])
      ]
