-- ===== src/Model/Kinds/Words.antt =====
-- The words of src/model.rs: each value is stored as one word, and only that word is read as it.
use anony_mail.Base.{◌≡◌, refl, ap, ◌∙◌, ◌↔◌, arith, ==_iff, str_beq, ok, nat_eq, str_eq}
use anony_mail.Base.Text.{Str, text}
use anony_mail.Model.Kinds.{
  SubscriptionKind, web_push, apns, CustomDomainStatus, pending, verified, failed, kind_as_str,
  kind_from_str, status_as_str, status_from_str,
}

-- Reading the word that a kind is stored as gives the kind.
kind_back : (k : SubscriptionKind) → kind_from_str (kind_as_str k) ≡ ok k
unfolding kind_from_str kind_as_str str_beq
kind_back web_push = refl
kind_back apns = refl

status_back : (k : CustomDomainStatus) → status_from_str (status_as_str k) ≡ ok k
unfolding status_from_str status_as_str str_beq
status_back pending = refl
status_back verified = refl
status_back failed = refl

kind_forth : (s : Str) (k : SubscriptionKind) → kind_from_str s ≡ ok k → s ≡ kind_as_str k
unfolding kind_from_str kind_as_str
kind_forth s web_push h = ground (arith, ==_iff s (text "webpush"), ==_iff s (text "apns"))
kind_forth s apns h = ground (arith, ==_iff s (text "webpush"), ==_iff s (text "apns"))

status_forth : (s : Str) (k : CustomDomainStatus) → status_from_str s ≡ ok k → s ≡ status_as_str k
unfolding status_from_str status_as_str
status_forth s pending h =
    ground (arith, ==_iff s (text "pending"), ==_iff s (text "verified"), ==_iff s (text "failed"))
status_forth s verified h =
    ground (arith, ==_iff s (text "pending"), ==_iff s (text "verified"), ==_iff s (text "failed"))
status_forth s failed h =
    ground (arith, ==_iff s (text "pending"), ==_iff s (text "verified"), ==_iff s (text "failed"))

-- A word is read as a kind of subscription exactly if it is the word that the kind is stored as, and
-- as a status of a claim exactly if it is the word that the status is stored as.
pub words_exact :
    (s : Str)
    → ((k : SubscriptionKind) → (kind_from_str s ≡ ok k) ↔ (s ≡ kind_as_str k))
      × ((k : CustomDomainStatus) → (status_from_str s ≡ ok k) ↔ (s ≡ status_as_str k))
words_exact s = (
  λ k. (kind_forth s k, λ q. ap kind_from_str q ∙ kind_back k),
  λ k. (status_forth s k, λ q. ap status_from_str q ∙ status_back k),
)
