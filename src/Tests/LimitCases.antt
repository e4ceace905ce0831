-- ===== src/Tests/LimitCases.antt =====
-- The theorems on the limits, the claims and the stored words at concrete inputs.
use anony_mail.Base.{
  ◌+◌, ◌≤◌, min, ◌≡◌, refl, true, false, none, some, [], ◌∷◌, arith, nat_eq, str_eq,
}
use anony_mail.Base.Text.{text}
use anony_mail.Base.Assoc.{get, insert}
use anony_mail.CustomDomains.Grace.{settle_all, settle_all-verified, settle_all-failed}
use anony_mail.Limits.{RuntimeLimits, from_config, SseGuard, try_acquire_sse}
use anony_mail.Limits.Daily.{used, allowed, calls_of, allowed-exact}
use anony_mail.Limits.Accounts.{started, opened, IsAccounted}
use anony_mail.Limits.Streams.{Reachable-IsAccounted}
use anony_mail.Model.{CustomDomain, hours}
use anony_mail.Model.Kinds.{verified, failed}
use anony_mail.Smtp.Limiter.{new}
use anony_mail.Smtp.Limiter.Window.{within, attempts, attempts-window}
use anony_mail.Tests.Fixtures.{config}

allowed-exact_example :
    used [] 1 5 + allowed [] 2 5 1 (1 ∷ 7 ∷ 1 ∷ 1 ∷ [])
    ≡ min (used [] 1 5 + calls_of 1 (1 ∷ 7 ∷ 1 ∷ 1 ∷ [])) 2
unfolding get
allowed-exact_example = allowed-exact [] 2 5 1 (1 ∷ 7 ∷ 1 ∷ 1 ∷ []) (omega arith) tt (omega arith)

abbrev slot : SseGuard
slot = record { permit = true; ip = some 4 }

-- The limits with one stream open.
abbrev one_open : RuntimeLimits
one_open = (try_acquire_sse (from_config config) 4).1

Reachable-IsAccounted_example : IsAccounted config one_open (slot ∷ [])
unfolding try_acquire_sse from_config get insert
Reachable-IsAccounted_example =
    Reachable-IsAccounted config one_open (slot ∷ []) (opened 4 slot started refl)

attempts-window_example :
    within 60 9 105 (attempts (new 60 2) ((9, 100) ∷ (9, 101) ∷ (9, 102) ∷ [])).1 ≤ 2
attempts-window_example =
    attempts-window 60 2 ((9, 100) ∷ (9, 101) ∷ (9, 102) ∷ []) 9 105
      (omega arith, (omega arith, (omega arith, tt)))

abbrev claim : CustomDomain
claim = record {
  domain = text "b.io";
  status = verified;
  claim_token_hash = [];
  txt_token = [];
  created_at = 1;
  verified_at = some 10;
  last_checked_at = none;
}

settle_all-verified_example : (settle_all claim ((false, 20) ∷ (true, 30) ∷ [])).status ≡ verified
settle_all-verified_example =
    settle_all-verified claim 10 ((false, 20) ∷ (true, 30) ∷ []) refl refl
      ((omega arith, omega arith), ((omega arith, omega arith), tt))

settle_all-failed_example :
    (settle_all claim ((false, hours 49) ∷ (false, hours 50) ∷ [])).status ≡ failed
settle_all-failed_example =
    settle_all-failed claim 10 (hours 49) ((false, hours 50) ∷ []) refl refl (omega arith)
      (refl, tt)
