-- ===== src/Model/Kinds.antt =====
-- The enumerations of src/model.rs, with the words that the databases store for them.
pub mod Words
use anony_mail.Base.{Bool, true, false, Result, ok, err, ◌==◌, str_eq, if◌then◌else◌}
use anony_mail.Base.Text.{Str, text}

pub data SubscriptionKind : Type 0 where
  web_push apns : SubscriptionKind

pub data CustomDomainStatus : Type 0 where
  pending verified failed : CustomDomainStatus

-- The error carries the word that was not known.
pub data UnknownWord : Type 0 where
  unknown_word : Str → UnknownWord

unfoldable pub kind_as_str : SubscriptionKind → Str
kind_as_str web_push = text "webpush"
kind_as_str apns = text "apns"

unfoldable pub kind_from_str : Str → Result SubscriptionKind UnknownWord
kind_from_str s =
    if s == text "webpush"
    then ok web_push
    else if s == text "apns"
    then ok apns
    else err (unknown_word s)

unfoldable pub status_as_str : CustomDomainStatus → Str
status_as_str pending = text "pending"
status_as_str verified = text "verified"
status_as_str failed = text "failed"

unfoldable pub status_from_str : Str → Result CustomDomainStatus UnknownWord
status_from_str s =
    if s == text "pending"
    then ok pending
    else if s == text "verified"
    then ok verified
    else if s == text "failed"
    then ok failed
    else err (unknown_word s)

abbrev pub same_status : CustomDomainStatus → CustomDomainStatus → Bool
same_status pending pending = true
same_status verified verified = true
same_status failed failed = true
same_status _ _ = false
