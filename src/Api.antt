-- ===== src/Api.antt =====
-- src/api/: the HTTP front end. The error values that the handlers answer with.
pub mod Auth
pub mod Handler
pub mod Gate
pub mod Domains
pub mod Addresses
pub mod Messages
pub mod Push
pub mod Client
pub mod Sse
pub mod Pages
pub mod Routes
use anony_mail.Base.{ℕ, not, Option, none, some}
use anony_mail.Base.Text.{Str, text}

-- `ApiError`. A status code is its number; the cause of an internal error is not kept.
pub data ApiError : Type 0 where
  not_found : Str → ApiError
  conflict : Str → ApiError
  bad_request : Str → ApiError
  unauthorized : Str → ApiError
  too_many_requests : Str → ApiError
  service_unavailable : Str → ApiError
  coded : ℕ → Str → Str → ApiError
  internal : ApiError

-- The coded refusals. A forbidden request is a 403.
abbrev pub pro_required : Str → ApiError
pro_required message = coded 403 (text "pro_required") message

abbrev pub lifetime_cap : Str → ApiError
lifetime_cap message = coded 403 (text "lifetime_cap") message

abbrev pub mailbox_cap : Str → ApiError
mailbox_cap message = coded 403 (text "mailbox_cap") message

-- `into_response`: the status and the body's message, with the code where there is one.
unfoldable pub status_of : ApiError → ℕ
status_of (not_found m) = 404
status_of (conflict m) = 409
status_of (bad_request m) = 400
status_of (unauthorized m) = 401
status_of (too_many_requests m) = 429
status_of (service_unavailable m) = 503
status_of (coded status code m) = status
status_of internal = 500

unfoldable pub error_of : ApiError → Str × Option Str
error_of (not_found m) = (m, none)
error_of (conflict m) = (m, none)
error_of (bad_request m) = (m, none)
error_of (unauthorized m) = (m, none)
error_of (too_many_requests m) = (m, none)
error_of (service_unavailable m) = (m, none)
error_of (coded status code m) = (m, some code)
error_of internal = (text "internal server error", none)
