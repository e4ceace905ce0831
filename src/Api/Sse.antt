-- ===== src/Api/Sse.antt =====
-- src/api/sse.rs: the stream of the events of a mailbox. A stream is its guard with the address whose
-- events it forwards; what the channel hands it is an event, or a gap where it lagged.
use anony_mail.Base.{Option, none, some, List, [], ◌∷◌, if◌then◌else◌, ◌==◌, nat_eq, str_eq}
use anony_mail.Base.Text.{Str, text, to_ascii_lowercase}
use anony_mail.Events.{MailEvent}
use anony_mail.Limits.{Host, SseGuard, try_acquire_sse, client_ip}
use anony_mail.Api.{too_many_requests}
use anony_mail.Api.Handler.{Surroundings, Headers, Handler, ◌>>=◌, return, some_or, limiting}

pub record GuardedStream : Type 0 where
  pub address : Str
  pub guard : SseGuard

abbrev pub lagged : Option MailEvent
lagged = none

-- The `filter_map` of the stream.
unfoldable pub forwarded_events : GuardedStream → List (Option MailEvent) → List MailEvent
forwarded_events stream [] = []
forwarded_events stream (none ∷ received) = forwarded_events stream received
forwarded_events stream (some ev ∷ received) =
    let rest = forwarded_events stream received in
    if ev.address == stream.address then ev ∷ rest else rest

-- `GET /api/addresses/{address}/events`
unfoldable pub events :
    {Db : Type 0} → Surroundings → Headers → Host → Str → Handler Db GuardedStream
events sur headers peer address = do
  let ip =
      client_ip sur.parse_ip headers.forwarded_for headers.real_ip peer
        sur.config.api_trust_proxy_headers
  slot ← limiting (λ l. try_acquire_sse l ip)
  guard ← some_or slot (too_many_requests (text "too many concurrent event streams"))
  return (record { address = to_ascii_lowercase address; guard = guard })
