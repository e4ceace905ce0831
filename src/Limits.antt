-- ===== src/Limits.antt =====
-- src/api/limits.rs: the counters of the HTTP front end. A host is the number of its address, a day
-- the number of the day; a permit of the semaphore is one of those available.
pub mod Daily
pub mod Accounts
pub mod Streams
use anony_mail.Base.{
  ℕ, ◌+◌, ◌-◌, Bool, true, false, not, Option, none, some, List, [], ◌∷◌, ltb, leb, if◌then◌else◌,
  ◌==◌, is_some_and, unwrap_or, length, take, nat_eq, str_eq,
}
use anony_mail.Base.Assoc.{Map, get, insert, remove, retain_values}
use anony_mail.Base.Text.{Str, split, trim}
use anony_mail.Config.{Config}
use anony_mail.Model.{Time, seconds}

abbrev pub Host : Type 0
Host = ℕ

abbrev pub Day : Type 0
Day = ℕ

abbrev pub DailyTable : Type 0
DailyTable = Map Host (Day × ℕ)

pub record RuntimeLimits : Type 0 where
  pub sse_global : Option ℕ
  pub sse_per_ip_cap : ℕ
  pub sse_per_ip : Map Host ℕ
  pub daily_create_cap : ℕ
  pub created_today : DailyTable
  pub daily_domain_cap : ℕ
  pub domains_today : DailyTable
  pub domain_verify_min_interval : Time
  pub domain_verify_last : Map Str Time

unfoldable pub from_config : Config → RuntimeLimits
from_config config = record {
  sse_global = if ltb 0 config.sse_max_concurrent then some config.sse_max_concurrent else none;
  sse_per_ip_cap = config.sse_max_per_ip;
  sse_per_ip = [];
  daily_create_cap = config.max_addresses_per_ip_per_day;
  created_today = [];
  daily_domain_cap = config.max_custom_domains_per_ip_per_day;
  domains_today = [];
  domain_verify_min_interval = seconds config.custom_domain_verify_throttle;
  domain_verify_last = [];
}

-- The entry of a host for `today`: a new one, or one of another day, counts nothing.
abbrev pub todays : Option (Day × ℕ) → Day → ℕ
todays none today = 0
todays (some (day, n)) today = if day == today then n else 0

unfoldable pub pruned_table : DailyTable → Day → DailyTable
pruned_table table today =
    if ltb 100000 (length table) then retain_values (λ e. e.0 == today) table else table

unfoldable pub note_daily : DailyTable → ℕ → Host → Day → Bool × DailyTable
unfolding pruned_table
note_daily table cap ip today =
    let counters = pruned_table table today in
    let count = todays (get counters ip) today in
    if cap == 0
    then (true, table)
    else if leb cap count
    then (false, insert counters ip (today, count))
    else (true, insert counters ip (today, count + 1))

unfoldable pub note_address_created : RuntimeLimits → Host → Day → Bool × RuntimeLimits
unfolding note_daily
note_address_created l ip today =
    let (allowed, table) = note_daily l.created_today l.daily_create_cap ip today in
    (allowed, record l { created_today = table })

unfoldable pub note_domain_created : RuntimeLimits → Host → Day → Bool × RuntimeLimits
unfolding note_daily
note_domain_created l ip today =
    let (allowed, table) = note_daily l.domains_today l.daily_domain_cap ip today in
    (allowed, record l { domains_today = table })

-- A slot: whether it holds a permit, and the host it is counted for.
pub record SseGuard : Type 0 where
  pub permit : Bool
  pub ip : Option Host

-- `try_acquire_owned` and the return of a permit.
abbrev pub take_permit : Option ℕ → Option (Bool × Option ℕ)
take_permit none = some (false, none)
take_permit (some n) = if ltb 0 n then some (true, some (n - 1)) else none

abbrev pub return_permit : Bool → Option ℕ → Option ℕ
return_permit false global = global
return_permit true none = none
return_permit true (some n) = some (n + 1)

-- With a permit, or with none where there are none to take.
unfoldable pub open_slot : RuntimeLimits → Host → Bool → Option ℕ → Option SseGuard × RuntimeLimits
open_slot l ip permit global =
    let count = unwrap_or (get l.sse_per_ip ip) 0 in
    if ltb 0 l.sse_per_ip_cap
    then (if leb l.sse_per_ip_cap count
        then (none, record l { sse_per_ip = insert l.sse_per_ip ip count })
        else (
          some (record { permit = permit; ip = some ip }),
          record l { sse_global = global; sse_per_ip = insert l.sse_per_ip ip (count + 1) },
        ))
    else (some (record { permit = permit; ip = none }), record l { sse_global = global })

unfoldable pub try_acquire_sse : RuntimeLimits → Host → Option SseGuard × RuntimeLimits
unfolding open_slot
try_acquire_sse l ip = elim (take_permit l.sse_global) [
  | none ↦ (none, l)
  | some (permit, global) ↦ open_slot l ip permit global
]

abbrev pub released : Map Host ℕ → Host → Option ℕ → Map Host ℕ
released per_ip ip none = per_ip
released per_ip ip (some count) =
    if count - 1 == 0 then remove per_ip ip else insert per_ip ip (count - 1)

abbrev pub uncounted : Map Host ℕ → Option Host → Map Host ℕ
uncounted per_ip none = per_ip
uncounted per_ip (some ip) = released per_ip ip (get per_ip ip)

-- `SseGuard::drop`
unfoldable pub drop_guard : RuntimeLimits → SseGuard → RuntimeLimits
drop_guard l guard = record l {
  sse_global = return_permit guard.permit l.sse_global;
  sse_per_ip = uncounted l.sse_per_ip guard.ip;
}

-- `Instant::now()` is `now`.
unfoldable pub try_begin_domain_verify : RuntimeLimits → Str → Time → Bool × RuntimeLimits
try_begin_domain_verify l domain now =
    let within : Time → Bool = λ at_. ltb (now - at_) l.domain_verify_min_interval in
    let last =
      if ltb 10000 (length l.domain_verify_last)
      then retain_values within l.domain_verify_last
      else l.domain_verify_last in
    if l.domain_verify_min_interval == 0
    then (true, l)
    else if is_some_and (get last domain) within
    then (false, record l { domain_verify_last = last })
    else (true, record l { domain_verify_last = insert last domain now })

-- The first of the pieces between commas that is an address.
first_address : (Str → Option Host) → List Str → Option Host
first_address parse_ip [] = none
first_address parse_ip (part ∷ parts) = elim (parse_ip (trim part)) [
  | some ip ↦ some ip
  | none ↦ first_address parse_ip parts
]

forwarded : (Str → Option Host) → Option Str → Option Host
forwarded parse_ip none = none
forwarded parse_ip (some s) = first_address parse_ip (split b',' s)

real : (Str → Option Host) → Option Str → Option Host
real parse_ip none = none
real parse_ip (some s) = parse_ip (trim s)

-- The headers are those of `x-forwarded-for` and `x-real-ip`; `parse_ip` reads an `IpAddr`.
unfoldable pub client_ip : (Str → Option Host) → Option Str → Option Str → Host → Bool → Host
unfolding first_address forwarded real
client_ip parse_ip forwarded_for real_ip peer trust_proxy_headers =
    if not trust_proxy_headers then peer else elim (forwarded parse_ip forwarded_for) [
      | some ip ↦ ip
      | none ↦ unwrap_or (real parse_ip real_ip) peer
    ]
