-- ===== src/Smtp/Limiter.antt =====
-- `RateLimiter` of src/smtp/mod.rs: the connections of a host within a sliding window, and how often
-- a refusal is logged. A host is the number of its address; an `Instant` is a count of nanoseconds,
-- and `duration_since` an earlier moment is 0, like subtraction here.
pub mod Window
use anony_mail.Base.{
  ℕ, ◌+◌, ◌-◌, Bool, true, false, Option, none, some, List, [], ◌∷◌, ◌++◌, ltb, leb, if◌then◌else◌,
  length, retain, any, nat_eq, str_eq,
}
use anony_mail.Base.Assoc.{Map, get, insert, retain_values}
use anony_mail.Model.{Time}

abbrev pub Host : Type 0
Host = ℕ

-- The times of a host that are kept.
abbrev pub or_default {ℓ} : {A : Type ℓ} → Option (List A) → List A
or_default none = []
or_default (some xs) = xs

pub record RejectionLog : Type 0 where
  pub last_logged : Time
  pub unreported : ℕ

pub record RateLimiter : Type 0 where
  pub window : Time
  pub max : ℕ
  pub hits : Map Host (List Time)
  pub rejections : Map Host RejectionLog

-- `RateLimiter::new`
abbrev pub new : Time → ℕ → RateLimiter
new window max = record { window = window; max = max; hits = []; rejections = [] }

abbrev pub recent : Time → Time → Time → Bool
recent window now t = ltb (now - t) window

unfoldable pub pruned_hits : RateLimiter → Time → Map Host (List Time)
pruned_hits l now =
    if ltb 10000 (length l.hits)
    then retain_values (λ times. any (recent l.window now) times) l.hits
    else l.hits

unfoldable pub check_at : RateLimiter → Host → Time → Bool × RateLimiter
unfolding pruned_hits
check_at l ip now =
    let hits = pruned_hits l now in
    let times = retain (recent l.window now) (or_default (get hits ip)) in
    if leb l.max (length times)
    then (false, record l { hits = insert hits ip times })
    else (true, record l { hits = insert hits ip (times ++ now ∷ []) })

pruned_rejections : RateLimiter → Time → Map Host RejectionLog
pruned_rejections l now =
    if ltb 10000 (length l.rejections)
    then retain_values (λ r. recent l.window now r.last_logged) l.rejections
    else l.rejections

-- What an entry becomes, and what there is to log.
noted : Time → Time → Option RejectionLog → Option ℕ × RejectionLog
noted window now none = (some 1, record { last_logged = now; unreported = 0 })
noted window now (some r) =
    if recent window now r.last_logged
    then (none, record r { unreported = r.unreported + 1 })
    else (some (r.unreported + 1), record { last_logged = now; unreported = 0 })

unfoldable pub note_rejection_at : RateLimiter → Host → Time → Option ℕ × RateLimiter
unfolding pruned_rejections noted
note_rejection_at l ip now =
    let rejections = pruned_rejections l now in
    let (report, r) = noted l.window now (get rejections ip) in
    (report, record l { rejections = insert rejections ip r })
