-- ===== src/Limits/Accounts.antt =====
-- The reachable states of the event-stream slots of src/api/limits.rs, and how they are counted.
use anony_mail.Base.{
  ℕ, ◌+◌, ◌-◌, ◌≤◌, ◌<◌, ◌≡◌, inl, inr, Bool, true, false, Option, none, some, List, [], ◌∷◌, ◌++◌,
  arith, ltb, if◌then◌else◌, ◌==◌, ==_iff, Bool-cases, Option-cases, is_some_and, unwrap_or, sum_by,
  nat_eq, str_eq,
}
use anony_mail.Base.Assoc.{Map, get, get-insert, get-remove}
use anony_mail.Config.{Config}
use anony_mail.Limits.{
  Host, RuntimeLimits, from_config, SseGuard, take_permit, return_permit, try_acquire_sse,
  uncounted, drop_guard,
}

-- What is reached from a configuration by opening streams, being refused and closing streams, with
-- the guards of the streams that are open.
pub data Reachable (config : Config) : RuntimeLimits → List SseGuard → Type 0 where
  started : Reachable config (from_config config) []
  opened :
      {l l' : RuntimeLimits} {guards : List SseGuard} (ip : Host) (g : SseGuard)
      → Reachable config l guards
      → try_acquire_sse l ip ≡ (some g, l')
      → Reachable config l' (g ∷ guards)
  refused :
      {l l' : RuntimeLimits} {guards : List SseGuard} (ip : Host)
      → Reachable config l guards
      → try_acquire_sse l ip ≡ (none, l')
      → Reachable config l' guards
  closed :
      {l : RuntimeLimits} (before : List SseGuard) (g : SseGuard) (behind : List SseGuard)
      → Reachable config l (before ++ g ∷ behind)
      → Reachable config (drop_guard l g) (before ++ behind)

abbrev pub is_of : Host → SseGuard → ℕ
is_of a g = if is_some_and g.ip (λ i. i == a) then 1 else 0

abbrev pub has_permit : SseGuard → ℕ
has_permit g = if g.permit then 1 else 0

-- The open streams that are counted for a host, and those that hold a permit.
abbrev pub held : Host → List SseGuard → ℕ
held a = sum_by (is_of a)

abbrev pub permits : List SseGuard → ℕ
permits = sum_by has_permit

-- Every permit is available or held.
abbrev pub IsBalanced : ℕ → Option ℕ → ℕ → Type 0
IsBalanced total none held_permits = (total ≡ 0) × (held_permits ≡ 0)
IsBalanced total (some n) held_permits = n + held_permits ≡ total

-- The counters agree with the open streams, and no host has more than its cap (0 is none).
pub record IsAccounted (config : Config) (l : RuntimeLimits) (guards : List SseGuard) : Type 0 where
  pub cap : l.sse_per_ip_cap ≡ config.sse_max_per_ip
  pub counted : (a : Host) → unwrap_or (get l.sse_per_ip a) 0 ≡ held a guards
  pub within : (a : Host) → 0 < config.sse_max_per_ip → held a guards ≤ config.sse_max_per_ip
  pub balanced : IsBalanced config.sse_max_concurrent l.sse_global (permits guards)

abbrev IsTaken : ℕ → ℕ → Option (Bool × Option ℕ) → Type 0
IsTaken total n none = Unit
IsTaken total n (some (permit, global)) = IsBalanced total global ((if permit then 1 else 0) + n)

pub IsTaken-balanced :
    (total : ℕ) (global : Option ℕ) (n : ℕ)
    → IsBalanced total global n
    → IsTaken total n (take_permit global)
IsTaken-balanced total none n b = (b.0, omega (arith, b.1))
IsTaken-balanced total (some k) n b = elim (Bool-cases (ltb 0 k)) [
  | inl t ↦ rw t (ground (arith, b))
  | inr f ↦ rw f tt
]

pub returned-IsBalanced :
    (total : ℕ) (global : Option ℕ) (permit : Bool) (n m : ℕ)
    → n ≡ (if permit then 1 else 0) + m
    → IsBalanced total global n
    → IsBalanced total (return_permit permit global) m
returned-IsBalanced total none false n m h b = (b.0, omega (arith, h, b.1))
returned-IsBalanced total none true n m h b = absurd (omega (arith, h, b.1))
returned-IsBalanced total (some k) false n m h b = omega (arith, h, b)
returned-IsBalanced total (some k) true n m h b = omega (arith, h, b)

pub released-counted :
    (per_ip : Map Host ℕ) (ip : Option Host) (a : Host) (n m : ℕ)
    → unwrap_or (get per_ip a) 0 ≡ n
    → n ≡ (if is_some_and ip (λ i. i == a) then 1 else 0) + m
    → unwrap_or (get (uncounted per_ip ip) a) 0 ≡ m
released-counted per_ip none a n m h e = omega (arith, h, e)
released-counted per_ip (some i) a n m h e = elim (Option-cases (get per_ip i)) [
  | inl q ↦ rw q (ground (arith, h, e, q, ==_iff i a))
  | inr (count, q) ↦ rw q (
      ground (arith, h, e, q, ==_iff i a, get-remove per_ip i a, get-insert per_ip i a (count - 1)))
]
