-- ===== src/Limits/Streams.antt =====
-- The caps on event streams of src/api/limits.rs: a step relation on the counters and the guards
-- that are alive.
use anony_mail.Base.{
  ℕ, ◌+◌, ◌≡◌, refl, sym, ◌∙◌, inl, inr, Bool, false, Option, none, some, List, [], ◌∷◌, ◌++◌,
  arith, ltb, leb, if◌then◌else◌, if-true, if-false, ==_iff, Bool-cases, Option-cases, unwrap_or,
  sum_by, sum_by-append, nat_eq, str_eq,
}
use anony_mail.Base.Assoc.{get, insert, get-insert}
use mathlib.Core.Path.{subst}
use anony_mail.Config.{Config}
use anony_mail.Limits.{
  Host, RuntimeLimits, from_config, SseGuard, take_permit, open_slot, try_acquire_sse, drop_guard,
}
use anony_mail.Limits.Accounts.{
  Reachable, is_of, has_permit, held, permits, IsBalanced, IsAccounted, IsTaken-balanced,
  returned-IsBalanced, released-counted, started, opened, refused, closed,
}

abbrev IsAcquired : Config → List SseGuard → Option SseGuard × RuntimeLimits → Type 0
IsAcquired config guards (none, l) = IsAccounted config l guards
IsAcquired config guards (some g, l) = IsAccounted config l (g ∷ guards)

module _ (config : Config) (l : RuntimeLimits) (guards : List SseGuard)
    (acc : IsAccounted config l guards) where
  abbrev count : Host → ℕ
  count ip = unwrap_or (get l.sse_per_ip ip) 0

  refused-IsAccounted :
      (ip : Host)
      → IsAccounted config (record l { sse_per_ip = insert l.sse_per_ip ip (count ip) }) guards
  refused-IsAccounted ip = record {
    cap = acc.cap;
    counted =
        λ a. ground (arith, acc.counted a, get-insert l.sse_per_ip ip a (count ip), ==_iff ip a);
    within = acc.within;
    balanced = acc.balanced;
  }

  counted-IsAccounted :
      (ip : Host) (permit : Bool) (global : Option ℕ)
      → IsBalanced config.sse_max_concurrent global ((if permit then 1 else 0) + permits guards)
      → leb l.sse_per_ip_cap (count ip) ≡ false
      → IsAccounted config
          (record l { sse_global = global; sse_per_ip = insert l.sse_per_ip ip (count ip + 1) })
          (record { permit = permit; ip = some ip } ∷ guards)
  counted-IsAccounted ip permit global b f = record {
    cap = acc.cap;
    counted = λ a.
        ground (arith, acc.counted a, get-insert l.sse_per_ip ip a (count ip + 1), ==_iff ip a);
    within = λ a h. ground (arith, acc.within a h, acc.counted a, acc.cap, f, ==_iff ip a);
    balanced = b;
  }

  uncounted-IsAccounted :
      (permit : Bool) (global : Option ℕ)
      → IsBalanced config.sse_max_concurrent global ((if permit then 1 else 0) + permits guards)
      → IsAccounted config
          (record l { sse_global = global })
          (record { permit = permit; ip = none } ∷ guards)
  uncounted-IsAccounted permit global b = record {
    cap = acc.cap;
    counted = λ a. omega (arith, acc.counted a);
    within = λ a h. omega (arith, acc.within a h);
    balanced = b;
  }

  open_slot-IsAcquired :
      (ip : Host) (permit : Bool) (global : Option ℕ)
      → IsBalanced config.sse_max_concurrent global ((if permit then 1 else 0) + permits guards)
      → IsAcquired config guards (open_slot l ip permit global)
  unfolding open_slot
  open_slot-IsAcquired ip permit global b = elim (Bool-cases (ltb 0 l.sse_per_ip_cap)) [
    | inr f ↦
        subst (IsAcquired config guards) (sym (if-false _ _ f))
          (uncounted-IsAccounted permit global b)
    | inl t ↦ elim (Bool-cases (leb l.sse_per_ip_cap (count ip))) [
      | inl r ↦
          subst (IsAcquired config guards) (sym (if-true _ _ t ∙ if-true _ _ r))
            (refused-IsAccounted ip)
      | inr n ↦
          subst (IsAcquired config guards) (sym (if-true _ _ t ∙ if-false _ _ n))
            (counted-IsAccounted ip permit global b n)
    ]
  ]

  try_acquire_sse-IsAcquired : (ip : Host) → IsAcquired config guards (try_acquire_sse l ip)
  unfolding try_acquire_sse
  try_acquire_sse-IsAcquired ip =
      let taken =
        IsTaken-balanced config.sse_max_concurrent l.sse_global (permits guards) acc.balanced in
      elim (Option-cases (take_permit l.sse_global)) [
        | inl q ↦ rw (try_acquire_sse, q) acc
        | inr ((permit, global), q) ↦
            rw (try_acquire_sse, q) (open_slot-IsAcquired ip permit global (rw q at taken))
      ]

-- The guards without one of them.
sum_by-without {ℓ} :
    {A : Type ℓ} (f : A → ℕ) (before : List A) (g : A) (behind : List A)
    → sum_by f (before ++ g ∷ behind) ≡ f g + sum_by f (before ++ behind)
sum_by-without f before g behind =
    omega (arith, sum_by-append f before (g ∷ behind), sum_by-append f before behind)

drop_guard-IsAccounted :
    (config : Config) (l : RuntimeLimits) (before : List SseGuard) (g : SseGuard)
    (behind : List SseGuard)
    → IsAccounted config l (before ++ g ∷ behind)
    → IsAccounted config (drop_guard l g) (before ++ behind)
unfolding drop_guard
drop_guard-IsAccounted config l before g behind acc = record {
  cap = acc.cap;
  counted = λ a.
      released-counted l.sse_per_ip g.ip a _ (held a (before ++ behind)) (acc.counted a)
        (sum_by-without (is_of a) before g behind);
  within = λ a h. omega (arith, acc.within a h, sum_by-without (is_of a) before g behind);
  balanced =
      returned-IsBalanced config.sse_max_concurrent l.sse_global g.permit _ _
        (sum_by-without has_permit before g behind) acc.balanced;
}

from_config-IsAccounted : (config : Config) → IsAccounted config (from_config config) []
unfolding from_config get
from_config-IsAccounted config = record {
  cap = refl;
  counted = λ a. refl;
  within = λ a h. omega arith;
  balanced = elim (Bool-cases (ltb 0 config.sse_max_concurrent)) [
    | inl t ↦
        subst (λ o. IsBalanced config.sse_max_concurrent o 0) (sym (if-true _ _ t)) (omega arith)
    | inr f ↦
        subst (λ o. IsBalanced config.sse_max_concurrent o 0) (sym (if-false _ _ f))
          (ground arith, refl)
  ];
}

-- However streams are opened, refused and closed, in any order, the counters agree with the streams
-- that are open, none leaked by a refusal or counted twice: no host has more streams than its cap,
-- and no more permits of the server are held than it has.
pub Reachable-IsAccounted :
    (config : Config) (l : RuntimeLimits) (guards : List SseGuard)
    → Reachable config l guards
    → IsAccounted config l guards
Reachable-IsAccounted config _ _ started = from_config-IsAccounted config
Reachable-IsAccounted config _ _ (opened {l} {l'} {guards} ip g r q) =
    rw q at
      (try_acquire_sse-IsAcquired config l guards (Reachable-IsAccounted config l guards r) ip)
Reachable-IsAccounted config _ _ (refused {l} {l'} {guards} ip r q) =
    rw q at
      (try_acquire_sse-IsAcquired config l guards (Reachable-IsAccounted config l guards r) ip)
Reachable-IsAccounted config _ _ (closed {l} before g behind r) =
    drop_guard-IsAccounted config l before g behind
      (Reachable-IsAccounted config l (before ++ g ∷ behind) r)
