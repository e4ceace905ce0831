-- ===== src/Smtp/Limiter/Window.antt =====
-- The sliding window of src/smtp/mod.rs, over any run of connection attempts.
use anony_mail.Base.{
  ℕ, ◌+◌, ◌≤◌, ◌≡◌, refl, sym, ap, ◌∙◌, inl, inr, Bool, true, false, ◌&&◌, Option, none, some, List,
  [], ◌∷◌, ◌++◌, arith, ltb, leb, if◌then◌else◌, if-true, if-false, leb-false, ◌==◌, ==_iff,
  Bool-cases, length, retain, any, length-retain-le, sum_by, All, nat_eq, str_eq,
}
use anony_mail.Base.Assoc.{get, insert, get-insert}
use anony_mail.Base.Assoc.Unique.{
  IsUnique, keep_if, insert-IsUnique, retain_values-IsUnique, get-retain_values,
}
use anony_mail.Model.{Time}
use anony_mail.Smtp.Limiter.{Host, RateLimiter, new, or_default, recent, pruned_hits, check_at}

abbrev pub Attempt : Type 0
Attempt = Host × Time

-- The limiter after some attempts, and those that it allowed, in order.
abbrev pub attempts : RateLimiter → List Attempt → RateLimiter × List Attempt
attempts l [] = (l, [])
attempts l ((ip, now) ∷ as') =
    let (allowed, l') = check_at l ip now in
    let (l'', rest) = attempts l' as' in (l'', if allowed then (ip, now) ∷ rest else rest)

-- How many of the attempts are by the host and within the window before `now`.
abbrev pub within : Time → Host → Time → List Attempt → ℕ
within window a now = sum_by (λ e. if e.0 == a && recent window now e.1 then 1 else 0)

-- How many of a host's kept times are within the window before `now`.
abbrev pub kept : RateLimiter → Host → Time → ℕ
kept l a now = length (retain (recent l.window now) (or_default (get l.hits a)))

any-none : (p : Time → Bool) (xs : List Time) → any p xs ≡ false → retain p xs ≡ []
unfolding any retain
any-none p [] h = refl
any-none p (x ∷ xs) h = ground (arith, any-none p xs)

-- What is in a later window is in an earlier one.
retain-recent :
    (window now later : Time) (xs : List Time)
    → now ≤ later
    → retain (recent window later) (retain (recent window now) xs) ≡ retain (recent window later) xs
unfolding retain
retain-recent window now later [] h = refl
retain-recent window now later (x ∷ xs) h = ground (arith, retain-recent window now later xs h)

keep-recent :
    (window now later : Time) (o : Option (List Time))
    → now ≤ later
    → retain (recent window later) (or_default (keep_if (λ times. any (recent window now) times) o))
      ≡ retain (recent window later) (or_default o)
keep-recent window now later none h = refl
keep-recent window now later (some times) h = elim (Bool-cases (any (recent window now) times)) [
  | inl t ↦ rw t refl
  | inr f ↦ rw f (
      sym (ap (retain (recent window later)) (any-none (recent window now) times f))
      ∙ retain-recent window now later times h)
]

module _ (l : RateLimiter) (now later : Time) (u : IsUnique l.hits) (h : now ≤ later) where
  pruned-kept :
      (a : Host)
      → retain (recent l.window later) (or_default (get (pruned_hits l now) a))
        ≡ retain (recent l.window later) (or_default (get l.hits a))
  unfolding pruned_hits
  pruned-kept a = elim (Bool-cases (ltb 10000 (length l.hits))) [
    | inr f ↦ rw f refl
    | inl t ↦
        rw (t, get-retain_values (λ times. any (recent l.window now) times) l.hits a u)
          (keep-recent l.window now later (get l.hits a) h)
  ]

  -- The times that `check_at` counts.
  abbrev times : Host → List Time
  times ip = retain (recent l.window now) (or_default (get (pruned_hits l now) ip))

  times-kept :
      (ip : Host)
      → retain (recent l.window later) (times ip)
        ≡ retain (recent l.window later) (or_default (get l.hits ip))
  times-kept ip =
      retain-recent l.window now later (or_default (get (pruned_hits l now) ip)) h ∙ pruned-kept ip

  pruned-IsUnique : IsUnique (pruned_hits l now)
  unfolding pruned_hits
  pruned-IsUnique = elim (Bool-cases (ltb 10000 (length l.hits))) [
    | inr f ↦ rw f u
    | inl t ↦ rw t (retain_values-IsUnique (λ times. any (recent l.window now) times) l.hits u)
  ]

  -- Whether the attempt counts for `a` at the later moment.
  abbrev counts : Host → Host → Bool
  counts ip a = ip == a && recent l.window later now

  inserted-kept :
      (ip a : Host) (xs : List Time)
      → length
          (retain (recent l.window later) (or_default (get (insert (pruned_hits l now) ip xs) a)))
        ≡ (if ip == a then length (retain (recent l.window later) xs) else kept l a later)
  inserted-kept ip a xs = elim (Bool-cases (ip == a)) [
    | inl t ↦ rw (get-insert (pruned_hits l now) ip a xs, t) refl
    | inr f ↦ rw (get-insert (pruned_hits l now) ip a xs, f) (ap length (pruned-kept a))
  ]

  abbrev with_times : Host → List Time → RateLimiter
  with_times ip xs = record l { hits = insert (pruned_hits l now) ip xs }

  check_at-refused :
      (ip : Host)
      → leb l.max (length (times ip)) ≡ true
      → check_at l ip now ≡ (false, with_times ip (times ip))
  unfolding check_at
  check_at-refused ip t = if-true _ _ t

  check_at-allowed :
      (ip : Host)
      → leb l.max (length (times ip)) ≡ false
      → check_at l ip now ≡ (true, with_times ip (times ip ++ now ∷ []))
  unfolding check_at
  check_at-allowed ip f = if-false _ _ f

  length-recent-snoc :
      (xs : List Time)
      → length (retain (recent l.window later) (xs ++ now ∷ []))
        ≡ length (retain (recent l.window later) xs) + (if recent l.window later now then 1 else 0)
  unfolding retain
  length-recent-snoc [] = ground arith
  length-recent-snoc (x ∷ xs) = ground (arith, length-recent-snoc xs)

  abbrev added : Host → Host → ℕ
  added ip a = if (check_at l ip now).0 && counts ip a then 1 else 0

  check_at-kept : (ip a : Host) → kept (check_at l ip now).1 a later ≡ kept l a later + added ip a
  check_at-kept ip a = elim (Bool-cases (leb l.max (length (times ip)))) [
    | inl t ↦
        rw (check_at-refused ip t)
          (inserted-kept ip a (times ip) ∙ ground (arith, ap length (times-kept ip), ==_iff ip a))
    | inr f ↦ rw (check_at-allowed ip f) (
        inserted-kept ip a (times ip ++ now ∷ [])
        ∙ ground (arith, length-recent-snoc (times ip), ap length (times-kept ip), ==_iff ip a))
  ]

  check_at-IsUnique : (ip : Host) → IsUnique (check_at l ip now).1.hits
  check_at-IsUnique ip = elim (Bool-cases (leb l.max (length (times ip)))) [
    | inl t ↦ rw (check_at-refused ip t) (insert-IsUnique (pruned_hits l now) ip _ pruned-IsUnique)
    | inr f ↦ rw (check_at-allowed ip f) (insert-IsUnique (pruned_hits l now) ip _ pruned-IsUnique)
  ]

  -- An attempt leaves every host within the limit.
  check_at-limited :
      (ip a : Host) → kept l a later ≤ l.max → kept (check_at l ip now).1 a later ≤ l.max
  check_at-limited ip a k = elim (Bool-cases (leb l.max (length (times ip)))) [
    | inl t ↦ omega (arith, check_at-kept ip a, refused ip a t, k)
    | inr f ↦ rw (check_at-allowed ip f) (
        ground (
          arith,
          inserted-kept ip a (times ip ++ now ∷ []),
          length-recent-snoc (times ip),
          length-retain-le (recent l.window later) (times ip),
          leb-false l.max (length (times ip)) f,
          k,
        ))
  ]
    where
      refused : (ip a : Host) → leb l.max (length (times ip)) ≡ true → added ip a ≡ 0
      refused ip a t = rw (check_at-refused ip t) refl

  check_at-same :
      (ip : Host) → ((check_at l ip now).1.window ≡ l.window) × ((check_at l ip now).1.max ≡ l.max)
  check_at-same ip = elim (Bool-cases (leb l.max (length (times ip)))) [
    | inl t ↦ rw (check_at-refused ip t) (refl, refl)
    | inr f ↦ rw (check_at-allowed ip f) (refl, refl)
  ]

within-if :
    (window : Time) (a : Host) (later : Time) (allowed : Bool) (e : Attempt) (rest : List Attempt)
    → within window a later (if allowed then e ∷ rest else rest)
      ≡ (if allowed && (e.0 == a && recent window later e.1) then 1 else 0)
        + within window a later rest
within-if window a later true e rest = refl
within-if window a later false e rest = omega arith

attempts-limited :
    (l : RateLimiter) (as' : List Attempt) (a : Host) (later : Time)
    → IsUnique l.hits
    → All (λ e. e.1 ≤ later) as'
    → kept l a later ≤ l.max
    → within l.window a later (attempts l as').1 + kept l a later ≤ l.max
attempts-limited l [] a later u b k = omega (arith, k)
attempts-limited l ((ip, now) ∷ as') a later u b k =
    let l' = (check_at l ip now).1 in
    let (w, m) = check_at-same l now later u b.0 ip in
    let k' : kept l' a later ≤ l'.max =
      omega (arith, m, check_at-limited l now later u b.0 ip a k) in
    let ih = attempts-limited l' as' a later (check_at-IsUnique l now later u b.0 ip) b.1 k' in
    let ih' : within l.window a later (attempts l' as').1 + kept l' a later ≤ l.max =
      omega (arith, ih, m, ap (λ x. within x a later (attempts l' as').1) w) in
    omega (
      arith,
      within-if l.window a later (check_at l ip now).0 (ip, now) (attempts l' as').1,
      check_at-kept l now later u b.0 ip a,
      ih',
    )

-- Of any run of connection attempts, at any moment from the last of them on, no more than `max` of
-- those that were allowed to one host lie within the window, also when the table is pruned.
pub attempts-window :
    (window : Time) (max : ℕ) (as' : List Attempt) (a : Host) (later : Time)
    → All (λ e. e.1 ≤ later) as'
    → within window a later (attempts (new window max) as').1 ≤ max
attempts-window window max as' a later b =
    let k : kept (new window max) a later ≤ max = unfold get retain in omega arith in
    omega (arith, attempts-limited (new window max) as' a later tt b k)
