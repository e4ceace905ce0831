-- ===== src/Limits/Daily.antt =====
-- The daily quotas of src/api/limits.rs.
use anony_mail.Base.{
  ℕ, suc, ◌+◌, ◌≤◌, ◌<◌, min, ◌≡◌, refl, sym, ap, ◌∙◌, inl, inr, Bool, true, false, ◌&&◌, Option,
  none, some, List, [], ◌∷◌, arith, ltb, leb, if◌then◌else◌, ◌==◌, ==_iff, ==_refl, Bool-cases,
  length, retain, nat_eq, str_eq,
}
use anony_mail.Base.Assoc.{get, insert, get-insert}
use anony_mail.Base.Assoc.Unique.{
  IsUnique, keep_if, insert-IsUnique, retain_values-IsUnique, get-retain_values,
}
use anony_mail.Limits.{Host, Day, DailyTable, todays, pruned_table, note_daily}

-- What a host has used of its quota today.
abbrev pub used : DailyTable → Host → Day → ℕ
used table ip today = todays (get table ip) today

pruned-IsUnique :
    (table : DailyTable) (today : Day) → IsUnique table → IsUnique (pruned_table table today)
unfolding pruned_table
pruned-IsUnique table today u = elim (Bool-cases (ltb 100000 (length table))) [
  | inl t ↦ rw t (retain_values-IsUnique (λ e. e.0 == today) table u)
  | inr f ↦ rw f u
]

keep-todays :
    (today : Day) (o : Option (Day × ℕ))
    → todays (keep_if (λ e. e.0 == today) o) today ≡ todays o today
keep-todays today none = refl
keep-todays today (some (day, n)) = elim (Bool-cases (day == today)) [
  | inl t ↦ rw (t, t) refl
  | inr f ↦ rw (f) refl
]

-- Dropping the entries of other days forgets nothing of today.
pruned-used :
    (table : DailyTable) (ip : Host) (today : Day)
    → IsUnique table
    → used (pruned_table table today) ip today ≡ used table ip today
unfolding pruned_table
pruned-used table ip today u = elim (Bool-cases (ltb 100000 (length table))) [
  | inl t ↦
      rw (t, get-retain_values (λ e. e.0 == today) table ip u) (keep-todays today (get table ip))
  | inr f ↦ rw f refl
]

note_daily-IsUnique :
    (table : DailyTable) (cap : ℕ) (ip : Host) (today : Day)
    → IsUnique table
    → IsUnique (note_daily table cap ip today).1
unfolding note_daily
note_daily-IsUnique table cap ip today u = elim (Bool-cases (cap == 0)) [
  | inl z ↦ rw z u
  | inr n ↦ elim (Bool-cases (leb cap (todays (get (pruned_table table today) ip) today))) [
    | inl t ↦
        rw (n, t) (insert-IsUnique (pruned_table table today) ip _ (pruned-IsUnique table today u))
    | inr f ↦
        rw (n, f) (insert-IsUnique (pruned_table table today) ip _ (pruned-IsUnique table today u))
  ]
]

-- The rest of the call with the table pruned and the count of today at hand.
note_daily-cases :
    (table : DailyTable) (cap : ℕ) (ip : Host) (today : Day)
    → 0 < cap
    → IsUnique table
    → note_daily table cap ip today ≡ (
      ltb (used table ip today) cap,
      insert (pruned_table table today) ip (
        today,
        if ltb (used table ip today) cap then used table ip today + 1 else used table ip today,
      ),
    )
unfolding note_daily
note_daily-cases table cap ip today c u =
    let n : (cap == 0) ≡ false = ground arith in
    let p = pruned-used table ip today u in
    elim (Bool-cases (leb cap (used table ip today))) [
      | inl t ↦
          let k : ltb (used table ip today) cap ≡ false = ground arith in
          rw (note_daily, n, p, t, k) refl
      | inr f ↦
          let k : ltb (used table ip today) cap ≡ true = ground arith in
          rw (note_daily, n, p, f, k) refl
    ]

-- A call counts for its own host, up to the cap, and for no other.
used-note_daily :
    (table : DailyTable) (cap : ℕ) (ip a : Host) (today : Day)
    → 0 < cap
    → IsUnique table
    → used (note_daily table cap ip today).1 a today ≡ (
        if ip == a
        then (if ltb (used table a today) cap then used table a today + 1 else used table a today)
        else used table a today)
used-note_daily table cap ip a today c u =
    ap (λ r. used r.1 a today) (note_daily-cases table cap ip today c u)
    ∙ ground (
      arith,
      get-insert (pruned_table table today) ip a (
        today,
        if ltb (used table ip today) cap then used table ip today + 1 else used table ip today,
      ),
      pruned-used table a today u,
      ==_iff ip a,
      ==_refl today,
    )

-- How many of the calls by `a`, one after another on one day, are allowed, and how many there are.
abbrev pub allowed : DailyTable → ℕ → Day → Host → List Host → ℕ
allowed table cap today a [] = 0
allowed table cap today a (ip ∷ ips) =
    (if ip == a && (note_daily table cap ip today).0 then 1 else 0)
    + allowed (note_daily table cap ip today).1 cap today a ips

abbrev pub calls_of : Host → List Host → ℕ
calls_of a ips = length (retain (λ ip. ip == a) ips)

-- One call in numbers: `e` is whether it is by the host, `g` whether it is allowed.
count_step :
    (e g : Bool) (u u' rest calls cap : ℕ)
    → u' ≡ (if e then (if ltb u cap then u + 1 else u) else u)
    → (e ≡ true → g ≡ ltb u cap)
    → u ≤ cap
    → u' + rest ≡ min (u' + calls) cap
    → u + ((if e && g then 1 else 0) + rest) ≡ min (u + (if e then suc calls else calls)) cap
count_step true g u u' rest calls cap s h le ih = rw (h refl) (ground (arith, s, le, ih))
count_step false g u u' rest calls cap s h le ih = ground (arith, s, le, ih)

length-if {ℓ} :
    {A : Type ℓ} (b : Bool) (x : A) (xs : List A)
    → (if b then suc (length xs) else length xs) ≡ length (if b then x ∷ xs else xs)
length-if true x xs = refl
length-if false x xs = refl

-- On any one day a host is allowed as many calls as the cap has left for it, and no more, whatever
-- calls of other hosts come between and however large the table grows.
pub allowed-exact :
    (table : DailyTable) (cap : ℕ) (today : Day) (a : Host) (ips : List Host)
    → 0 < cap
    → IsUnique table
    → used table a today ≤ cap
    → used table a today + allowed table cap today a ips
      ≡ min (used table a today + calls_of a ips) cap
unfolding retain
allowed-exact table cap today a [] c u le = omega (arith, le)
allowed-exact table cap today a (ip ∷ ips) c u le =
    let table' = (note_daily table cap ip today).1 in
    let step = used-note_daily table cap ip a today c u in
    let answer = ap (λ r. r.0) (note_daily-cases table cap ip today c u) in
    let le' : used table' a today ≤ cap = ground (arith, step, le) in
    let ih =
      allowed-exact table' cap today a ips c (note_daily-IsUnique table cap ip today u) le' in
    count_step (ip == a) (note_daily table cap ip today).0 (used table a today)
      (used table' a today) (allowed table' cap today a ips) (calls_of a ips) cap step
      (λ t. rw (sym ((==_iff ip a).0 t)) answer) le ih
    ∙ ap (λ n. min (used table a today + n) cap) (length-if (ip == a) ip (retain (λ i. i == a) ips))
