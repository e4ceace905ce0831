-- ===== src/CustomDomains.antt =====
-- src/custom_domains.rs: the rules for claims of custom domains. What a resolver answers is given.
pub mod Grace
use anony_mail.Base.{
  ℕ, suc, ◌-◌, Bool, false, not, ◌&&◌, ◌||◌, Option, none, some, List, [], ◌∷◌, ◌++◌, ltb, leb,
  if◌then◌else◌, ◌==◌, Result, unwrap_or, length, all, any, ok, err, nat_eq, str_eq,
}
use anony_mail.Base.Text.{
  Str, text, is_empty, is_ascii_lowercase, is_ascii_digit, trim, trim_end_matches,
  to_ascii_lowercase, split, len,
}
use anony_mail.Config.{Config}
use anony_mail.Model.{Time, CustomDomain, hours}
use anony_mail.Model.Kinds.{CustomDomainStatus, pending, verified, failed}
use anony_mail.Store.{Store, StoreError}

abbrev pub txt_label : Str
txt_label = text "_anonymail"

abbrev pub txt_value_prefix : Str
txt_value_prefix = text "anonymail-verify="

abbrev pub grace_hours : ℕ
grace_hours = 48

abbrev pub recheck_after_hours : ℕ
recheck_after_hours = 24

abbrev pub txt_value : Str → Str
txt_value txt_token = txt_value_prefix ++ txt_token

abbrev pub txt_host : Str → Str
txt_host domain = txt_label ++ b'.' ∷ domain

-- `ends_with`
unfoldable pub ends_with : Str → Str → Bool
ends_with [] suffix = is_empty suffix
ends_with (c ∷ s) suffix = (c ∷ s) == suffix || ends_with s suffix

last_is : ℕ → Str → Bool
last_is c s = ends_with s (c ∷ [])

first_is : ℕ → Str → Bool
first_is c [] = false
first_is c (d ∷ s) = d == c

unfoldable pub valid_label : Str → Bool
unfolding last_is first_is ends_with
valid_label label =
    not (is_empty label)
    && leb (len label) 63
    && not (first_is b'-' label)
    && not (last_is b'-' label)
    && all (λ c. is_ascii_lowercase c || is_ascii_digit c || c == b'-') label

last_label : List Str → Str
last_label [] = []
last_label (l ∷ []) = l
last_label (l ∷ m ∷ ls) = last_label (m ∷ ls)

unfoldable pub is_valid_domain : Str → Bool
unfolding valid_label last_label
is_valid_domain domain =
    let labels = split b'.' domain in
    let tld = last_label labels in
    if ltb 253 (len domain)
    then false
    else if ltb (length labels) 2
    then false
    else if not (all valid_label labels)
    then false
    else leb 2 (len tld) && all is_ascii_lowercase tld

-- The domain is one of the served ones or below one.
unfoldable pub is_served : Config → Str → Bool
unfolding ends_with
is_served config domain =
    any (λ served. domain == served || ends_with domain (b'.' ∷ served)) config.domains

unfoldable pub validate_claimable : Config → Str → Result Str Str
unfolding is_valid_domain is_served
validate_claimable config raw =
    let domain = to_ascii_lowercase (trim_end_matches (λ c. c == b'.') (trim raw)) in
    let reserved = text "domain is reserved by this server: " ++ domain in
    if not (is_valid_domain domain)
    then err (text "not a valid domain name: " ++ raw)
    else if is_served config domain
    then err reserved
    else if domain == to_ascii_lowercase config.smtp_hostname
    then err reserved
    else ok domain

pub record DnsCheck : Type 0 where
  pub record_kind : Str
  pub ok_now : Bool
  pub expected : Str
  pub found : Option Str

-- `DomainDns`: `none` is a failure of the resolver.
pub record DomainDns : Type 0 where
  pub txt_records : Str → Option (List Str)
  pub mx_hosts : Str → Option (List Str)

join : List Str → Str
join [] = []
join (v ∷ []) = v
join (v ∷ w ∷ vs) = v ++ text ", " ++ join (w ∷ vs)

summarize : List Str → Option Str
unfolding join
summarize values = if is_empty values then none else some (join values)

check : Str → Str → (Str → Bool) → Option (List Str) → DnsCheck
unfolding summarize
check kind expected matches none = record {
  record_kind = kind;
  ok_now = false;
  expected = expected;
  found = none;
}
check kind expected matches (some values) = record {
  record_kind = kind;
  ok_now = any matches values;
  expected = expected;
  found = summarize values;
}

unfoldable pub run_checks : DomainDns → Config → CustomDomain → List DnsCheck × Bool
unfolding check
run_checks dns config domain =
    let expected_txt = txt_value domain.txt_token in
    let expected_mx = to_ascii_lowercase (trim_end_matches (λ c. c == b'.') config.smtp_hostname) in
    let txt =
      check (text "txt") expected_txt (λ v. trim v == expected_txt)
        (dns.txt_records (txt_host domain.domain)) in
    let mx = check (text "mx") expected_mx (λ h. h == expected_mx) (dns.mx_hosts domain.domain) in
    (txt ∷ mx ∷ [], txt.ok_now && mx.ok_now)

unfoldable pub next_status : CustomDomain → Bool → Time → CustomDomainStatus × Option Time
next_status current all_ok now = if all_ok then (verified, some now) else elim current.status [
  | pending ↦ (pending, current.verified_at)
  | failed ↦ (failed, current.verified_at)
  | verified ↦
      let anchor = unwrap_or current.verified_at current.created_at in
      if ltb (hours grace_hours) (now - anchor)
      then (failed, current.verified_at)
      else (verified, current.verified_at)
]

module _ (store : Store) where
  unfoldable pub check_and_record :
      DomainDns
      → Config
      → Time
      → store.State
      → CustomDomain
      → Result (List DnsCheck × CustomDomainStatus × Option Time) StoreError × store.State
  unfolding run_checks next_status
  check_and_record dns config now db domain =
      let (checks, all_ok) = run_checks dns config domain in
      let (status, verified_at) = next_status domain all_ok now in
      let (recorded, db') =
        store.record_custom_domain_check db domain.domain status verified_at now in
      (elim recorded [ err e ↦ err e | ok found ↦ ok (checks, status, verified_at) ], db')

  -- One domain after another; a failure is only logged.
  unfoldable pub recheck_all :
      DomainDns → Config → (ℕ → Time) → store.State → List CustomDomain → store.State
  unfolding check_and_record
  recheck_all dns config clock db [] = db
  recheck_all dns config clock db (domain ∷ due) =
      recheck_all dns config (λ i. clock (suc i))
        (check_and_record dns config (clock 0) db domain).1 due

  -- One scan of `reverify_loop`: `clock 0` is its first reading, the rest those of the checks.
  unfoldable pub reverify_scan : DomainDns → Config → (ℕ → Time) → store.State → store.State
  unfolding recheck_all
  reverify_scan dns config clock db =
      elim (store.list_custom_domains_to_recheck db (clock 0 - hours recheck_after_hours)) [
        | err e ↦ db
        | ok due ↦ recheck_all dns config (λ i. clock (suc i)) db due
      ]
