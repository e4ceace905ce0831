-- ===== src/Store/Memory/Claims.antt =====
-- The custom-domain claims of src/store/memory.rs.
use anony_mail.Base.{
  Bool, true, false, ◌&&◌, ◌||◌, Option, none, some, List, ◌++◌, leb, if◌then◌else◌, Result,
  is_some, is_some_and, is_none_or, retain, ok, err, nat_eq, str_eq,
}
use anony_mail.Base.Assoc.{get, insert, remove, values}
use anony_mail.Base.Text.{Str, text}
use anony_mail.Model.{Time, CustomDomain}
use anony_mail.Model.Kinds.{CustomDomainStatus, pending, verified, failed, same_status}
use anony_mail.Store.{StoreError, unique_violation}
use anony_mail.Store.Memory.{Inner}

unfoldable pub create_custom_domain :
    Time → Inner → Str → Str → Str → Result CustomDomain StoreError × Inner
create_custom_domain now inner domain claim_token_hash txt_token =
    let claim : CustomDomain = record {
      domain = domain;
      status = pending;
      claim_token_hash = claim_token_hash;
      txt_token = txt_token;
      created_at = now;
      verified_at = none;
      last_checked_at = none;
    } in
    if is_some (get inner.custom_domains domain)
    then (err (unique_violation (text "domain already claimed: " ++ domain)), inner)
    else (ok claim, record inner { custom_domains = insert inner.custom_domains domain claim })

unfoldable pub get_custom_domain : Inner → Str → Option CustomDomain
get_custom_domain inner domain = get inner.custom_domains domain

unfoldable pub delete_custom_domain : Inner → Str → Bool × Inner
delete_custom_domain inner domain = (
  is_some (get inner.custom_domains domain),
  record inner { custom_domains = remove inner.custom_domains domain },
)

unfoldable pub custom_domain_is_verified : Inner → Str → Bool
custom_domain_is_verified inner domain =
    is_some_and (get inner.custom_domains domain) (λ d. same_status d.status verified)

unfoldable pub record_check :
    Inner → Str → CustomDomainStatus → Option Time → Time → Option CustomDomain → Bool × Inner
record_check inner domain status verified_at checked_at none = (false, inner)
record_check inner domain status verified_at checked_at (some d) =
    let d' = record d {
      status = status;
      verified_at = verified_at;
      last_checked_at = some checked_at;
    } in
    (true, record inner { custom_domains = insert inner.custom_domains domain d' })

unfoldable pub record_custom_domain_check :
    Inner → Str → CustomDomainStatus → Option Time → Time → Bool × Inner
unfolding record_check
record_custom_domain_check inner domain status verified_at checked_at =
    record_check inner domain status verified_at checked_at (get inner.custom_domains domain)

-- `matches!(d.status, Verified | Failed) && d.last_checked_at.is_none_or(|t| t <= cutoff)`
unfoldable pub is_due : Time → CustomDomain → Bool
is_due cutoff d =
    (same_status d.status verified || same_status d.status failed)
    && is_none_or d.last_checked_at (λ t. leb t cutoff)

-- The values of a `HashMap` come in an order of its own, `arrange`.
unfoldable pub list_custom_domains_to_recheck :
    (List CustomDomain → List CustomDomain) → Inner → Time → List CustomDomain
unfolding is_due
list_custom_domains_to_recheck arrange inner cutoff =
    arrange (retain (is_due cutoff) (values inner.custom_domains))
