-- ===== src/Store/Sqlite/Claims.antt =====
-- The custom-domain claims of src/store/sqlite.rs.
use anony_mail.Base.{
  Bool, ◌&&◌, ◌||◌, Option, none, some, List, ltb, leb, ◌==◌, Result, is_none_or, retain, find, any,
  ok, nat_eq, str_eq,
}
use anony_mail.Base.Results.{◌>>=◌, map_err, collect}
use anony_mail.Base.Table.{update_where, delete_where, rows_where}
use anony_mail.Base.Text.{Str, text}
use anony_mail.Model.{Time, CustomDomain}
use anony_mail.Model.Kinds.{
  CustomDomainStatus, UnknownWord, pending, status_as_str, status_from_str,
}
use anony_mail.Store.{StoreError, backend_failure}
use anony_mail.Store.Sqlite.{Db, CustomDomainRow, insert_custom_domain, commit}

unfoldable pub claim_from : CustomDomainRow → Result CustomDomain StoreError
claim_from r = do
  status ← map_err (λ (e : UnknownWord). backend_failure) (status_from_str r.status)
  ok (record {
    domain = r.domain;
    status = status;
    claim_token_hash = r.claim_token_hash;
    txt_token = r.txt_token;
    created_at = r.created_at;
    verified_at = r.verified_at;
    last_checked_at = r.last_checked_at;
  })

abbrev pub of_domain : Str → CustomDomainRow → Bool
of_domain domain r = r.domain == domain

unfoldable pub create_custom_domain :
    Time → Db → Str → Str → Str → Result CustomDomain StoreError × Db
unfolding insert_custom_domain
create_custom_domain created_at db domain claim_token_hash txt_token =
    let row : CustomDomainRow = record {
      domain = domain;
      claim_token_hash = claim_token_hash;
      txt_token = txt_token;
      status = text "pending";
      created_at = created_at;
      verified_at = none;
      last_checked_at = none;
    } in
    let claim : CustomDomain = record {
      domain = domain;
      status = pending;
      claim_token_hash = claim_token_hash;
      txt_token = txt_token;
      created_at = created_at;
      verified_at = none;
      last_checked_at = none;
    } in
    commit db do db' ← insert_custom_domain row db; ok (claim, db')

-- `row.map(TryInto::try_into).transpose()`
unfoldable pub transposed : Option CustomDomainRow → Result (Option CustomDomain) StoreError
unfolding claim_from
transposed none = ok none
transposed (some r) = do claim ← claim_from r; ok (some claim)

unfoldable pub get_custom_domain : Db → Str → Result (Option CustomDomain) StoreError
unfolding transposed
get_custom_domain db domain = transposed (find (of_domain domain) db.custom_domains)

unfoldable pub delete_custom_domain : Db → Str → Bool × Db
unfolding delete_where rows_where
delete_custom_domain db domain = (
  ltb 0 (rows_where (of_domain domain) db.custom_domains),
  record db { custom_domains = delete_where (of_domain domain) db.custom_domains },
)

unfoldable pub custom_domain_is_verified : Db → Str → Bool
custom_domain_is_verified db domain =
    any (λ r. r.domain == domain && r.status == text "verified") db.custom_domains

unfoldable pub record_custom_domain_check :
    Db → Str → CustomDomainStatus → Option Time → Time → Bool × Db
unfolding update_where rows_where status_as_str
record_custom_domain_check db domain status verified_at checked_at = (
  ltb 0 (rows_where (of_domain domain) db.custom_domains),
  record db {
    custom_domains =
        update_where (of_domain domain)
          (λ r. record r {
            status = status_as_str status;
            verified_at = verified_at;
            last_checked_at = some checked_at;
          })
          db.custom_domains;
  },
)

unfoldable pub is_due : Time → CustomDomainRow → Bool
is_due cutoff r =
    (r.status == text "verified" || r.status == text "failed")
    && is_none_or r.last_checked_at (λ t. leb t cutoff)

-- Without ORDER BY, the engine gives the rows in an order of its own, `arrange`.
unfoldable pub list_custom_domains_to_recheck :
    (List CustomDomain → List CustomDomain) → Db → Time → Result (List CustomDomain) StoreError
unfolding is_due claim_from
list_custom_domains_to_recheck arrange db cutoff = do
  claims ← collect claim_from (retain (is_due cutoff) db.custom_domains)
  ok (arrange claims)
