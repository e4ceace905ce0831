-- ===== src/Agreement/Claims.antt =====
-- The custom-domain claims of src/store/memory.rs and src/store/sqlite.rs agree.
pub mod Changes
use anony_mail.Base.{
  ◌≡◌, refl, sym, ap, ◌∙◌, ◌&&◌, Option, none, some, List, [], ◌∷◌, map, ◌==◌, str_beq, Result,
  is_some_and, retain, find, any, ok, nat_eq, str_eq,
}
use mathlib.Core.Option
use anony_mail.Base.Assoc.{Keyed-insert, Keyed-remove, get, get-Keyed, insert, values}
use anony_mail.Base.Results.{◌>>=◌, collect}
use anony_mail.Store.{StoreError}
use anony_mail.Base.Table.{update_where, rows_where, delete_where}
use anony_mail.Base.Table.Mirror.{
  find-rows, any-rows, any-key, rows_where-key, rows-insert_new, rows-insert_old,
  update_where-rows_none,
}
use anony_mail.Base.Table.Mirror.Removal.{rows-remove, retain-rows}
use anony_mail.Base.Text.{Str, text}
use anony_mail.Model.{Time, CustomDomain}
use anony_mail.Model.Kinds.{
  CustomDomainStatus, pending, verified, failed, status_as_str, status_from_str, same_status,
}
use anony_mail.Store.Memory.{Inner}
use anony_mail.Store.Sqlite.{Db, CustomDomainRow, insert_custom_domain}
use anony_mail.Store.Sqlite.Claims.{of_domain, claim_from, transposed}
use anony_mail.Agreement.{Agrees, Same, SameAnswer, claim, claim_row, domain_of}
use anony_mail.Store.Memory.Claims as Memory
use anony_mail.Store.Sqlite.Claims as Sqlite

abbrev pub row_domain : CustomDomainRow → Str
row_domain r = r.domain

pub same_key : (d : CustomDomain) → row_domain (claim_row d) ≡ domain_of d
same_key d = refl

-- The word of a status is read back as the status.
status_back : (s : CustomDomainStatus) → status_from_str (status_as_str s) ≡ ok s
unfolding status_from_str status_as_str str_beq
status_back pending = refl
status_back verified = refl
status_back failed = refl

-- So the row of a claim is read back as the claim.
claim_back : (d : CustomDomain) → claim_from (claim_row d) ≡ ok d
unfolding claim_from
claim_back d = rw (status_back d.status) refl

transposed_back : (o : Option CustomDomain) → transposed (Option.map claim_row o) ≡ ok o
unfolding transposed
transposed_back none = refl
transposed_back (some d) = rw (claim_back d) refl

collect_back : (ds : List CustomDomain) → collect claim_from (map claim_row ds) ≡ ok ds
unfolding collect
collect_back [] = refl
collect_back (d ∷ ds) = rw (claim_back d, collect_back ds) refl

verified_word :
    (s : CustomDomainStatus) → (status_as_str s == text "verified") ≡ same_status s verified
unfolding status_as_str str_beq
verified_word pending = refl
verified_word verified = refl
verified_word failed = refl

failed_word : (s : CustomDomainStatus) → (status_as_str s == text "failed") ≡ same_status s failed
unfolding status_as_str str_beq
failed_word pending = refl
failed_word verified = refl
failed_word failed = refl

due_same :
    (cutoff : Time) (d : CustomDomain) → Sqlite.is_due cutoff (claim_row d) ≡ Memory.is_due cutoff d
unfolding Sqlite.is_due Memory.is_due
due_same cutoff d = rw (verified_word d.status, failed_word d.status) refl

module _ {inner : Inner} {db : Db} (w : Agrees inner db) where
  pub get_custom_domain_same :
      (domain : Str)
      → ok (Memory.get_custom_domain inner domain) ≡ Sqlite.get_custom_domain db domain
  unfolding Memory.get_custom_domain Sqlite.get_custom_domain
  get_custom_domain_same domain = sym (
      ap (λ (t : List CustomDomainRow). transposed (find (of_domain domain) t)) w.claims
      ∙ ap transposed (
          find-rows domain_of claim_row row_domain same_key inner.custom_domains domain
            w.claims_keyed)
      ∙ transposed_back (get inner.custom_domains domain))

  pub custom_domain_is_verified_same :
      (domain : Str)
      → Memory.custom_domain_is_verified inner domain ≡ Sqlite.custom_domain_is_verified db domain
  unfolding Memory.custom_domain_is_verified Sqlite.custom_domain_is_verified
  custom_domain_is_verified_same domain = sym (
      ap (any (λ (r : CustomDomainRow). r.domain == domain && r.status == text "verified")) w.claims
      ∙ any-rows domain_of claim_row row_domain same_key (λ r. r.status == text "verified")
          inner.custom_domains domain w.claims_keyed
      ∙ by_status (get inner.custom_domains domain))
    where
      by_status :
          (o : Option CustomDomain)
          → is_some_and o (λ d. status_as_str d.status == text "verified")
            ≡ is_some_and o (λ d. same_status d.status verified)
      by_status none = refl
      by_status (some d) = verified_word d.status

  pub list_custom_domains_to_recheck_same :
      (arrange : List CustomDomain → List CustomDomain) (cutoff : Time)
      → Sqlite.list_custom_domains_to_recheck arrange db cutoff
        ≡ ok (arrange (Memory.list_custom_domains_to_recheck (λ cs. cs) inner cutoff))
  unfolding Memory.list_custom_domains_to_recheck Sqlite.list_custom_domains_to_recheck
  list_custom_domains_to_recheck_same arrange cutoff =
      ap (λ (r : Result (List CustomDomain) StoreError). r >>= λ claims. ok (arrange claims))
        (ap (λ (t : List CustomDomainRow). collect claim_from (retain (Sqlite.is_due cutoff) t))
            w.claims
          ∙ ap (collect claim_from) (
              retain-rows domain_of claim_row row_domain same_key (Memory.is_due cutoff)
                (Sqlite.is_due cutoff) (values inner.custom_domains) (due_same cutoff))
          ∙ collect_back _)
