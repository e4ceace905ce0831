-- ===== src/Agreement/Claims/Changes.antt =====
-- The operations of src/store/memory.rs and src/store/sqlite.rs that change claims agree.
use anony_mail.Base.{
  ◌≡◌, refl, sym, ap, ◌∙◌, inl, inr, Option, none, some, List, [], ◌∷◌, ◌++◌, map, arith, ltb, ◌==◌,
  ==_iff, Option-cases, is_some, any, nat_eq, str_eq,
}
use anony_mail.Base.Assoc.{Keyed-insert, Keyed-remove, get, get-Keyed, insert, values}
use anony_mail.Base.Table.{update_where, rows_where, delete_where}
use anony_mail.Base.Table.Mirror.{
  any-key, rows_where-key, rows-insert_new, rows-insert_old, update_where-rows_none,
}
use anony_mail.Base.Table.Mirror.Removal.{rows-remove}
use anony_mail.Base.Text.{Str, text}
use anony_mail.Model.{Time, CustomDomain}
use anony_mail.Model.Kinds.{CustomDomainStatus, pending, status_as_str}
use anony_mail.Store.Memory.{Inner}
use anony_mail.Store.Sqlite.{Db, CustomDomainRow, insert_custom_domain}
use anony_mail.Store.Sqlite.Claims.{of_domain, claim_from, transposed}
use anony_mail.Agreement.{Agrees, Same, SameAnswer, claim, claim_row, domain_of}
use anony_mail.Store.Memory.Claims as Memory
use anony_mail.Store.Sqlite.Claims as Sqlite
use anony_mail.Agreement.Claims.{row_domain, same_key}

module _ {inner : Inner} {db : Db} (w : Agrees inner db) where
  taken :
      (domain : Str) {o : Option CustomDomain}
      → get inner.custom_domains domain ≡ o
      → any (λ (d : CustomDomainRow). d.domain == domain) db.custom_domains ≡ is_some o
  taken domain {o} e =
      ap (any (of_domain domain)) w.claims
      ∙ any-key domain_of claim_row row_domain same_key inner.custom_domains domain w.claims_keyed
      ∙ ap (λ (x : Option CustomDomain). is_some x) e

  affected :
      (domain : Str)
      → ltb 0 (rows_where (of_domain domain) db.custom_domains)
        ≡ is_some (get inner.custom_domains domain)
  affected domain =
      ap (λ (t : List CustomDomainRow). ltb 0 (rows_where (of_domain domain) t)) w.claims
      ∙ rows_where-key domain_of claim_row row_domain same_key inner.custom_domains domain
          w.claims_keyed

  created-Agrees :
      (domain : Str) (d : CustomDomain) (r : CustomDomainRow)
      → domain_of d ≡ domain
      → claim_row d ≡ r
      → get inner.custom_domains domain ≡ none
      → Agrees
          (record inner { custom_domains = insert inner.custom_domains domain d })
          (record db { custom_domains = db.custom_domains ++ r ∷ [] })
  created-Agrees domain d r k c e = record {
    mailboxes = w.mailboxes;
    claims =
        ap (λ (t : List CustomDomainRow). t ++ r ∷ []) w.claims
        ∙ ap (λ (x : CustomDomainRow). map claim_row (values inner.custom_domains) ++ x ∷ [])
            (sym c)
        ∙ sym (
            rows-insert_new domain_of claim_row row_domain same_key inner.custom_domains domain d
              e);
    devices = w.devices;
    mailboxes_keyed = w.mailboxes_keyed;
    claims_keyed = Keyed-insert domain_of domain d inner.custom_domains k w.claims_keyed;
    devices_keyed = w.devices_keyed;
  }

  pub create_custom_domain_agrees :
      (now : Time) (domain hash token : Str)
      → SameAnswer
          (λ d. claim (some d))
          (Memory.create_custom_domain now inner domain hash token)
          (Sqlite.create_custom_domain now db domain hash token)
  unfolding Memory.create_custom_domain Sqlite.create_custom_domain insert_custom_domain
      status_as_str
  create_custom_domain_agrees now domain hash token =
      elim (Option-cases (get inner.custom_domains domain)) [
        | inl e ↦
            rw (e, Memory.create_custom_domain)
              (rw (taken domain e, Sqlite.create_custom_domain)
                (refl, created-Agrees domain _ _ refl (written now domain hash token) e))
        | inr (u, e) ↦
            rw (e, Memory.create_custom_domain)
              (rw (taken domain e, Sqlite.create_custom_domain) (refl, w))
      ]
    where
      written :
          (now : Time) (domain hash token : Str)
          → claim_row (record {
            domain = domain;
            status = pending;
            claim_token_hash = hash;
            txt_token = token;
            created_at = now;
            verified_at = none;
            last_checked_at = none;
          })
            ≡ record {
              domain = domain;
              claim_token_hash = hash;
              txt_token = token;
              status = text "pending";
              created_at = now;
              verified_at = none;
              last_checked_at = none;
            }
      written now domain hash token = refl

  pub delete_custom_domain_agrees :
      (domain : Str)
      → Same (Memory.delete_custom_domain inner domain) (Sqlite.delete_custom_domain db domain)
  unfolding Memory.delete_custom_domain Sqlite.delete_custom_domain
  delete_custom_domain_agrees domain = (
    sym (affected domain),
    record {
      mailboxes = w.mailboxes;
      claims =
          ap (delete_where (of_domain domain)) w.claims
          ∙ rows-remove domain_of claim_row row_domain same_key inner.custom_domains domain
              w.claims_keyed;
      devices = w.devices;
      mailboxes_keyed = w.mailboxes_keyed;
      claims_keyed = Keyed-remove domain_of domain inner.custom_domains w.claims_keyed;
      devices_keyed = w.devices_keyed;
    },
  )

  checked :
      (domain : Str) (status : CustomDomainStatus) (verified_at : Option Time) (t : Time)
      (o : Option CustomDomain)
      → get inner.custom_domains domain ≡ o
      → Same
          (Memory.record_check inner domain status verified_at t o)
          (Sqlite.record_custom_domain_check db domain status verified_at t)
  unfolding Memory.record_check Sqlite.record_custom_domain_check
  checked domain status verified_at t none e =
      let change = λ (r : CustomDomainRow). record r {
        status = status_as_str status;
        verified_at = verified_at;
        last_checked_at = some t;
      } in
      (
        sym (affected domain ∙ ap (λ (x : Option CustomDomain). is_some x) e),
        record {
          mailboxes = w.mailboxes;
          claims =
              ap (update_where (of_domain domain) change) w.claims
              ∙ update_where-rows_none domain_of claim_row row_domain same_key (of_domain domain)
                  change inner.custom_domains domain (λ r n. n) w.claims_keyed (ground (arith, e));
          devices = w.devices;
          mailboxes_keyed = w.mailboxes_keyed;
          claims_keyed = w.claims_keyed;
          devices_keyed = w.devices_keyed;
        },
      )
  checked domain status verified_at t (some u) e =
      let change = λ (r : CustomDomainRow). record r {
        status = status_as_str status;
        verified_at = verified_at;
        last_checked_at = some t;
      } in
      let u' : CustomDomain = record u {
        status = status;
        verified_at = verified_at;
        last_checked_at = some t;
      } in
      let k = get-Keyed domain_of inner.custom_domains domain u w.claims_keyed e in
      (
        sym (affected domain ∙ ap (λ (x : Option CustomDomain). is_some x) e),
        record {
          mailboxes = w.mailboxes;
          claims =
              ap (update_where (of_domain domain) change) w.claims
              ∙ rows-insert_old domain_of claim_row row_domain same_key (of_domain domain) change
                  inner.custom_domains domain u u' (λ r n. n) w.claims_keyed e
                  ((==_iff u.domain domain).1 k) refl;
          devices = w.devices;
          mailboxes_keyed = w.mailboxes_keyed;
          claims_keyed = Keyed-insert domain_of domain u' inner.custom_domains k w.claims_keyed;
          devices_keyed = w.devices_keyed;
        },
      )

  pub record_custom_domain_check_agrees :
      (domain : Str) (status : CustomDomainStatus) (verified_at : Option Time) (t : Time)
      → Same
          (Memory.record_custom_domain_check inner domain status verified_at t)
          (Sqlite.record_custom_domain_check db domain status verified_at t)
  unfolding Memory.record_custom_domain_check
  record_custom_domain_check_agrees domain status verified_at t =
      checked domain status verified_at t (get inner.custom_domains domain) refl
