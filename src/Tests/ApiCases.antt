-- ===== src/Tests/ApiCases.antt =====
-- The theorems on src/api/ at concrete inputs.
use anony_mail.Base.{
  ◌+◌, ◌%◌, ◌≡◌, refl, ◌↔◌, some, [], ◌∷◌, arith, str_beq, length, ok, nat_eq, str_eq,
}
use anony_mail.Base.Text.{text, split_once, trim, lowercase}
use anony_mail.Base.Assoc.{get}
use anony_mail.Model.{Bytes}
use anony_mail.Store.Memory.Backend.{MemoryStore, memory_store, with_quotas}
use anony_mail.Api.Auth.{as_bytes, bearer_token, hash_token, authorize_owner}
use anony_mail.Api.Auth.Rotate.{IsByteString, authorize_owner-rotate_owner_token}
use anony_mail.Tests.Fixtures.{alice, mailbox_of, two_mails, one_message, counting}

-- A digest of one byte.
abbrev pub count_digest : Bytes → Bytes
count_digest bs = length bs % 256 ∷ []

abbrev pub served : MemoryStore
served = record (with_quotas one_message (λ n. n + 30) counting (λ i cs. cs)) { inner = two_mails }

authorize_owner-rotate_owner_token_example :
    (authorize_owner count_digest memory_store
        (memory_store.rotate_owner_token served alice (hash_token count_digest (text "am_new"))).1
        alice
        (some (text "bearer  am_old"))
      ≡ ok (record (mailbox_of alice 50) {
        owner_token_hash = some (hash_token count_digest (text "am_new"));
      }))
    ↔ (count_digest (as_bytes (text "am_old")) ≡ count_digest (as_bytes (text "am_new")))
unfolding bearer_token get str_beq split_once trim lowercase IsByteString
authorize_owner-rotate_owner_token_example =
    authorize_owner-rotate_owner_token count_digest served alice (text "am_new") (text "am_old")
      (mailbox_of alice 50) (some (text "bearer  am_old")) refl refl (omega arith, tt)
      (omega arith, tt)
