-- ===== src/Tests/HandlerCases.antt =====
-- The theorems on the handlers of src/api/ at concrete inputs.
use anony_mail.Base.{
  ◌≡◌, refl, true, Option, none, some, [], ◌∷◌, arith, str_beq, Result, find, all, contains, ok,
  nat_eq, str_eq,
}
use anony_mail.Base.Text.{len, is_ascii_lowercase, is_ascii_digit}
use anony_mail.Config.{is_reserved_local_part}
use anony_mail.Limits.{note_address_created}
use anony_mail.Base.Text.{Str, text, trimmed, trim, lowercase, decimal, split_once}
use anony_mail.Base.Assoc.{get}
use anony_mail.Entitlements.{is_attested, verify_client_token}
use anony_mail.Limits.{from_config}
use anony_mail.Model.{Attachment}
use anony_mail.Store.Memory.Backend.{MemoryStore, memory_store}
use anony_mail.Store.Memory.Messages
use anony_mail.Store.{StoreError}
use mathlib.Core.Path.{subst}
use mathlib.Core.Option
use anony_mail.Base.Int.{pos}
use anony_mail.Api.Addresses.{create}
use anony_mail.Api.Addresses.Chosen.{IsUsable}
use anony_mail.Api.Addresses.Creation.{create-IsFresh, MadeAt, Named}
use anony_mail.Api.Addresses.{CreateAddressResponse, is_valid_local_part}
use anony_mail.Api.Addresses.Success.{answer_of, create-authorize_owner}
use anony_mail.Api.Auth.{authorize_owner, bearer_token, as_bytes}
use anony_mail.Api.Gate.{client_claims, claims_of, accept_claims}
use anony_mail.Api.Handler.{◌>>=◌, AppState, Surroundings}
use anony_mail.Api.Handler.Ensures.{Ensures}
use anony_mail.Api.Handler.Stops.{is_err}
use anony_mail.Api.Messages.{rfc5987_encode, get_attachment}
use anony_mail.Api.Messages.Encoding.{decode, plain, decode-rfc5987_encode}
use anony_mail.Api.Messages.Printable.{IsName}
use anony_mail.Api.Messages.Inert.{IsInert, get_attachment-IsInert}
use anony_mail.Api.Routes.{owner, delete_address, respond}
use anony_mail.Api.Routes.Unattested.{respond-IsUnattested}
use anony_mail.Tests.ApiCases.{count_digest, served}
use anony_mail.Tests.Fixtures.{two_mails, mail_at, alice, config}
use anony_mail.Tests.Surroundings.{
  visible, surroundings_of, strict, tiered, running, as_am_old, no_headers,
}

-- A page that a browser would show, sent to alice.
abbrev page : Attachment
page = record {
  filename = some (text "é.html");
  content_type = text "text/html";
  content = 60 ∷ [];
}

abbrev with_page : AppState MemoryStore
with_page = record running {
  db = record served {
    inner = record two_mails {
      messages =
          record (mail_at alice 1 10) {
            message = record (mail_at alice 1 10).message {
              attachments =
                  record {
                    id = 2;
                    filename = page.filename;
                    content_type = page.content_type;
                    size = pos 1;
                  }
                  ∷ [];
            };
            contents = (2, page.content) ∷ [];
          }
          ∷ [];
    };
  };
}

page_named :
    (a : Attachment)
    → Path (Result (Option Attachment) StoreError) (ok (some page)) (ok (some a))
    → IsName a.filename
page_named a h =
    let e : page ≡ a = ground arith in subst (λ (x : Attachment). IsName x.filename) e (omega arith)

-- A token of an unattested device, where attestation is required.
respond-IsUnattested_example :
    (is_err (respond decimal strict memory_store (owner delete_address as_am_old alice) running).0
      ≡ true)
    × ((respond decimal strict memory_store (owner delete_address as_am_old alice) running).1.db
        ≡ served)
unfolding client_claims claims_of accept_claims is_attested trim trimmed ◌>>=◌ verify_client_token
    str_beq
respond-IsUnattested_example =
    respond-IsUnattested decimal strict memory_store refl (owner delete_address as_am_old alice)
      running (λ s. refl)

create-IsFresh_example :
    Ensures
      (create tiered memory_store no_headers 1 (record { local_part = none; domain = none }))
      running
      (λ r s'.
        (domain : Str) × IsUsable tiered no_headers served domain
        × MadeAt tiered served.inner domain (Named tiered none) r s')
create-IsFresh_example =
    create-IsFresh tiered no_headers 1 (record { local_part = none; domain = none }) running

-- A request for an address on a server that is open to all.
abbrev open_server : Surroundings
open_server = surroundings_of config

abbrev new_mailbox : CreateAddressResponse
new_mailbox = answer_of open_server (text "new.one") (text "a.io") 41 running

create-authorize_owner_example :
    ((create open_server memory_store no_headers 1
        (record { local_part = some (text " New.One"); domain = none })
        running).0
      ≡ ok new_mailbox)
    × (authorize_owner count_digest memory_store
          (create open_server memory_store no_headers 1
            (record { local_part = some (text " New.One"); domain = none })
            running).1.db
          (text "new.one@a.io")
          (some (text "Bearer am_7"))
        ≡ ok new_mailbox.mailbox)
unfolding trimmed trim lowercase is_valid_local_part len all is_ascii_lowercase is_ascii_digit
    is_reserved_local_part contains str_beq note_address_created from_config get bearer_token
    split_once decimal
create-authorize_owner_example =
    create-authorize_owner open_server no_headers (some (text "Bearer am_7")) 1 (text " New.One")
      (text "a.io") [] running refl refl refl refl refl refl refl refl refl

decode-rfc5987_encode_example :
    decode plain (rfc5987_encode (text "é a.pdf")) ≡ as_bytes (text "é a.pdf")
decode-rfc5987_encode_example = decode-rfc5987_encode (text "é a.pdf") (omega arith)

get_attachment-IsInert_example :
    Ensures (get_attachment tiered memory_store alice 1 2) with_page (λ r s'. IsInert r.0)
unfolding Messages.get_attachment Option.bind find str_beq lowercase
get_attachment-IsInert_example =
    get_attachment-IsInert tiered memory_store alice 1 2 with_page visible page_named
