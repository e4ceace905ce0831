-- ===== src/Api/Messages.antt =====
-- src/api/messages.rs: the handlers of messages, over any `Store`. A response is its headers that
-- the handler sets, with its body.
pub mod Encoding
pub mod Printable
pub mod Inert
use anony_mail.Base.{
  ℕ, ◌+◌, ◌-◌, ◌/◌, ◌%◌, Bool, true, not, ◌&&◌, ◌||◌, Option, none, some, List, [], ◌∷◌, ◌++◌, ltb,
  leb, if◌then◌else◌, ◌==◌, unwrap_or, retain, all, any, nat_eq, str_eq,
}
use anony_mail.Base.Text.{
  Str, text, is_empty, is_ascii_lowercase, is_ascii_uppercase, is_ascii_digit, to_ascii_lowercase,
  trim, split,
}
use anony_mail.Model.{Uuid, Bytes, MessageSummary, StoredMessage}
use anony_mail.Store.{Store}
use anony_mail.Api.{not_found}
use anony_mail.Api.Auth.{as_bytes}
use anony_mail.Api.Addresses.Manage.{owner_only}
use anony_mail.Api.Handler.{
  Surroundings, Headers, Handler, ◌>>=◌, ◌>>◌, return, require, some_or, reading, writing,
}

abbrev pub default_page_size : ℕ
default_page_size = 50

abbrev pub max_page_size : ℕ
max_page_size = 200

pub record ListQuery : Type 0 where
  pub limit : Option ℕ
  pub since : Option Uuid

-- `clamp(1, MAX_PAGE_SIZE)`
unfoldable pub page_size : Option ℕ → ℕ
page_size limit =
    let n = unwrap_or limit default_page_size in
    if ltb n 1 then 1 else if ltb max_page_size n then max_page_size else n

abbrev pub first_or_empty : List Str → Str
first_or_empty [] = []
first_or_empty (p ∷ ps) = p

unfoldable pub forced_octet_stream : Str → Bool
forced_octet_stream content_type =
    let essence = to_ascii_lowercase (trim (first_or_empty (split b';' content_type))) in
    essence == text "text/html"
    || essence == text "application/xhtml+xml"
    || essence == text "image/svg+xml"
    || essence == text "text/xml"
    || essence == text "application/xml"

-- `char::is_control` and `char::is_ascii`
abbrev pub is_control : ℕ → Bool
is_control c = ltb c 0x20 || leb 0x7F c && ltb c 0xA0

abbrev pub is_ascii : ℕ → Bool
is_ascii c = ltb c 0x80

unfoldable pub is_safe : ℕ → Bool
is_safe c = not (is_control c) && not (c == b'"') && not (c == b'\\') && is_ascii c

unfoldable pub safe_filename : Option Str → Str
unfolding is_safe
safe_filename name =
    let cleaned = trim (retain is_safe (unwrap_or name [])) in
    if is_empty cleaned then text "attachment" else cleaned

unfoldable pub is_attr_char : ℕ → Bool
is_attr_char b =
    is_ascii_lowercase b
    || is_ascii_uppercase b
    || is_ascii_digit b
    || b == b'!'
    || b == b'#'
    || b == b'$'
    || b == b'&'
    || b == b'+'
    || b == b'-'
    || b == b'.'
    || b == b'^'
    || b == b'_'
    || b == b'`'
    || b == b'|'
    || b == b'~'

-- `HEX[d]`
unfoldable pub upper_hex : ℕ → ℕ
upper_hex d = if ltb d 10 then b'0' + d else b'A' + (d - 10)

unfoldable pub encode_byte : ℕ → Str
unfolding is_attr_char upper_hex
encode_byte b =
    if is_attr_char b then b ∷ [] else b'%' ∷ upper_hex (b / 16) ∷ upper_hex (b % 16) ∷ []

unfoldable pub encode_bytes : Bytes → Str
encode_bytes [] = []
encode_bytes (b ∷ bs) = encode_byte b ++ encode_bytes bs

unfoldable pub rfc5987_encode : Str → Str
unfolding encode_bytes
rfc5987_encode name = encode_bytes (as_bytes name)

abbrev pub extended : Option Str → Str
extended none = []
extended (some raw) =
    if not (all is_ascii raw) then text "; filename*=UTF-8''" ++ rfc5987_encode raw else []

unfoldable pub content_disposition : Option Str → Str
content_disposition name =
    (text "attachment; filename=\"" ++ (safe_filename name ++ text "\"")) ++ extended name

pub record FileHeaders : Type 0 where
  pub content_type : Str
  pub nosniff : Bool
  pub content_disposition : Option Str

module _ (sur : Surroundings) (store : Store) where
  -- `GET /api/addresses/{address}/messages`
  unfoldable pub list : Str → ListQuery → Handler store.State (List MessageSummary)
  list raw query = do
    let address = to_ascii_lowercase raw
    mailbox ← reading (λ db. store.get_mailbox db address)
    some_or mailbox (not_found (text "mailbox not found"))
    reading (λ db. store.list_messages db address (page_size query.limit) query.since)

  -- `GET /api/addresses/{address}/messages/{id}`
  unfoldable pub get : Str → Uuid → Handler store.State StoredMessage
  get raw id = do
    found ← reading (λ db. store.get_message db (to_ascii_lowercase raw) id)
    some_or found (not_found (text "message not found"))

  -- `POST /api/addresses/{address}/messages/{id}/read`
  unfoldable pub mark_read : Str → Uuid → Handler store.State (Unit {0})
  mark_read raw id = do
    found ← writing (λ db. store.mark_seen db (to_ascii_lowercase raw) id)
    require found (not_found (text "message not found"))

  -- `DELETE /api/addresses/{address}/messages`
  unfoldable pub clear : Headers → Str → Handler store.State ℕ
  clear headers raw = do
    let address = to_ascii_lowercase raw
    owner_only sur store headers address
    writing (λ db. store.delete_all_messages db address)

  -- `DELETE /api/addresses/{address}/messages/{id}`
  unfoldable pub delete : Headers → Str → Uuid → Handler store.State (Unit {0})
  delete headers raw id = do
    let address = to_ascii_lowercase raw
    owner_only sur store headers address
    found ← writing (λ db. store.delete_message db address id)
    require found (not_found (text "message not found"))

  abbrev pub if_header_value : Str → Option Str
  if_header_value value = if sur.is_header_value value then some value else none

  -- `GET /api/addresses/{address}/messages/{id}/raw`; `show` is the text of an identifier.
  unfoldable pub get_raw : (Uuid → Str) → Str → Uuid → Handler store.State (FileHeaders × Bytes)
  get_raw show raw id = do
    found ← reading (λ db. store.get_raw_message db (to_ascii_lowercase raw) id)
    content ←
        some_or found
          (not_found (text "raw message not available (missing, or raw retention is disabled)"))
    let headers : FileHeaders = record {
      content_type = text "message/rfc822";
      nosniff = true;
      content_disposition =
          if_header_value (text "attachment; filename=\"" ++ (show id ++ text ".eml\""));
    }
    return (headers, content)

  unfoldable pub served_type : Str → Str
  served_type content_type =
      if forced_octet_stream content_type
      then text "application/octet-stream"
      else unwrap_or (if_header_value content_type) (text "application/octet-stream")

  -- `GET /api/addresses/{address}/messages/{id}/attachments/{attachment_id}`
  unfoldable pub get_attachment : Str → Uuid → Uuid → Handler store.State (FileHeaders × Bytes)
  get_attachment raw id attachment_id = do
    found ← reading (λ db. store.get_attachment db (to_ascii_lowercase raw) id attachment_id)
    att ← some_or found (not_found (text "attachment not found"))
    let headers : FileHeaders = record {
      content_type = served_type att.content_type;
      nosniff = true;
      content_disposition = if_header_value (content_disposition att.filename);
    }
    return (headers, att.content)
