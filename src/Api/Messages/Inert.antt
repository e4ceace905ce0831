-- ===== src/Api/Messages/Inert.antt =====
-- How src/api/messages.rs serves an attachment: with headers that a browser takes as they are meant.
use anony_mail.Base.{
  ℕ, ◌≡◌, refl, sym, ap, ◌∙◌, ◌⊎◌, inl, inr, Bool, true, false, ◌||◌, Option, none, some, List, [],
  ◌∷◌, ◌++◌, arith, if◌then◌else◌, true-false, ◌==◌, ==_iff, str_beq, Bool-cases, All, ok, nat_eq,
  str_eq,
}
use anony_mail.Base.Text.{
  Str, text, trim, trim_start, trim_start_matches, trim_end_matches, is_whitespace,
  is_ascii_uppercase, split, split_step, to_ascii_lowercase, lowercase,
}
use anony_mail.Model.{Uuid, Attachment}
use anony_mail.Api.Messages.{
  content_disposition, forced_octet_stream, first_or_empty, served_type, FileHeaders,
  get_attachment,
}
use anony_mail.Store.{Store}
use anony_mail.Api.Handler.{AppState, Surroundings}
use anony_mail.Api.Handler.Ensures.{
  Ensures, then-Ensures, return-Ensures, some_or-ok, from_store-ok,
}
use anony_mail.Api.Messages.Printable.{IsPrintable, IsName, content_disposition-All}

-- The media type of a `Content-Type`: what stands before the first `;`, without the blanks around it
-- and in small letters.
abbrev pub IsMediaType : Str → Str → Type 0
IsMediaType media_type t =
    (before : Str) × (to_ascii_lowercase (trim before) ≡ media_type)
    × All (λ c. (c == b';') ≡ false) before
    × ((t ≡ before) ⊎ ((parameters : Str) × (t ≡ before ++ b';' ∷ parameters)))

-- The types of pages, images and documents in which a browser runs scripts.
abbrev pub active_types : List Str
active_types =
    text "text/html"
    ∷ text "application/xhtml+xml"
    ∷ text "image/svg+xml"
    ∷ text "text/xml"
    ∷ text "application/xml"
    ∷ []

abbrev pub IsPassive : Str → Type 0
IsPassive t =
    (media_type : Str)
    → IsMediaType media_type t
    → All (λ active. ¬ (media_type ≡ active)) active_types

step_nonempty : (c : ℕ) (ps : List Str) → ¬ (split_step b';' c ps ≡ [])
step_nonempty c [] h = ground arith
step_nonempty c (p ∷ ps) h = elim (Bool-cases (c == b';')) [
  | inl t ↦ ground (arith, (rw t at h))
  | inr f ↦ ground (arith, (rw f at h))
]

split_nonempty : (s : Str) → ¬ (split b';' s ≡ [])
unfolding split
split_nonempty [] h = ground arith
split_nonempty (c ∷ s) h = step_nonempty c (split b';' s) h

separated : (ps : List Str) → ¬ (ps ≡ []) → first_or_empty (split_step b';' b';' ps) ≡ []
separated [] h = absurd (h refl)
separated (p ∷ ps) h = refl

continued :
    (c : ℕ) (ps : List Str)
    → (c == b';') ≡ false
    → first_or_empty (split_step b';' c ps) ≡ c ∷ first_or_empty ps
continued c [] h = refl
continued c (p ∷ ps) h = rw h refl

first_piece :
    (before parameters : Str)
    → All (λ c. (c == b';') ≡ false) before
    → first_or_empty (split b';' (before ++ b';' ∷ parameters)) ≡ before
unfolding split
first_piece [] parameters h = separated (split b';' parameters) (split_nonempty parameters)
first_piece (c ∷ before) parameters h =
    continued c (split b';' (before ++ b';' ∷ parameters)) h.0
    ∙ ap (λ (s : Str). c ∷ s) (first_piece before parameters h.1)

only_piece :
    (before : Str)
    → All (λ c. (c == b';') ≡ false) before
    → first_or_empty (split b';' before) ≡ before
unfolding split
only_piece [] h = refl
only_piece (c ∷ before) h =
    continued c (split b';' before) h.0 ∙ ap (λ (s : Str). c ∷ s) (only_piece before h.1)

neither : (p q : Bool) → p || q ≡ false → (p ≡ false) × (q ≡ false)
neither p q h = (ground arith, ground arith)

differs : (m s t : Str) → s ≡ m → (s == t) ≡ false → ¬ (m ≡ t)
differs m s t e h k = true-false (sym ((==_iff s t).1 (e ∙ k)) ∙ h)

-- With the media type that the code compares at hand.
not_active :
    (m s : Str)
    → s ≡ m
    → (s == text "text/html"
        || s == text "application/xhtml+xml"
        || s == text "image/svg+xml"
        || s == text "text/xml"
        || s == text "application/xml")
      ≡ false
    → All (λ t. ¬ (m ≡ t)) active_types
not_active m s e h =
    let (h1, xml) = neither _ _ h in
    let (h2, text_xml) = neither _ _ h1 in
    let (h3, svg) = neither _ _ h2 in
    let (html, xhtml) = neither _ _ h3 in
    (
      differs m s _ e html,
      (
        differs m s _ e xhtml,
        (differs m s _ e svg, (differs m s _ e text_xml, (differs m s _ e xml, tt))),
      ),
    )

passive : (t : Str) → forced_octet_stream t ≡ false → IsPassive t
unfolding forced_octet_stream
passive t f m (before, e, h, inl k) =
    not_active m _ (ap (λ s. to_ascii_lowercase (trim s)) (rw k (only_piece before h)) ∙ e) f
passive t f m (before, e, h, inr (parameters, k)) =
    not_active m _
      (ap (λ s. to_ascii_lowercase (trim s)) (rw k (first_piece before parameters h)) ∙ e) f

octets : forced_octet_stream (text "application/octet-stream") ≡ false
unfolding forced_octet_stream split trim trim_start trim_start_matches trim_end_matches
    is_whitespace lowercase is_ascii_uppercase str_beq
octets = refl

-- A type that a browser would act on is served as one that it only stores.
served_type-IsPassive :
    (sur : Surroundings) (store : Store) (t : Str) → IsPassive (served_type sur store t)
unfolding served_type
served_type-IsPassive sur store t = elim (Bool-cases (forced_octet_stream t)) [
  | inl f ↦ rw f (passive (text "application/octet-stream") octets)
  | inr f ↦ elim (Bool-cases (sur.is_header_value t)) [
    | inl v ↦ rw (f, v) (passive t f)
    | inr v ↦ rw (f, v) (passive (text "application/octet-stream") octets)
  ]
]

-- A disposition that saves the answer as a file.
abbrev pub IsDownload : Option Str → Type 0
IsDownload disposition =
    (parameters : Str) × (disposition ≡ some (text "attachment" ++ b';' ∷ parameters))

download :
    (name : Option Str) (b : Bool)
    → b ≡ true
    → IsDownload (if b then some (content_disposition name) else none)
unfolding content_disposition
download name false h = absurd (true-false (sym h))
download name true h = (_, refl)

-- What the headers of an attachment tell a browser.
abbrev pub IsInert : FileHeaders → Type 0
IsInert headers =
    (headers.nosniff ≡ true)
    × IsPassive headers.content_type
    × IsDownload headers.content_disposition

module _ (sur : Surroundings) (store : Store) where
  -- An attachment that is served comes with `nosniff`, with a media type that is not one of HTML,
  -- XHTML, SVG and XML, and with a disposition of `attachment`, whatever its sender wrote into its
  -- type and its name; where every text of visible ASCII and blanks is a value of a header, and the names
  -- in the store are text.
  pub get_attachment-IsInert :
      (raw : Str) (id attachment_id : Uuid) (s : AppState store.State)
      → ((v : Str) → All IsPrintable v → sur.is_header_value v ≡ true)
      → ((a : Attachment)
          → store.get_attachment s.db (to_ascii_lowercase raw) id attachment_id ≡ ok (some a)
          → IsName a.filename)
      → Ensures (get_attachment sur store raw id attachment_id) s (λ r s'. IsInert r.0)
  unfolding get_attachment
  get_attachment-IsInert raw id attachment_id s documented names = then-Ensures _ _ s _ (λ found h.
      then-Ensures _ _ s _ (λ a k. return-Ensures _ _ _ (
        refl,
        served_type-IsPassive sur store a.content_type,
        download a.filename _ (
            documented (content_disposition a.filename) (
              content_disposition-All a.filename
                (names a (from_store-ok _ (some a) (h ∙ ap ok (some_or-ok found _ s a k)))))),
      )))
