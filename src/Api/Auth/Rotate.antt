-- ===== src/Api/Auth/Rotate.antt =====
-- The owner token of src/api/auth.rs after a rotation in the memory store.
use anony_mail.Base.{
  ℕ, ◌/◌, ◌%◌, ◌<◌, ◌≡◌, refl, sym, ap, ◌∙◌, ◌↔◌, Bool, true, false, Option, some, [], ◌∷◌, arith,
  if◌then◌else◌, ==_refl, All, ok, err, nat_eq, str_eq,
}
use anony_mail.Base.Text.{Str, text}
use anony_mail.Base.Assoc.{get, get-insert}
use anony_mail.Store.Memory.{Inner}
use anony_mail.Store.Memory.Mailboxes.{get_mailbox, rotate_owner_token, update_mailbox}
use anony_mail.Model.{Bytes, Mailbox}
use anony_mail.Store.Memory.Backend.{MemoryStore, memory_store}
use anony_mail.Api.{ApiError, unauthorized}
use anony_mail.Api.Auth.{
  as_bytes, char_bytes, hex, hex_digit, hash_token, bearer_token, token_matches_hash,
  authorize_owner, check_owner, check_presented, check_hash,
}
use anony_mail.Api.Auth.Compare.{constant_time_eq_exact}

-- Every element is a byte.
unfoldable pub IsByteString : Bytes → Type 0
IsByteString bs = All (λ b. b < 256) bs

digit_bound : (d : ℕ) → d < 16 → hex_digit d < 128
unfolding hex_digit
digit_bound d h = ground arith

digit_injective : (c d : ℕ) → c < 16 → d < 16 → hex_digit c ≡ hex_digit d → c ≡ d
unfolding hex_digit
digit_injective c d h k e = ground arith

char_bytes_ascii : (c : ℕ) → c < 128 → char_bytes c ≡ c ∷ []
unfolding char_bytes
char_bytes_ascii c h = ground arith

as_bytes-hex : (bs : Bytes) → IsByteString bs → as_bytes (hex bs) ≡ hex bs
unfolding as_bytes hex IsByteString
as_bytes-hex [] h = refl
as_bytes-hex (b ∷ bs) (p, h) =
    rw
      (
        char_bytes_ascii _ (digit_bound (b / 16) (omega arith)),
        char_bytes_ascii _ (digit_bound (b % 16) (omega arith)),
        as_bytes-hex bs h,
      )
      refl

pair_injective : (u v x y : ℕ) (s t : Str) → (u ∷ v ∷ s) ≡ (x ∷ y ∷ t) → (u ≡ x) × (v ≡ y) × (s ≡ t)
pair_injective u v x y s t h = ground arith

hex_injective : (as' bs : Bytes) → IsByteString as' → IsByteString bs → hex as' ≡ hex bs → as' ≡ bs
unfolding hex IsByteString
hex_injective [] [] h k e = refl
hex_injective [] (b ∷ bs) h k e = ground arith
hex_injective (a ∷ as') [] h k e = ground arith
hex_injective (a ∷ as') (b ∷ bs) h k e =
    let (u, v, t) = pair_injective _ _ _ _ (hex as') (hex bs) e in
    let q = digit_injective (a / 16) (b / 16) (omega arith) (omega arith) u in
    let r = digit_injective (a % 16) (b % 16) (omega arith) (omega arith) v in
    let ab : a ≡ b = omega arith in λ i. ab i ∷ hex_injective as' bs h.1 k.1 t i

get_mailbox-rotate_owner_token :
    (inner : Inner) (a h : Str) (mb : Mailbox)
    → get inner.mailboxes a ≡ some mb
    → get_mailbox (rotate_owner_token inner a h).1 a
      ≡ some (record mb { owner_token_hash = some h })
unfolding get_mailbox rotate_owner_token update_mailbox
get_mailbox-rotate_owner_token inner a h mb m =
    rw (m, get-insert inner.mailboxes a a (record mb { owner_token_hash = some h }), ==_refl a) refl

accepted :
    (b : Bool) (mb : Mailbox) (e : ApiError) → ((if b then ok mb else err e) ≡ ok mb) ↔ (b ≡ true)
accepted true mb e = (λ h. refl, λ h. refl)
accepted false mb e = (λ h. ground arith, λ h. ground arith)

module _ (digest : Bytes → Bytes) where
  token_matches_hash_exact :
      (u t : Str)
      → IsByteString (digest (as_bytes u))
      → IsByteString (digest (as_bytes t))
      → (token_matches_hash digest u (hash_token digest t) ≡ true)
        ↔ (digest (as_bytes u) ≡ digest (as_bytes t))
  unfolding token_matches_hash hash_token
  token_matches_hash_exact u t h k =
      let c =
        constant_time_eq_exact (as_bytes (hash_token digest u)) (as_bytes (hash_token digest t)) in
      (
        λ e. hex_injective _ _ h k (sym (as_bytes-hex _ h) ∙ c.0 e ∙ as_bytes-hex _ k),
        λ e. c.1 (ap (λ d. as_bytes (hex d)) e),
      )

  -- Once the memory store has rotated the owner token of a mailbox that it holds to `t`, a request
  -- that carries the bearer token `u` is authorised, with the rotated mailbox, exactly when the
  -- digests of the two tokens agree, where the digests are byte strings. So the new token works
  -- at once, and the old one only on a collision.
  pub authorize_owner-rotate_owner_token :
      (s : MemoryStore) (a t u : Str) (mb : Mailbox) (authorization : Option Str)
      → get s.inner.mailboxes a ≡ some mb
      → bearer_token authorization ≡ some u
      → IsByteString (digest (as_bytes u))
      → IsByteString (digest (as_bytes t))
      → (authorize_owner digest memory_store
            (memory_store.rotate_owner_token s a (hash_token digest t)).1
            a
            authorization
          ≡ ok (record mb { owner_token_hash = some (hash_token digest t) }))
        ↔ (digest (as_bytes u) ≡ digest (as_bytes t))
  unfolding authorize_owner check_owner check_presented check_hash
  authorize_owner-rotate_owner_token s a t u mb authorization m p h k =
      rw (get_mailbox-rotate_owner_token s.inner a (hash_token digest t) mb m, p)
        (let q = token_matches_hash_exact u t h k in
          let r =
            accepted (token_matches_hash digest u (hash_token digest t))
              (record mb { owner_token_hash = some (hash_token digest t) })
              (unauthorized (text "invalid owner token")) in
          (λ e. q.0 (r.0 e), λ e. r.1 (q.1 e)))
