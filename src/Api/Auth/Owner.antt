-- ===== src/Api/Auth/Owner.antt =====
-- Whose token `authorize_owner` of src/api/auth.rs lets through.
use anony_mail.Base.{◌≡◌, sym, ap, Option, none, some, arith, ok, nat_eq, str_eq}
use mathlib.Core.Path.{subst}
use anony_mail.Base.Text.{Str}
use anony_mail.Base.Assoc.{get}
use anony_mail.Model.{Bytes, Mailbox}
use anony_mail.Store.Memory.Backend.{MemoryStore, memory_store}
use anony_mail.Store.Memory.Mailboxes.{get_mailbox}
use anony_mail.Api.Auth.{
  authorize_owner, check_owner, check_presented, check_hash, bearer_token, hash_token,
  token_matches_hash, as_bytes,
}
use anony_mail.Api.Auth.Compare.{constant_time_eq_exact}

module _ (digest : Bytes → Bytes) where
  check_hash-ok :
      (mb m : Mailbox) (p : Str) (h : Option Str) → check_hash digest m p h ≡ ok mb → m ≡ mb
  unfolding check_hash
  check_hash-ok mb m p none e = ground arith
  check_hash-ok mb m p (some want) e = ground arith

  check_presented-ok :
      (mb m : Mailbox) (p : Option Str) → check_presented digest m p ≡ ok mb → m ≡ mb
  unfolding check_presented
  check_presented-ok mb m none e = ground arith
  check_presented-ok mb m (some p) e = check_hash-ok mb m p m.owner_token_hash e

  check_owner-ok :
      (mb : Mailbox) (authorization : Option Str) (o : Option Mailbox)
      → check_owner digest authorization (ok o) ≡ ok mb
      → o ≡ some mb
  unfolding check_owner
  check_owner-ok mb authorization none e = ground arith
  check_owner-ok mb authorization (some m) e =
      ap some (check_presented-ok mb m (bearer_token authorization) e)

  -- An authorised request is answered with the mailbox as the memory store has it.
  pub authorize_owner-ok :
      (s : MemoryStore) (a : Str) (authorization : Option Str) (mb : Mailbox)
      → authorize_owner digest memory_store s a authorization ≡ ok mb
      → get s.inner.mailboxes a ≡ some mb
  unfolding authorize_owner get_mailbox
  authorize_owner-ok s a authorization mb e =
      check_owner-ok mb authorization (get s.inner.mailboxes a) e

  check_hash_own :
      (mb : Mailbox) (t : Str) → check_hash digest mb t (some (hash_token digest t)) ≡ ok mb
  unfolding check_hash token_matches_hash
  check_hash_own mb t =
      rw
        ((constant_time_eq_exact (as_bytes (hash_token digest t))
            (as_bytes (hash_token digest t))).1
          (λ i. as_bytes (hash_token digest t)))
        (λ i. ok mb)

  -- A mailbox that the memory store has under the hash of a token is let through with the token.
  pub authorize_owner_known :
      (s : MemoryStore) (a t : Str) (authorization : Option Str) (mb : Mailbox)
      → get s.inner.mailboxes a ≡ some mb
      → mb.owner_token_hash ≡ some (hash_token digest t)
      → bearer_token authorization ≡ some t
      → authorize_owner digest memory_store s a authorization ≡ ok mb
  unfolding authorize_owner get_mailbox check_owner check_presented
  authorize_owner_known s a t authorization mb g o b =
      rw (g, b) (subst (λ h. check_hash digest mb t h ≡ ok mb) (sym o) (check_hash_own mb t))
