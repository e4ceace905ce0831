-- ===== src/Api/Addresses/Chosen.antt =====
-- The domain and the local part that a creation of src/api/addresses.rs settles on, over the memory
-- store.
use anony_mail.Base.{
  ℕ, ◌≡◌, refl, sym, ◌⊎◌, inl, inr, Bool, true, false, not, Option, none, some, List, [], ◌∷◌,
  arith, if◌then◌else◌, ==_refl, Option-cases, contains, ok, err, nat_eq, str_eq,
}
use mathlib.Core.Path.{subst}
use anony_mail.Base.Text.{Str, text, to_ascii_lowercase, trim}
use anony_mail.Config.{Config, TierPolicy, is_reserved_local_part}
use anony_mail.Store.Memory.Backend.{MemoryStore, memory_store}
use anony_mail.Api.{ApiError, pro_required}
use anony_mail.Api.Addresses.{
  is_valid_local_part, position, chosen_local, allows, custom_domain, named_domain, first_domain,
  chosen_domain, allows_domain,
}
use anony_mail.Api.Auth.Holder.{HoldsVerified, authorize_mailbox_on_custom_domain-HoldsVerified}
use anony_mail.Api.Domains.{authorize_mailbox_on_custom_domain}
use anony_mail.Api.Handler.{AppState, Surroundings, Headers, require, asking}
use anony_mail.Api.Handler.Keeps.{require-Keeps}
use anony_mail.Api.Handler.Ensures.{Ensures, then-Ensures, return-Ensures}

local_tests :
    (valid reserved allowed : Bool) (l : Str) (o : Option Str) (e1 e2 e3 : ApiError)
    → (if not valid
        then err e1
        else if reserved
        then err e2
        else if not allowed
        then err e3
        else ok (some l))
      ≡ ok o
    → (o ≡ some l) × (valid ≡ true) × (reserved ≡ false)
local_tests false r c l o e1 e2 e3 h = ground arith
local_tests true true c l o e1 e2 e3 h = ground arith
local_tests true false false l o e1 e2 e3 h = ground arith
local_tests true false true l o e1 e2 e3 h = (ground arith, refl, refl)

-- The local part that a request names is valid and not reserved.
abbrev pub LocalOf : Config → Str → Str → Type 0
LocalOf config raw local =
    (local ≡ to_ascii_lowercase (trim raw))
    × (is_valid_local_part local ≡ true)
    × (is_reserved_local_part config local ≡ false)

pub chosen_local-ok :
    (config : Config) (policy : Option TierPolicy) (raw local : Str)
    → chosen_local config policy (some raw) ≡ ok (some local)
    → LocalOf config raw local
unfolding chosen_local
chosen_local-ok config policy raw local h =
    let l = to_ascii_lowercase (trim raw) in
    let (some_l, valid, free) =
      local_tests (is_valid_local_part l) (is_reserved_local_part config l)
        (allows policy (λ p. p.custom_local_parts)) l (some local) _ _ _ h in
    let e : l ≡ local = ground arith in subst (LocalOf config raw) e (refl, valid, free)

pub chosen_local-some :
    (config : Config) (policy : Option TierPolicy) (raw : Str)
    → ¬ (chosen_local config policy (some raw) ≡ ok none)
unfolding chosen_local
chosen_local-some config policy raw h =
    let l = to_ascii_lowercase (trim raw) in
    let (some_l, valid, free) =
      local_tests (is_valid_local_part l) (is_reserved_local_part config l)
        (allows policy (λ p. p.custom_local_parts)) l none _ _ _ h in
    ground arith

position-contains :
    (xs : List Str) (d : Str) (i : ℕ) → position xs d ≡ some i → contains xs d ≡ true
unfolding position contains
position-contains [] d i h = ground arith
position-contains (x ∷ xs) d i h = elim (Option-cases (position xs d)) [
  | inl n ↦ ground arith
  | inr (j, e) ↦ ground (arith, position-contains xs d j e)
]

contains_head : (d : Str) (ds : List Str) → contains (d ∷ ds) d ≡ true
unfolding contains
contains_head d ds = rw (==_refl d) refl

module _ (sur : Surroundings) where
  -- The domain of a new mailbox: a configured one, or, where custom domains are on, one whose claim
  -- is verified and whose claim token the `Authorization` header presents.
  abbrev pub IsUsable : Headers → MemoryStore → Str → Type 0
  IsUsable h db d =
      (contains sur.config.domains d ≡ true)
      ⊎ ((sur.config.custom_domains_enabled ≡ true)
          × HoldsVerified sur.digest memory_store db d h.authorization)

  -- A usable domain, and the store as it was.
  abbrev pub Usable : Headers → MemoryStore → Str → AppState MemoryStore → Type 0
  Usable h db d s = (s.db ≡ db) × IsUsable h db d

  custom_domain-Usable :
      (h : Headers) (policy : Option TierPolicy) (d : Str) (b : Bool) (s : AppState MemoryStore)
      → sur.config.custom_domains_enabled ≡ b
      → Ensures (custom_domain sur memory_store h policy d b) s (Usable h s.db)
  unfolding custom_domain
  custom_domain-Usable h policy d false s on = record { holds = tt }
  custom_domain-Usable h policy d true s on =
      let e = pro_required (text "custom domains require a higher tier") in
      let m = require {Db = MemoryStore} (allows policy (λ p. p.custom_domains)) e in
      let same : (m s).1.db ≡ s.db = (require-Keeps _ e).same s in
      then-Ensures m _ s _ (λ u r.
        then-Ensures
          (asking
            (λ db. authorize_mailbox_on_custom_domain sur.digest memory_store db d h.authorization))
          _ (m s).1 _
          (λ v q. return-Ensures d _ _ (
            same,
            inr (
              on,
              subst (λ db. HoldsVerified sur.digest memory_store db d h.authorization) same
                  (authorize_mailbox_on_custom_domain-HoldsVerified sur.digest memory_store
                    (m s).1.db d h.authorization q),
            ),
          )))

  named_domain-Usable :
      (h : Headers) (policy : Option TierPolicy) (d : Str) (o : Option ℕ) (s : AppState MemoryStore)
      → position sur.config.domains d ≡ o
      → Ensures (named_domain sur memory_store h policy d o) s (Usable h s.db)
  unfolding named_domain
  named_domain-Usable h policy d none s p =
      custom_domain-Usable h policy d sur.config.custom_domains_enabled s refl
  named_domain-Usable h policy d (some i) s p =
      then-Ensures (require (allows_domain policy i) _) _ s _ (λ u r.
        return-Ensures d _ _
          ((require-Keeps _ _).same s, inl (position-contains sur.config.domains d i p)))

  first_domain-Usable :
      (h : Headers) (ds : List Str) (s : AppState MemoryStore)
      → sur.config.domains ≡ ds
      → Ensures (first_domain sur memory_store ds) s (Usable h s.db)
  unfolding contains
  first_domain-Usable h [] s e = record { holds = tt }
  first_domain-Usable h (d ∷ ds) s e =
      return-Ensures d s _
        (refl, inl (subst (λ xs. contains xs d ≡ true) (sym e) (contains_head d ds)))

  pub chosen_domain-Usable :
      (h : Headers) (policy : Option TierPolicy) (o : Option Str) (s : AppState MemoryStore)
      → Ensures (chosen_domain sur memory_store h policy o) s (Usable h s.db)
  unfolding chosen_domain
  chosen_domain-Usable h policy none s = first_domain-Usable h sur.config.domains s refl
  chosen_domain-Usable h policy (some raw) s =
      named_domain-Usable h policy (to_ascii_lowercase (trim raw)) _ s refl
