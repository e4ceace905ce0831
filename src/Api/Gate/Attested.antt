-- ===== src/Api/Gate/Attested.antt =====
-- The attestation gate of src/api/entitlements.rs, where it is on.
use anony_mail.Base.{
  ◌≡◌, refl, sym, Bool, true, false, Option, none, some, true-false, Result, ok, err,
}
use anony_mail.Entitlements.{ClientClaims, is_attested}
use anony_mail.Api.{ApiError}
use anony_mail.Api.Gate.{client_claims, attested_only, attestation_gate}
use anony_mail.Api.Gate.Keeps.{client_claims-Keeps}
use anony_mail.Api.Handler.{AppState, Surroundings, Headers, ◌>>=◌, resume}
use anony_mail.Api.Handler.Stops.{Stops, is_err}

-- No claims, or claims that no device stands behind.
abbrev pub NotAttested : Result (Option ClientClaims) ApiError → Type 0
NotAttested (err e) = Unit
NotAttested (ok none) = Unit
NotAttested (ok (some c)) = is_attested c ≡ false

-- Whenever it is asked, the client token of the headers is none of an attested device.
abbrev pub NeverAttested : Type 0 → Surroundings → Headers → Type 0
NeverAttested Db sur h = (s : AppState Db) → NotAttested (client_claims sur h s).0

module _ {Db : Type 0} (sur : Surroundings) where
  gate_stopped :
      (b : Bool) (r : Result (Option ClientClaims) ApiError) (s s' : AppState Db)
      → b ≡ true
      → s'.db ≡ s.db
      → NotAttested r
      → (is_err (resume (attested_only sur b) (r, s')).0 ≡ true)
        × ((resume (attested_only sur b) (r, s')).1.db ≡ s.db)
  unfolding attested_only ◌>>=◌
  gate_stopped false r s s' h k n = absurd (true-false (sym h))
  gate_stopped true (err e) s s' h k n = (refl, k)
  gate_stopped true (ok none) s s' h k n = (refl, k)
  gate_stopped true (ok (some c)) s s' h k n = rw n (refl, k)

  pub attestation_gate-Stops :
      (h : Headers) (s : AppState Db)
      → sur.config.client_attestation_required ≡ true
      → NeverAttested Db sur h
      → Stops (attestation_gate sur h) s
  unfolding attestation_gate ◌>>=◌
  attestation_gate-Stops h s required never =
      let (a, b) =
        gate_stopped sur.config.client_attestation_required (client_claims sur h s).0 s
          (client_claims sur h s).1 required ((client_claims-Keeps sur h).same s) (never s) in
      record { fails = a; same = b }
