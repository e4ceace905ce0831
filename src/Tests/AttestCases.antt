-- ===== src/Tests/AttestCases.antt =====
-- The theorems on src/attest.rs at concrete inputs.
use anony_mail.Base.{suc, ◌≡◌, refl, false, [], ◌∷◌, str_beq, length, nat_eq, str_eq}
use anony_mail.Base.Assoc.{get}
use anony_mail.Base.Text.{text}
use anony_mail.Attest.{ChallengeStore, default, issue, consume}
use anony_mail.Attest.SingleUse.{issuing, consuming, challenge_run, consume_is_single_use}
use anony_mail.Attest.Flood.{issue-flood}

abbrev outstanding : ChallengeStore
outstanding = record default { issued = (text "n-1", 10) ∷ (text "n-2", 20) ∷ [] }

consume_is_single_use_example :
    (consume
      (challenge_run
        (consume outstanding (text "n-1") 30).1
        (issuing (text "n-3") 40 ∷ consuming (text "n-2") 50 ∷ []))
      (text "n-1")
      60).0
    ≡ false
unfolding str_beq
consume_is_single_use_example =
    consume_is_single_use outstanding (text "n-1") 30 60
      (issuing (text "n-3") 40 ∷ consuming (text "n-2") 50 ∷ []) (refl, (tt, tt))

issue-flood_example :
    length (issue outstanding (text "n-3") 40).issued ≡ suc (length outstanding.issued)
unfolding get str_beq
issue-flood_example = issue-flood outstanding (text "n-3") 40 (refl, (refl, tt)) refl
