-- ===== src/SingleUse/Tests.antt =====
-- A pairing code, and a schedule of two requests on one reset token.
use ai.Common.{ℕ, ◌≤◌, ◌≡◌, refl, String, none, some, List, [], ◌∷◌, arith}
use ai.SingleUse.{consumed, refused, passed}
use ai.SingleUse.Resets.{
  Move, creates, reads, writes, moves, no_tokens, times_won, outstanding, moves-once,
}
use ai.SingleUse.Pairing.{
  PairingCode, select_code, redeem_pairing_code, redeem_overlapping, redeem_pairing_code_cases,
}

-- Both requests read the token before either writes.
abbrev schedule : List Move
schedule = creates "u" "h" 0 100 ∷ reads "h" 10 ∷ reads "h" 11 ∷ writes 0 12 ∷ writes 1 13 ∷ []

moves-once_example :
    ((id : ℕ) → times_won id (moves no_tokens schedule) ≤ 1)
    × ((user_id : String) → outstanding user_id (moves no_tokens schedule) ≤ 1)
moves-once_example = moves-once schedule

abbrev code_row : PairingCode
code_row = record { code = "c"; org_id = "o"; user_id = "u"; expires_at = 900; consumed_at = none }

code_row-selected : select_code "c" (code_row ∷ []) ≡ some code_row
unfolding select_code
code_row-selected = refl

redeem_pairing_code_cases_example :
    ((redeem_pairing_code (code_row ∷ []) "c" 5).1
      ≡ passed (record { user_id = "u"; org_id = "o" }))
    × ((redeem_pairing_code (redeem_pairing_code (code_row ∷ []) "c" 5).0 "c" 6).1
        ≡ refused consumed)
    × (redeem_overlapping (code_row ∷ []) "c" 5 6 ≡ (
      passed (record { user_id = "u"; org_id = "o" }),
      passed (record { user_id = "u"; org_id = "o" }),
    ))
redeem_pairing_code_cases_example =
    redeem_pairing_code_cases (code_row ∷ []) "c" code_row 5 6 code_row-selected refl (omega arith)
      (omega arith)
