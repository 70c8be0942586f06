-- ===== src/Mfa/Tests.antt =====
-- A user with a confirmed credential and two recovery codes, and another without.
use ai.Common.{
  Option, none, ℕ, ◌+◌, ◌≤◌, ◌≡◌, ◌⊎◌, refl, String, false, some, List, [], ◌∷◌, ◌++◌, arith,
  lookup, insert,
}
use ai.Mfa.{
  TotpCredential, MfaStore, new_code, find_totp_credential, redeem_recovery_code,
  upsert_unconfirmed_totp, already_enrolled, record_totp_use,
}
use ai.Mfa.Totp.{totp_code, totp_step, verify_totp, hotp}
use ai.Mfa.Factor.{Request, enroll, verify, mfa_max_attempts, consume_second_factor, handle}
use ai.Mfa.Others.{Same}
use ai.Mfa.Isolation.{handle-Same}
use ai.Mfa.Steps.{Ascends, accepted_step}
use ai.Mfa.Replay.{accepted_steps, accepted_steps-Ascends}
use ai.Mfa.Lockout.{wrong_guesses}
use ai.Mfa.Recovery.{handle_all, redeemed_once}
use ai.Mfa.Codes.{verify_totp-window, verify_totp-totp_code}
use ai.Mfa.Overlap.{Wrong, overlapping_guesses, guesses_cases}
use ai.Mfa.Enrolment.{Pending, confirmed, upsert_unconfirmed_totp_cases}

abbrev mac : List ℕ → List ℕ → List ℕ
mac secret counter = secret ++ counter

abbrev digest : List ℕ → String
digest code = "digest"

abbrev seed : List ℕ
seed = 3 ∷ 14 ∷ 15 ∷ 92 ∷ 65 ∷ 35 ∷ 89 ∷ 79 ∷ 32 ∷ 38 ∷ []

abbrev guarded : MfaStore
guarded = record {
  credentials = ("u", confirmed seed 1 5) ∷ [];
  recovery_codes = new_code "u" "digest" ∷ new_code "u" "other" ∷ [];
}

-- What every request read before any of them wrote.
abbrev row : Option TotpCredential
row = some (confirmed seed 1 5)

abbrev shown : List ℕ
shown = totp_code mac seed 120000

abbrev requests : List Request
requests =
    record { user_id = "u"; now = 120000; seen = row; action = verify shown }
    ∷ record { user_id = "u"; now = 120500; seen = row; action = verify shown }
    ∷ record { user_id = "w"; now = 120600; seen = none; action = enroll seed }
    ∷ []

-- The code is accepted once; presented again it is a wrong code.
accepted_once : accepted_steps mac digest guarded "u" requests ≡ 4 ∷ []
unfolding accepted_step consume_second_factor lookup verify_totp totp_code record_totp_use handle
    insert
accepted_once = refl

guarded-row : find_totp_credential guarded "u" ≡ some (confirmed seed 1 5)
unfolding find_totp_credential lookup
guarded-row = refl

accepted_steps-Ascends_example : Ascends (some 1) (accepted_steps mac digest guarded "u" requests)
accepted_steps-Ascends_example =
    accepted_steps-Ascends mac digest "u" requests guarded (confirmed seed 1 5) guarded-row refl
      (refl, (refl, (refl, tt)))

abbrev guesses : List (ℕ × List ℕ)
guesses = (120000, 49 ∷ []) ∷ (120001, 50 ∷ []) ∷ []

handle-Same_example : Same "w" guarded (
    handle mac digest guarded
      (record { user_id = "u"; now = 120000; seen = row; action = verify shown }))
handle-Same_example =
    handle-Same mac digest "w" guarded
      (record { user_id = "u"; now = 120000; seen = row; action = verify shown }) refl

redeemed_once_example :
    (redeem_recovery_code
      (handle_all mac digest (redeem_recovery_code guarded "u" "digest" 7).0 requests)
      "u"
      "digest"
      9).1
    ≡ false
redeemed_once_example =
    redeemed_once mac digest "u" "digest" 7 9 guarded requests (refl, (refl, (refl, tt)))

shown-verified : verify_totp mac seed shown 120000 1 ≡ some 4
unfolding verify_totp totp_code
shown-verified = refl

verify_totp-window_example :
    (hotp mac seed 4 ≡ shown)
    × (totp_step 120000 ≤ 4 + 1)
    × (1 ≤ totp_step 120000 → 4 ≤ totp_step 120000 + 1)
verify_totp-window_example = verify_totp-window mac seed shown 120000 1 4 shown-verified

steps : (totp_step 120000 ≡ 4) × (totp_step 150000 ≡ 5)
unfolding totp_step
steps = (refl, refl)

verify_totp-totp_code_example :
    (k : ℕ) × ((verify_totp mac seed (totp_code mac seed 120000) 150000 1 ≡ some k)
      × (k ≤ totp_step 120000)
      × (hotp mac seed k ≡ totp_code mac seed 120000))
verify_totp-totp_code_example =
    verify_totp-totp_code mac seed 150000 120000 1 (omega (arith, steps)) (omega (arith, steps))
      (omega (arith, steps))

upsert_unconfirmed_totp_cases_example :
    ((c : TotpCredential) × ((at : ℕ) × ((find_totp_credential guarded "u" ≡ some c)
          × (c.confirmed_at ≡ some at)
          × (upsert_unconfirmed_totp guarded "u" seed ≡ already_enrolled))))
    ⊎ (((find_totp_credential guarded "u" ≡ none)
          ⊎ ((c : TotpCredential) × ((find_totp_credential guarded "u" ≡ some c)
                × (c.confirmed_at ≡ none))))
        × Pending mac digest guarded "u" seed)
upsert_unconfirmed_totp_cases_example = upsert_unconfirmed_totp_cases mac digest guarded "u" seed

-- Eleven wrong codes, of requests that had all read the same row.
abbrev eleven : List (ℕ × List ℕ)
eleven =
    (1, [])
    ∷ (1, [])
    ∷ (1, [])
    ∷ (1, [])
    ∷ (1, [])
    ∷ (1, [])
    ∷ (1, [])
    ∷ (1, [])
    ∷ (1, [])
    ∷ (1, [])
    ∷ (1, [])
    ∷ []

abbrev constant : List ℕ → String
constant code = "none"

wrong : Wrong mac constant "u" (confirmed seed 1 5) guarded (1, [])
unfolding verify_totp
wrong = (refl, refl)

guesses_cases_example :
    (wrong_guesses mac constant "u" guarded guesses ≤ mfa_max_attempts)
    × (overlapping_guesses mac constant "u" (confirmed seed 1 5) guarded eleven ≡ 11)
guesses_cases_example =
    guesses_cases mac constant "u" guarded 120000 guesses (confirmed seed 1 5) eleven
      ((omega arith, omega arith), ((omega arith, omega arith), tt)) refl refl
      (
        wrong,
        (
          wrong,
          (wrong, (wrong, (wrong, (wrong, (wrong, (wrong, (wrong, (wrong, (wrong, tt))))))))),
        ),
      )
