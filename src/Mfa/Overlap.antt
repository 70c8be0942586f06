-- ===== src/Mfa/Overlap.antt =====
-- Attempts that overlap: what the unlocked read of consumeSecondFactor of apps/ingest/src/routes/mfa.ts admits.
use ai.Common.{
  ℕ, suc, ◌+◌, ◌≤◌, ◌<◌, ◌≡◌, refl, ap, String, true, false, none, some, List, [], ◌∷◌, any, All,
  All-imp, length,
}
use ai.Mfa.{
  TotpCredential, MfaStore, is_null, find_totp_credential, failed_once, is_spendable,
  record_mfa_failure, redeem_recovery_code,
}
use ai.Mfa.Totp.{verify_totp}
use ai.Mfa.Factor.{invalid, consume_second_factor, mfa_max_attempts, mfa_lock_ms}
use ai.Mfa.Rows.{write-codes}
use ai.Mfa.Lockout.{tally, wrong_guesses, wrong_guesses-bounded}
use ai.Mfa.Recovery.{spend-Spent}

module _ (hmac_sha1 : List ℕ → List ℕ → List ℕ) (hash_token : List ℕ → String) (u : String)
    (seen : TotpCredential) where
  -- The codes that are judged wrong, of attempts that had all read the row `seen` before any of them wrote.
  abbrev pub overlapping_guesses : MfaStore → List (ℕ × List ℕ) → ℕ
  overlapping_guesses s [] = 0
  overlapping_guesses s ((now, code) ∷ gs) =
      let p = consume_second_factor hmac_sha1 hash_token (some seen) s u code now in
      tally p.1 (overlapping_guesses p.0 gs)

  -- The code is neither the authenticator's nor a recovery code that is left.
  abbrev pub Wrong : MfaStore → ℕ × List ℕ → Type 0
  Wrong s g =
      (verify_totp hmac_sha1 seen.secret g.1 g.0 1 ≡ none)
      × (any (is_spendable u (hash_token g.1)) s.recovery_codes ≡ false)

  consume_second_factor-Wrong :
      (s : MfaStore) (code : List ℕ) (now : ℕ)
      → is_null seen.confirmed_at ≡ false
      → seen.locked_until ≡ none
      → Wrong s (now, code)
      → consume_second_factor hmac_sha1 hash_token (some seen) s u code now ≡ (
        record_mfa_failure
            (redeem_recovery_code s u (hash_token code) now).0
            u
            mfa_max_attempts
            mfa_lock_ms
            now,
        invalid,
      )
  unfolding consume_second_factor redeem_recovery_code
  consume_second_factor-Wrong s code now n l w = rw (n, l, w.0, w.1) refl

  record_mfa_failure-Wrong :
      (s : MfaStore) (code : List ℕ) (now : ℕ) (g : ℕ × List ℕ)
      → Wrong s g
      → Wrong
          (record_mfa_failure
            (redeem_recovery_code s u (hash_token code) now).0
            u
            mfa_max_attempts
            mfa_lock_ms
            now)
          g
  unfolding record_mfa_failure redeem_recovery_code
  record_mfa_failure-Wrong s code now g w = (
    w.0,
    rw
        (write-codes (redeem_recovery_code s u (hash_token code) now).0 u (λ c. true)
          (failed_once mfa_max_attempts mfa_lock_ms now)
          (find_totp_credential (redeem_recovery_code s u (hash_token code) now).0 u))
        (spend-Spent u (hash_token g.1) u (hash_token code) now s.recovery_codes w.1),
  )

  -- The lock bounds nothing where attempts overlap: wrong codes whose requests had all read a row without
  -- a lock are all judged, however many there are.
  overlapping_guesses-length :
      (s : MfaStore) (gs : List (ℕ × List ℕ))
      → is_null seen.confirmed_at ≡ false
      → seen.locked_until ≡ none
      → All (Wrong s) gs
      → overlapping_guesses s gs ≡ length gs
  overlapping_guesses-length s [] n l w = refl
  overlapping_guesses-length s ((now, code) ∷ gs) n l w =
      rw (consume_second_factor-Wrong s code now n l w.0) (
        ap suc (
          overlapping_guesses-length
            (record_mfa_failure (redeem_recovery_code s u (hash_token code) now).0 u
              mfa_max_attempts mfa_lock_ms now)
            gs n l (All-imp _ _ gs (record_mfa_failure-Wrong s code now) w.1)))

-- Attempts on a user's second factor within one lock period, with any codes, are judged wrong at most ten
-- times before one is accepted, if they are handled one after another, each reading the row after the one
-- before it has written. Of attempts that had all read the row before any of them wrote, as the unlocked
-- read allows, every one with a wrong code is judged, however many they are.
pub guesses_cases :
    (hmac_sha1 : List ℕ → List ℕ → List ℕ) (hash_token : List ℕ → String) (u : String)
    (s : MfaStore) (start : ℕ) (gs : List (ℕ × List ℕ)) (seen : TotpCredential)
    (overlapping : List (ℕ × List ℕ))
    → All (λ g. (start ≤ g.0) × (g.0 < start + mfa_lock_ms)) gs
    → is_null seen.confirmed_at ≡ false
    → seen.locked_until ≡ none
    → All (Wrong hmac_sha1 hash_token u seen s) overlapping
    → (wrong_guesses hmac_sha1 hash_token u s gs ≤ mfa_max_attempts)
      × (overlapping_guesses hmac_sha1 hash_token u seen s overlapping ≡ length overlapping)
guesses_cases hmac_sha1 hash_token u s start gs seen overlapping within n l wrong = (
  wrong_guesses-bounded hmac_sha1 hash_token u s start gs within,
  overlapping_guesses-length hmac_sha1 hash_token u seen s overlapping n l wrong,
)
