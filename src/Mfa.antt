-- ===== src/Mfa.antt =====
-- packages/db/src/repositories/mfa.ts: the TOTP credentials and the recovery codes of users, and the
-- statements on them. A credential carries its decrypted secret: the encryption of the column is a
-- round trip of crypto.ts. `credentials` has one entry per user, its primary key. An UPDATE returns
-- whether it matched a row.
pub mod Totp
pub mod Factor
pub mod Rows
pub mod Others
pub mod Effects
pub mod Isolation
pub mod Steps
pub mod Replay
pub mod Lockout
pub mod Overlap
pub mod Recovery
pub mod Codes
pub mod Enrolment
pub mod Tests
use ai.Common.{
  ℕ, suc, ◌+◌, String, str_eq, Bool, true, false, ◌&&◌, not, Option, none, some, List, [], ◌∷◌,
  ◌++◌, map, ltb, leb, if◌then◌else◌, keep, any, count, lookup, insert, erase, string_Eq,
}

pub record TotpCredential : Type 0 where
  pub secret : List ℕ
  pub confirmed_at : Option ℕ
  pub last_step : Option ℕ
  pub failed_attempts : ℕ
  pub locked_until : Option ℕ

pub record RecoveryCode : Type 0 where
  pub user_id : String
  pub code_hash : String
  pub used_at : Option ℕ

pub record MfaStore : Type 0 where
  pub credentials : List (String × TotpCredential)
  pub recovery_codes : List RecoveryCode

abbrev pub is_null {ℓ} : {A : Type ℓ} → Option A → Bool
is_null none = true
is_null (some _) = false

unfoldable pub find_totp_credential : MfaStore → String → Option TotpCredential
find_totp_credential s user_id = lookup user_id s.credentials

abbrev pub pending_credential : List ℕ → TotpCredential
pending_credential secret = record {
  secret = secret;
  confirmed_at = none;
  last_step = none;
  failed_attempts = 0;
  locked_until = none;
}

-- The error that enrolment throws, or the store after it.
pub data Enrolled : Type 0 where
  already_enrolled : Enrolled
  stored : MfaStore → Enrolled

abbrev pub may_replace : Option TotpCredential → Bool
may_replace none = true
may_replace (some c) = is_null c.confirmed_at

unfoldable pub upsert_unconfirmed_totp : MfaStore → String → List ℕ → Enrolled
unfolding find_totp_credential
upsert_unconfirmed_totp s user_id secret =
    if may_replace (find_totp_credential s user_id)
    then stored
        (record s { credentials = insert user_id (pending_credential secret) s.credentials })
    else already_enrolled

-- `UPDATE totp_credentials SET ... WHERE user_id = ... AND ...`: the row's new value, if it matches.
abbrev pub write :
    MfaStore
    → String
    → (TotpCredential → Bool)
    → (TotpCredential → TotpCredential)
    → Option TotpCredential
    → MfaStore × Bool
write s user_id matches set none = (s, false)
write s user_id matches set (some c) =
    if matches c
    then (record s { credentials = insert user_id (set c) s.credentials }, true)
    else (s, false)

unfoldable pub confirm_totp : MfaStore → String → ℕ → ℕ → MfaStore × Bool
unfolding find_totp_credential
confirm_totp s user_id step now =
    write s user_id (λ c. is_null c.confirmed_at)
      (λ c. record c {
        confirmed_at = some now;
        last_step = some step;
        failed_attempts = 0;
        locked_until = none;
      })
      (find_totp_credential s user_id)

abbrev pub before_step : Option ℕ → ℕ → Bool
before_step none step = true
before_step (some last) step = ltb last step

abbrev pub used_at_step : ℕ → TotpCredential → TotpCredential
used_at_step step c = record c { last_step = some step; failed_attempts = 0; locked_until = none }

unfoldable pub record_totp_use : MfaStore → String → ℕ → MfaStore × Bool
unfolding find_totp_credential
record_totp_use s user_id step =
    write s user_id (λ c. before_step c.last_step step) (used_at_step step)
      (find_totp_credential s user_id)

-- Both CASE expressions read the old row.
abbrev pub failed_once : ℕ → ℕ → ℕ → TotpCredential → TotpCredential
failed_once max_attempts lock_ms now c =
    if leb max_attempts (c.failed_attempts + 1)
    then record c { failed_attempts = 0; locked_until = some (now + lock_ms) }
    else record c { failed_attempts = c.failed_attempts + 1 }

unfoldable pub record_mfa_failure : MfaStore → String → ℕ → ℕ → ℕ → MfaStore
unfolding find_totp_credential
record_mfa_failure s user_id max_attempts lock_ms now =
    (write s user_id (λ c. true) (failed_once max_attempts lock_ms now)
      (find_totp_credential s user_id)).0

abbrev pub owned_by : String → RecoveryCode → Bool
owned_by user_id r = str_eq r.user_id user_id

unfoldable pub delete_recovery_codes : String → List RecoveryCode → List RecoveryCode
delete_recovery_codes user_id rows = keep (λ r. not (owned_by user_id r)) rows

unfoldable pub clear_mfa : MfaStore → String → MfaStore
unfolding delete_recovery_codes
clear_mfa s user_id = record {
  credentials = erase user_id s.credentials;
  recovery_codes = delete_recovery_codes user_id s.recovery_codes;
}

abbrev pub new_code : String → String → RecoveryCode
new_code user_id hash = record { user_id = user_id; code_hash = hash; used_at = none }

unfoldable pub replace_recovery_codes : MfaStore → String → List String → MfaStore
unfolding delete_recovery_codes
replace_recovery_codes s user_id hashes = record s {
  recovery_codes = delete_recovery_codes user_id s.recovery_codes ++ map (new_code user_id) hashes;
}

-- The WHERE clause of the redemption.
abbrev pub is_spendable : String → String → RecoveryCode → Bool
is_spendable user_id hash r = owned_by user_id r && (str_eq r.code_hash hash && is_null r.used_at)

abbrev pub spend : String → String → ℕ → RecoveryCode → RecoveryCode
spend user_id hash now r =
    if is_spendable user_id hash r then record r { used_at = some now } else r

unfoldable pub redeem_recovery_code : MfaStore → String → String → ℕ → MfaStore × Bool
redeem_recovery_code s user_id hash now = (
  record s { recovery_codes = map (spend user_id hash now) s.recovery_codes },
  any (is_spendable user_id hash) s.recovery_codes,
)

unfoldable pub count_unused_recovery_codes : MfaStore → String → ℕ
count_unused_recovery_codes s user_id =
    count (λ r. owned_by user_id r && is_null r.used_at) s.recovery_codes
