-- ===== src/Mfa/Rows.antt =====
-- What a statement leaves in the row of each user: packages/db/src/repositories/mfa.ts.
use ai.Common.{
  ℕ, ◌≡◌, refl, String, str_eq, Bool, true, false, Option, none, some, List, eq_refl, inl, inr,
  Bool-cases, if◌then◌else◌, string_Eq, lookup-insert,
}
use ai.Mfa.{
  TotpCredential, MfaStore, find_totp_credential, write, record_totp_use, record_mfa_failure,
  redeem_recovery_code, replace_recovery_codes, failed_once, before_step, used_at_step,
}

-- The row that an UPDATE finds, afterwards.
abbrev pub written :
    (TotpCredential → Bool)
    → (TotpCredential → TotpCredential)
    → Option TotpCredential
    → Option TotpCredential
written matches set none = none
written matches set (some c) = if matches c then some (set c) else some c

pub find-write :
    (s : MfaStore) (u : String) (matches : TotpCredential → Bool)
    (set : TotpCredential → TotpCredential) (o : Option TotpCredential)
    → find_totp_credential s u ≡ o
    → find_totp_credential (write s u matches set o).0 u ≡ written matches set o
unfolding find_totp_credential
find-write s u matches set none h = h
find-write s u matches set (some c) h = elim (Bool-cases (matches c)) [
  | inl e ↦ rw e (rw (lookup-insert u u (set c) s.credentials, eq_refl u) refl)
  | inr e ↦ rw e h
]

pub find-write_other :
    (s : MfaStore) (u v : String) (matches : TotpCredential → Bool)
    (set : TotpCredential → TotpCredential) (o : Option TotpCredential)
    → str_eq u v ≡ false
    → find_totp_credential (write s u matches set o).0 v ≡ find_totp_credential s v
unfolding find_totp_credential
find-write_other s u v matches set none h = refl
find-write_other s u v matches set (some c) h = elim (Bool-cases (matches c)) [
  | inl e ↦ rw e (rw (lookup-insert u v (set c) s.credentials, h) refl)
  | inr e ↦ rw e refl
]

-- Only the credentials change.
pub write-codes :
    (s : MfaStore) (u : String) (matches : TotpCredential → Bool)
    (set : TotpCredential → TotpCredential) (o : Option TotpCredential)
    → (write s u matches set o).0.recovery_codes ≡ s.recovery_codes
write-codes s u matches set none = refl
write-codes s u matches set (some c) = elim (Bool-cases (matches c)) [
  | inl e ↦ rw e refl
  | inr e ↦ rw e refl
]

-- An UPDATE that matched returns its row.
pub write-matches :
    (s : MfaStore) (u : String) (matches : TotpCredential → Bool)
    (set : TotpCredential → TotpCredential) (c : TotpCredential)
    → (write s u matches set (some c)).1 ≡ matches c
write-matches s u matches set c = elim (Bool-cases (matches c)) [
  | inl e ↦ rw e refl
  | inr e ↦ rw e refl
]

pub find-record_mfa_failure :
    (s : MfaStore) (u : String) (max_attempts lock_ms now : ℕ)
    → find_totp_credential (record_mfa_failure s u max_attempts lock_ms now) u
      ≡ written (λ c. true) (failed_once max_attempts lock_ms now) (find_totp_credential s u)
unfolding record_mfa_failure
find-record_mfa_failure s u max_attempts lock_ms now =
    find-write s u (λ c. true) (failed_once max_attempts lock_ms now) (find_totp_credential s u)
      refl

pub find-record_totp_use :
    (s : MfaStore) (u : String) (step : ℕ)
    → find_totp_credential (record_totp_use s u step).0 u
      ≡ written (λ c. before_step c.last_step step) (used_at_step step) (find_totp_credential s u)
unfolding record_totp_use
find-record_totp_use s u step =
    find-write s u (λ c. before_step c.last_step step) (used_at_step step)
      (find_totp_credential s u) refl

-- The statement's answer on a row, as a pair, for what reads both.
pub record_totp_use-row :
    (s : MfaStore) (u : String) (step : ℕ) (c : TotpCredential)
    → find_totp_credential s u ≡ some c
    → (record_totp_use s u step).1 ≡ before_step c.last_step step
unfolding record_totp_use
record_totp_use-row s u step c h =
    rw h (write-matches s u (λ c. before_step c.last_step step) (used_at_step step) c)

pub find-redeem_recovery_code :
    (s : MfaStore) (u v hash : String) (now : ℕ)
    → find_totp_credential (redeem_recovery_code s u hash now).0 v ≡ find_totp_credential s v
unfolding redeem_recovery_code find_totp_credential
find-redeem_recovery_code s u v hash now = refl

pub find-replace_recovery_codes :
    (s : MfaStore) (u v : String) (hashes : List String)
    → find_totp_credential (replace_recovery_codes s u hashes) v ≡ find_totp_credential s v
unfolding replace_recovery_codes find_totp_credential
find-replace_recovery_codes s u v hashes = refl
