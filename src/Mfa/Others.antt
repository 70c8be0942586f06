-- ===== src/Mfa/Others.antt =====
-- What each statement on one user's rows leaves of another's: packages/db/src/repositories/mfa.ts.
use ai.Common.{
  ℕ, ◌≡◌, refl, ap, ◌∙◌, String, str_eq, Bool, true, false, List, [], ◌∷◌, ◌++◌, map, arith, inl,
  inr, eq_iff, Bool-cases, keep, lookup, string_Eq, lookup-insert, lookup-erase,
}
use ai.Mfa.{
  TotpCredential, RecoveryCode, MfaStore, find_totp_credential, pending_credential, may_replace,
  upsert_unconfirmed_totp, write, confirm_totp, record_totp_use, record_mfa_failure, owned_by,
  delete_recovery_codes, clear_mfa, new_code, replace_recovery_codes, spend, redeem_recovery_code,
  failed_once,
}
use ai.Mfa.Factor.{store_of}
use ai.Mfa.Rows.{find-write_other, write-codes}

-- The rows of a user.
abbrev pub codes_of : String → MfaStore → List RecoveryCode
codes_of u s = keep (owned_by u) s.recovery_codes

abbrev pub Same : String → MfaStore → MfaStore → Type 0
Same u s t = (find_totp_credential t u ≡ find_totp_credential s u) × (codes_of u t ≡ codes_of u s)

pub then_Same : (u : String) (r s t : MfaStore) → Same u r s → Same u s t → Same u r t
then_Same u r s t p q = (q.0 ∙ p.0, q.1 ∙ p.1)

keep-append {ℓ} :
    {A : Type ℓ} (p : A → Bool) (xs ys : List A) → keep p (xs ++ ys) ≡ keep p xs ++ keep p ys
keep-append p [] ys = refl
keep-append p (x ∷ xs) ys = elim (Bool-cases (p x)) [
  | inl e ↦ rw e (ap (λ zs. x ∷ zs) (keep-append p xs ys))
  | inr e ↦ rw e (keep-append p xs ys)
]

keep-new_code :
    (u v : String) (hashes : List String)
    → str_eq v u ≡ false
    → keep (owned_by u) (map (new_code v) hashes) ≡ []
keep-new_code u v [] e = refl
keep-new_code u v (h ∷ hs) e = rw e (keep-new_code u v hs e)

append_nil {ℓ} : {A : Type ℓ} (xs : List A) → xs ++ [] ≡ xs
append_nil [] = refl
append_nil (x ∷ xs) = ap (λ ys. x ∷ ys) (append_nil xs)

-- A row of one user is not a row of another.
owned_by-not :
    (u v : String) (r : RecoveryCode)
    → str_eq v u ≡ false
    → owned_by u r ≡ true
    → owned_by v r ≡ false
owned_by-not u v r e h = ground (arith, eq_iff v u, eq_iff r.user_id u, eq_iff r.user_id v)

keep-delete_recovery_codes :
    (u v : String) (rows : List RecoveryCode)
    → str_eq v u ≡ false
    → keep (owned_by u) (delete_recovery_codes v rows) ≡ keep (owned_by u) rows
unfolding delete_recovery_codes
keep-delete_recovery_codes u v [] e = refl
keep-delete_recovery_codes u v (r ∷ rows) e =
    ground (arith, owned_by-not u v r e, keep-delete_recovery_codes u v rows e)

keep-spend :
    (u v hash : String) (now : ℕ) (rows : List RecoveryCode)
    → str_eq v u ≡ false
    → keep (owned_by u) (map (spend v hash now) rows) ≡ keep (owned_by u) rows
keep-spend u v hash now [] e = refl
keep-spend u v hash now (r ∷ rows) e =
    ground (arith, owned_by-not u v r e, keep-spend u v hash now rows e)

pub write-Same :
    (s : MfaStore) (u v : String) (matches : TotpCredential → Bool)
    (set : TotpCredential → TotpCredential)
    → str_eq v u ≡ false
    → Same u s (write s v matches set (find_totp_credential s v)).0
write-Same s u v matches set e = (
  find-write_other s v u matches set (find_totp_credential s v) e,
  ap (keep (owned_by u)) (write-codes s v matches set (find_totp_credential s v)),
)

pub record_totp_use-Same :
    (s : MfaStore) (u v : String) (k : ℕ) → str_eq v u ≡ false → Same u s (record_totp_use s v k).0
unfolding record_totp_use
record_totp_use-Same s u v k e = write-Same s u v _ _ e

pub record_mfa_failure-Same :
    (s : MfaStore) (u v : String) (m l now : ℕ)
    → str_eq v u ≡ false
    → Same u s (record_mfa_failure s v m l now)
unfolding record_mfa_failure
record_mfa_failure-Same s u v m l now e = write-Same s u v (λ c. true) (failed_once m l now) e

pub confirm_totp-Same :
    (s : MfaStore) (u v : String) (k now : ℕ)
    → str_eq v u ≡ false
    → Same u s (confirm_totp s v k now).0
unfolding confirm_totp
confirm_totp-Same s u v k now e = write-Same s u v _ _ e

pub redeem-Same :
    (s : MfaStore) (u v hash : String) (now : ℕ)
    → str_eq v u ≡ false
    → Same u s (redeem_recovery_code s v hash now).0
unfolding redeem_recovery_code find_totp_credential
redeem-Same s u v hash now e = (refl, keep-spend u v hash now s.recovery_codes e)

pub replace-Same :
    (s : MfaStore) (u v : String) (hashes : List String)
    → str_eq v u ≡ false
    → Same u s (replace_recovery_codes s v hashes)
unfolding replace_recovery_codes find_totp_credential
replace-Same s u v hashes e = (
  refl,
  rw
      (
        keep-append (owned_by u) (delete_recovery_codes v s.recovery_codes)
            (map (new_code v) hashes),
        keep-new_code u v hashes e,
        append_nil (keep (owned_by u) (delete_recovery_codes v s.recovery_codes)),
      )
      (keep-delete_recovery_codes u v s.recovery_codes e),
)

pub clear_mfa-Same : (s : MfaStore) (u v : String) → str_eq v u ≡ false → Same u s (clear_mfa s v)
unfolding clear_mfa find_totp_credential
clear_mfa-Same s u v e =
    (rw (lookup-erase v u s.credentials, e) refl, keep-delete_recovery_codes u v s.recovery_codes e)

pub upsert-Same :
    (s : MfaStore) (u v : String) (secret : List ℕ)
    → str_eq v u ≡ false
    → Same u s (store_of s (upsert_unconfirmed_totp s v secret))
unfolding upsert_unconfirmed_totp find_totp_credential
upsert-Same s u v secret e = elim (Bool-cases (may_replace (lookup v s.credentials))) [
  | inl f ↦ rw f (rw (lookup-insert v u (pending_credential secret) s.credentials, e) refl, refl)
  | inr f ↦ rw f (refl, refl)
]
