-- ===== src/Mfa/Steps.antt =====
-- The steps that the second factor of apps/ingest/src/routes/mfa.ts accepts, and the step that the row of the
-- user keeps.
use ai.Common.{
  ℕ, ◌≡◌, refl, sym, subst, String, Bool, true, false, Option, none, some, List, [], ◌∷◌, ◌++◌, inl,
  inr, Bool-cases, leb, ◌+◌, ◌<◌, ltb→lt,
}
use ai.Mfa.{
  TotpCredential, MfaStore, is_null, find_totp_credential, record_totp_use, record_mfa_failure,
  redeem_recovery_code, before_step, used_at_step, failed_once,
}
use ai.Mfa.Totp.{verify_totp}
use ai.Mfa.Factor.{
  FactorOutcome, ok, not_enrolled, invalid, locked, live_lock, settle_factor, spend_factor,
  admitted, consume_second_factor, mfa_max_attempts, mfa_lock_ms,
}
use ai.Mfa.Rows.{
  written, find-record_mfa_failure, find-record_totp_use, record_totp_use-row,
  find-redeem_recovery_code,
}

abbrev pub Beyond : Option ℕ → ℕ → Type 0
Beyond none k = Unit
Beyond (some last) k = last < k

-- Each step of a list is beyond the one before it, the first one is beyond `last`.
abbrev pub Ascends : Option ℕ → List ℕ → Type 0
Ascends last [] = Unit
Ascends last (k ∷ ks) = Beyond last k × Ascends (some k) ks

before_step-Beyond : (last : Option ℕ) (k : ℕ) → before_step last k ≡ true → Beyond last k
before_step-Beyond none k h = tt
before_step-Beyond (some last) k h = ltb→lt last k h

abbrev taken : FactorOutcome → Option ℕ → List ℕ
taken ok (some k) = k ∷ []
taken ok none = []
taken not_enrolled matched = []
taken invalid matched = []
taken (locked until) matched = []

-- The credential `c` is still confirmed in a row, and the steps taken since are beyond its own.
abbrev pub Progress : TotpCredential → List ℕ → Option TotpCredential → Type 0
Progress c steps o =
    (d : TotpCredential) × ((o ≡ some d)
      × (is_null d.confirmed_at ≡ false)
      × ((ks : List ℕ) → Ascends d.last_step ks → Ascends c.last_step (steps ++ ks)))

pub still :
    (c : TotpCredential) (o : Option TotpCredential)
    → o ≡ some c
    → is_null c.confirmed_at ≡ false
    → Progress c [] o
still c o h n = (c, (h, n, λ ks a. a))

failed_once-same_step :
    (now : ℕ) (c : TotpCredential)
    → ((failed_once mfa_max_attempts mfa_lock_ms now c).last_step ≡ c.last_step)
      × ((failed_once mfa_max_attempts mfa_lock_ms now c).confirmed_at ≡ c.confirmed_at)
failed_once-same_step now c = elim (Bool-cases (leb mfa_max_attempts (c.failed_attempts + 1))) [
  | inl e ↦ rw e (refl, refl)
  | inr e ↦ rw e (refl, refl)
]

failed :
    (s : MfaStore) (u : String) (now : ℕ) (c : TotpCredential)
    → find_totp_credential s u ≡ some c
    → is_null c.confirmed_at ≡ false
    → Progress c []
        (find_totp_credential (record_mfa_failure s u mfa_max_attempts mfa_lock_ms now) u)
failed s u now c h n = (
  failed_once mfa_max_attempts mfa_lock_ms now c,
  (
    rw (find-record_mfa_failure s u mfa_max_attempts mfa_lock_ms now, h) refl,
    rw ((failed_once-same_step now c).1) n,
    λ ks a. subst (λ o. Ascends o ks) ((failed_once-same_step now c).0) a,
  ),
)

module _ (hmac_sha1 : List ℕ → List ℕ → List ℕ) (hash_token : List ℕ → String) where
  abbrev matched : List ℕ → ℕ → Option TotpCredential → Option ℕ
  matched code now none = none
  matched code now (some c) = verify_totp hmac_sha1 c.secret code now 1

  -- The step that the code of a request was accepted for, if it was.
  unfoldable pub accepted_step : Option TotpCredential → MfaStore → String → List ℕ → ℕ → List ℕ
  accepted_step seen s u code now =
      taken (consume_second_factor hmac_sha1 hash_token seen s u code now).1 (matched code now seen)

  spent_at :
      (s : MfaStore) (u : String) (code : List ℕ) (now : ℕ) (c : TotpCredential) (m : Option ℕ)
      → find_totp_credential s u ≡ some c
      → is_null c.confirmed_at ≡ false
      → let spent = settle_factor s u now (spend_factor hmac_sha1 hash_token s u code now m) in
        Progress c (taken spent.1 m) (find_totp_credential spent.0 u)
  spent_at s u code now c none h n =
      redeemed (redeem_recovery_code s u (hash_token code) now).0
        (redeem_recovery_code s u (hash_token code) now).1
        (rw (find-redeem_recovery_code s u u (hash_token code) now) h)
    where
      redeemed :
          (t : MfaStore) (b : Bool)
          → find_totp_credential t u ≡ some c
          → Progress c
              (taken (settle_factor s u now (t, b)).1 none)
              (find_totp_credential (settle_factor s u now (t, b)).0 u)
      redeemed t true e = still c (find_totp_credential t u) e n
      redeemed t false e = failed t u now c e n
  spent_at s u code now c (some k) h n =
      used (record_totp_use s u k).0 (record_totp_use s u k).1
        (rw (find-record_totp_use s u k, h) refl) (record_totp_use-row s u k c h)
    where
      used :
          (t : MfaStore) (b : Bool)
          → find_totp_credential t u
            ≡ written (λ d. before_step d.last_step k) (used_at_step k) (some c)
          → b ≡ before_step c.last_step k
          → Progress c
              (taken (settle_factor s u now (t, b)).1 (some k))
              (find_totp_credential (settle_factor s u now (t, b)).0 u)
      used t true e f = (
        used_at_step k c,
        (rw (← f) at e, n, λ ks a. (before_step-Beyond c.last_step k (sym f), a)),
      )
      used t false e f = failed t u now c (rw (← f) at e) n

  pub consumed :
      (seen : Option TotpCredential) (s : MfaStore) (u : String) (code : List ℕ) (now : ℕ)
      (c : TotpCredential)
      → find_totp_credential s u ≡ some c
      → is_null c.confirmed_at ≡ false
      → Progress c
          (accepted_step seen s u code now)
          (find_totp_credential (consume_second_factor hmac_sha1 hash_token seen s u code now).0 u)
  unfolding accepted_step consume_second_factor
  consumed none s u code now c h n = still c (find_totp_credential s u) h n
  consumed (some d) s u code now c h n = elim (Bool-cases (is_null d.confirmed_at)) [
    | inl e ↦ rw e (still c (find_totp_credential s u) h n)
    | inr e ↦ rw e (locking (live_lock d.locked_until now))
  ]
    where
      locking :
          (l : Option ℕ)
          → let after = admitted hmac_sha1 hash_token s u code now d.secret l in
            Progress c
              (taken after.1 (verify_totp hmac_sha1 d.secret code now 1))
              (find_totp_credential after.0 u)
      locking none = spent_at s u code now c (verify_totp hmac_sha1 d.secret code now 1) h n
      locking (some until) = still c (find_totp_credential s u) h n
