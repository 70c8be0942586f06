-- ===== src/Mfa/Effects.antt =====
-- What every statement of packages/db/src/repositories/mfa.ts keeps, a request of
-- apps/ingest/src/routes/mfa.ts keeps: the one induction over the branches of the routes.
use ai.Common.{ℕ, String, Bool, true, false, Option, none, some, List, [], inl, inr, Bool-cases}
use ai.Mfa.{
  TotpCredential, MfaStore, is_null, find_totp_credential, confirm_totp, record_totp_use,
  record_mfa_failure, clear_mfa, replace_recovery_codes, redeem_recovery_code,
  upsert_unconfirmed_totp,
}
use ai.Mfa.Totp.{verify_totp}
use ai.Mfa.Factor.{
  reset, FactorOutcome, ok, not_enrolled, invalid, locked, Action, enroll, confirm, disable,
  regenerate, verify, live_lock, settle_factor, spend_factor, admitted, consume_second_factor,
  store_of, armed, confirm_at, confirm_with, if_ok, perform, mfa_max_attempts, mfa_lock_ms,
}

-- The hashes that an action may put in the table.
abbrev pub issued : Action → List String
issued (enroll secret) = []
issued (confirm code hashes) = hashes
issued (disable code) = []
issued (regenerate code hashes) = hashes
issued (verify code) = []
issued reset = []

-- A relation between stores that the statements on the rows of `v` keep, fresh hashes being as `Fresh`.
pub record Closed (v : String) (Fresh : List String → Type 0) (R : MfaStore → MfaStore → Type 0)
    : Type 0 where
  pub start : (s : MfaStore) → R s s
  pub chain : (r s t : MfaStore) → R r s → R s t → R r t
  pub using : (s : MfaStore) (step : ℕ) → R s (record_totp_use s v step).0
  pub failing : (s : MfaStore) (m l now : ℕ) → R s (record_mfa_failure s v m l now)
  pub confirming : (s : MfaStore) (step now : ℕ) → R s (confirm_totp s v step now).0
  pub redeeming :
      (s : MfaStore) (hash : String) (now : ℕ) → R s (redeem_recovery_code s v hash now).0
  pub replacing :
      (s : MfaStore) (hashes : List String) → Fresh hashes → R s (replace_recovery_codes s v hashes)
  pub clearing : (s : MfaStore) → R s (clear_mfa s v)
  pub enrolling :
      (s : MfaStore) (secret : List ℕ) → R s (store_of s (upsert_unconfirmed_totp s v secret))

module _ (hmac_sha1 : List ℕ → List ℕ → List ℕ) (hash_token : List ℕ → String) {v : String}
    {Fresh : List String → Type 0} {R : MfaStore → MfaStore → Type 0}
    (closed : Closed v Fresh R) where
  settle_factor-closed :
      (s t : MfaStore) (now : ℕ) (b : Bool) → R s t → R s (settle_factor t v now (t, b)).0
  settle_factor-closed s t now true e = e
  settle_factor-closed s t now false e =
      closed.chain s t (record_mfa_failure t v mfa_max_attempts mfa_lock_ms now) e
        (closed.failing t mfa_max_attempts mfa_lock_ms now)

  spend_factor-closed :
      (s : MfaStore) (code : List ℕ) (now : ℕ) (m : Option ℕ)
      → R s (spend_factor hmac_sha1 hash_token s v code now m).0
  spend_factor-closed s code now none = closed.redeeming s (hash_token code) now
  spend_factor-closed s code now (some k) = closed.using s k

  admitted-closed :
      (s : MfaStore) (code : List ℕ) (now : ℕ) (secret : List ℕ) (l : Option ℕ)
      → R s (admitted hmac_sha1 hash_token s v code now secret l).0
  admitted-closed s code now secret (some until) = (closed.start s)
  admitted-closed s code now secret none =
      settle_factor-closed s (spend_factor hmac_sha1 hash_token s v code now matched).0 now
        (spend_factor hmac_sha1 hash_token s v code now matched).1
        (spend_factor-closed s code now matched)
    where
      matched : Option ℕ
      matched = verify_totp hmac_sha1 secret code now 1

  consume_second_factor-closed :
      (seen : Option TotpCredential) (s : MfaStore) (code : List ℕ) (now : ℕ)
      → R s (consume_second_factor hmac_sha1 hash_token seen s v code now).0
  unfolding consume_second_factor
  consume_second_factor-closed none s code now = (closed.start s)
  consume_second_factor-closed (some c) s code now = elim (Bool-cases (is_null c.confirmed_at)) [
    | inl e ↦ rw e (closed.start s)
    | inr e ↦ rw e (admitted-closed s code now c.secret (live_lock c.locked_until now))
  ]

  if_ok-closed :
      (s t : MfaStore) (f : MfaStore → MfaStore) (o : FactorOutcome)
      → R t (f t)
      → R s t
      → R s (if_ok hmac_sha1 hash_token f (t, o))
  if_ok-closed s t f ok g e = closed.chain s t (f t) e g
  if_ok-closed s t f not_enrolled g e = e
  if_ok-closed s t f invalid g e = e
  if_ok-closed s t f (locked until) g e = e

  confirm_at-closed :
      (s : MfaStore) (hashes : List String) (p : Fresh hashes) (now : ℕ) (m : Option ℕ)
      → R s (confirm_at hmac_sha1 hash_token s v hashes now m)
  confirm_at-closed s hashes p now none = (closed.start s)
  confirm_at-closed s hashes p now (some k) = arming (confirm_totp s v k now).1
    where
      arming :
          (b : Bool) → R s (armed hmac_sha1 hash_token s v hashes ((confirm_totp s v k now).0, b))
      arming true =
          closed.chain s (confirm_totp s v k now).0
            (replace_recovery_codes (confirm_totp s v k now).0 v hashes) (closed.confirming s k now)
            (closed.replacing (confirm_totp s v k now).0 hashes p)
      arming false = (closed.start s)

  confirm_with-closed :
      (s : MfaStore) (code : List ℕ) (hashes : List String) (p : Fresh hashes) (now : ℕ)
      (o : Option TotpCredential)
      → R s (confirm_with hmac_sha1 hash_token s v code hashes now o)
  confirm_with-closed s code hashes p now none = (closed.start s)
  confirm_with-closed s code hashes p now (some c) = elim (Bool-cases (is_null c.confirmed_at)) [
    | inl e ↦ rw e (confirm_at-closed s hashes p now (verify_totp hmac_sha1 c.secret code now 1))
    | inr e ↦ rw e (closed.start s)
  ]

  pub perform-closed :
      (seen : Option TotpCredential) (s : MfaStore) (now : ℕ) (a : Action)
      → Fresh (issued a)
      → R s (perform hmac_sha1 hash_token seen s v now a)
  perform-closed seen s now (enroll secret) p = closed.enrolling s secret
  perform-closed seen s now (confirm code hashes) p =
      confirm_with-closed s code hashes p now (find_totp_credential s v)
  perform-closed seen s now (disable code) p =
      if_ok-closed s (consume_second_factor hmac_sha1 hash_token seen s v code now).0
        (λ t. clear_mfa t v) (consume_second_factor hmac_sha1 hash_token seen s v code now).1
        (closed.clearing (consume_second_factor hmac_sha1 hash_token seen s v code now).0)
        (consume_second_factor-closed seen s code now)
  perform-closed seen s now (regenerate code hashes) p =
      if_ok-closed s (consume_second_factor hmac_sha1 hash_token seen s v code now).0
        (λ t. replace_recovery_codes t v hashes)
        (consume_second_factor hmac_sha1 hash_token seen s v code now).1
        (closed.replacing (consume_second_factor hmac_sha1 hash_token seen s v code now).0 hashes p)
        (consume_second_factor-closed seen s code now)
  perform-closed seen s now (verify code) p = consume_second_factor-closed seen s code now
  perform-closed seen s now reset p = closed.clearing s
