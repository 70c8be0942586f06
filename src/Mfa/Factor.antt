-- ===== src/Mfa/Factor.antt =====
-- apps/ingest/src/routes/mfa.ts: how a second factor is checked and spent, and the five routes that
-- change the tables, with the reset of routes/members.ts. A request is one transaction at one clock
-- reading, made by the user that the route has authenticated; `verify` is the exchange after its
-- challenge was accepted. Requests may overlap: a request reads the row of its user at first, and writes
-- when others may have written. The sessions that the routes revoke or mint are in another table. `hash_token` is the SHA-256 of a presented code.
use ai.Common.{
  ℕ, ◌+◌, ◌-◌, ◌/◌, String, Bool, true, false, Option, none, some, List, ltb, leb, if◌then◌else◌,
}
use ai.Mfa.{
  TotpCredential, MfaStore, is_null, find_totp_credential, already_enrolled, stored, Enrolled,
  upsert_unconfirmed_totp, confirm_totp, record_totp_use, record_mfa_failure, clear_mfa,
  replace_recovery_codes, redeem_recovery_code,
}
use ai.Mfa.Totp.{verify_totp}

abbrev pub mfa_max_attempts : ℕ
mfa_max_attempts = 10

abbrev pub mfa_lock_ms : ℕ
mfa_lock_ms = 900000

pub data FactorOutcome : Type 0 where
  ok not_enrolled invalid : FactorOutcome
  locked : ℕ → FactorOutcome

-- `lockedUntil && lockedUntil > new Date()`.
abbrev pub live_lock : Option ℕ → ℕ → Option ℕ
live_lock none now = none
live_lock (some until) now = if ltb now until then some until else none

abbrev pub settle_factor : MfaStore → String → ℕ → MfaStore × Bool → MfaStore × FactorOutcome
settle_factor s user_id now (spent, true) = (spent, ok)
settle_factor s user_id now (spent, false) =
    (record_mfa_failure spent user_id mfa_max_attempts mfa_lock_ms now, invalid)

-- What a request does: its secret, its code, or the hashes of the ten fresh recovery codes; `reset` is an
-- administrator's, of the factor of a member that he outranks.
pub data Action : Type 0 where
  enroll : List ℕ → Action
  confirm : List ℕ → List String → Action
  disable : List ℕ → Action
  regenerate : List ℕ → List String → Action
  verify : List ℕ → Action
  reset : Action

-- `user_id` is the user whose factor it is, `seen` what the request's first SELECT read of it.
pub record Request : Type 0 where
  pub user_id : String
  pub now : ℕ
  pub seen : Option TotpCredential
  pub action : Action

abbrev pub store_of : MfaStore → Enrolled → MfaStore
store_of s already_enrolled = s
store_of s (stored t) = t

module _ (hmac_sha1 : List ℕ → List ℕ → List ℕ) (hash_token : List ℕ → String) where
  abbrev pub spend_factor : MfaStore → String → List ℕ → ℕ → Option ℕ → MfaStore × Bool
  spend_factor s user_id code now none = redeem_recovery_code s user_id (hash_token code) now
  spend_factor s user_id code now (some step) = record_totp_use s user_id step

  abbrev pub admitted :
      MfaStore → String → List ℕ → ℕ → List ℕ → Option ℕ → MfaStore × FactorOutcome
  admitted s user_id code now secret (some until) = (s, locked until)
  admitted s user_id code now secret none =
      settle_factor s user_id now
        (spend_factor s user_id code now (verify_totp hmac_sha1 secret code now 1))

  -- `seen` is the row of the user that the request read first, without a lock: the store `s` that it
  -- writes to may be a later one.
  unfoldable pub consume_second_factor :
      Option TotpCredential → MfaStore → String → List ℕ → ℕ → MfaStore × FactorOutcome
  consume_second_factor none s user_id code now = (s, not_enrolled)
  consume_second_factor (some seen) s user_id code now =
      if is_null seen.confirmed_at
      then (s, not_enrolled)
      else admitted s user_id code now seen.secret (live_lock seen.locked_until now)

  abbrev pub armed : MfaStore → String → List String → MfaStore × Bool → MfaStore
  armed s user_id hashes (confirmed, true) = replace_recovery_codes confirmed user_id hashes
  armed s user_id hashes (confirmed, false) = s

  abbrev pub confirm_at : MfaStore → String → List String → ℕ → Option ℕ → MfaStore
  confirm_at s user_id hashes now none = s
  confirm_at s user_id hashes now (some step) =
      armed s user_id hashes (confirm_totp s user_id step now)

  abbrev pub confirm_with :
      MfaStore → String → List ℕ → List String → ℕ → Option TotpCredential → MfaStore
  confirm_with s user_id code hashes now none = s
  confirm_with s user_id code hashes now (some c) =
      if is_null c.confirmed_at
      then confirm_at s user_id hashes now (verify_totp hmac_sha1 c.secret code now 1)
      else s

  -- The effect of a route that ran with an accepted factor, and of one that did not.
  abbrev pub if_ok : (MfaStore → MfaStore) → MfaStore × FactorOutcome → MfaStore
  if_ok perform (s, ok) = perform s
  if_ok perform (s, not_enrolled) = s
  if_ok perform (s, invalid) = s
  if_ok perform (s, locked until) = s

  abbrev pub perform : Option TotpCredential → MfaStore → String → ℕ → Action → MfaStore
  perform seen s user_id now (enroll secret) = store_of s (upsert_unconfirmed_totp s user_id secret)
  perform seen s user_id now (confirm code hashes) =
      confirm_with s user_id code hashes now (find_totp_credential s user_id)
  perform seen s user_id now (disable code) =
      if_ok (λ t. clear_mfa t user_id) (consume_second_factor seen s user_id code now)
  perform seen s user_id now (regenerate code hashes) =
      if_ok (λ t. replace_recovery_codes t user_id hashes)
        (consume_second_factor seen s user_id code now)
  perform seen s user_id now (verify code) = (consume_second_factor seen s user_id code now).0
  perform seen s user_id now reset = clear_mfa s user_id

  unfoldable pub handle : MfaStore → Request → MfaStore
  unfolding find_totp_credential consume_second_factor
  handle s r = perform r.seen s r.user_id r.now r.action

-- The status and the Retry-After of a refusal: `collapse` hides that no factor is enrolled.
unfoldable pub reply_for_factor : ℕ → Bool → FactorOutcome → Option (ℕ × Option ℕ)
reply_for_factor now collapse ok = none
reply_for_factor now true not_enrolled = some (401, none)
reply_for_factor now false not_enrolled = some (409, none)
reply_for_factor now collapse (locked until) =
    let seconds = (until - now + 999) / 1000 in
    some (429, some (if leb seconds 1 then 1 else seconds))
reply_for_factor now collapse invalid = some (401, none)
