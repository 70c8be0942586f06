-- ===== src/Mfa/Replay.antt =====
-- The replay rule of apps/ingest/src/routes/mfa.ts: the steps for which a user's codes are accepted,
-- over any requests of all users.
use ai.Common.{
  Option, ℕ, ◌≡◌, String, str_eq, Bool, true, false, ◌&&◌, some, List, [], ◌∷◌, ◌++◌, inl, inr,
  Bool-cases, if◌then◌else◌, eq_iff, All,
}
use ai.Mfa.{
  TotpCredential, MfaStore, is_null, find_totp_credential, upsert_unconfirmed_totp,
  replace_recovery_codes,
}
use ai.Mfa.Factor.{
  FactorOutcome, ok, not_enrolled, invalid, locked, Action, enroll, confirm, disable, regenerate,
  verify, reset, Request, consume_second_factor, if_ok, perform, handle,
}
use ai.Mfa.Isolation.{perform-Same}
use ai.Mfa.Rows.{find-replace_recovery_codes}
use ai.Mfa.Steps.{Ascends, Progress, still, accepted_step, consumed}

abbrev ends : Action → Bool
ends (disable code) = true
ends (enroll secret) = false
ends (confirm code hashes) = false
ends (regenerate code hashes) = false
ends (verify code) = false
ends reset = true

-- A request may end the credential of `u`.
abbrev pub disables : String → Request → Bool
disables u r = str_eq r.user_id u && ends r.action

module _ (hmac_sha1 : List ℕ → List ℕ → List ℕ) (hash_token : List ℕ → String) where
  -- A code that is accepted, then an effect that leaves the credentials alone.
  if_ok-progress :
      (c : TotpCredential) (u : String) (f : MfaStore → MfaStore) (steps : List ℕ)
      (p : MfaStore × FactorOutcome)
      → ((t : MfaStore) → find_totp_credential (f t) u ≡ find_totp_credential t u)
      → Progress c steps (find_totp_credential p.0 u)
      → Progress c steps (find_totp_credential (if_ok hmac_sha1 hash_token f p) u)
  if_ok-progress c u f steps (t, ok) e g = rw (e t) g
  if_ok-progress c u f steps (t, not_enrolled) e g = g
  if_ok-progress c u f steps (t, invalid) e g = g
  if_ok-progress c u f steps (t, locked until) e g = g

  abbrev action_steps : Option TotpCredential → MfaStore → String → ℕ → Action → List ℕ
  action_steps seen s u now (enroll secret) = []
  action_steps seen s u now (confirm code hashes) = []
  action_steps seen s u now (disable code) = accepted_step hmac_sha1 hash_token seen s u code now
  action_steps seen s u now (regenerate code hashes) =
      accepted_step hmac_sha1 hash_token seen s u code now
  action_steps seen s u now (verify code) = accepted_step hmac_sha1 hash_token seen s u code now
  action_steps seen s u now reset = []

  perform-progress :
      (seen : Option TotpCredential) (s : MfaStore) (u : String) (now : ℕ) (a : Action)
      (c : TotpCredential)
      → find_totp_credential s u ≡ some c
      → is_null c.confirmed_at ≡ false
      → ends a ≡ false
      → Progress c
          (action_steps seen s u now a)
          (find_totp_credential (perform hmac_sha1 hash_token seen s u now a) u)
  unfolding upsert_unconfirmed_totp
  perform-progress seen s u now (enroll secret) c h n k =
      rw (h, n) (still c (find_totp_credential s u) h n)
  perform-progress seen s u now (confirm code hashes) c h n k =
      rw (h, n) (still c (find_totp_credential s u) h n)
  perform-progress seen s u now (disable code) c h n k = cc
  perform-progress seen s u now reset c h n k = cc
  perform-progress seen s u now (regenerate code hashes) c h n k =
      if_ok-progress c u (λ t. replace_recovery_codes t u hashes)
        (accepted_step hmac_sha1 hash_token seen s u code now)
        (consume_second_factor hmac_sha1 hash_token seen s u code now)
        (λ t. find-replace_recovery_codes t u u hashes)
        (consumed hmac_sha1 hash_token seen s u code now c h n)
  perform-progress seen s u now (verify code) c h n k =
      consumed hmac_sha1 hash_token seen s u code now c h n

  -- The steps for which a request was accepted for `u`.
  abbrev request_steps : MfaStore → String → Request → List ℕ
  request_steps s u r = if str_eq r.user_id u then action_steps r.seen s u r.now r.action else []

  handle-progress :
      (s : MfaStore) (u : String) (r : Request) (c : TotpCredential)
      → find_totp_credential s u ≡ some c
      → is_null c.confirmed_at ≡ false
      → disables u r ≡ false
      → Progress c (request_steps s u r) (find_totp_credential (handle hmac_sha1 hash_token s r) u)
  unfolding handle
  handle-progress s u r c h n k = elim (Bool-cases (str_eq r.user_id u)) [
    | inl e ↦
        rw (e, (eq_iff r.user_id u).0 e)
          (perform-progress r.seen s u r.now r.action c h n (rw e at k))
    | inr e ↦
        rw (e, (perform-Same hmac_sha1 hash_token u r.user_id e r.seen s r.now r.action).0)
          (still c (find_totp_credential s u) h n)
  ]

  -- The accepted steps of `u`, over all requests.
  abbrev pub accepted_steps : MfaStore → String → List Request → List ℕ
  accepted_steps s u [] = []
  accepted_steps s u (r ∷ rs) =
      request_steps s u r ++ accepted_steps (handle hmac_sha1 hash_token s r) u rs

-- While the credential of a user stays enabled, that is while it is confirmed and no request of the user
-- disables it and no administrator resets it, the steps for which codes of the user are accepted, by any
-- routes, among requests of any users, ascend strictly, beginning beyond the last step recorded: no step
-- is accepted twice, whatever row each request had read before.
pub accepted_steps-Ascends :
    (hmac_sha1 : List ℕ → List ℕ → List ℕ) (hash_token : List ℕ → String) (u : String)
    (rs : List Request) (s : MfaStore) (c : TotpCredential)
    → find_totp_credential s u ≡ some c
    → is_null c.confirmed_at ≡ false
    → All (λ r. disables u r ≡ false) rs
    → Ascends c.last_step (accepted_steps hmac_sha1 hash_token s u rs)
accepted_steps-Ascends hmac_sha1 hash_token u [] s c h n k = tt
accepted_steps-Ascends hmac_sha1 hash_token u (r ∷ rs) s c h n k =
    let (d, (e, m, before)) = handle-progress hmac_sha1 hash_token s u r c h n k.0 in
    before (accepted_steps hmac_sha1 hash_token (handle hmac_sha1 hash_token s r) u rs)
      (accepted_steps-Ascends hmac_sha1 hash_token u rs (handle hmac_sha1 hash_token s r) d e m k.1)
