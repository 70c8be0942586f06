-- ===== src/Mfa/Isolation.antt =====
-- What the requests of one user leave of another's rows: apps/ingest/src/routes/mfa.ts.
use ai.Common.{Option, ℕ, ◌≡◌, refl, String, str_eq, false, List}
use ai.Mfa.{TotpCredential, MfaStore}
use ai.Mfa.Factor.{Action, Request, perform, handle}
use ai.Mfa.Effects.{Closed, perform-closed}
use ai.Mfa.Others.{
  Same, then_Same, record_totp_use-Same, record_mfa_failure-Same, confirm_totp-Same, redeem-Same,
  replace-Same, clear_mfa-Same, upsert-Same,
}

other_user-Closed : (u v : String) → str_eq v u ≡ false → Closed v (λ hashes. Unit) (Same u)
other_user-Closed u v other = record {
  start = λ s. (refl, refl);
  chain = then_Same u;
  using = λ s k. record_totp_use-Same s u v k other;
  failing = λ s m l now. record_mfa_failure-Same s u v m l now other;
  confirming = λ s k now. confirm_totp-Same s u v k now other;
  redeeming = λ s hash now. redeem-Same s u v hash now other;
  replacing = λ s hashes fresh. replace-Same s u v hashes other;
  clearing = λ s. clear_mfa-Same s u v other;
  enrolling = λ s secret. upsert-Same s u v secret other;
}

module _ (hmac_sha1 : List ℕ → List ℕ → List ℕ) (hash_token : List ℕ → String) where
  pub perform-Same :
      (u v : String)
      → str_eq v u ≡ false
      → (seen : Option TotpCredential) (s : MfaStore) (now : ℕ) (a : Action)
      → Same u s (perform hmac_sha1 hash_token seen s v now a)
  perform-Same u v other seen s now a =
      perform-closed hmac_sha1 hash_token (other_user-Closed u v other) seen s now a tt

  -- A request for one user's factor, his own or an administrator's reset of it, changes neither the credential nor
  -- the recovery codes of another, whatever row the request read before.
  pub handle-Same :
      (u : String) (s : MfaStore) (r : Request)
      → str_eq r.user_id u ≡ false
      → Same u s (handle hmac_sha1 hash_token s r)
  unfolding handle
  handle-Same u s r other = perform-Same u r.user_id other r.seen s r.now r.action
