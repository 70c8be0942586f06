-- ===== src/Mfa/Recovery.antt =====
-- A recovery code is spent once: the redemption of packages/db/src/repositories/mfa.ts among the
-- requests of apps/ingest/src/routes/mfa.ts.
use ai.Common.{
  ℕ, ◌≡◌, refl, String, str_eq, Bool, true, false, ◌&&◌, Option, List, [], ◌∷◌, ◌++◌, map, arith,
  inl, inr, Bool-cases, any, All,
}
use ai.Mfa.{
  TotpCredential, RecoveryCode, MfaStore, find_totp_credential, write, may_replace,
  upsert_unconfirmed_totp, confirm_totp, record_totp_use, record_mfa_failure, failed_once,
  is_spendable, spend, new_code, delete_recovery_codes, clear_mfa, replace_recovery_codes,
  redeem_recovery_code, before_step, used_at_step,
}
use ai.Mfa.Factor.{Request, handle, store_of}
use ai.Mfa.Effects.{Closed, perform-closed, issued}
use ai.Mfa.Rows.{write-codes}

module _ (u hash : String) where
  -- No row of the user can be redeemed with the hash.
  abbrev Spent : List RecoveryCode → Type 0
  Spent rows = any (is_spendable u hash) rows ≡ false

  pub spend-Spent :
      (v other : String) (now : ℕ) (rows : List RecoveryCode)
      → Spent rows
      → Spent (map (spend v other now) rows)
  spend-Spent v other now [] h = refl
  spend-Spent v other now (r ∷ rows) h = ground (arith, spend-Spent v other now rows)

  spend-Spent_self : (now : ℕ) (rows : List RecoveryCode) → Spent (map (spend u hash now) rows)
  spend-Spent_self now [] = refl
  spend-Spent_self now (r ∷ rows) = ground (arith, spend-Spent_self now rows)

  delete-Spent :
      (v : String) (rows : List RecoveryCode) → Spent rows → Spent (delete_recovery_codes v rows)
  unfolding delete_recovery_codes
  delete-Spent v [] h = refl
  delete-Spent v (r ∷ rows) h = ground (arith, delete-Spent v rows)

  -- Some fresh hash of user `v` is the one spent.
  abbrev reissued : String → List String → Bool
  reissued v hashes = any (λ x. str_eq v u && str_eq x hash) hashes

  append-Spent :
      (v : String) (rows : List RecoveryCode) (hashes : List String)
      → reissued v hashes ≡ false
      → Spent rows
      → Spent (rows ++ map (new_code v) hashes)
  append-Spent v [] [] f h = refl
  append-Spent v [] (x ∷ hashes) f h = ground (arith, append-Spent v [] hashes)
  append-Spent v (r ∷ rows) hashes f h = ground (arith, append-Spent v rows hashes f)

  abbrev KeepsSpent : MfaStore → MfaStore → Type 0
  KeepsSpent s t = Spent s.recovery_codes → Spent t.recovery_codes

  write-KeepsSpent :
      (s : MfaStore) (v : String) (matches : TotpCredential → Bool)
      (set : TotpCredential → TotpCredential) (o : Option TotpCredential)
      → KeepsSpent s (write s v matches set o).0
  write-KeepsSpent s v matches set o h = rw (write-codes s v matches set o) h

  using-KeepsSpent : (v : String) (s : MfaStore) (k : ℕ) → KeepsSpent s (record_totp_use s v k).0
  unfolding record_totp_use
  using-KeepsSpent v s k =
      write-KeepsSpent s v (λ c. before_step c.last_step k) (used_at_step k)
        (find_totp_credential s v)

  failing-KeepsSpent :
      (v : String) (s : MfaStore) (m l now : ℕ) → KeepsSpent s (record_mfa_failure s v m l now)
  unfolding record_mfa_failure
  failing-KeepsSpent v s m l now =
      write-KeepsSpent s v (λ c. true) (failed_once m l now) (find_totp_credential s v)

  confirming-KeepsSpent :
      (v : String) (s : MfaStore) (k now : ℕ) → KeepsSpent s (confirm_totp s v k now).0
  unfolding confirm_totp
  confirming-KeepsSpent v s k now = write-KeepsSpent s v _ _ (find_totp_credential s v)

  enrolling-KeepsSpent :
      (v : String) (s : MfaStore) (secret : List ℕ)
      → KeepsSpent s (store_of s (upsert_unconfirmed_totp s v secret))
  unfolding upsert_unconfirmed_totp
  enrolling-KeepsSpent v s secret h = elim (Bool-cases (may_replace (find_totp_credential s v))) [
    | inl e ↦ rw e h
    | inr e ↦ rw e h
  ]

  replacing-KeepsSpent :
      (v : String) (s : MfaStore) (hashes : List String)
      → reissued v hashes ≡ false
      → KeepsSpent s (replace_recovery_codes s v hashes)
  unfolding replace_recovery_codes
  replacing-KeepsSpent v s hashes f h =
      append-Spent v (delete_recovery_codes v s.recovery_codes) hashes f
        (delete-Spent v s.recovery_codes h)

  redeeming-KeepsSpent :
      (v : String) (s : MfaStore) (other : String) (now : ℕ)
      → KeepsSpent s (redeem_recovery_code s v other now).0
  unfolding redeem_recovery_code
  redeeming-KeepsSpent v s other now = spend-Spent v other now s.recovery_codes

  clearing-KeepsSpent : (v : String) (s : MfaStore) → KeepsSpent s (clear_mfa s v)
  unfolding clear_mfa
  clearing-KeepsSpent v s = delete-Spent v s.recovery_codes

  spent-Closed : (v : String) → Closed v (λ hashes. reissued v hashes ≡ false) KeepsSpent
  spent-Closed v = record {
    start = λ s h. h;
    chain = λ r s t f g h. g (f h);
    using = using-KeepsSpent v;
    failing = failing-KeepsSpent v;
    confirming = confirming-KeepsSpent v;
    redeeming = redeeming-KeepsSpent v;
    replacing = replacing-KeepsSpent v;
    clearing = clearing-KeepsSpent v;
    enrolling = enrolling-KeepsSpent v;
  }

  -- A request that puts the hash in the user's table again.
  abbrev pub reissues : Request → Bool
  reissues r = reissued r.user_id (issued r.action)

module _ (hmac_sha1 : List ℕ → List ℕ → List ℕ) (hash_token : List ℕ → String) where
  abbrev pub handle_all : MfaStore → List Request → MfaStore
  handle_all s [] = s
  handle_all s (r ∷ rs) = handle_all (handle hmac_sha1 hash_token s r) rs

  handle-KeepsSpent :
      (u hash : String) (s : MfaStore) (r : Request)
      → reissues u hash r ≡ false
      → KeepsSpent u hash s (handle hmac_sha1 hash_token s r)
  unfolding handle
  handle-KeepsSpent u hash s r f =
      perform-closed hmac_sha1 hash_token (spent-Closed u hash r.user_id) r.seen s r.now r.action f

  handle_all-KeepsSpent :
      (u hash : String) (rs : List Request) (s : MfaStore)
      → All (λ r. reissues u hash r ≡ false) rs
      → KeepsSpent u hash s (handle_all s rs)
  handle_all-KeepsSpent u hash [] s f h = h
  handle_all-KeepsSpent u hash (r ∷ rs) s f h =
      handle_all-KeepsSpent u hash rs (handle hmac_sha1 hash_token s r) f.1
        (handle-KeepsSpent u hash s r f.0 h)

  -- A recovery code that was presented once is refused for ever after: whatever requests of any users
  -- come between, a second redemption answers false, unless one of them issued the same hash to the user
  -- again.
  pub redeemed_once :
      (u hash : String) (first second : ℕ) (s : MfaStore) (rs : List Request)
      → All (λ r. reissues u hash r ≡ false) rs
      → (redeem_recovery_code
          (handle_all (redeem_recovery_code s u hash first).0 rs)
          u
          hash
          second).1
        ≡ false
  unfolding redeem_recovery_code
  redeemed_once u hash first second s rs f =
      handle_all-KeepsSpent u hash rs
        (record s { recovery_codes = map (spend u hash first) s.recovery_codes }) f
        (spend-Spent_self u hash first s.recovery_codes)
