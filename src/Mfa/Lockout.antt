-- ===== src/Mfa/Lockout.antt =====
-- The throttle of apps/ingest/src/routes/mfa.ts: how many codes are judged before the lock holds.
use ai.Common.{
  ℕ, suc, ◌+◌, ◌-◌, ◌≤◌, ◌<◌, ◌≡◌, ◌⊎◌, refl, ap, String, Bool, true, false, Option, none, some,
  List, [], ◌∷◌, arith, inl, inr, Bool-cases, leb, ltb, All, All-imp, ◌∙◌,
}
use ai.Mfa.{
  TotpCredential, MfaStore, is_null, find_totp_credential, failed_once, record_totp_use,
  redeem_recovery_code,
}
use ai.Mfa.Totp.{verify_totp}
use ai.Mfa.Factor.{
  FactorOutcome, ok, not_enrolled, invalid, locked, live_lock, settle_factor, spend_factor,
  admitted, consume_second_factor, mfa_max_attempts, mfa_lock_ms,
}
use ai.Mfa.Rows.{
  find-record_mfa_failure, find-record_totp_use, record_totp_use-row, find-redeem_recovery_code,
}

-- One more wrong code, if the outcome says so; nothing is tried after a success.
abbrev pub tally : FactorOutcome → ℕ → ℕ
tally ok rest = 0
tally invalid rest = suc rest
tally not_enrolled rest = rest
tally (locked until) rest = rest

-- An attempt was accepted, or counted as a failure, or refused without a look at its code.
abbrev Judged : String → MfaStore → TotpCredential → ℕ → MfaStore × FactorOutcome → Type 0
Judged u s c now p =
    ((p.1 ≡ ok)
      ⊎ ((p.1 ≡ invalid)
          × (find_totp_credential p.0 u ≡ some (failed_once mfa_max_attempts mfa_lock_ms now c))))
    ⊎ ((p.0 ≡ s) × ((rest : ℕ) → tally p.1 rest ≡ rest))

module _ (hmac_sha1 : List ℕ → List ℕ → List ℕ) (hash_token : List ℕ → String) (u : String) where
  settle_cases :
      (s t : MfaStore) (now : ℕ) (c : TotpCredential) (b : Bool)
      → (b ≡ false → find_totp_credential t u ≡ some c)
      → Judged u s c now (settle_factor t u now (t, b))
  settle_cases s t now c true e = inl (inl refl)
  settle_cases s t now c false e =
      inl
        (inr (refl, rw (find-record_mfa_failure t u mfa_max_attempts mfa_lock_ms now, e refl) refl))

  -- A step that the row refuses leaves it.
  refused_step :
      (s : MfaStore) (c : TotpCredential) (k : ℕ)
      → find_totp_credential s u ≡ some c
      → (record_totp_use s u k).1 ≡ false
      → find_totp_credential (record_totp_use s u k).0 u ≡ some c
  refused_step s c k h e =
      let f = rw (record_totp_use-row s u k c h) at e in
      rw (find-record_totp_use s u k, h) (rw f refl)

  spent :
      (s : MfaStore) (code : List ℕ) (now : ℕ) (c : TotpCredential) (m : Option ℕ)
      → find_totp_credential s u ≡ some c
      → Judged u s c now (settle_factor s u now (spend_factor hmac_sha1 hash_token s u code now m))
  spent s code now c none h =
      settle_cases s (redeem_recovery_code s u (hash_token code) now).0 now c
        (redeem_recovery_code s u (hash_token code) now).1
        (λ e. rw (find-redeem_recovery_code s u u (hash_token code) now) h)
  spent s code now c (some k) h =
      settle_cases s (record_totp_use s u k).0 now c (record_totp_use s u k).1
        (refused_step s c k h)

  judged :
      (s : MfaStore) (code : List ℕ) (now : ℕ) (c : TotpCredential)
      → find_totp_credential s u ≡ some c
      → Judged u s c now
          (consume_second_factor hmac_sha1 hash_token (find_totp_credential s u) s u code now)
  unfolding consume_second_factor
  judged s code now c h = elim (Bool-cases (is_null c.confirmed_at)) [
    | inl e ↦ rw (h, e) (inr (refl, λ rest. refl))
    | inr e ↦ rw (h, e) (by_lock (live_lock c.locked_until now))
  ]
    where
      by_lock :
          (l : Option ℕ) → Judged u s c now (admitted hmac_sha1 hash_token s u code now c.secret l)
      by_lock (some until) = inr (refl, λ rest. refl)
      by_lock none = spent s code now c (verify_totp hmac_sha1 c.secret code now 1) h

  -- While the lock holds no code is looked at, and nothing is written.
  pub consume_locked :
      (s : MfaStore) (code : List ℕ) (now until : ℕ) (c : TotpCredential)
      → find_totp_credential s u ≡ some c
      → c.locked_until ≡ some until
      → now < until
      → let p =
          consume_second_factor hmac_sha1 hash_token (find_totp_credential s u) s u code now in
        (p.0 ≡ s) × ((rest : ℕ) → tally p.1 rest ≡ rest)
  unfolding consume_second_factor
  consume_locked s code now until c h l before = elim (Bool-cases (is_null c.confirmed_at)) [
    | inl e ↦ rw (h, e) (refl, λ rest. refl)
    | inr e ↦
        let live : ltb now until ≡ true = ground arith in rw (h, e, l, live) (refl, λ rest. refl)
  ]

  -- The codes that are judged wrong, of attempts in order, each at its time, until one is accepted.
  abbrev pub wrong_guesses : MfaStore → List (ℕ × List ℕ) → ℕ
  wrong_guesses s [] = 0
  wrong_guesses s ((now, code) ∷ gs) =
      let p = consume_second_factor hmac_sha1 hash_token (find_totp_credential s u) s u code now in
      tally p.1 (wrong_guesses p.0 gs)

  locked_out :
      (gs : List (ℕ × List ℕ)) (s : MfaStore) (until : ℕ) (c : TotpCredential)
      → find_totp_credential s u ≡ some c
      → c.locked_until ≡ some until
      → All (λ g. g.0 < until) gs
      → wrong_guesses s gs ≡ 0
  locked_out [] s until c h l before = refl
  locked_out ((now, code) ∷ gs) s until c h l before =
      let (same, still) = consume_locked s code now until c h l before.0 in
      still (
        wrong_guesses
          (consume_second_factor hmac_sha1 hash_token (find_totp_credential s u) s u code now).0 gs)
      ∙ (ap (λ t. wrong_guesses t gs) same ∙ locked_out gs s until c h l before.1)

  counted :
      (gs : List (ℕ × List ℕ)) (s : MfaStore) (start n : ℕ) (c : TotpCredential)
      → find_totp_credential s u ≡ some c
      → mfa_max_attempts ≤ c.failed_attempts + n
      → 1 ≤ n
      → All (λ g. (start ≤ g.0) × (g.0 < start + mfa_lock_ms)) gs
      → wrong_guesses s gs ≤ n
  counted [] s start n c h room one within = omega arith
  counted ((now, code) ∷ gs) s start n c h room one within =
      by_outcome (λ t m d e r o. counted gs t start m d e r o within.1)
        (consume_second_factor hmac_sha1 hash_token (find_totp_credential s u) s u code now)
        (judged s code now c h)
    where
      Rest : Type 0
      Rest =
          (t : MfaStore) (m : ℕ) (d : TotpCredential)
          → find_totp_credential t u ≡ some d
          → mfa_max_attempts ≤ d.failed_attempts + m
          → 1 ≤ m
          → wrong_guesses t gs ≤ m

      before_end : (k : ℕ) → start + mfa_lock_ms ≤ k → All (λ g. g.0 < k) gs
      before_end k e = All-imp _ _ gs (λ g w. omega arith) within.1

      -- One more failure leads to the lock, or leaves one attempt fewer.
      failing :
          Rest
          → (t : MfaStore)
          → find_totp_credential t u ≡ some (failed_once mfa_max_attempts mfa_lock_ms now c)
          → suc (wrong_guesses t gs) ≤ n
      failing rest t f = elim (Bool-cases (leb mfa_max_attempts (c.failed_attempts + 1))) [
        | inl e ↦ omega (
          arith,
          locked_out gs t (now + mfa_lock_ms)
              (record c { failed_attempts = 0; locked_until = some (now + mfa_lock_ms) })
              (rw e at f) refl (before_end (now + mfa_lock_ms) (omega (arith, within.0))),
        )
        | inr e ↦ omega (
          arith,
          rest t (n - 1) (record c { failed_attempts = c.failed_attempts + 1 }) (rw e at f)
              (ground arith) (ground arith),
        )
      ]

      by_outcome :
          Rest
          → (p : MfaStore × FactorOutcome) → Judged u s c now p
          → tally p.1 (wrong_guesses p.0 gs) ≤ n
      by_outcome rest p (inl (inl e)) = rw e (omega arith)
      by_outcome rest p (inl (inr (e, f))) = rw e (failing rest p.0 f)
      by_outcome rest p (inr (e, f)) = rw (f (wrong_guesses p.0 gs), e) (rest s n c h room one)

  unknown :
      (gs : List (ℕ × List ℕ)) (s : MfaStore)
      → find_totp_credential s u ≡ none
      → wrong_guesses s gs ≡ 0
  unfolding consume_second_factor
  unknown [] s h = refl
  unknown ((now, code) ∷ gs) s h = rw h (unknown gs s h)

-- Of attempts on a user's second factor within one lock period, with any codes, at most ten are judged
-- wrong before one is accepted, if they are handled one after another, each reading the row after the one
-- before it has written: the others are refused unseen.
pub wrong_guesses-bounded :
    (hmac_sha1 : List ℕ → List ℕ → List ℕ) (hash_token : List ℕ → String) (u : String)
    (s : MfaStore) (start : ℕ) (gs : List (ℕ × List ℕ))
    → All (λ g. (start ≤ g.0) × (g.0 < start + mfa_lock_ms)) gs
    → wrong_guesses hmac_sha1 hash_token u s gs ≤ mfa_max_attempts
wrong_guesses-bounded hmac_sha1 hash_token u s start gs within =
    by_row (find_totp_credential s u) refl
  where
    by_row :
        (o : Option TotpCredential)
        → find_totp_credential s u ≡ o
        → wrong_guesses hmac_sha1 hash_token u s gs ≤ mfa_max_attempts
    by_row none h = rw (unknown hmac_sha1 hash_token u gs s h) (omega arith)
    by_row (some c) h =
        counted hmac_sha1 hash_token u gs s start mfa_max_attempts c h (omega arith) (omega arith)
          within
