-- ===== src/Mfa/Enrolment.antt =====
-- The two phases of an enrolment: apps/ingest/src/routes/mfa.ts, over the statements of
-- packages/db/src/repositories/mfa.ts.
use ai.Common.{
  ℕ, ◌≡◌, ◌⊎◌, refl, String, true, some, List, inl, inr, Option, none, Option-cases, insert,
  string_Eq, lookup-insert, eq_refl,
}
use ai.Mfa.{
  TotpCredential, MfaStore, find_totp_credential, pending_credential, may_replace, already_enrolled,
  stored, upsert_unconfirmed_totp,
}
use ai.Mfa.Factor.{not_enrolled, consume_second_factor}

-- The row that confirming at a step leaves.
abbrev pub confirmed : List ℕ → ℕ → ℕ → TotpCredential
confirmed secret step now = record (pending_credential secret) {
  confirmed_at = some now;
  last_step = some step;
}

inserted :
    (s : MfaStore) (u : String) (c : TotpCredential)
    → find_totp_credential (record s { credentials = insert u c s.credentials }) u ≡ some c
unfolding find_totp_credential
inserted s u c = rw (lookup-insert u u c s.credentials, eq_refl u) refl

module _ (hmac_sha1 : List ℕ → List ℕ → List ℕ) (hash_token : List ℕ → String) where
  pending_credential-consume_second_factor :
      (s : MfaStore) (u : String) (secret code : List ℕ) (now : ℕ)
      → find_totp_credential s u ≡ some (pending_credential secret)
      → consume_second_factor hmac_sha1 hash_token (find_totp_credential s u) s u code now
        ≡ (s, not_enrolled)
  unfolding consume_second_factor
  pending_credential-consume_second_factor s u secret code now h = rw h refl

  -- The secret is stored as pending, and no code is judged by it.
  abbrev pub Pending : MfaStore → String → List ℕ → Type 0
  Pending s u secret =
      (t : MfaStore) × ((upsert_unconfirmed_totp s u secret ≡ stored t)
        × (find_totp_credential t u ≡ some (pending_credential secret))
        × ((code : List ℕ) (now : ℕ)
            → consume_second_factor hmac_sha1 hash_token (find_totp_credential t u) t u code now
              ≡ (t, not_enrolled)))

  -- Enrolment refuses a user whose credential has been confirmed at some time. For any other user, one
  -- without a credential or with one that is not confirmed, it stores the secret as pending, and until
  -- that is confirmed every code is answered `not_enrolled` and nothing is written.
  pub upsert_unconfirmed_totp_cases :
      (s : MfaStore) (u : String) (secret : List ℕ)
      → ((c : TotpCredential) × ((at : ℕ) × ((find_totp_credential s u ≡ some c)
              × (c.confirmed_at ≡ some at)
              × (upsert_unconfirmed_totp s u secret ≡ already_enrolled))))
        ⊎ (((find_totp_credential s u ≡ none)
              ⊎ ((c : TotpCredential) × ((find_totp_credential s u ≡ some c)
                    × (c.confirmed_at ≡ none))))
            × Pending s u secret)
  unfolding upsert_unconfirmed_totp
  upsert_unconfirmed_totp_cases s u secret = by_row (find_totp_credential s u) refl
    where
      after : MfaStore
      after = record s { credentials = insert u (pending_credential secret) s.credentials }

      holds : find_totp_credential after u ≡ some (pending_credential secret)
      holds = inserted s u (pending_credential secret)

      replaced : may_replace (find_totp_credential s u) ≡ true → Pending s u secret
      replaced e = rw e (
        after,
        (
          refl,
          holds,
          λ code now. pending_credential-consume_second_factor after u secret code now holds,
        ),
      )

      by_row :
          (o : Option TotpCredential)
          → find_totp_credential s u ≡ o
          → ((c : TotpCredential) × ((at : ℕ) × ((find_totp_credential s u ≡ some c)
                  × (c.confirmed_at ≡ some at)
                  × (upsert_unconfirmed_totp s u secret ≡ already_enrolled))))
            ⊎ (((find_totp_credential s u ≡ none)
                  ⊎ ((c : TotpCredential) × ((find_totp_credential s u ≡ some c)
                        × (c.confirmed_at ≡ none))))
                × Pending s u secret)
      by_row none h = inr (inl h, replaced (rw h refl))
      by_row (some c) h = elim (Option-cases c.confirmed_at) [
        | inl e ↦ inr (inr (c, (h, e)), replaced (rw (h, e) refl))
        | inr (at, e) ↦ inl (c, (at, (h, e, rw (h, e) refl)))
      ]
