-- ===== src/Mfa/Codes.antt =====
-- Which codes apps/ingest/src/mfa/totp.ts accepts.
use ai.Common.{
  ℕ, zero, suc, ◌+◌, ◌-◌, ◌*◌, ◌/◌, ◌%◌, ◌≤◌, ◌<◌, ◌≡◌, refl, ap, subst, Bool, true, some, List, [],
  ◌∷◌, ◌++◌, arith, inl, inr, Bool-cases, &&-split, length, every, length-append, value_or,
}
use ai.Mfa.Totp.{
  padded, is_digit, is_six_digits, same_text, totp_step, hotp, totp_code, first_match, verify_totp,
  truncate, big_endian,
}

every-append {ℓ} :
    {A : Type ℓ} (p : A → Bool) (xs ys : List A)
    → every p xs ≡ true
    → every p ys ≡ true
    → every p (xs ++ ys) ≡ true
every-append p [] ys h k = k
every-append p (x ∷ xs) ys h k =
    let (a, b) = &&-split (p x) (every p xs) h in rw (a, every-append p xs ys b k) refl

length-padded : (digits n : ℕ) → length (padded digits n) ≡ digits
length-padded zero n = refl
length-padded (suc digits) n = omega (
  arith,
  length-append (padded digits (n / 10)) ((48 + n % 10) ∷ []),
  length-padded digits (n / 10),
)

digit : (n : ℕ) → is_digit (48 + n % 10) ≡ true
digit n = ground arith

every-padded : (digits n : ℕ) → every is_digit (padded digits n) ≡ true
every-padded zero n = refl
every-padded (suc digits) n =
    every-append is_digit (padded digits (n / 10)) ((48 + n % 10) ∷ [])
      (every-padded digits (n / 10)) (rw (digit n) refl)

pub same_text_refl : (cs : List ℕ) → same_text cs cs ≡ true
unfolding same_text
same_text_refl [] = refl
same_text_refl (c ∷ cs) = ground (arith, same_text_refl cs)

pub same_text→≡ : (bs cs : List ℕ) → same_text bs cs ≡ true → bs ≡ cs
unfolding same_text
same_text→≡ [] [] h = refl
same_text→≡ [] (c ∷ cs) h = cc
same_text→≡ (b ∷ bs) [] h = cc
same_text→≡ (b ∷ bs) (c ∷ cs) h = ground (arith, same_text→≡ bs cs)

shift : (step i : ℕ) → step + suc i ≡ suc step + i
shift step i = omega arith

plus_zero : (step : ℕ) → step + 0 ≡ step
plus_zero step = omega arith

module _ (hmac_sha1 : List ℕ → List ℕ → List ℕ) (secret : List ℕ) where
  -- Whatever the digest, a code has six digits.
  pub is_six_digits-hotp : (step : ℕ) → is_six_digits (hotp hmac_sha1 secret step) ≡ true
  unfolding is_six_digits hotp
  is_six_digits-hotp step = every-padded 6 (truncate (hmac_sha1 secret (big_endian 8 step)))

  first_match_sound :
      (code : List ℕ) (step n k : ℕ)
      → first_match hmac_sha1 secret code step n ≡ some k
      → (hotp hmac_sha1 secret k ≡ code) × (step ≤ k) × (k < step + n)
  unfolding first_match
  first_match_sound code step zero k h = cc
  first_match_sound code step (suc n) k h =
      elim (Bool-cases (same_text (hotp hmac_sha1 secret step) code)) [
        | inl e ↦ found step (ap (λ o. value_or o 0) (rw e at h)) e
        | inr e ↦
            let (same, low, high) = first_match_sound code (suc step) n k (rw e at h) in
            (same, omega arith, omega arith)
      ]
    where
      found :
          (m : ℕ)
          → m ≡ k
          → same_text (hotp hmac_sha1 secret m) code ≡ true
          → (hotp hmac_sha1 secret k ≡ code) × (m ≤ k) × (k < m + suc n)
      found m e f = (
        same_text→≡ (hotp hmac_sha1 secret k) code
            (subst (λ i. same_text (hotp hmac_sha1 secret i) code ≡ true) e f),
        omega arith,
        omega arith,
      )

  first_match_complete :
      (code : List ℕ) (step n i : ℕ)
      → hotp hmac_sha1 secret (step + i) ≡ code
      → i < n
      → (k : ℕ) × ((first_match hmac_sha1 secret code step n ≡ some k) × (k ≤ step + i))
  unfolding first_match
  first_match_complete code step zero i h l = absurd (omega arith)
  first_match_complete code step (suc n) zero h l =
      let here : hotp hmac_sha1 secret step ≡ code =
        subst (λ i. hotp hmac_sha1 secret i ≡ code) (plus_zero step) h in
      let e : same_text (hotp hmac_sha1 secret step) code ≡ true =
        subst (λ c. same_text (hotp hmac_sha1 secret step) c ≡ true) here
          (same_text_refl (hotp hmac_sha1 secret step)) in
      rw e (step, (refl, omega arith))
  first_match_complete code step (suc n) (suc i) h l =
      elim (Bool-cases (same_text (hotp hmac_sha1 secret step) code)) [
        | inl e ↦ rw e (step, (refl, omega arith))
        | inr e ↦
            let (k, (f, low)) =
              first_match_complete code (suc step) n i (rw (← shift step i) h) (omega arith) in
            rw e (k, (f, omega arith))
      ]

  -- What is accepted is the code of a step in the window around the present one.
  pub verify_totp-window :
      (code : List ℕ) (now_ms skew k : ℕ)
      → verify_totp hmac_sha1 secret code now_ms skew ≡ some k
      → (hotp hmac_sha1 secret k ≡ code)
        × (totp_step now_ms ≤ k + skew)
        × (skew ≤ totp_step now_ms → k ≤ totp_step now_ms + skew)
  unfolding verify_totp
  verify_totp-window code now_ms skew k h = elim (Bool-cases (is_six_digits code)) [
    | inl e ↦
        let (same, low, high) =
          first_match_sound code (totp_step now_ms - skew) (2 * skew + 1) k (rw e at h) in
        (same, omega arith, λ w. omega arith)
    | inr e ↦ let h' = rw e at h in cc
  ]

  -- The code that an authenticator shows, its clock off by at most `skew` steps, is accepted, for a step
  -- that has that same code and is not later than the one it was shown in, whatever the digest.
  pub verify_totp-totp_code :
      (now_ms shown_ms skew : ℕ)
      → skew ≤ totp_step now_ms
      → totp_step now_ms ≤ totp_step shown_ms + skew
      → totp_step shown_ms ≤ totp_step now_ms + skew
      → (k : ℕ) × ((verify_totp hmac_sha1 secret (totp_code hmac_sha1 secret shown_ms) now_ms skew
            ≡ some k)
          × (k ≤ totp_step shown_ms)
          × (hotp hmac_sha1 secret k ≡ totp_code hmac_sha1 secret shown_ms))
  unfolding verify_totp totp_code
  verify_totp-totp_code now_ms shown_ms skew old low high =
      rw (is_six_digits-hotp (totp_step shown_ms))
        (matches (totp_step now_ms) (totp_step shown_ms) old low high)
    where
      matches :
          (now shown : ℕ)
          → skew ≤ now
          → now ≤ shown + skew
          → shown ≤ now + skew
          → (k : ℕ) × ((first_match hmac_sha1 secret
                  (hotp hmac_sha1 secret shown)
                  (now - skew)
                  (2 * skew + 1)
                ≡ some k)
              × (k ≤ shown)
              × (hotp hmac_sha1 secret k ≡ hotp hmac_sha1 secret shown))
      matches now shown old low high =
          let there : now - skew + (shown + skew - now) ≡ shown = omega arith in
          let (k, (f, le)) =
            first_match_complete (hotp hmac_sha1 secret shown) (now - skew) (2 * skew + 1)
              (shown + skew - now) (ap (hotp hmac_sha1 secret) there) (omega arith) in
          (
            k,
            (
              f,
              omega arith,
              (first_match_sound (hotp hmac_sha1 secret shown) (now - skew) (2 * skew + 1) k f).0,
            ),
          )
