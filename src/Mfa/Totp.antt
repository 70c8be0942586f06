-- ===== src/Mfa/Totp.antt =====
-- apps/ingest/src/mfa/totp.ts: one-time codes. A text is the list of its code units, a buffer the list
-- of its bytes. HMAC-SHA-1 is Node's, a parameter. Steps are natural numbers: the code's negative steps
-- belong to the first seconds of 1970, where writing the counter throws.
use ai.Common.{
  ℕ, zero, suc, ◌+◌, ◌-◌, ◌*◌, ◌/◌, ◌%◌, ◌^◌, Bool, true, false, ◌&&◌, Option, none, some, List, [],
  ◌∷◌, ◌++◌, leb, ◌==◌, if◌then◌else◌, length, every,
}

abbrev pub totp_period_seconds : ℕ
totp_period_seconds = 30

abbrev pub byte_at : ℕ → List ℕ → ℕ
byte_at i [] = 0
byte_at zero (b ∷ bs) = b
byte_at (suc i) (b ∷ bs) = byte_at i bs

abbrev pub last_byte : List ℕ → ℕ
last_byte [] = 0
last_byte (b ∷ []) = b
last_byte (b ∷ c ∷ bs) = last_byte (c ∷ bs)

-- The `digits` last decimal digits of a number, as characters: `padStart` fills with zeros.
abbrev pub padded : ℕ → ℕ → List ℕ
padded zero n = []
padded (suc digits) n = padded digits (n / 10) ++ (48 + n % 10) ∷ []

-- The eight bytes of a counter, the most significant first.
abbrev pub big_endian : ℕ → ℕ → List ℕ
big_endian zero n = []
big_endian (suc width) n = big_endian width (n / 256) ++ (n % 256) ∷ []

unfoldable pub truncate : List ℕ → ℕ
truncate mac =
    let offset = last_byte mac % 16 in
    byte_at offset mac % 128 * 2 ^ 24
    + byte_at (offset + 1) mac % 256 * 2 ^ 16
    + byte_at (offset + 2) mac % 256 * 2 ^ 8
    + byte_at (offset + 3) mac % 256

unfoldable pub totp_step : ℕ → ℕ
totp_step now_ms = now_ms / 1000 / totp_period_seconds

abbrev pub is_digit : ℕ → Bool
is_digit c = leb 48 c && leb c 57

unfoldable pub is_six_digits : List ℕ → Bool
is_six_digits code = length code == 6 && every is_digit code

unfoldable pub same_text : List ℕ → List ℕ → Bool
same_text [] [] = true
same_text [] (c ∷ cs) = false
same_text (b ∷ bs) [] = false
same_text (b ∷ bs) (c ∷ cs) = b == c && same_text bs cs

module _ (hmac_sha1 : List ℕ → List ℕ → List ℕ) where
  unfoldable pub hotp : List ℕ → ℕ → List ℕ
  unfolding truncate
  hotp secret counter = padded 6 (truncate (hmac_sha1 secret (big_endian 8 counter)))

  unfoldable pub totp_code : List ℕ → ℕ → List ℕ
  unfolding hotp totp_step
  totp_code secret now_ms = hotp secret (totp_step now_ms)

  -- The loop over `d`: the first of `n` steps from `step` on whose code is the one presented.
  unfoldable pub first_match : List ℕ → List ℕ → ℕ → ℕ → Option ℕ
  unfolding hotp same_text
  first_match secret code step zero = none
  first_match secret code step (suc n) =
      if same_text (hotp secret step) code then some step else first_match secret code (suc step) n

  unfoldable pub verify_totp : List ℕ → List ℕ → ℕ → ℕ → Option ℕ
  unfolding first_match is_six_digits totp_step
  verify_totp secret code now_ms skew =
      if is_six_digits code
      then first_match secret code (totp_step now_ms - skew) (2 * skew + 1)
      else none
