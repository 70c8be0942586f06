-- ===== src/ApiKeys/Minting.antt =====
-- What a minting answers: packages/db/src/repositories/api-keys.ts.
use ai.Common.{
  ℕ, ◌≡◌, refl, String, Bool, true, false, ◌&&◌, not, List, [], ◌∷◌, map, if◌then◌else◌, any, leb,
  arith, inl, inr, Bool-cases,
}
use ai.ApiKeys.{
  ApiKey, ApiKeys, KeyOptions, holds_name, has_hash, is_past, stamp_revoked, reclaim, api_key_row,
  new_key, create_api_key, mint_api_key, count_live_api_keys, minted, refused, throws, at_capacity,
  duplicate_name,
}

any-map_eq :
    (p q : ApiKey → Bool) (f : ApiKey → ApiKey) (xs : List ApiKey)
    → ((x : ApiKey) → p (f x) ≡ q x)
    → any p (map f xs) ≡ any q xs
any-map_eq p q f [] h = refl
any-map_eq p q f (x ∷ xs) h = rw (h x, any-map_eq p q f xs h) refl

-- The key that stands in the way of a name: it holds it, and is not past its end.
abbrev pub blocks : String → String → ℕ → ApiKey → Bool
blocks user_id name db_now k = holds_name user_id name k && not (is_past db_now k.expires_at)

reclaim-holds_name :
    (u name : String) (now db_now : ℕ) (k : ApiKey)
    → holds_name u name (reclaim u name now db_now k) ≡ blocks u name db_now k
reclaim-holds_name u name now db_now k = at (holds_name u name k) (is_past db_now k.expires_at) refl
  where
    at :
        (b c : Bool)
        → holds_name u name k ≡ b
        → holds_name u name (if b && c then stamp_revoked now k else k) ≡ (b && not c)
    at true true e = ground arith
    at true false e = e
    at false true e = e
    at false false e = e

reclaim-has_hash :
    (u name h : String) (now db_now : ℕ) (k : ApiKey)
    → has_hash h (reclaim u name now db_now k) ≡ has_hash h k
reclaim-has_hash u name h now db_now k = at (holds_name u name k && is_past db_now k.expires_at)
  where
    at : (b : Bool) → has_hash h (if b then stamp_revoked now k else k) ≡ has_hash h k
    at true = refl
    at false = refl

-- What a minting answers: it is refused at the capacity, fails on the hash of another key, is refused for
-- a name that another key of the user holds which is neither revoked nor past its end, and otherwise
-- answers the new key. A key that is past its end does not keep its name.
pub mint_api_key_result :
    (hash_token : String → String) (t : ApiKeys) (user_id : String) (opts : KeyOptions)
    (token : String) (max now db_now : ℕ)
    → (mint_api_key hash_token t user_id opts token max now db_now).1 ≡ (
        if leb max (count_live_api_keys t user_id now)
        then refused at_capacity
        else if any (has_hash (hash_token token)) t.keys
        then throws
        else if any (blocks user_id opts.name db_now) t.keys
        then refused duplicate_name
        else minted (api_key_row (new_key hash_token t.next_id user_id opts token db_now)) token)
unfolding mint_api_key create_api_key
mint_api_key_result hash_token t u opts token max now db_now =
    rw
      (
        any-map_eq (has_hash (hash_token token)) (has_hash (hash_token token))
            (reclaim u opts.name now db_now) t.keys
            (reclaim-has_hash u opts.name (hash_token token) now db_now),
        any-map_eq (holds_name u opts.name) (blocks u opts.name db_now)
            (reclaim u opts.name now db_now) t.keys (reclaim-holds_name u opts.name now db_now),
      )
      (elim (Bool-cases (leb max (count_live_api_keys t u now))) [
        | inl a ↦ rw a refl
        | inr a ↦ elim (Bool-cases (any (has_hash (hash_token token)) t.keys)) [
          | inl b ↦ rw (a, b) refl
          | inr b ↦ elim (Bool-cases (any (blocks u opts.name db_now) t.keys)) [
            | inl c ↦ rw (a, b, c) refl
            | inr c ↦ rw (a, b, c) refl
          ]
        ]
      ])
