-- ===== src/ApiKeys/Tokens.antt =====
-- Which tokens authenticate after a minting: packages/db/src/repositories/api-keys.ts.
use ai.Common.{
  ℕ, ◌≤◌, ◌≡◌, refl, ap, ◌∙◌, String, str_eq, eq_iff, Bool, true, false, ◌&&◌, Option, none, some,
  List, [], ◌∷◌, ◌++◌, map, if◌then◌else◌, any, leb, arith, inl, inr, Bool-cases, subst,
}
use ai.ApiKeys.{
  ApiKey, ApiKeys, ApiKeyRow, KeyOptions, found, found_of, find_key, is_live, unexpired, holds_name,
  has_hash, is_past, stamp_revoked, reclaim, reclaimed, new_key, with_key, create_api_key,
  mint_api_key, count_live_api_keys, find_live_api_key, minted,
}

-- The first key that passes, at the end or before it.
abbrev or_last : Option ApiKey → Option ApiKey → Option ApiKey
or_last none o = o
or_last (some k) o = some k

find_key-append :
    (p : ApiKey → Bool) (xs : List ApiKey) (y : ApiKey)
    → find_key p (xs ++ y ∷ []) ≡ or_last (find_key p xs) (if p y then some y else none)
unfolding find_key
find_key-append p [] y = refl
find_key-append p (x ∷ xs) y = elim (Bool-cases (p x)) [
  | inl e ↦ rw e refl
  | inr e ↦ rw e (find_key-append p xs y)
]

find_key-map :
    (p : ApiKey → Bool) (f : ApiKey → ApiKey) (xs : List ApiKey)
    → ((x : ApiKey) → (p (f x) ≡ p x) × (found_of (f x) ≡ found_of x))
    → found (find_key p (map f xs)) ≡ found (find_key p xs)
unfolding find_key
find_key-map p f [] h = refl
find_key-map p f (x ∷ xs) h = elim (Bool-cases (p x)) [
  | inl e ↦ rw ((h x).0, e) (ap some ((h x).1))
  | inr e ↦ rw ((h x).0, e) (find_key-map p f xs h)
]

-- A key with another hash is not found.
find_key_no_hash :
    (hash : String) (at : ℕ) (xs : List ApiKey)
    → any (has_hash hash) xs ≡ false
    → find_key (λ k. has_hash hash k && is_live at k) xs ≡ none
unfolding find_key
find_key_no_hash hash at [] h = refl
find_key_no_hash hash at (x ∷ xs) h = elim (Bool-cases (has_hash hash x)) [
  | inl e ↦ cc
  | inr e ↦ rw e (find_key_no_hash hash at xs (rw e at h))
]

-- What is reclaimed was not live.
reclaim_authenticates :
    (u name hash : String) (now db_now at : ℕ) (k : ApiKey)
    → db_now ≤ at
    → ((has_hash hash (reclaim u name now db_now k) && is_live at (reclaim u name now db_now k))
        ≡ (has_hash hash k && is_live at k))
      × (found_of (reclaim u name now db_now k) ≡ found_of k)
reclaim_authenticates u name hash now db_now at k l =
    by_test (holds_name u name k && is_past db_now k.expires_at) refl
  where
    dead : (e : Option ℕ) → is_past db_now e ≡ true → unexpired at e ≡ false
    dead none h = cc
    dead (some t) h = ground arith

    by_test :
        (b : Bool)
        → (holds_name u name k && is_past db_now k.expires_at) ≡ b
        → ((has_hash hash (if b then stamp_revoked now k else k)
              && is_live at (if b then stamp_revoked now k else k))
            ≡ (has_hash hash k && is_live at k))
          × (found_of (if b then stamp_revoked now k else k) ≡ found_of k)
    by_test true e =
        let past : is_past db_now k.expires_at ≡ true = ground arith in
        let gone : unexpired at k.expires_at ≡ false = dead k.expires_at past in
        (ground arith, refl)
    by_test false e = (refl, refl)

module _ (hash_token : String → String) where
  mint_api_key_after :
      (t : ApiKeys) (u : String) (opts : KeyOptions) (token : String) (max now db_now : ℕ)
      (row : ApiKeyRow)
      → (mint_api_key hash_token t u opts token max now db_now).1 ≡ minted row token
      → ((mint_api_key hash_token t u opts token max now db_now).0
          ≡ with_key hash_token
              (reclaimed t u opts.name now db_now)
              (new_key hash_token t.next_id u opts token db_now))
        × (any (has_hash (hash_token token)) (reclaimed t u opts.name now db_now).keys ≡ false)
  unfolding mint_api_key create_api_key
  mint_api_key_after t u opts token max now db_now row =
      elim (Bool-cases (leb max (count_live_api_keys t u now))) [
        | inl a ↦ rw a (λ h. cc)
        | inr a ↦
            elim (Bool-cases
              (any (has_hash (hash_token token)) (reclaimed t u opts.name now db_now).keys)) [
                | inl b ↦ rw (a, b) (λ h. cc)
                | inr b ↦
                    elim (Bool-cases
                      (any (holds_name u opts.name) (reclaimed t u opts.name now db_now).keys)) [
                        | inl c ↦ rw (a, b, c) (λ h. cc)
                        | inr c ↦ rw (a, b, c) (λ h. (refl, refl))
                      ]
              ]
      ]

-- After a minting, the token that it gave finds the new key until that expires, and every other token
-- finds what it found before, from the clock of the database on: a reclaimed name was that of no live key.
pub mint_api_key-find_live_api_key :
    (hash_token : String → String) (t : ApiKeys) (user_id : String) (opts : KeyOptions)
    (token : String) (max now db_now : ℕ) (row : ApiKeyRow) (presented : String) (at : ℕ)
    → (mint_api_key hash_token t user_id opts token max now db_now).1 ≡ minted row token
    → db_now ≤ at
    → find_live_api_key hash_token
        (mint_api_key hash_token t user_id opts token max now db_now).0
        presented
        at
      ≡ (if str_eq (hash_token token) (hash_token presented)
          then if unexpired at opts.expires_at
            then some (record { id = t.next_id; user_id = user_id; role = opts.role })
            else none
          else find_live_api_key hash_token t presented at)
unfolding find_live_api_key
mint_api_key-find_live_api_key hash_token t u opts token max now db_now row presented at h l =
    let (after, fresh) = mint_api_key_after hash_token t u opts token max now db_now row h in
    rw
      (
        after,
        find_key-append (λ k. has_hash (hash_token presented) k && is_live at k)
            (reclaimed t u opts.name now db_now).keys
            (new_key hash_token t.next_id u opts token db_now),
      )
      (elim (Bool-cases (str_eq (hash_token token) (hash_token presented))) [
        | inl e ↦
            rw (e, absent ((eq_iff (hash_token token) (hash_token presented)).0 e) fresh)
              (own (unexpired at opts.expires_at))
        | inr e ↦ rw e (
            or_last_none (
              find_key (λ k. has_hash (hash_token presented) k && is_live at k)
                (reclaimed t u opts.name now db_now).keys)
            ∙ find_key-map (λ k. has_hash (hash_token presented) k && is_live at k)
                (reclaim u opts.name now db_now) t.keys
                (λ k. reclaim_authenticates u opts.name (hash_token presented) now db_now at k l))
      ])
  where
    own :
        (b : Bool)
        → found (if b then some (new_key hash_token t.next_id u opts token db_now) else none)
          ≡ (if b then some (record { id = t.next_id; user_id = u; role = opts.role }) else none)
    own true = refl
    own false = refl

    absent :
        hash_token token ≡ hash_token presented
        → any (has_hash (hash_token token)) (reclaimed t u opts.name now db_now).keys ≡ false
        → find_key
            (λ k. has_hash (hash_token presented) k && is_live at k)
            (reclaimed t u opts.name now db_now).keys
          ≡ none
    absent e f =
        find_key_no_hash (hash_token presented) at (reclaimed t u opts.name now db_now).keys
          (subst (λ h. any (has_hash h) (reclaimed t u opts.name now db_now).keys ≡ false) e f)

    or_last_none : (o : Option ApiKey) → found (or_last o none) ≡ found o
    or_last_none none = refl
    or_last_none (some k) = refl
