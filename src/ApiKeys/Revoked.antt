-- ===== src/ApiKeys/Revoked.antt =====
-- What a revocation ends for good: packages/db/src/repositories/api-keys.ts.
use ai.Common.{
  ℕ, ◌≤◌, ◌≡◌, refl, String, str_eq, Bool, true, false, ◌&&◌, Option, none, some, List, [], ◌∷◌,
  ◌++◌, map, if◌then◌else◌, any, leb, ltb, arith, inl, inr, Bool-cases, ◌==◌, eq_iff, subst,
}
use ai.ApiKeys.{
  ApiKey, ApiKeys, KeyOptions, Found, found, find_key, is_live, is_unrevoked, holds_name, has_hash,
  is_past, stamp_revoked, reclaim, reclaimed, new_key, create_api_key, minting, mint_api_key,
  count_live_api_keys, is_revocable, is_revocable_of, revoke_api_key, revoke_all_api_keys,
  touch_api_key_last_used, find_live_api_key,
}
use ai.ApiKeys.Calls.{Call, mints, revokes, revokes_all, touches, step, run}

-- A set of keys, by their id and their owner.
abbrev Keys : Type 0
Keys = ℕ → String → Bool

abbrev in_force : Keys → ApiKey → Bool
in_force g k = g k.id k.user_id && is_unrevoked k.revoked_at

-- No key of `g` is in force, and none will be given an id of it.
abbrev pub Ended : Keys → ApiKeys → Type 0
Ended g t =
    (any (in_force g) t.keys ≡ false) × ((i : ℕ) (u : String) → t.next_id ≤ i → g i u ≡ false)

any-map :
    (p : ApiKey → Bool) (f : ApiKey → ApiKey) (xs : List ApiKey)
    → ((x : ApiKey) → p x ≡ false → p (f x) ≡ false)
    → any p xs ≡ false
    → any p (map f xs) ≡ false
any-map p f [] h e = refl
any-map p f (x ∷ xs) h e = elim (Bool-cases (p x)) [
  | inl k ↦ cc
  | inr k ↦ rw (h x k) (any-map p f xs h (rw k at e))
]

any-append :
    (p : ApiKey → Bool) (xs : List ApiKey) (y : ApiKey)
    → any p xs ≡ false
    → p y ≡ false
    → any p (xs ++ y ∷ []) ≡ false
any-append p [] y e h = rw h refl
any-append p (x ∷ xs) y e h = elim (Bool-cases (p x)) [
  | inl k ↦ cc
  | inr k ↦ rw k (any-append p xs y (rw k at e) h)
]

stamped :
    (g : Keys) (b : Bool) (now : ℕ) (k : ApiKey)
    → in_force g k ≡ false
    → in_force g (if b then stamp_revoked now k else k) ≡ false
stamped g true now k h = ground arith
stamped g false now k h = h

touched :
    (g : Keys) (b : Bool) (now : ℕ) (k : ApiKey)
    → in_force g k ≡ false
    → in_force g (if b then record k { last_used_at = some now } else k) ≡ false
touched g true now k h = h
touched g false now k h = h

module _ (hash_token : String → String) (g : Keys) where
  reclaimed-Ended :
      (t : ApiKeys) (v name : String) (now db_now : ℕ)
      → Ended g t
      → Ended g (reclaimed t v name now db_now)
  reclaimed-Ended t v name now db_now h = (
    any-map (in_force g) (reclaim v name now db_now) t.keys
        (λ k. stamped g (holds_name v name k && is_past db_now k.expires_at) now k) h.0,
    h.1,
  )

  minting-Ended :
      (t r : ApiKeys) (v : String) (opts : KeyOptions) (token : String) (db_now : ℕ)
      → Ended g t
      → Ended g r
      → Ended g (minting hash_token t token (create_api_key hash_token r v opts token db_now)).0
  unfolding create_api_key
  minting-Ended t r v opts token db_now h k =
      elim (Bool-cases (any (has_hash (hash_token token)) r.keys)) [
        | inl e ↦ rw e h
        | inr e ↦ elim (Bool-cases (any (holds_name v opts.name) r.keys)) [
          | inl f ↦ rw (e, f) h
          | inr f ↦
              rw (e, f)
                (
                  any-append (in_force g) r.keys (new_key hash_token r.next_id v opts token db_now)
                      k.0 (rw (k.1 r.next_id v (omega arith)) refl),
                  λ i u l. k.1 i u (omega (arith, l)),
                )
        ]
      ]

  step-Ended :
      (max : ℕ) (t : ApiKeys) (now : ℕ) (c : Call)
      → Ended g t
      → Ended g (step hash_token max t now c)
  unfolding step mint_api_key revoke_api_key revoke_all_api_keys touch_api_key_last_used
  step-Ended max t now (mints v opts token db_now) h =
      elim (Bool-cases (leb max (count_live_api_keys t v now))) [
        | inl e ↦ rw (e, step) h
        | inr e ↦
            rw (e, step)
              (minting-Ended t (reclaimed t v opts.name now db_now) v opts token db_now h
                (reclaimed-Ended t v opts.name now db_now h))
      ]
  step-Ended max t now (revokes v id) h = (
    any-map (in_force g) (λ k. if is_revocable v id k then stamp_revoked now k else k) t.keys
        (λ k. stamped g (is_revocable v id k) now k) h.0,
    h.1,
  )
  step-Ended max t now (revokes_all v) h = (
    any-map (in_force g) (λ k. if is_revocable_of v k then stamp_revoked now k else k) t.keys
        (λ k. stamped g (is_revocable_of v k) now k) h.0,
    h.1,
  )
  step-Ended max t now (touches id) h = (
    any-map (in_force g) (λ k. if k.id == id then record k { last_used_at = some now } else k)
        t.keys (λ k. touched g (k.id == id) now k) h.0,
    h.1,
  )

  run-Ended :
      (max : ℕ) (cs : List (ℕ × Call)) (t : ApiKeys) → Ended g t → Ended g (run hash_token max t cs)
  run-Ended max [] t h = h
  run-Ended max ((now, c) ∷ cs) t h =
      run-Ended max cs (step hash_token max t now c) (step-Ended max t now c h)

find_key-some :
    (p q : ApiKey → Bool) (xs : List ApiKey) (k : Found)
    → found (find_key p xs) ≡ some k
    → any q xs ≡ false
    → (x : ApiKey) × ((found (some x) ≡ some k) × ((p x ≡ true) × (q x ≡ false)))
unfolding find_key
find_key-some p q [] k e h = cc
find_key-some p q (x ∷ xs) k e h = elim (Bool-cases (p x)) [
  | inl a ↦ (x, (rw a at e, (a, ground arith)))
  | inr a ↦ find_key-some p q xs k (rw a at e) (ground arith)
]

abbrev Outside : Keys → Option Found → Type 0
Outside g none = Unit
Outside g (some y) = g y.id y.user_id ≡ false

-- A key that authenticates is not of an ended set.
Ended-find_live_api_key :
    (hash_token : String → String) (g : Keys) (t : ApiKeys) (token : String) (at : ℕ) (k : Found)
    → Ended g t
    → find_live_api_key hash_token t token at ≡ some k
    → g k.id k.user_id ≡ false
unfolding find_live_api_key
Ended-find_live_api_key hash_token g t token at k h e =
    let (x, (f, (live, out))) =
      find_key-some (λ x. has_hash (hash_token token) x && is_live at x) (in_force g) t.keys k e
        h.0 in
    subst (Outside g) f (unrevoked x live out)
  where
    unrevoked :
        (x : ApiKey)
        → (has_hash (hash_token token) x && is_live at x) ≡ true
        → in_force g x ≡ false
        → g x.id x.user_id ≡ false
    unrevoked x live out = ground arith

abbrev all_before : ℕ → String → Keys
all_before n user_id i u = ltb i n && str_eq u user_id

revoke_all-Ended :
    (t : ApiKeys) (user_id : String) (now : ℕ)
    → Ended (all_before t.next_id user_id) (revoke_all_api_keys t user_id now).0
unfolding revoke_all_api_keys
revoke_all-Ended t user_id now = (every t.keys, λ i u l. later i u l)
  where
    later : (i : ℕ) (u : String) → t.next_id ≤ i → all_before t.next_id user_id i u ≡ false
    later i u l = ground arith

    stamped_one :
        (k : ApiKey) (b : Bool)
        → is_revocable_of user_id k ≡ b
        → in_force (all_before t.next_id user_id) (if b then stamp_revoked now k else k) ≡ false
    stamped_one k true e = ground arith
    stamped_one k false e = ground arith

    every :
        (xs : List ApiKey)
        → any
            (in_force (all_before t.next_id user_id))
            (map (λ k. if is_revocable_of user_id k then stamp_revoked now k else k) xs)
          ≡ false
    every [] = refl
    every (k ∷ xs) = rw (stamped_one k (is_revocable_of user_id k) refl) (every xs)

-- Once all keys of a user are revoked, no key that the user had authenticates again, whatever calls
-- follow: a key of the user that a token finds was minted afterwards.
pub revoke_all_api_keys-find_live_api_key :
    (hash_token : String → String) (max : ℕ) (t : ApiKeys) (user_id : String) (now : ℕ)
    (cs : List (ℕ × Call)) (token : String) (at : ℕ) (k : Found)
    → find_live_api_key hash_token
        (run hash_token max (revoke_all_api_keys t user_id now).0 cs)
        token
        at
      ≡ some k
    → k.user_id ≡ user_id
    → t.next_id ≤ k.id
revoke_all_api_keys-find_live_api_key hash_token max t user_id now cs token at k e u = after (
    Ended-find_live_api_key hash_token (all_before t.next_id user_id)
      (run hash_token max (revoke_all_api_keys t user_id now).0 cs) token at k
      (run-Ended hash_token (all_before t.next_id user_id) max cs
        (revoke_all_api_keys t user_id now).0 (revoke_all-Ended t user_id now))
      e)
  where
    after : all_before t.next_id user_id k.id k.user_id ≡ false → t.next_id ≤ k.id
    after h =
        let same : str_eq k.user_id user_id ≡ true = (eq_iff k.user_id user_id).1 u in ground arith
