-- ===== src/ApiKeys/Cap.antt =====
-- The bound on the live keys of a user: packages/db/src/repositories/api-keys.ts.
use ai.Common.{
  ℕ, suc, ◌+◌, ◌≤◌, ◌≡◌, refl, String, str_eq, Bool, true, false, ◌&&◌, Option, none, some, List,
  [], ◌∷◌, map, if◌then◌else◌, count, any, count-append, leb, arith, inl, inr, Bool-cases, ◌==◌,
  subst, eq_iff,
}
use ai.ApiKeys.{
  ApiKey, ApiKeys, KeyOptions, is_live_of, unexpired, count_live_api_keys, holds_name, has_hash,
  is_past, stamp_revoked, reclaim, reclaimed, new_key, with_key, create_api_key, minting,
  mint_api_key, refused, at_capacity, is_revocable, is_revocable_of, revoke_api_key,
  revoke_all_api_keys, touch_api_key_last_used,
}
use ai.ApiKeys.Calls.{Call, mints, revokes, revokes_all, touches, step, run}

count-map-le :
    (p q : ApiKey → Bool) (f : ApiKey → ApiKey) (xs : List ApiKey)
    → ((x : ApiKey) → p (f x) ≡ true → q x ≡ true)
    → count p (map f xs) ≤ count q xs
count-map-le p q f [] h = omega arith
count-map-le p q f (x ∷ xs) h = elim (Bool-cases (p (f x))) [
  | inl e ↦ rw (e, h x e) (omega (arith, count-map-le p q f xs h))
  | inr e ↦ rw e (ground (arith, count-map-le p q f xs h))
]

count-imp-le :
    (p q : ApiKey → Bool) (xs : List ApiKey)
    → ((x : ApiKey) → p x ≡ true → q x ≡ true)
    → count p xs ≤ count q xs
count-imp-le p q [] h = omega arith
count-imp-le p q (x ∷ xs) h = elim (Bool-cases (p x)) [
  | inl e ↦ rw (e, h x e) (omega (arith, count-imp-le p q xs h))
  | inr e ↦ rw e (ground (arith, count-imp-le p q xs h))
]

-- A stamped key is not live.
stamp_revoked-if :
    (b : Bool) (at now : ℕ) (u : String) (k : ApiKey)
    → is_live_of now u (if b then stamp_revoked at k else k) ≡ true
    → is_live_of now u k ≡ true
stamp_revoked-if true at now u k h = ground arith
stamp_revoked-if false at now u k h = h

touched_live :
    (b : Bool) (at now : ℕ) (u : String) (k : ApiKey)
    → is_live_of now u (if b then record k { last_used_at = some at } else k) ≡ true
    → is_live_of now u k ≡ true
touched_live true at now u k h = h
touched_live false at now u k h = h

-- A key that is live later is live before.
unexpired_before :
    (now later : ℕ) (e : Option ℕ) → now ≤ later → unexpired later e ≡ true → unexpired now e ≡ true
unexpired_before now later none h k = refl
unexpired_before now later (some t) h k = ground arith

live_before :
    (now later : ℕ) (u : String) (k : ApiKey)
    → now ≤ later
    → is_live_of later u k ≡ true
    → is_live_of now u k ≡ true
live_before now later u k h e = elim (Bool-cases (unexpired later k.expires_at)) [
  | inl f ↦ rw (unexpired_before now later k.expires_at h f) (rw f at e)
  | inr f ↦ ground arith
]

reclaimed_live :
    (t : ApiKeys) (v name : String) (now db_now : ℕ) (u : String)
    → count (is_live_of now u) (reclaimed t v name now db_now).keys
      ≤ count (is_live_of now u) t.keys
reclaimed_live t v name now db_now u =
    count-map-le (is_live_of now u) (is_live_of now u) (reclaim v name now db_now) t.keys
      (λ k. stamp_revoked-if (holds_name v name k && is_past db_now k.expires_at) now now u k)

module _ (hash_token : String → String) where
  -- An insertion adds a live key to its owner alone, and keeps the others.
  with_key_live :
      (t : ApiKeys) (v : String) (opts : KeyOptions) (token : String) (db_now now : ℕ) (u : String)
      → count
          (is_live_of now u)
          (with_key hash_token t (new_key hash_token t.next_id v opts token db_now)).keys
        ≤ count (is_live_of now u) t.keys + (if str_eq v u then 1 else 0)
  with_key_live t v opts token db_now now u =
      rw
        (count-append (is_live_of now u) t.keys
          (new_key hash_token t.next_id v opts token db_now ∷ []))
        (elim (Bool-cases (str_eq v u)) [
          | inl e ↦ rw e (ground arith)
          | inr e ↦ rw e (ground arith)
        ])

  minting_capped :
      (max : ℕ) (t r : ApiKeys) (v : String) (opts : KeyOptions) (token : String) (db_now now : ℕ)
      (u : String)
      → count (is_live_of now u) t.keys ≤ max
      → count (is_live_of now u) r.keys + (if str_eq v u then 1 else 0) ≤ max
      → count
          (is_live_of now u)
          (minting hash_token t token (create_api_key hash_token r v opts token db_now)).0.keys
        ≤ max
  unfolding create_api_key
  minting_capped max t r v opts token db_now now u h k =
      elim (Bool-cases (any (has_hash (hash_token token)) r.keys)) [
        | inl e ↦ rw e h
        | inr e ↦ elim (Bool-cases (any (holds_name v opts.name) r.keys)) [
          | inl f ↦ rw (e, f) h
          | inr f ↦ rw (e, f) (omega (arith, with_key_live r v opts token db_now now u, k))
        ]
      ]

  -- Below the capacity there is room for one key of the user.
  room :
      (max : ℕ) (t : ApiKeys) (v name : String) (now db_now : ℕ) (u : String)
      → leb max (count (is_live_of now v) t.keys) ≡ false
      → count (is_live_of now u) t.keys ≤ max
      → count (is_live_of now u) (reclaimed t v name now db_now).keys
          + (if str_eq v u then 1 else 0)
        ≤ max
  room max t v name now db_now u e h = elim (Bool-cases (str_eq v u)) [
    | inl f ↦
        let below : suc (count (is_live_of now u) t.keys) ≤ max =
          subst (λ w. suc (count (is_live_of now w) t.keys) ≤ max) ((eq_iff v u).0 f)
            (lt_of (count (is_live_of now v) t.keys) e) in
        rw f (omega (arith, below, reclaimed_live t v name now db_now u))
    | inr f ↦ rw f (omega (arith, h, reclaimed_live t v name now db_now u))
  ]
    where
      lt_of : (n : ℕ) → leb max n ≡ false → suc n ≤ max
      lt_of n g = ground arith

  step_capped :
      (max : ℕ) (t : ApiKeys) (now : ℕ) (c : Call) (u : String)
      → count (is_live_of now u) t.keys ≤ max
      → count (is_live_of now u) (step hash_token max t now c).keys ≤ max
  unfolding step mint_api_key count_live_api_keys revoke_api_key revoke_all_api_keys
      touch_api_key_last_used
  step_capped max t now (mints v opts token db_now) u h =
      gate (leb max (count (is_live_of now v) t.keys)) refl
    where
      gate :
          (b : Bool)
          → leb max (count (is_live_of now v) t.keys) ≡ b
          → count
              (is_live_of now u)
              (if b
                then (t, refused at_capacity)
                else minting hash_token t token (
                    create_api_key hash_token
                      (reclaimed t v opts.name now db_now)
                      v
                      opts
                      token
                      db_now)).0.keys
            ≤ max
      gate true e = h
      gate false e =
          minting_capped max t (reclaimed t v opts.name now db_now) v opts token db_now now u h
            (room max t v opts.name now db_now u e h)
  step_capped max t now (revokes v id) u h = omega (
    arith,
    h,
    count-map-le (is_live_of now u) (is_live_of now u)
        (λ k. if is_revocable v id k then stamp_revoked now k else k) t.keys
        (λ k. stamp_revoked-if (is_revocable v id k) now now u k),
  )
  step_capped max t now (revokes_all v) u h = omega (
    arith,
    h,
    count-map-le (is_live_of now u) (is_live_of now u)
        (λ k. if is_revocable_of v k then stamp_revoked now k else k) t.keys
        (λ k. stamp_revoked-if (is_revocable_of v k) now now u k),
  )
  step_capped max t now (touches id) u h = omega (
    arith,
    h,
    count-map-le (is_live_of now u) (is_live_of now u)
        (λ k. if k.id == id then record k { last_used_at = some now } else k) t.keys
        (λ k. touched_live (k.id == id) now now u k),
  )

-- The clock does not go back, from `start` to `end`.
abbrev pub Runs : ℕ → List (ℕ × Call) → ℕ → Type 0
Runs start [] end = start ≤ end
Runs start ((now, c) ∷ cs) end = (start ≤ now) × Runs now cs end

-- However the clock of the process runs forward over any mintings, revocations and uses of keys of any users,
-- no user that starts with at most `max` live keys ever has more than `max` of them.
pub run_capped :
    (hash_token : String → String) (max : ℕ) (cs : List (ℕ × Call)) (t : ApiKeys) (start end : ℕ)
    (u : String)
    → Runs start cs end
    → count_live_api_keys t u start ≤ max
    → count_live_api_keys (run hash_token max t cs) u end ≤ max
unfolding count_live_api_keys
run_capped hash_token max [] t start end u r h = omega (
  arith,
  h,
  count-imp-le (is_live_of end u) (is_live_of start u) t.keys (λ k. live_before start end u k r),
)
run_capped hash_token max ((now, c) ∷ cs) t start end u r h =
    run_capped hash_token max cs (step hash_token max t now c) now end u r.1 (
      step_capped hash_token max t now c u (
        omega (
          arith,
          h,
          count-imp-le (is_live_of now u) (is_live_of start u) t.keys
              (λ k. live_before start now u k r.0),
        )))
