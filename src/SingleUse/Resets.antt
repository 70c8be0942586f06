-- ===== src/SingleUse/Resets.antt =====
-- Requests on reset tokens whose statements interleave: packages/db/src/repositories/password-resets.ts.
use ai.Common.{
  ℕ, ◌+◌, ◌-◌, ◌≤◌, ◌<◌, ◌≡◌, refl, subst, value_or, String, str_eq, Bool, true, false, Option,
  none, some, List, [], ◌∷◌, ◌++◌, map, arith, inl, inr, eq_iff, Bool-cases, if◌then◌else◌, ltb,
  ◌==◌, any, count, count-append, All, All-append, All-imp,
}
use ai.SingleUse.{
  Checked, refused, passed, ResetToken, ResetTokens, is_unset, is_outstanding, retire,
  create_password_reset, select_reset, check_reset, is_unspent, stamp_row, stamp_reset,
}

-- The table, the rows that the open requests have read, and the rows whose redemptions succeeded.
pub record Flow : Type 0 where
  pub tokens : ResetTokens
  pub read : List ResetToken
  pub won : List ℕ

-- One statement: a request is created, or one reads, or the one that read the `n`-th row writes. A request
-- that passed its tests may write at any later time, here even several times.
pub data Move : Type 0 where
  creates : String → String → ℕ → ℕ → Move
  reads : String → ℕ → Move
  writes : ℕ → ℕ → Move

abbrev pub nth : ℕ → List ResetToken → Option ResetToken
nth n [] = none
nth n (r ∷ rs) = if n == 0 then some r else nth (n - 1) rs

abbrev pub keep_read : Flow → Checked ResetToken → Flow
keep_read f (refused reason) = f
keep_read f (passed r) = record f { read = f.read ++ r ∷ [] }

abbrev pub settle_write : Flow → ℕ → ResetTokens × Bool → Flow
settle_write f id (t, true) = record f { tokens = t; won = id ∷ f.won }
settle_write f id (t, false) = record f { tokens = t }

abbrev pub write_row : Flow → ℕ → Option ResetToken → Flow
write_row f now none = f
write_row f now (some r) = settle_write f r.id (stamp_reset f.tokens r.id now)

unfoldable pub move : Flow → Move → Flow
unfolding create_password_reset select_reset stamp_reset
move f (creates user_id token_hash now ttl_ms) = record f {
  tokens = create_password_reset f.tokens user_id token_hash now ttl_ms;
}
move f (reads token_hash now) =
    keep_read f (check_reset now (select_reset token_hash f.tokens.rows))
move f (writes n now) = write_row f now (nth n f.read)

abbrev pub moves : Flow → List Move → Flow
moves f [] = f
moves f (m ∷ ms) = moves (move f m) ms

abbrev pub times_won : ℕ → Flow → ℕ
times_won id f = count (λ i. i == id) f.won

abbrev pub outstanding : String → Flow → ℕ
outstanding user_id f = count (is_outstanding user_id) f.tokens.rows

-- A token is unspent, or was won once, or neither; a user has one live token at most.
record Invariant (f : Flow) : Type 0 where
  pub once : (id : ℕ) → times_won id f + count (is_unspent id) f.tokens.rows ≤ 1
  pub one_live : (user_id : String) → outstanding user_id f ≤ 1
  pub rows_below : All (λ r. r.id < f.tokens.next_id) f.tokens.rows
  pub won_below : All (λ i. i < f.tokens.next_id) f.won
  pub read_below : All (λ r. r.id < f.tokens.next_id) f.read

count-stamp_row :
    (id now other : ℕ) (rows : List ResetToken)
    → count (is_unspent other) (map (stamp_row id now) rows)
      ≡ (if id == other then 0 else count (is_unspent other) rows)
count-stamp_row id now other [] = ground arith
count-stamp_row id now other (r ∷ rows) = ground (arith, count-stamp_row id now other rows)

outstanding-stamp_row :
    (id now : ℕ) (user_id : String) (rows : List ResetToken)
    → count (is_outstanding user_id) (map (stamp_row id now) rows)
      ≤ count (is_outstanding user_id) rows
outstanding-stamp_row id now user_id [] = omega arith
outstanding-stamp_row id now user_id (r ∷ rows) =
    ground (arith, outstanding-stamp_row id now user_id rows)

any-count :
    (id : ℕ) (rows : List ResetToken)
    → any (is_unspent id) rows ≡ true
    → 1 ≤ count (is_unspent id) rows
any-count id [] e = cc
any-count id (r ∷ rows) e = ground (arith, any-count id rows)

retire-unspent :
    (user_id : String) (now id : ℕ) (rows : List ResetToken)
    → count (is_unspent id) (map (retire user_id now) rows) ≤ count (is_unspent id) rows
retire-unspent user_id now id [] = omega arith
retire-unspent user_id now id (r ∷ rows) = ground (arith, retire-unspent user_id now id rows)

retire-outstanding :
    (user_id : String) (now : ℕ) (other : String) (rows : List ResetToken)
    → count (is_outstanding other) (map (retire user_id now) rows)
      ≡ (if str_eq user_id other then 0 else count (is_outstanding other) rows)
retire-outstanding user_id now other [] = ground arith
retire-outstanding user_id now other (r ∷ rows) = ground (
  arith,
  eq_iff user_id other,
  eq_iff r.user_id user_id,
  eq_iff r.user_id other,
  retire-outstanding user_id now other rows,
)

unspent-below :
    (n : ℕ) (rows : List ResetToken) → All (λ r. r.id < n) rows → count (is_unspent n) rows ≡ 0
unspent-below n [] h = refl
unspent-below n (r ∷ rows) h = ground (arith, h.0, unspent-below n rows h.1)

won-below : (n : ℕ) (ids : List ℕ) → All (λ i. i < n) ids → count (λ i. i == n) ids ≡ 0
won-below n [] h = refl
won-below n (i ∷ ids) h = ground (arith, h.0, won-below n ids h.1)

All-map_ids :
    (f : ResetToken → ResetToken) (n : ℕ) (rows : List ResetToken)
    → ((r : ResetToken) → (f r).id ≡ r.id)
    → All (λ r. r.id < n) rows
    → All (λ r. r.id < n) (map f rows)
All-map_ids f n [] e h = tt
All-map_ids f n (r ∷ rows) e h = (rw (e r) h.0, All-map_ids f n rows e h.1)

id-retire : (user_id : String) (now : ℕ) (r : ResetToken) → (retire user_id now r).id ≡ r.id
id-retire user_id now r = elim (Bool-cases (is_outstanding user_id r)) [
  | inl e ↦ rw e refl
  | inr e ↦ rw e refl
]

id-stamp_row : (id now : ℕ) (r : ResetToken) → (stamp_row id now r).id ≡ r.id
id-stamp_row id now r = elim (Bool-cases (is_unspent id r)) [
  | inl e ↦ rw e refl
  | inr e ↦ rw e refl
]

creates-Invariant :
    (f : Flow) (user_id token_hash : String) (now ttl_ms : ℕ)
    → Invariant f
    → Invariant (move f (creates user_id token_hash now ttl_ms))
unfolding move create_password_reset
creates-Invariant f user_id token_hash now ttl_ms v = record {
  once = λ id. ground (
    arith,
    v.once id,
    count-append (is_unspent id) kept (row ∷ []),
    retire-unspent user_id now id f.tokens.rows,
    retire-unspent user_id now f.tokens.next_id f.tokens.rows,
    unspent-below f.tokens.next_id f.tokens.rows v.rows_below,
    won-below f.tokens.next_id f.won v.won_below,
  );
  one_live = λ other. ground (
    arith,
    v.one_live other,
    count-append (is_outstanding other) kept (row ∷ []),
    eq_iff user_id other,
    retire-outstanding user_id now other f.tokens.rows,
  );
  rows_below =
      All-append _ kept (row ∷ [])
        (All-imp _ _ kept (λ r below. omega arith)
          (All-map_ids (retire user_id now) f.tokens.next_id f.tokens.rows (id-retire user_id now)
            v.rows_below))
        (omega arith, tt);
  won_below = All-imp _ _ f.won (λ i below. omega arith) v.won_below;
  read_below = All-imp _ _ f.read (λ r below. omega arith) v.read_below;
}
  where
    kept : List ResetToken
    kept = map (retire user_id now) f.tokens.rows

    row : ResetToken
    row = record {
      id = f.tokens.next_id;
      user_id = user_id;
      token_hash = token_hash;
      expires_at = now + ttl_ms;
      consumed_at = none;
    }

-- The guarded UPDATE wins exactly if the row was unspent, which it is not afterwards.
writes-Invariant :
    (f : Flow) (id now : ℕ)
    → id < f.tokens.next_id
    → Invariant f
    → Invariant (settle_write f id (stamp_reset f.tokens id now))
unfolding stamp_reset
writes-Invariant f id now below v = by_match (any (is_unspent id) f.tokens.rows) refl
  where
    rows : List ResetToken
    rows = map (stamp_row id now) f.tokens.rows

    by_match :
        (b : Bool)
        → any (is_unspent id) f.tokens.rows ≡ b
        → Invariant
            (settle_write f id (record f.tokens { rows = map (stamp_row id now) f.tokens.rows }, b))
    by_match true e = record {
      once = λ other. ground (
        arith,
        v.once other,
        count-stamp_row id now other f.tokens.rows,
        any-count id f.tokens.rows e,
      );
      one_live = λ u. omega (arith, v.one_live u, outstanding-stamp_row id now u f.tokens.rows);
      rows_below =
          All-map_ids (stamp_row id now) f.tokens.next_id f.tokens.rows (id-stamp_row id now)
            v.rows_below;
      won_below = (below, v.won_below);
      read_below = v.read_below;
    }
    by_match false e = record {
      once = λ other. ground (arith, v.once other, count-stamp_row id now other f.tokens.rows);
      one_live = λ u. omega (arith, v.one_live u, outstanding-stamp_row id now u f.tokens.rows);
      rows_below =
          All-map_ids (stamp_row id now) f.tokens.next_id f.tokens.rows (id-stamp_row id now)
            v.rows_below;
      won_below = v.won_below;
      read_below = v.read_below;
    }

-- A row that a SELECT returns is in the table; one that the tests pass is the row selected.
select-below :
    (token_hash : String) (n : ℕ) (rows : List ResetToken) (r : ResetToken)
    → All (λ q. q.id < n) rows
    → select_reset token_hash rows ≡ some r
    → r.id < n
unfolding select_reset
select-below token_hash n [] r h e = cc
select-below token_hash n (q ∷ rows) r h e = elim (Bool-cases (str_eq q.token_hash token_hash)) [
  | inl t ↦ subst (λ o. value_or (map_option o) 0 < n) (rw t at e) h.0
  | inr t ↦ select-below token_hash n rows r h.1 (rw t at e)
]
  where
    map_option : Option ResetToken → Option ℕ
    map_option none = none
    map_option (some x) = some x.id

keep_read-Invariant :
    (f : Flow) (now : ℕ) (o : Option ResetToken)
    → ((r : ResetToken) → o ≡ some r → r.id < f.tokens.next_id)
    → Invariant f
    → Invariant (keep_read f (check_reset now o))
keep_read-Invariant f now none below v = v
keep_read-Invariant f now (some r) below v = elim (Bool-cases (is_unset r.consumed_at)) [
  | inr e ↦ rw e v
  | inl e ↦ rw e (elim (Bool-cases (ltb r.expires_at now)) [
    | inl g ↦ rw g v
    | inr g ↦ rw g (record {
      once = v.once;
      one_live = v.one_live;
      rows_below = v.rows_below;
      won_below = v.won_below;
      read_below = All-append _ f.read (r ∷ []) v.read_below (below r refl, tt);
    })
  ])
]

write_row-Invariant :
    (f : Flow) (now n : ℕ) (rs : List ResetToken)
    → All (λ r. r.id < f.tokens.next_id) rs
    → Invariant f
    → Invariant (write_row f now (nth n rs))
write_row-Invariant f now n [] h v = v
write_row-Invariant f now n (r ∷ rs) h v = elim (Bool-cases (n == 0)) [
  | inl e ↦ rw e (writes-Invariant f r.id now h.0 v)
  | inr e ↦ rw e (write_row-Invariant f now (n - 1) rs h.1 v)
]

move-Invariant : (f : Flow) (m : Move) → Invariant f → Invariant (move f m)
unfolding move
move-Invariant f (creates user_id token_hash now ttl_ms) v =
    creates-Invariant f user_id token_hash now ttl_ms v
move-Invariant f (reads token_hash now) v =
    keep_read-Invariant f now (select_reset token_hash f.tokens.rows)
      (λ r e. select-below token_hash f.tokens.next_id f.tokens.rows r v.rows_below e) v
move-Invariant f (writes n now) v = write_row-Invariant f now n f.read v.read_below v

moves-Invariant : (ms : List Move) (f : Flow) → Invariant f → Invariant (moves f ms)
moves-Invariant [] f v = v
moves-Invariant (m ∷ ms) f v = moves-Invariant ms (move f m) (move-Invariant f m v)

abbrev pub no_tokens : Flow
no_tokens = record { tokens = record { rows = []; next_id = 0 }; read = []; won = [] }

-- However the statements of requests interleave, each reset token is redeemed at most once, and a user
-- has at most one token that is not consumed.
pub moves-once :
    (ms : List Move)
    → ((id : ℕ) → times_won id (moves no_tokens ms) ≤ 1)
      × ((user_id : String) → outstanding user_id (moves no_tokens ms) ≤ 1)
moves-once ms =
    let v = moves-Invariant ms no_tokens none_won in (λ id. omega (arith, v.once id), v.one_live)
  where
    none_won : Invariant no_tokens
    none_won = record {
      once = λ id. omega arith;
      one_live = λ user_id. omega arith;
      rows_below = tt;
      won_below = tt;
      read_below = tt;
    }
