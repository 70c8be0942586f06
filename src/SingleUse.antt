-- ===== src/SingleUse.antt =====
-- Credentials that are used once: packages/db/src/repositories/password-resets.ts and pairing.ts. A
-- redemption is two statements, a SELECT whose row is examined and an UPDATE, and those of two requests
-- may interleave: a statement sees what was committed before it. `token_hash` is the digest of a token.
pub mod Resets
pub mod Pairing
pub mod Tests
use ai.Common.{
  ℕ, suc, ◌+◌, String, str_eq, Bool, true, false, ◌&&◌, Option, none, some, List, [], ◌∷◌, ◌++◌,
  map, if◌then◌else◌, ltb, ◌==◌, any,
}

-- The reason of a refusal.
pub data Refusal : Type 0 where
  unknown consumed expired : Refusal

-- What examining the selected row comes to.
pub data Checked (R : Type 0) : Type 0 where
  refused : Refusal → Checked R
  passed : R → Checked R

pub record ResetToken : Type 0 where
  pub id : ℕ
  pub user_id : String
  pub token_hash : String
  pub expires_at : ℕ
  pub consumed_at : Option ℕ

pub record ResetTokens : Type 0 where
  pub rows : List ResetToken
  pub next_id : ℕ

abbrev pub is_unset : Option ℕ → Bool
is_unset none = true
is_unset (some t) = false

abbrev pub is_outstanding : String → ResetToken → Bool
is_outstanding user_id r = str_eq r.user_id user_id && is_unset r.consumed_at

abbrev pub retire : String → ℕ → ResetToken → ResetToken
retire user_id now r = if is_outstanding user_id r then record r { consumed_at = some now } else r

unfoldable pub create_password_reset : ResetTokens → String → String → ℕ → ℕ → ResetTokens
create_password_reset t user_id token_hash now ttl_ms = record {
  rows =
      map (retire user_id now) t.rows
      ++ record {
        id = t.next_id;
        user_id = user_id;
        token_hash = token_hash;
        expires_at = now + ttl_ms;
        consumed_at = none;
      }
        ∷ [];
  next_id = suc t.next_id;
}

unfoldable pub select_reset : String → List ResetToken → Option ResetToken
select_reset token_hash [] = none
select_reset token_hash (r ∷ rows) =
    if str_eq r.token_hash token_hash then some r else select_reset token_hash rows

-- The three tests, in their order.
abbrev pub check_reset : ℕ → Option ResetToken → Checked ResetToken
check_reset now none = refused unknown
check_reset now (some r) =
    if is_unset r.consumed_at
    then if ltb r.expires_at now then refused expired else passed r
    else refused consumed

-- The WHERE clause of the UPDATE.
abbrev pub is_unspent : ℕ → ResetToken → Bool
is_unspent id r = (r.id == id) && is_unset r.consumed_at

abbrev pub stamp_row : ℕ → ℕ → ResetToken → ResetToken
stamp_row id now r = if is_unspent id r then record r { consumed_at = some now } else r

-- The guarded UPDATE: the rows after it, and whether it returned one.
unfoldable pub stamp_reset : ResetTokens → ℕ → ℕ → ResetTokens × Bool
stamp_reset t id now =
    (record t { rows = map (stamp_row id now) t.rows }, any (is_unspent id) t.rows)

abbrev pub stamp_result : ResetToken → ResetTokens × Bool → ResetTokens × Checked String
stamp_result r (t, true) = (t, passed r.user_id)
stamp_result r (t, false) = (t, refused consumed)

abbrev pub finish_reset : ResetTokens → ℕ → Checked ResetToken → ResetTokens × Checked String
finish_reset t now (refused reason) = (t, refused reason)
finish_reset t now (passed r) = stamp_result r (stamp_reset t r.id now)

-- Both statements, nothing between them.
unfoldable pub consume_password_reset : ResetTokens → String → ℕ → ResetTokens × Checked String
unfolding select_reset stamp_reset
consume_password_reset t token_hash now =
    finish_reset t now (check_reset now (select_reset token_hash t.rows))
