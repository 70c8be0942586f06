-- ===== src/Members/Roles.antt =====
-- `hasRole` of packages/shared/src/roles.ts.
use ai.Common.{ℕ, ◌≡◌, refl, String, true, false, Option, none, some, arith}
use ai.Members.{role_rank, at_least, has_role}

at_least-le : (r m n : Option ℕ) → at_least r m ≡ true → at_least m n ≡ true → at_least r n ≡ true
at_least-le none m n h g = cc
at_least-le (some r) none n h g = cc
at_least-le (some r) (some m) none h g = cc
at_least-le (some r) (some m) (some n) h g = ground arith

-- A role that suffices for a minimum suffices for every lower one; a text that is no role, like the
-- service role, suffices for none and is no minimum.
pub has_role_order :
    (role minimum lower text : String)
    → has_role role minimum ≡ true
    → has_role minimum lower ≡ true
    → role_rank text ≡ none
    → (has_role role lower ≡ true) × (has_role text minimum ≡ false) × (has_role role text ≡ false)
unfolding has_role
has_role_order role minimum lower text h g n = (
  at_least-le (role_rank role) (role_rank minimum) (role_rank lower) h g,
  rw n refl,
  rw n (no_minimum (role_rank role)),
)
  where
    no_minimum : (r : Option ℕ) → at_least r none ≡ false
    no_minimum none = refl
    no_minimum (some r) = refl
