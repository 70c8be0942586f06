-- ===== src/Members/Owners.antt =====
-- Sequences of the calls of packages/db/src/repositories/members.ts.
use ai.Common.{◌≤◌, String, List, [], ◌∷◌, count}
use ai.Members.{Membership, Outcome, refused, done, is_member, set_member_role, remove_member}

-- The unique index on the organization and the user.
abbrev pub IsUnique : List Membership → Type 0
IsUnique ms = (org_id user_id : String) → count (is_member org_id user_id) ms ≤ 1

pub data MemberCall : Type 0 where
  sets_role : (org_id user_id role : String) → MemberCall
  removes : (org_id user_id : String) → MemberCall

abbrev pub table_after : {A : Type 0} → List Membership → Outcome A → List Membership
table_after ms (refused r) = ms
table_after ms (done a after) = after

unfoldable pub step : List Membership → MemberCall → List Membership
step ms (sets_role org_id user_id role) = table_after ms (set_member_role ms org_id user_id role)
step ms (removes org_id user_id) = table_after ms (remove_member ms org_id user_id)

unfoldable pub run : List Membership → List MemberCall → List Membership
run ms [] = ms
run ms (c ∷ cs) = run (step ms c) cs
