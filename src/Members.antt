-- ===== src/Members.antt =====
-- packages/db/src/repositories/members.ts and packages/shared/src/roles.ts: the members of organizations,
-- their roles, and the changes that a transaction makes to them. A row of `memberships` carries the
-- email of its user: the foreign key gives every membership its user. A call that throws rolls back.
pub mod Stakes
pub mod Owners
pub mod Roles
pub mod Tests
use ai.Common.{
  ℕ, String, str_eq, Bool, true, false, ◌&&◌, not, Option, none, some, List, [], ◌∷◌, leb, ◌==◌,
  if◌then◌else◌, count, keep, length, any,
}

pub record Membership : Type 0 where
  pub org_id : String
  pub user_id : String
  pub email : String
  pub role : String
  pub created_at : ℕ

pub record MemberRow : Type 0 where
  pub user_id : String
  pub email : String
  pub role : String
  pub joined_at : ℕ

pub data Reason : Type 0 where
  last_owner not_a_member : Reason

-- A refusal, or a result and the table after it.
pub data Outcome (A : Type 0) : Type 0 where
  refused : Reason → Outcome A
  done : A → List Membership → Outcome A

abbrev pub member_row : Membership → MemberRow
member_row m = record {
  user_id = m.user_id;
  email = m.email;
  role = m.role;
  joined_at = m.created_at;
}

abbrev pub is_member : String → String → Membership → Bool
is_member org_id user_id m = str_eq m.org_id org_id && str_eq m.user_id user_id

abbrev pub is_owner : String → Membership → Bool
is_owner org_id m = str_eq m.org_id org_id && str_eq m.role "owner"

unfoldable pub find_member_by_user_id : List Membership → String → String → Option MemberRow
find_member_by_user_id [] org_id user_id = none
find_member_by_user_id (m ∷ ms) org_id user_id =
    if is_member org_id user_id m
    then some (member_row m)
    else find_member_by_user_id ms org_id user_id

unfoldable pub count_owners : List Membership → String → ℕ
count_owners ms org_id = length (keep (is_owner org_id) ms)

unfoldable pub update_role : String → String → String → List Membership → List Membership
update_role org_id user_id role [] = []
update_role org_id user_id role (m ∷ ms) =
    (if is_member org_id user_id m then record m { role = role } else m)
    ∷ update_role org_id user_id role ms

unfoldable pub delete_member : String → String → List Membership → List Membership
delete_member org_id user_id [] = []
delete_member org_id user_id (m ∷ ms) =
    if is_member org_id user_id m
    then delete_member org_id user_id ms
    else m ∷ delete_member org_id user_id ms

abbrev pub set_existing_role :
    Option MemberRow → List Membership → String → String → String → Outcome MemberRow
set_existing_role none ms org_id user_id role = refused not_a_member
set_existing_role (some existing) ms org_id user_id role =
    if str_eq existing.role "owner" && (not (str_eq role "owner") && (count_owners ms org_id == 1))
    then refused last_owner
    else done (record existing { role = role }) (update_role org_id user_id role ms)

unfoldable pub set_member_role : List Membership → String → String → String → Outcome MemberRow
set_member_role ms org_id user_id role =
    set_existing_role (find_member_by_user_id ms org_id user_id) ms org_id user_id role

abbrev pub remove_existing : Option MemberRow → List Membership → String → String → Outcome Bool
remove_existing none ms org_id user_id = done false ms
remove_existing (some existing) ms org_id user_id =
    if str_eq existing.role "owner" && (count_owners ms org_id == 1)
    then refused last_owner
    else done (any (is_member org_id user_id) ms) (delete_member org_id user_id ms)

unfoldable pub remove_member : List Membership → String → String → Outcome Bool
remove_member ms org_id user_id =
    remove_existing (find_member_by_user_id ms org_id user_id) ms org_id user_id

abbrev pub role_rank : String → Option ℕ
role_rank role =
    if str_eq role "viewer"
    then some 0
    else if str_eq role "member"
    then some 1
    else if str_eq role "admin"
    then some 2
    else if str_eq role "owner"
    then some 3
    else none

abbrev pub at_least : Option ℕ → Option ℕ → Bool
at_least none m = false
at_least (some r) none = false
at_least (some r) (some m) = leb m r

-- `hasRole`: a text that is no role has no rank, and is refused.
unfoldable pub has_role : (role minimum : String) → Bool
has_role role minimum = at_least (role_rank role) (role_rank minimum)
