-- ===== src/Members/Tests.antt =====
-- An organization with one owner and one member.
use ai.Common.{◌≡◌, refl, String, List, [], ◌∷◌}
use ai.Members.{
  Membership, refused, last_owner, set_member_role, find_member_by_user_id, count_owners,
}

abbrev member : String → String → Membership
member user_id role = record {
  org_id = "o";
  user_id = user_id;
  email = user_id;
  role = role;
  created_at = 1;
}

abbrev team : List Membership
team = member "a" "owner" ∷ member "b" "member" ∷ []

-- The only owner is not demoted.
last_owner-refused : set_member_role team "o" "a" "admin" ≡ refused last_owner
unfolding set_member_role find_member_by_user_id count_owners
last_owner-refused = refl
