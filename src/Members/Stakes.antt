-- ===== src/Members/Stakes.antt =====
-- What a change of one membership in packages/db/src/repositories/members.ts can cost an organization.
use ai.Common.{
  ℕ, ◌+◌, ◌≤◌, ◌≡◌, refl, String, str_eq, eq_iff, Bool, false, ◌&&◌, Option, none, some, List, [],
  ◌∷◌, arith, if◌then◌else◌, count, Bool-cases, and_false, inl, inr,
}
use ai.Members.{
  Membership, MemberRow, is_member, is_owner, find_member_by_user_id, update_role, delete_member,
}

-- Whether the row that was found is an owner's.
abbrev pub owns : Option MemberRow → Bool
owns none = false
owns (some r) = str_eq r.role "owner"

module _ (org_id user_id : String) where
  -- The owners of an organization that a change of the member could cost it.
  unfoldable pub at_stake : String → List Membership → ℕ
  at_stake o ms = count (λ m. is_member org_id user_id m && is_owner o m) ms

  pub at_stake-le :
      (o : String) (ms : List Membership) → at_stake o ms ≤ count (is_member org_id user_id) ms
  unfolding at_stake
  at_stake-le o [] = omega arith
  at_stake-le o (m ∷ ms) = ground (arith, at_stake-le o ms)

  pub at_stake-elsewhere :
      (o : String) (ms : List Membership) → str_eq org_id o ≡ false → at_stake o ms ≡ 0
  unfolding at_stake
  at_stake-elsewhere o [] h = refl
  at_stake-elsewhere o (m ∷ ms) h =
      ground (
        arith,
        at_stake-elsewhere o ms h,
        eq_iff m.org_id org_id,
        eq_iff m.org_id o,
        eq_iff org_id o,
      )

  pub at_stake-not_owner :
      (o : String) (ms : List Membership)
      → count (is_member org_id user_id) ms ≤ 1
      → owns (find_member_by_user_id ms org_id user_id) ≡ false
      → at_stake o ms ≡ 0
  unfolding at_stake find_member_by_user_id
  at_stake-not_owner o [] u h = refl
  at_stake-not_owner o (m ∷ ms) u h = elim (Bool-cases (is_member org_id user_id m)) [
    | inl e ↦ rw e (head (rw e at u) (rw e at h))
    | inr e ↦ rw e (omega (arith, at_stake-not_owner o ms (omega (arith, rw e at u)) (rw e at h)))
  ]
    where
      head :
          1 + count (is_member org_id user_id) ms ≤ 1
          → str_eq m.role "owner" ≡ false
          → (if is_owner o m then 1 else 0) + at_stake o ms ≡ 0
      head v g = rw (g, and_false (str_eq m.org_id o)) (omega (arith, at_stake-le o ms, v))

  pub owners-update_role :
      (o role : String) (ms : List Membership)
      → count (is_owner o) ms
        ≤ count (is_owner o) (update_role org_id user_id role ms) + at_stake o ms
  unfolding update_role at_stake
  owners-update_role o role [] = omega arith
  owners-update_role o role (m ∷ ms) = elim (Bool-cases (is_member org_id user_id m)) [
    | inl e ↦ rw e (ground (arith, owners-update_role o role ms))
    | inr e ↦ rw e (omega (arith, owners-update_role o role ms))
  ]

  pub owners-update_role_owner :
      (o : String) (ms : List Membership)
      → count (is_owner o) ms ≤ count (is_owner o) (update_role org_id user_id "owner" ms)
  unfolding update_role
  owners-update_role_owner o [] = omega arith
  owners-update_role_owner o (m ∷ ms) = elim (Bool-cases (is_member org_id user_id m)) [
    | inl e ↦ rw e (ground (arith, owners-update_role_owner o ms))
    | inr e ↦ rw e (omega (arith, owners-update_role_owner o ms))
  ]

  pub owners-delete_member :
      (o : String) (ms : List Membership)
      → count (is_owner o) ms ≤ count (is_owner o) (delete_member org_id user_id ms) + at_stake o ms
  unfolding delete_member at_stake
  owners-delete_member o [] = omega arith
  owners-delete_member o (m ∷ ms) = elim (Bool-cases (is_member org_id user_id m)) [
    | inl e ↦ rw e (ground (arith, owners-delete_member o ms))
    | inr e ↦ rw e (omega (arith, owners-delete_member o ms))
  ]

  pub members-update_role :
      (o u role : String) (ms : List Membership)
      → count (is_member o u) (update_role org_id user_id role ms) ≡ count (is_member o u) ms
  unfolding update_role
  members-update_role o u role [] = refl
  members-update_role o u role (m ∷ ms) = elim (Bool-cases (is_member org_id user_id m)) [
    | inl e ↦ rw e (omega (arith, members-update_role o u role ms))
    | inr e ↦ rw e (omega (arith, members-update_role o u role ms))
  ]

  pub members-delete_member :
      (o u : String) (ms : List Membership)
      → count (is_member o u) (delete_member org_id user_id ms) ≤ count (is_member o u) ms
  unfolding delete_member
  members-delete_member o u [] = omega arith
  members-delete_member o u (m ∷ ms) = ground (arith, members-delete_member o u ms)
