-- ===== src/SingleUse/Pairing.antt =====
-- packages/db/src/repositories/pairing.ts: the codes that pair a machine. `code` is the primary key.
use ai.Common.{
  ℕ, ◌+◌, ◌≤◌, ◌≡◌, refl, ap, String, str_eq, false, Option, none, some, List, [], ◌∷◌, ◌++◌, map,
  arith, inl, inr, Bool-cases, if◌then◌else◌, ltb,
}
use ai.SingleUse.{unknown, consumed, expired, Checked, refused, passed, is_unset}

pub record PairingCode : Type 0 where
  pub code : String
  pub org_id : String
  pub user_id : String
  pub expires_at : ℕ
  pub consumed_at : Option ℕ

abbrev pub pairing_ttl_ms : ℕ
pairing_ttl_ms = 900_000

-- The organization is the one of the user that the code is for, and the code is random.
unfoldable pub create_pairing_code :
    List PairingCode → String → String → String → ℕ → ℕ → List PairingCode
create_pairing_code rows code org_id user_id now ttl_ms =
    rows
    ++ record {
      code = code;
      org_id = org_id;
      user_id = user_id;
      expires_at = now + ttl_ms;
      consumed_at = none;
    }
      ∷ []

unfoldable pub select_code : String → List PairingCode → Option PairingCode
select_code code [] = none
select_code code (r ∷ rows) = if str_eq r.code code then some r else select_code code rows

abbrev pub check_code : ℕ → Option PairingCode → Checked PairingCode
check_code now none = refused unknown
check_code now (some r) =
    if is_unset r.consumed_at
    then if ltb r.expires_at now then refused expired else passed r
    else refused consumed

abbrev pub consume_code : String → ℕ → PairingCode → PairingCode
consume_code code now r = if str_eq r.code code then record r { consumed_at = some now } else r

-- The UPDATE, whose WHERE clause is the code alone.
unfoldable pub stamp_code : String → ℕ → List PairingCode → List PairingCode
stamp_code code now rows = map (consume_code code now) rows

-- The user and the organization of the code.
pub record Redeemed : Type 0 where
  pub user_id : String
  pub org_id : String

abbrev pub finish_code :
    String → ℕ → List PairingCode → Checked PairingCode → List PairingCode × Checked Redeemed
finish_code code now rows (refused reason) = (rows, refused reason)
finish_code code now rows (passed r) =
    (stamp_code code now rows, passed (record { user_id = r.user_id; org_id = r.org_id }))

-- Both statements, nothing between them.
unfoldable pub redeem_pairing_code :
    List PairingCode → String → ℕ → List PairingCode × Checked Redeemed
unfolding select_code stamp_code
redeem_pairing_code rows code now =
    finish_code code now rows (check_code now (select_code code rows))

-- Two redemptions whose statements interleave: both read, then both write.
unfoldable pub redeem_overlapping :
    List PairingCode → String → ℕ → ℕ → Checked Redeemed × Checked Redeemed
unfolding select_code stamp_code
redeem_overlapping rows code now later =
    let first = finish_code code now rows (check_code now (select_code code rows)) in
    let second = finish_code code later first.0 (check_code later (select_code code rows)) in
    (first.1, second.1)

select-stamp :
    (code : String) (now : ℕ) (rows : List PairingCode) (r : PairingCode)
    → select_code code rows ≡ some r
    → select_code code (stamp_code code now rows) ≡ some (record r { consumed_at = some now })
unfolding select_code stamp_code
select-stamp code now [] r h = cc
select-stamp code now (q ∷ rows) r h = elim (Bool-cases (str_eq q.code code)) [
  | inl e ↦ rw (e, e) (ap (stamp_option now) (rw e at h))
  | inr e ↦ rw (e, e) (select-stamp code now rows r (rw e at h))
]
  where
    stamp_option : ℕ → Option PairingCode → Option PairingCode
    stamp_option t none = none
    stamp_option t (some x) = some (record x { consumed_at = some t })

-- A code that is not consumed and not expired is redeemed for its user and organization. After that a
-- redemption is refused as consumed; but two redemptions that both read before either writes both
-- succeed.
pub redeem_pairing_code_cases :
    (rows : List PairingCode) (code : String) (r : PairingCode) (now later : ℕ)
    → select_code code rows ≡ some r
    → r.consumed_at ≡ none
    → now ≤ r.expires_at
    → later ≤ r.expires_at
    → let whose : Checked Redeemed = passed (record { user_id = r.user_id; org_id = r.org_id }) in
      ((redeem_pairing_code rows code now).1 ≡ whose)
      × ((redeem_pairing_code (redeem_pairing_code rows code now).0 code later).1
          ≡ refused consumed)
      × (redeem_overlapping rows code now later ≡ (whose, whose))
unfolding redeem_pairing_code redeem_overlapping
redeem_pairing_code_cases rows code r now later h unset alive alive' =
    let e : ltb r.expires_at now ≡ false = ground arith in
    let f : ltb r.expires_at later ≡ false = ground arith in
    let g : select_code code (stamp_code code now rows)
        ≡ some (record r { consumed_at = some now }) =
      select-stamp code now rows r h in
    (rw (h, unset, e) refl, rw (h, unset, e, g) refl, rw (h, unset, e, f) refl)
