-- ===== src/Firings/Balance.antt =====
-- The notices that the calls of packages/db/src/repositories/alert-firings.ts send, weighed against the
-- stamps on the rows.
use ai.Common.{
  ℕ, suc, ◌+◌, ◌≤◌, ◌≡◌, refl, String, Bool, List, [], ◌∷◌, arith, ◌==◌, any, count, count-append,
  All, All-append, All-imp, Bool-cases, and_false, inl, inr,
}
use ai.Alerts.{OperationalAlert}
use ai.Firings.{
  FiringScope, Row, AlertFiring, Firings, update_where, conflicts, alert_key, touch, upsert,
  upsert_all,
}
use ai.Firings.Table.{count-update}
use ai.Firings.Counts.{with_id, attempted, noticed, IsRow, count-with_id_above, All-update}
use ai.Firings.History.{starts, ends}

-- What every history keeps.
abbrev pub IsTable : Firings → Type 0
IsTable t = All (IsRow t.next_id) t.rows × ((i : ℕ) → count (with_id i) t.rows ≤ 1)

abbrev pub Balanced : ℕ → Firings → Firings → List AlertFiring → Type 0
Balanced i t u sent =
    (count (starts i) sent + count (attempted i) t.rows ≡ count (attempted i) u.rows)
    × (count (ends i) sent + count (noticed i) t.rows ≡ count (noticed i) u.rows)

pub Balanced-none : (i : ℕ) (t : Firings) → Balanced i t t []
Balanced-none i t = (omega arith, omega arith)

-- A call that changes neither the ids nor the stamps of rows.
module _ (p : Row → Bool) (f : Row → Row) (ids : (r : Row) → (f r).id ≡ r.id)
    (starts_kept : (r : Row) → (f r).delivery_attempted_at ≡ r.delivery_attempted_at)
    (ends_kept : (r : Row) → (f r).resolve_delivered_at ≡ r.resolve_delivered_at) where
  pub update-IsTable :
      (t : Firings) → IsTable t → IsTable (record t { rows = update_where p f t.rows })
  update-IsTable t v = (
    All-update (IsRow t.next_id) p f t.rows (λ r e g. rw (ids r, starts_kept r, ends_kept r) g) v.0,
    λ i. rw (count-update (with_id i) p f (λ r. rw (ids r) refl) t.rows) (v.1 i),
  )

  pub update-Balanced :
      (i : ℕ) (t : Firings) → Balanced i t (record t { rows = update_where p f t.rows }) []
  update-Balanced i t = (
    rw (count-update (attempted i) p f (λ r. rw (ids r, starts_kept r) refl) t.rows) (omega arith),
    rw (count-update (noticed i) p f (λ r. rw (ids r, ends_kept r) refl) t.rows) (omega arith),
  )

module _ (scope : FiringScope) (user_id : String) (now : ℕ) where
  upsert-IsTable :
      (t : Firings) (a : OperationalAlert) → IsTable t → IsTable (upsert scope user_id now t a)
  unfolding upsert
  upsert-IsTable t a v = elim (Bool-cases (any (conflicts scope (alert_key a)) t.rows)) [
    | inl e ↦ rw e (
        update-IsTable (conflicts scope (alert_key a)) (touch a now) (λ r. refl) (λ r. refl)
          (λ r. refl) t v)
    | inr e ↦ rw e (
      All-append (IsRow (suc t.next_id)) t.rows _
          (All-imp (IsRow t.next_id) (IsRow (suc t.next_id)) t.rows
            (λ r h. (omega (arith, h.0), h.1)) v.0)
          ((omega arith, λ h. cc), tt),
      λ i.
          rw (count-append (with_id i) t.rows _)
            (ground (arith, v.1 i, count-with_id_above t.next_id t.rows v.0)),
    )
  ]

  upsert-Balanced :
      (i : ℕ) (t : Firings) (a : OperationalAlert) → Balanced i t (upsert scope user_id now t a) []
  unfolding upsert
  upsert-Balanced i t a = elim (Bool-cases (any (conflicts scope (alert_key a)) t.rows)) [
    | inl e ↦ rw e (
        update-Balanced (conflicts scope (alert_key a)) (touch a now) (λ r. refl) (λ r. refl)
          (λ r. refl) i t)
    | inr e ↦ rw e (
      rw (count-append (attempted i) t.rows _, and_false (t.next_id == i)) (omega arith),
      rw (count-append (noticed i) t.rows _, and_false (t.next_id == i)) (omega arith),
    )
  ]

  pub upsert_all-IsTable :
      (t : Firings) (alerts : List OperationalAlert)
      → IsTable t
      → IsTable (upsert_all scope user_id now t alerts)
  unfolding upsert_all
  upsert_all-IsTable t [] v = v
  upsert_all-IsTable t (a ∷ alerts) v =
      upsert_all-IsTable (upsert scope user_id now t a) alerts (upsert-IsTable t a v)

  pub upsert_all-Balanced :
      (i : ℕ) (t : Firings) (alerts : List OperationalAlert)
      → Balanced i t (upsert_all scope user_id now t alerts) []
  unfolding upsert_all
  upsert_all-Balanced i t [] = Balanced-none i t
  upsert_all-Balanced i t (a ∷ alerts) =
      let first = upsert-Balanced i t a in
      let rest = upsert_all-Balanced i (upsert scope user_id now t a) alerts in
      (omega (arith, first.0, rest.0), omega (arith, first.1, rest.1))
