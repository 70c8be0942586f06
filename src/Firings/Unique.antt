-- ===== src/Firings/Unique.antt =====
-- The partial unique indexes `alert_firings_open_key` and `alert_firings_open_global_key`.
use ai.Common.{
  ℕ, ◌+◌, ◌≤◌, ◌≡◌, sym, ap, ◌∙◌, String, string_Eq, eq_iff, true, false, List, [], ◌∷◌, map, arith,
  if◌then◌else◌, any, count, count-append, Bool-cases, &&-split, inl, inr,
}
use ai.Alerts.{OperationalAlert}
use ai.Firings.{
  FiringScope, Row, Firings, update_where, conflicts, alert_key, values, touch, upsert, upsert_all,
  is_cleared, resolve, reconcile_firings,
}
use ai.Firings.Table.{any-count, count-update}
use ai.Firings.Scopes.{scope_predicate_unique}
use ai.Firings.Reconcile.{conflicts-touch, closed}

-- Each scope has at most one open firing of a key.
abbrev pub IsUnique : List Row → Type 0
IsUnique rows = (s : FiringScope) (k : String) → count (conflicts s k) rows ≤ 1

upsert-IsUnique :
    (scope : FiringScope) (user_id : String) (now : ℕ) (t : Firings) (a : OperationalAlert)
    → IsUnique t.rows
    → IsUnique (upsert scope user_id now t a).rows
unfolding upsert conflicts
upsert-IsUnique scope user_id now t a u s k =
    elim (Bool-cases (any (conflicts scope (alert_key a)) t.rows)) [
      | inl e ↦
          rw
            (
              e,
              count-update (conflicts s k) (conflicts scope (alert_key a)) (touch a now)
                  (conflicts-touch s k a now),
            )
            (u s k)
      | inr e ↦ rw (e, count-append) (added e)
    ]
  where
    new : Row
    new = values scope user_id a now t.next_id

    added :
        any (conflicts scope (alert_key a)) t.rows ≡ false
        → count (conflicts s k) t.rows + ((if conflicts s k new then 1 else 0) + 0) ≤ 1
    added e = elim (Bool-cases (conflicts s k new)) [
      | inl c ↦ rw (c, gone c) (omega arith)
      | inr c ↦ rw c (omega (arith, u s k))
    ]
      where
        gone : conflicts s k new ≡ true → count (conflicts s k) t.rows ≡ 0
        gone c =
            let parts = &&-split _ _ c in
            any-count (conflicts s k) t.rows (
              ap (λ x. any (conflicts x k) t.rows) (scope_predicate_unique s scope parts.0)
              ∙ ap (λ j. any (conflicts scope j) t.rows) (sym ((eq_iff _ _).0 parts.1))
              ∙ e)

upsert_all-IsUnique :
    (scope : FiringScope) (user_id : String) (now : ℕ) (t : Firings)
    (alerts : List OperationalAlert)
    → IsUnique t.rows
    → IsUnique (upsert_all scope user_id now t alerts).rows
unfolding upsert_all
upsert_all-IsUnique scope user_id now t [] u = u
upsert_all-IsUnique scope user_id now t (a ∷ alerts) u =
    upsert_all-IsUnique scope user_id now (upsert scope user_id now t a) alerts
      (upsert-IsUnique scope user_id now t a u)

count-resolve :
    (s scope : FiringScope) (k : String) (keys : List String) (now : ℕ) (rows : List Row)
    → count (conflicts s k) (update_where (is_cleared scope keys) (resolve now) rows)
      ≤ count (conflicts s k) rows
unfolding update_where
count-resolve s scope k keys now [] = omega arith
count-resolve s scope k keys now (r ∷ rows) = elim (Bool-cases (is_cleared scope keys r)) [
  | inl c ↦ rw (c, closed s k keys now r) (omega (arith, count-resolve s scope k keys now rows))
  | inr c ↦ rw c (omega (arith, count-resolve s scope k keys now rows))
]

pub reconcile_firings-IsUnique :
    (scope : FiringScope) (user_id : String) (alerts : List OperationalAlert) (now : ℕ)
    (t : Firings)
    → IsUnique t.rows
    → IsUnique (reconcile_firings scope user_id alerts now t).rows
unfolding reconcile_firings
reconcile_firings-IsUnique scope user_id alerts now t u s k = omega (
  arith,
  count-resolve s scope k (map alert_key alerts) now (upsert_all scope user_id now t alerts).rows,
  upsert_all-IsUnique scope user_id now t alerts u s k,
)
