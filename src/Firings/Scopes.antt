-- ===== src/Firings/Scopes.antt =====
-- `scopePredicate` and the scope of `reconcileFirings`, packages/db/src/repositories/alert-firings.ts.
use ai.Common.{
  ℕ, ◌≡◌, refl, sym, ap, ◌∙◌, String, string_Eq, eq_iff, eq_refl, Bool, true, not, List, [], ◌∷◌,
  map, keep, any, Bool-cases, &&-split, inl, inr,
}
use ai.Alerts.{OperationalAlert}
use ai.Firings.{
  FiringScope, org, deployment, Row, Firings, scope_predicate, org_of, conflicts, alert_key, touch,
  upsert, upsert_all, is_cleared, resolve, reconcile_firings,
}
use ai.Firings.Table.{keep-update_others, keep-append_other}

pub scope_predicate-org_of : (scope : FiringScope) → scope_predicate scope (org_of scope) ≡ true
unfolding scope_predicate
scope_predicate-org_of (org o) = eq_refl o
scope_predicate-org_of deployment = refl

pub scope_predicate_unique :
    (s scope : FiringScope) → scope_predicate s (org_of scope) ≡ true → s ≡ scope
unfolding scope_predicate
scope_predicate_unique (org o) (org p) h = ap org (sym ((eq_iff p o).0 h))
scope_predicate_unique (org o) deployment h = cc
scope_predicate_unique deployment (org p) h = cc
scope_predicate_unique deployment deployment h = refl

-- The rows outside a scope.
abbrev pub outside : FiringScope → Row → Bool
outside scope r = not (scope_predicate scope r.org_id)

outside-upsert :
    (scope : FiringScope) (user_id : String) (now : ℕ) (t : Firings) (a : OperationalAlert)
    → keep (outside scope) (upsert scope user_id now t a).rows ≡ keep (outside scope) t.rows
unfolding upsert conflicts
outside-upsert scope user_id now t a =
    elim (Bool-cases (any (conflicts scope (alert_key a)) t.rows)) [
      | inl e ↦ rw e (
          keep-update_others (outside scope) (conflicts scope (alert_key a)) (touch a now)
            (λ r h. ap not ((&&-split _ _ h).0)) (λ r h. ap not ((&&-split _ _ h).0)) t.rows)
      | inr e ↦
          rw e (keep-append_other (outside scope) t.rows _ (ap not (scope_predicate-org_of scope)))
    ]

outside-upsert_all :
    (scope : FiringScope) (user_id : String) (now : ℕ) (t : Firings)
    (alerts : List OperationalAlert)
    → keep (outside scope) (upsert_all scope user_id now t alerts).rows
      ≡ keep (outside scope) t.rows
unfolding upsert_all
outside-upsert_all scope user_id now t [] = refl
outside-upsert_all scope user_id now t (a ∷ alerts) =
    outside-upsert_all scope user_id now (upsert scope user_id now t a) alerts
    ∙ outside-upsert scope user_id now t a

-- A reconcile touches no row of any other scope, whatever alerts it is given.
pub reconcile_firings-outside :
    (scope : FiringScope) (user_id : String) (alerts : List OperationalAlert) (now : ℕ)
    (t : Firings)
    → keep
        (λ (r : Row). not (scope_predicate scope r.org_id))
        (reconcile_firings scope user_id alerts now t).rows
      ≡ keep (λ (r : Row). not (scope_predicate scope r.org_id)) t.rows
unfolding reconcile_firings is_cleared
reconcile_firings-outside scope user_id alerts now t =
    keep-update_others (outside scope) (is_cleared scope (map alert_key alerts)) (resolve now)
      (λ r h. ap not ((&&-split _ _ h).0)) (λ r h. ap not ((&&-split _ _ h).0)) _
    ∙ outside-upsert_all scope user_id now t alerts
