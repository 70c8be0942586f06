-- ===== src/Firings/Listing.antt =====
-- The reads of packages/db/src/repositories/alert-firings.ts, and the two reconciles as callers see them.
use ai.Common.{
  ℕ, ◌+◌, ◌*◌, String, Bool, true, false, ◌&&◌, ◌||◌, not, none, some, List, map, ltb, leb,
  if◌then◌else◌, keep,
}
use ai.Common.Sort.{sort_by}
use ai.Alerts.{OperationalAlert, severity_rank}
use ai.Firings.{
  org, deployment, Row, AlertFiring, Firings, is_open, is_some, to_firing, scope_predicate,
  reconcile_firings,
}

unfoldable pub rank : AlertFiring → ℕ
rank f = if not (is_open f.status) then 2 else if is_some f.acked_at then 1 else 0

abbrev pub alert_firings_resolved_window_ms : ℕ
alert_firings_resolved_window_ms = 60 * 60_000

-- `resolved_at >= now - window`; a comparison with NULL is never true.
unfoldable pub visible_window : ℕ → Row → Bool
visible_window now r =
    is_open r.status
    || (not (is_open r.status) && elim r.resolved_at [
      | none ↦ false
      | some at ↦ leb now (at + alert_firings_resolved_window_ms)
    ])

-- The comparator of `sortFirings` is not positive.
unfoldable pub precedes : AlertFiring → AlertFiring → Bool
precedes a b =
    if ltb (rank a) (rank b)
    then true
    else if ltb (rank b) (rank a)
    then false
    else if ltb (severity_rank a.severity) (severity_rank b.severity)
    then true
    else if ltb (severity_rank b.severity) (severity_rank a.severity)
    then false
    else leb a.first_fired_at b.first_fired_at

unfoldable pub sort_firings : List Row → List AlertFiring
sort_firings rows = sort_by precedes (map to_firing rows)

unfoldable pub is_listed : String → ℕ → Row → Bool
is_listed org_id now r =
    (scope_predicate (org org_id) r.org_id || scope_predicate deployment r.org_id)
    && visible_window now r

unfoldable pub list_alert_firings : String → ℕ → Firings → List AlertFiring
list_alert_firings org_id now t = sort_firings (keep (is_listed org_id now) t.rows)

unfoldable pub list_deployment_firings : ℕ → Firings → List AlertFiring
list_deployment_firings now t =
    sort_firings (keep (λ r. scope_predicate deployment r.org_id && visible_window now r) t.rows)

unfoldable pub reconcile_alert_firings :
    String → String → List OperationalAlert → ℕ → Firings → Firings × List AlertFiring
reconcile_alert_firings org_id user_id alerts now t =
    let u = reconcile_firings (org org_id) user_id alerts now t in
    (u, list_alert_firings org_id now u)

unfoldable pub reconcile_deployment_firings : String → List OperationalAlert → ℕ → Firings → Firings
reconcile_deployment_firings user_id alerts now t =
    reconcile_firings deployment user_id alerts now t
