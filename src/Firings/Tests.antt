-- ===== src/Firings/Tests.antt =====
-- Firings of one organization and of the deployment.
use ai.Common.{
  ◌≤◌, ◌≡◌, refl, true, false, not, none, some, List, [], ◌∷◌, map, count, keep, value_or,
  if◌then◌else◌,
}
use ai.Alerts.{
  OperationalAlert, critical, warning, collector_offline, auth_failure, is_offline, auth_failures,
}
use ai.Firings.{
  FiringScope, org, deployment, Row, AlertFiring, Firings, is_open, is_some, to_firing,
  scope_predicate, conflicts, mem, alert_key, upsert, upsert_all, update_where, is_cleared,
  reconcile_firings,
}
use ai.Firings.Listing.{list_alert_firings}
use ai.Firings.Delivery.{deliver_pending_firings, is_undelivered}
use ai.Firings.Reconcile.{open_memory, reconcile_firings-open_memory}
use ai.Firings.Scopes.{reconcile_firings-outside}
use ai.Firings.Divergence.{open_firings_diverge}
use ai.Firings.Visible.{is_org_firing, open_firings_diverge-reconcile_firings}
use ai.Firings.History.{
  FiringCall, reconciles, acks, delivers_pending, delivers_resolved, step, run, no_firings, starts,
  ends,
}
use ai.Firings.Delivery.{may_ack, ack_alert_firing}
use ai.Firings.Once.{run-notifies_once, run-IsUnique}

abbrev offline_alert : OperationalAlert
offline_alert = record {
  code = collector_offline;
  severity = critical;
  message = is_offline "laptop";
  machine_id = some "m1";
  machine_name = some "laptop";
  connector = none;
  since = none;
}

abbrev auth_alert : OperationalAlert
auth_alert = record {
  code = auth_failure;
  severity = warning;
  message = auth_failures 3;
  machine_id = none;
  machine_name = none;
  connector = none;
  since = none;
}

abbrev calls : List FiringCall
calls =
    reconciles (org "o1") "u1" (offline_alert ∷ []) 10
    ∷ reconciles deployment "u1" (auth_alert ∷ []) 11
    ∷ delivers_pending (org "o1") true 12
    ∷ delivers_pending (org "o1") true 13
    ∷ acks "o1" 2 14
    ∷ reconciles (org "o1") "u2" [] 15
    ∷ delivers_resolved (org "o1") true 16
    ∷ delivers_resolved (org "o1") true 17
    ∷ []

abbrev table : Firings
table = (run no_firings calls).0

-- Of the two rows the organization's is notified at its start and at its end, once each.
run-calls : map (λ (f : AlertFiring). f.id) (run no_firings calls).1 ≡ 1 ∷ 1 ∷ []
unfolding run step upsert upsert_all reconcile_firings conflicts is_cleared scope_predicate
    update_where alert_key to_firing deliver_pending_firings is_undelivered
    ai.Firings.Delivery.deliver_resolved_firings ai.Firings.Delivery.is_unnoticed
    ai.Firings.Delivery.ack_alert_firing
run-calls = refl

reconcile_firings-open_memory_example :
    open_memory
      (org "o1")
      "collector.offline:m1"
      (reconcile_firings (org "o1") "u2" (offline_alert ∷ []) 20 table)
    ≡ (if mem "collector.offline:m1" (map alert_key (offline_alert ∷ []))
        then some (value_or (open_memory (org "o1") "collector.offline:m1" table) (20, none))
        else none)
reconcile_firings-open_memory_example =
    reconcile_firings-open_memory (org "o1") "collector.offline:m1" "u2" (offline_alert ∷ []) 20
      table

reconcile_firings-outside_example :
    keep
      (λ (r : Row). not (scope_predicate deployment r.org_id))
      (reconcile_firings deployment "u2" [] 20 table).rows
    ≡ keep (λ (r : Row). not (scope_predicate deployment r.org_id)) table.rows
reconcile_firings-outside_example = reconcile_firings-outside deployment "u2" [] 20 table

open_firings_diverge-reconcile_firings_example :
    open_firings_diverge (offline_alert ∷ []) (
      keep is_org_firing (
        list_alert_firings "o1" 25
          (reconcile_firings (org "o1") "u2" (offline_alert ∷ []) 20 table)))
    ≡ false
open_firings_diverge-reconcile_firings_example =
    open_firings_diverge-reconcile_firings "o1" "u2" (offline_alert ∷ []) 20 25 table

run-notifies_once_example :
    (count (starts 1) (run no_firings calls).1 ≤ 1)
    × (count (ends 1) (run no_firings calls).1 ≤ count (starts 1) (run no_firings calls).1)
run-notifies_once_example = run-notifies_once calls 1

run-IsUnique_example :
    count (conflicts (org "o1") "collector.offline:m1") (run no_firings calls).0.rows ≤ 1
run-IsUnique_example = run-IsUnique calls (org "o1") "collector.offline:m1"
