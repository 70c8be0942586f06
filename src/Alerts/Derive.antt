-- ===== src/Alerts/Derive.antt =====
-- The derivations of packages/shared/src/alerts.ts that stand beside `deriveAlerts`.
use ai.Common.{
  ℕ, ◌+◌, String, Bool, false, not, none, some, List, [], ◌∷◌, ◌++◌, ltb, leb, if◌then◌else◌,
  length, value_or, lookup, string_Eq,
}
use ai.Alerts.{
  AlertCode, backlog_growing, update_requires_approval, auth_failure, archive_unreachable,
  failure_rate, warning, OperationalAlert, Machine, ConnectorHealthRow, BacklogSample, Snapshot,
  machine_alert, connector_alert, is_offline_status, since_of, fails_often, backlog_is_growing,
  catalogs_await_approval, auth_failures, cannot_reach_archive, failure_rate_is_high, sort_alerts,
  derive_alerts,
}

-- The last element of a list that begins with `x`.
abbrev pub last_from : BacklogSample → List BacklogSample → BacklogSample
last_from x [] = x
last_from x (y ∷ ys) = last_from y ys

-- `last.queuePending - first.queuePending >= minGrowth` is written with the sum.
unfoldable pub derive_backlog_trend : List BacklogSample → Bool
derive_backlog_trend [] = false
derive_backlog_trend (first ∷ rest) =
    if ltb (length (first ∷ rest)) 3
    then false
    else leb (first.queue_pending + 50) (last_from first rest).queue_pending

abbrev pub growing_alert : Machine → List BacklogSample → List OperationalAlert
growing_alert m [] = []
growing_alert m (first ∷ rest) =
    machine_alert m backlog_growing warning
      (backlog_is_growing m.name first.queue_pending (last_from first rest).queue_pending)
      (some (last_from first rest).ts)
    ∷ []

abbrev pub trend_alert : Machine → List BacklogSample → List OperationalAlert
trend_alert m samples =
    if is_offline_status m.status
    then []
    else if not (derive_backlog_trend samples)
    then []
    else growing_alert m samples

unfoldable pub derive_backlog_trend_alerts :
    List Machine → List (String × List BacklogSample) → List OperationalAlert
derive_backlog_trend_alerts [] samples = []
derive_backlog_trend_alerts (m ∷ ms) samples =
    trend_alert m (value_or (lookup m.id samples) []) ++ derive_backlog_trend_alerts ms samples

abbrev global_alert : AlertCode → ℕ → OperationalAlert
global_alert code n = record {
  code = code;
  severity = warning;
  message = elim code [ auth_failure ↦ auth_failures n | _ ↦ catalogs_await_approval n ];
  machine_id = none;
  machine_name = none;
  connector = none;
  since = none;
}

unfoldable pub derive_catalog_alerts : ℕ → List OperationalAlert
derive_catalog_alerts pending =
    if leb pending 0 then [] else global_alert update_requires_approval pending ∷ []

unfoldable pub derive_auth_failure_alerts : ℕ → List OperationalAlert
derive_auth_failure_alerts recent =
    if ltb recent 3 then [] else global_alert auth_failure recent ∷ []

abbrev pub unreachable_alert : Machine → List OperationalAlert
unreachable_alert m =
    if is_offline_status m.status
    then []
    else if ltb (value_or m.consecutive_sync_failures 0) 3
    then []
    else machine_alert m archive_unreachable warning
        (cannot_reach_archive m.name (value_or m.consecutive_sync_failures 0)) (since_of m)
      ∷ []

unfoldable pub derive_archive_unreachable_alerts : List Machine → List OperationalAlert
derive_archive_unreachable_alerts [] = []
derive_archive_unreachable_alerts (m ∷ ms) =
    unreachable_alert m ++ derive_archive_unreachable_alerts ms

unfoldable pub derive_connector_failure_rate_alerts :
    List ConnectorHealthRow → List OperationalAlert
derive_connector_failure_rate_alerts [] = []
derive_connector_failure_rate_alerts (c ∷ cs) =
    if fails_often c
    then connector_alert c failure_rate
        (failure_rate_is_high c.source_connector c.tools_failed c.tool_calls)
      ∷ derive_connector_failure_rate_alerts cs
    else derive_connector_failure_rate_alerts cs

-- The seven codes of an organization, and the two of the deployment (alert-set.ts).
unfoldable pub derive_alert_set :
    Snapshot → List (String × List BacklogSample) → List ConnectorHealthRow → List OperationalAlert
derive_alert_set built samples windowed = sort_alerts (
    derive_alerts built
    ++ (derive_backlog_trend_alerts built.machines samples
        ++ (derive_archive_unreachable_alerts built.machines
            ++ derive_connector_failure_rate_alerts windowed)))

unfoldable pub derive_deployment_alert_set :
    (pending_catalogs auth_failure_count : ℕ) → List OperationalAlert
derive_deployment_alert_set pending_catalogs auth_failure_count =
    sort_alerts
      (derive_catalog_alerts pending_catalogs ++ derive_auth_failure_alerts auth_failure_count)
