-- ===== src/Alerts/Tests.antt =====
-- Alerts of a small deployment: one machine offline, one online with a growing backlog.
use ai.Common.{
  ℕ, lookup, string_Eq, ◌≡◌, refl, String, true, false, Option, none, some, List, [], ◌∷◌, All,
  count, str_eq, if◌then◌else◌,
}
use ai.Common.Sort.{sort_by, place}
use ai.Alerts.{
  OperationalAlert, Machine, ConnectorHealthRow, BacklogSample, Snapshot, online, offline,
  sort_alerts, liveness_alerts, backlog_alerts, connector_alerts, machine_alerts, derive_alerts,
}
use ai.Alerts.Derive.{
  derive_backlog_trend_alerts, derive_backlog_trend, derive_archive_unreachable_alerts,
  derive_connector_failure_rate_alerts, derive_alert_set, derive_deployment_alert_set,
}
use ai.Alerts.Sets.{is_deployment_code, derive_alert_set-disjoint}

abbrev laptop : Machine
laptop = record {
  id = "m1";
  name = "laptop";
  last_seen_at = none;
  last_heartbeat_at = some "t1";
  queue_pending = some 160;
  consecutive_sync_failures = some 4;
  status = online;
  backlog_high_flag = true;
}

abbrev desktop : Machine
desktop = record {
  id = "m2";
  name = "desktop";
  last_seen_at = some "t0";
  last_heartbeat_at = none;
  queue_pending = some 900;
  consecutive_sync_failures = some 9;
  status = offline;
  backlog_high_flag = true;
}

abbrev codex : ConnectorHealthRow
codex = record {
  source_connector = "codex";
  last_event_at = some "t1";
  tool_calls = 6;
  tools_failed = 3;
}

abbrev built : Snapshot
built = record { machines = laptop ∷ desktop ∷ []; connectors = codex ∷ [] }

abbrev sample : ℕ → BacklogSample
sample n = record { ts = "t1"; queue_pending = n }

abbrev samples : List (String × List BacklogSample)
samples = ("m1", sample 100 ∷ sample 120 ∷ sample 160 ∷ []) ∷ []

-- Every code of an organization but the stale one is raised, once.
derive_alert_set_run : count (λ a. true) (derive_alert_set built samples (codex ∷ [])) ≡ 6
unfolding derive_alert_set sort_alerts derive_alerts machine_alerts liveness_alerts backlog_alerts
    connector_alerts derive_backlog_trend_alerts derive_backlog_trend
    derive_archive_unreachable_alerts derive_connector_failure_rate_alerts sort_by place lookup
derive_alert_set_run = refl

derive_alert_set-disjoint_example :
    All
      (λ (a : OperationalAlert). is_deployment_code a.code ≡ false)
      (derive_alert_set built samples (codex ∷ []))
    × All
        (λ (a : OperationalAlert). is_deployment_code a.code ≡ true)
        (derive_deployment_alert_set 1 3)
derive_alert_set-disjoint_example = derive_alert_set-disjoint built samples (codex ∷ []) 1 3

abbrev clock : String → Option ℕ
clock s = if str_eq s "t0" then some 1000 else some 2000
