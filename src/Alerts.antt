-- ===== src/Alerts.antt =====
-- packages/shared/src/alerts.ts, packages/shared/src/monitor.ts and apps/ingest/src/alert-set.ts: the
-- operational alerts derived from a snapshot of the machines and connectors. A message is its
-- template with the values put in. The fields of a snapshot that no derivation reads are left out.
-- `toolsFailed / toolCalls >= 0.5` is the comparison of twice the failures with the calls: for
-- counts below 2 ^ 52 the rounded quotient is on the same side of 0.5 as the exact one.
pub mod Derive
pub mod Status
pub mod Sets
pub mod Critical
pub mod Tests
use ai.Common.{
  ℕ, suc, ◌+◌, ◌*◌, String, Bool, true, false, ◌&&◌, not, Option, none, some, List, [], ◌∷◌, ◌++◌,
  ltb, leb, ◌==◌, str_eq, if◌then◌else◌, length, coalesce, value_or, lookup, string_Eq,
}
use ai.Common.Sort.{sort_by, by_rank}

pub data AlertSeverity : Type 0 where
  critical warning info : AlertSeverity

pub data AlertCode : Type 0 where
  collector_offline collector_stale connector_failing backlog_high backlog_growing : AlertCode
  update_requires_approval auth_failure archive_unreachable failure_rate : AlertCode

pub data MonitorStatus : Type 0 where
  online stale offline : MonitorStatus

pub data Message : Type 0 where
  is_offline is_stale : (name : String) → Message
  backlog_is_high : (name : String) (pending : ℕ) → Message
  connector_is_failing failure_rate_is_high : (connector : String) (failed calls : ℕ) → Message
  backlog_is_growing : (name : String) (first last : ℕ) → Message
  catalogs_await_approval auth_failures : (count : ℕ) → Message
  cannot_reach_archive : (name : String) (failures : ℕ) → Message

pub record OperationalAlert : Type 0 where
  pub code : AlertCode
  pub severity : AlertSeverity
  pub message : Message
  pub machine_id : Option String
  pub machine_name : Option String
  pub connector : Option String
  pub since : Option String

-- A machine of the snapshot, with its derived status and backlog flag.
pub record Machine : Type 0 where
  pub id : String
  pub name : String
  pub last_seen_at : Option String
  pub last_heartbeat_at : Option String
  pub queue_pending : Option ℕ
  pub consecutive_sync_failures : Option ℕ
  pub status : MonitorStatus
  pub backlog_high_flag : Bool

pub record ConnectorHealthRow : Type 0 where
  pub source_connector : String
  pub last_event_at : Option String
  pub tool_calls : ℕ
  pub tools_failed : ℕ

pub record Snapshot : Type 0 where
  pub machines : List Machine
  pub connectors : List ConnectorHealthRow

pub record BacklogSample : Type 0 where
  pub ts : String
  pub queue_pending : ℕ

-- `deriveMachineStatus` of monitor.ts, with `Date.parse` as a parameter: none is NaN. The difference
-- of the instants is written as a sum, since a timestamp may lie ahead of the clock.
abbrev pub status_of_age : ℕ → Option ℕ → MonitorStatus
status_of_age now none = offline
status_of_age now (some ref_ms) =
    if ltb (ref_ms + 300_000) now
    then offline
    else if ltb (ref_ms + 90_000) now
    then stale
    else online

abbrev pub status_of_ref : (String → Option ℕ) → ℕ → Option String → MonitorStatus
status_of_ref parse now none = offline
status_of_ref parse now (some ref) =
    if str_eq ref "" then offline else status_of_age now (parse ref)

unfoldable pub derive_machine_status :
    (String → Option ℕ) → (heartbeat seen : Option String) → ℕ → MonitorStatus
derive_machine_status parse heartbeat seen now = status_of_ref parse now (coalesce heartbeat seen)

unfoldable pub is_backlog_high : Option ℕ → Bool
is_backlog_high pending = ltb 100 (value_or pending 0)

abbrev pub severity_rank : AlertSeverity → ℕ
severity_rank critical = 0
severity_rank warning = 1
severity_rank info = 2

unfoldable pub sort_alerts : List OperationalAlert → List OperationalAlert
unfolding sort_by
sort_alerts = sort_by (by_rank (λ (a : OperationalAlert). severity_rank a.severity))

abbrev pub machine_alert :
    Machine → AlertCode → AlertSeverity → Message → Option String → OperationalAlert
machine_alert m code severity message since = record {
  code = code;
  severity = severity;
  message = message;
  machine_id = some m.id;
  machine_name = some m.name;
  connector = none;
  since = since;
}

abbrev pub connector_alert : ConnectorHealthRow → AlertCode → Message → OperationalAlert
connector_alert c code message = record {
  code = code;
  severity = warning;
  message = message;
  machine_id = none;
  machine_name = none;
  connector = some c.source_connector;
  since = c.last_event_at;
}

abbrev pub is_offline_status : MonitorStatus → Bool
is_offline_status offline = true
is_offline_status stale = false
is_offline_status online = false

abbrev pub since_of : Machine → Option String
since_of m = coalesce m.last_heartbeat_at m.last_seen_at

unfoldable pub liveness_alerts : MonitorStatus → Machine → List OperationalAlert
liveness_alerts offline m =
    machine_alert m collector_offline critical (is_offline m.name) (since_of m) ∷ []
liveness_alerts stale m =
    machine_alert m collector_stale warning (is_stale m.name) (since_of m) ∷ []
liveness_alerts online m = []

unfoldable pub backlog_alerts : Machine → List OperationalAlert
backlog_alerts m =
    if m.backlog_high_flag && not (is_offline_status m.status)
    then machine_alert m backlog_high warning (backlog_is_high m.name (value_or m.queue_pending 0))
        none
      ∷ []
    else []

-- The two loops push in turn: their output is the concatenation.
unfoldable pub machine_alerts : List Machine → List OperationalAlert
machine_alerts [] = []
machine_alerts (m ∷ ms) = liveness_alerts m.status m ++ (backlog_alerts m ++ machine_alerts ms)

abbrev pub fails_often : ConnectorHealthRow → Bool
fails_often c = leb 5 c.tool_calls && leb c.tool_calls (2 * c.tools_failed)

unfoldable pub connector_alerts : List ConnectorHealthRow → List OperationalAlert
connector_alerts [] = []
connector_alerts (c ∷ cs) =
    if fails_often c
    then connector_alert c connector_failing
        (connector_is_failing c.source_connector c.tools_failed c.tool_calls)
      ∷ connector_alerts cs
    else connector_alerts cs

unfoldable pub derive_alerts : Snapshot → List OperationalAlert
derive_alerts s = sort_alerts (machine_alerts s.machines ++ connector_alerts s.connectors)
