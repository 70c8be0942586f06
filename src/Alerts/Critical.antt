-- ===== src/Alerts/Critical.antt =====
-- Which alerts of apps/ingest/src/alert-set.ts are critical.
use ai.Common.{
  ℕ, ◌≡◌, refl, String, ◌&&◌, not, List, [], ◌∷◌, arith, if◌then◌else◌, ltb, value_or, string_Eq,
  Bool-cases, inl, inr, count, count-append,
}
use ai.Common.Sort.{sort_by-count}
use ai.Alerts.{
  OperationalAlert, Machine, ConnectorHealthRow, BacklogSample, Snapshot, MonitorStatus, online,
  stale, offline, sort_alerts, liveness_alerts, backlog_alerts, machine_alerts, connector_alerts,
  derive_alerts, is_offline_status, fails_often,
}
use ai.Alerts.Derive.{
  derive_backlog_trend, growing_alert, trend_alert, derive_backlog_trend_alerts, unreachable_alert,
  derive_archive_unreachable_alerts, derive_connector_failure_rate_alerts, derive_alert_set,
}
use ai.Alerts.Sets.{is_critical}

abbrev criticals : List OperationalAlert → ℕ
criticals = count is_critical

criticals-sort_alerts : (xs : List OperationalAlert) → criticals (sort_alerts xs) ≡ criticals xs
unfolding sort_alerts
criticals-sort_alerts xs = sort_by-count _ is_critical xs

criticals-liveness_alerts :
    (st : MonitorStatus) (m : Machine)
    → criticals (liveness_alerts st m) ≡ (if is_offline_status st then 1 else 0)
unfolding liveness_alerts
criticals-liveness_alerts online m = refl
criticals-liveness_alerts stale m = refl
criticals-liveness_alerts offline m = refl

criticals-backlog_alerts : (m : Machine) → criticals (backlog_alerts m) ≡ 0
unfolding backlog_alerts
criticals-backlog_alerts m =
    elim (Bool-cases (m.backlog_high_flag && not (is_offline_status m.status))) [
      | inl e ↦ rw e
      | inr e ↦ rw e
    ]

criticals-machine_alerts :
    (ms : List Machine)
    → criticals (machine_alerts ms) ≡ count (λ (m : Machine). is_offline_status m.status) ms
unfolding machine_alerts
criticals-machine_alerts [] = refl
criticals-machine_alerts (m ∷ ms) =
    rw
      (
        count-append,
        criticals-liveness_alerts,
        count-append,
        criticals-backlog_alerts,
        criticals-machine_alerts ms,
      )
      (omega arith)

criticals-connector_alerts : (cs : List ConnectorHealthRow) → criticals (connector_alerts cs) ≡ 0
unfolding connector_alerts
criticals-connector_alerts [] = refl
criticals-connector_alerts (c ∷ cs) = elim (Bool-cases (fails_often c)) [
  | inl e ↦ rw e (omega (arith, criticals-connector_alerts cs))
  | inr e ↦ rw e (omega (arith, criticals-connector_alerts cs))
]

criticals-failure_rate_alerts :
    (cs : List ConnectorHealthRow) → criticals (derive_connector_failure_rate_alerts cs) ≡ 0
unfolding derive_connector_failure_rate_alerts
criticals-failure_rate_alerts [] = refl
criticals-failure_rate_alerts (c ∷ cs) = elim (Bool-cases (fails_often c)) [
  | inl e ↦ rw e (omega (arith, criticals-failure_rate_alerts cs))
  | inr e ↦ rw e (omega (arith, criticals-failure_rate_alerts cs))
]

criticals-trend_alert : (m : Machine) (xs : List BacklogSample) → criticals (trend_alert m xs) ≡ 0
criticals-trend_alert m xs = elim (Bool-cases (is_offline_status m.status)) [
  | inl e ↦ rw e
  | inr e ↦ elim (Bool-cases (derive_backlog_trend xs)) [
    | inl d ↦ rw (e, d) (growing xs)
    | inr d ↦ rw (e, d)
  ]
]
  where
    growing : (ys : List BacklogSample) → criticals (growing_alert m ys) ≡ 0
    growing [] = refl
    growing (y ∷ ys) = refl

criticals-backlog_trend_alerts :
    (ms : List Machine) (samples : List (String × List BacklogSample))
    → criticals (derive_backlog_trend_alerts ms samples) ≡ 0
unfolding derive_backlog_trend_alerts
criticals-backlog_trend_alerts [] samples = refl
criticals-backlog_trend_alerts (m ∷ ms) samples =
    rw (count-append, criticals-trend_alert, criticals-backlog_trend_alerts ms samples)

criticals-archive_unreachable_alerts :
    (ms : List Machine) → criticals (derive_archive_unreachable_alerts ms) ≡ 0
unfolding derive_archive_unreachable_alerts
criticals-archive_unreachable_alerts [] = refl
criticals-archive_unreachable_alerts (m ∷ ms) =
    rw (count-append, unreachable, criticals-archive_unreachable_alerts ms)
  where
    unreachable : criticals (unreachable_alert m) ≡ 0
    unreachable = elim (Bool-cases (is_offline_status m.status)) [
      | inl e ↦ rw e
      | inr e ↦ elim (Bool-cases (ltb (value_or m.consecutive_sync_failures 0) 3)) [
        | inl d ↦ rw (e, d)
        | inr d ↦ rw (e, d)
      ]
    ]

-- The organization's alerts hold one critical alert for each offline machine, and no other.
pub criticals-derive_alert_set :
    (built : Snapshot) (samples : List (String × List BacklogSample))
    (windowed : List ConnectorHealthRow)
    → count is_critical (derive_alert_set built samples windowed)
      ≡ count (λ (m : Machine). is_offline_status m.status) built.machines
unfolding derive_alert_set derive_alerts
criticals-derive_alert_set built samples windowed =
    rw
      (
        criticals-sort_alerts, count-append, criticals-sort_alerts, count-append, count-append,
        count-append, criticals-machine_alerts, criticals-connector_alerts,
        criticals-backlog_trend_alerts, criticals-archive_unreachable_alerts,
        criticals-failure_rate_alerts,
      )
      (omega arith)
