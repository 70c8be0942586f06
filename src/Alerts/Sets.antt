-- ===== src/Alerts/Sets.antt =====
-- What holds of every set of alerts that apps/ingest/src/alert-set.ts composes.
use ai.Common.{
  ℕ, ◌≡◌, refl, String, Bool, true, false, ◌&&◌, not, List, [], ◌∷◌, ◌++◌, leb, ltb, ◌==◌, value_or,
  string_Eq, All, All-append, Bool-cases, inl, inr, keep,
}
use ai.Common.Sort.{sort_by-All, sort_by-Ranked, sort_by-keep, Ranked}
use ai.Alerts.{
  AlertCode, AlertSeverity, update_requires_approval, auth_failure, OperationalAlert, Machine,
  ConnectorHealthRow, BacklogSample, Snapshot, MonitorStatus, online, stale, offline, severity_rank,
  sort_alerts, liveness_alerts, backlog_alerts, machine_alerts, connector_alerts, derive_alerts,
  is_offline_status, fails_often,
}
use ai.Alerts.Derive.{
  derive_backlog_trend, growing_alert, trend_alert, derive_backlog_trend_alerts,
  derive_catalog_alerts, derive_auth_failure_alerts, unreachable_alert,
  derive_archive_unreachable_alerts, derive_connector_failure_rate_alerts, derive_alert_set,
  derive_deployment_alert_set,
}

abbrev pub is_deployment_code : AlertCode → Bool
is_deployment_code update_requires_approval = true
is_deployment_code auth_failure = true
is_deployment_code _ = false

abbrev pub is_critical : OperationalAlert → Bool
is_critical a = severity_rank a.severity == 0

abbrev rank : OperationalAlert → ℕ
rank a = severity_rank a.severity

-- Sorting puts critical alerts first, then warnings, then notes, and keeps the order within each.
pub sort_alerts_stable :
    (alerts : List OperationalAlert) (s : AlertSeverity)
    → Ranked rank (sort_alerts alerts)
      × (keep (λ a. rank a == severity_rank s) (sort_alerts alerts)
          ≡ keep (λ a. rank a == severity_rank s) alerts)
unfolding sort_alerts
sort_alerts_stable alerts s =
    (sort_by-Ranked rank alerts, sort_by-keep rank (severity_rank s) alerts)

module _ (P : OperationalAlert → Type 0) where
  sort_alerts-All : (xs : List OperationalAlert) → All P xs → All P (sort_alerts xs)
  unfolding sort_alerts
  sort_alerts-All xs h = sort_by-All _ P xs h

abbrev OrgCode : OperationalAlert → Type 0
OrgCode a = is_deployment_code a.code ≡ false

machine_alerts-OrgCode : (ms : List Machine) → All OrgCode (machine_alerts ms)
unfolding machine_alerts backlog_alerts
machine_alerts-OrgCode [] = tt
machine_alerts-OrgCode (m ∷ ms) =
    All-append OrgCode (liveness_alerts m.status m) _ (live m.status)
      (All-append OrgCode (backlog_alerts m) _ backlog (machine_alerts-OrgCode ms))
  where
    live : (st : MonitorStatus) → All OrgCode (liveness_alerts st m)
    live online = unfold liveness_alerts in tt
    live stale = unfold liveness_alerts in (refl, tt)
    live offline = unfold liveness_alerts in (refl, tt)

    backlog : All OrgCode (backlog_alerts m)
    backlog = elim (Bool-cases (m.backlog_high_flag && not (is_offline_status m.status))) [
      | inl e ↦ rw e (refl, tt)
      | inr e ↦ rw e tt
    ]

connector_alerts-OrgCode : (cs : List ConnectorHealthRow) → All OrgCode (connector_alerts cs)
unfolding connector_alerts
connector_alerts-OrgCode [] = tt
connector_alerts-OrgCode (c ∷ cs) = elim (Bool-cases (fails_often c)) [
  | inl e ↦ rw e (refl, connector_alerts-OrgCode cs)
  | inr e ↦ rw e (connector_alerts-OrgCode cs)
]

failure_rate_alerts-OrgCode :
    (cs : List ConnectorHealthRow) → All OrgCode (derive_connector_failure_rate_alerts cs)
unfolding derive_connector_failure_rate_alerts
failure_rate_alerts-OrgCode [] = tt
failure_rate_alerts-OrgCode (c ∷ cs) = elim (Bool-cases (fails_often c)) [
  | inl e ↦ rw e (refl, failure_rate_alerts-OrgCode cs)
  | inr e ↦ rw e (failure_rate_alerts-OrgCode cs)
]

trend_alert-OrgCode :
    (m : Machine) (samples : List BacklogSample) → All OrgCode (trend_alert m samples)
trend_alert-OrgCode m samples = elim (Bool-cases (is_offline_status m.status)) [
  | inl e ↦ rw e tt
  | inr e ↦ elim (Bool-cases (derive_backlog_trend samples)) [
    | inl d ↦ rw (e, d) (growing samples)
    | inr d ↦ rw (e, d) tt
  ]
]
  where
    growing : (xs : List BacklogSample) → All OrgCode (growing_alert m xs)
    growing [] = tt
    growing (x ∷ xs) = (refl, tt)

backlog_trend_alerts-OrgCode :
    (ms : List Machine) (samples : List (String × List BacklogSample))
    → All OrgCode (derive_backlog_trend_alerts ms samples)
unfolding derive_backlog_trend_alerts
backlog_trend_alerts-OrgCode [] samples = tt
backlog_trend_alerts-OrgCode (m ∷ ms) samples =
    All-append OrgCode _ _ (trend_alert-OrgCode m _) (backlog_trend_alerts-OrgCode ms samples)

unreachable_alert-OrgCode : (m : Machine) → All OrgCode (unreachable_alert m)
unreachable_alert-OrgCode m = elim (Bool-cases (is_offline_status m.status)) [
  | inl e ↦ rw e tt
  | inr e ↦ elim (Bool-cases (ltb (value_or m.consecutive_sync_failures 0) 3)) [
    | inl d ↦ rw (e, d) tt
    | inr d ↦ rw (e, d) (refl, tt)
  ]
]

archive_unreachable_alerts-OrgCode :
    (ms : List Machine) → All OrgCode (derive_archive_unreachable_alerts ms)
unfolding derive_archive_unreachable_alerts
archive_unreachable_alerts-OrgCode [] = tt
archive_unreachable_alerts-OrgCode (m ∷ ms) =
    All-append OrgCode _ _ (unreachable_alert-OrgCode m) (archive_unreachable_alerts-OrgCode ms)

-- The alerts of an organization never carry a code of the deployment, and the alerts of the
-- deployment never carry any other.
pub derive_alert_set-disjoint :
    (built : Snapshot) (samples : List (String × List BacklogSample))
    (windowed : List ConnectorHealthRow) (pending_catalogs auth_failure_count : ℕ)
    → All (λ a. is_deployment_code a.code ≡ false) (derive_alert_set built samples windowed)
      × All
          (λ a. is_deployment_code a.code ≡ true)
          (derive_deployment_alert_set pending_catalogs auth_failure_count)
unfolding derive_alert_set derive_alerts derive_deployment_alert_set derive_catalog_alerts
    derive_auth_failure_alerts
derive_alert_set-disjoint built samples windowed pending failures = (
  sort_alerts-All _ _ (
      All-append _ _ _ alerts (
        All-append _ _ _ (backlog_trend_alerts-OrgCode built.machines samples) (
          All-append _ _ _ (archive_unreachable_alerts-OrgCode built.machines)
            (failure_rate_alerts-OrgCode windowed)))),
  sort_alerts-All _ _ (All-append _ _ _ catalogs auth),
)
  where
    alerts :
        All OrgCode
          (sort_alerts (machine_alerts built.machines ++ connector_alerts built.connectors))
    alerts = sort_alerts-All _ _ (
        All-append _ _ _ (machine_alerts-OrgCode built.machines)
          (connector_alerts-OrgCode built.connectors))

    catalogs : All (λ a. is_deployment_code a.code ≡ true) (derive_catalog_alerts pending)
    catalogs = elim (Bool-cases (leb pending 0)) [ inl e ↦ rw e tt | inr e ↦ rw e (refl, tt) ]

    auth : All (λ a. is_deployment_code a.code ≡ true) (derive_auth_failure_alerts failures)
    auth = elim (Bool-cases (ltb failures 3)) [ inl e ↦ rw e tt | inr e ↦ rw e (refl, tt) ]
