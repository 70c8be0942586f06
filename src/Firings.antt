-- ===== src/Firings.antt =====
-- packages/db/src/repositories/alert-firings.ts and packages/shared/src/alert-firings.ts: the persisted
-- firings of the alerts, and apps/ingest/src/alert-set.ts for the divergence test. The table
-- `alert_firings` is a list of rows in the order of insertion; a row's random uuid is the value of a
-- counter, and timestamps are milliseconds. The role of a transaction is left out: every statement
-- carries the predicate of its scope.
pub mod Listing
pub mod Delivery
pub mod Table
pub mod Scopes
pub mod Unique
pub mod Keys
pub mod Divergence
pub mod Reconcile
pub mod Counts
pub mod History
pub mod Balance
pub mod Claims
pub mod Once
pub mod Visible
pub mod Acks
pub mod Tests
use ai.Common.{
  ℕ, suc, ◌+◌, ◌*◌, String, Bool, true, false, ◌&&◌, ◌||◌, not, Option, none, some, List, [], ◌∷◌,
  ◌++◌, map, ltb, leb, ◌==◌, str_eq, if◌then◌else◌, length, coalesce, value_or, keep, any, every,
}
use ai.Common.Sort.{sort_by}
use Prim.Native.String.{◌++◌ as str_append}
use ai.Alerts.{
  AlertCode, AlertSeverity, collector_offline, collector_stale, connector_failing, backlog_high,
  backlog_growing, update_requires_approval, auth_failure, archive_unreachable, failure_rate,
  Message, OperationalAlert, severity_rank,
}

pub data AlertFiringStatus : Type 0 where
  opened resolved : AlertFiringStatus

pub data AlertFiringScope : Type 0 where
  of_org of_deployment : AlertFiringScope

pub data FiringScope : Type 0 where
  org : (org_id : String) → FiringScope
  deployment : FiringScope

-- A row of `alert_firings`.
pub record Row : Type 0 where
  pub id : ℕ
  pub org_id : Option String
  pub user_id : String
  pub alert_key : String
  pub code : AlertCode
  pub severity : AlertSeverity
  pub message : Message
  pub machine_id : Option String
  pub machine_name : Option String
  pub connector : Option String
  pub since : Option String
  pub status : AlertFiringStatus
  pub first_fired_at : ℕ
  pub last_seen_at : ℕ
  pub resolved_at : Option ℕ
  pub acked_at : Option ℕ
  pub delivery_attempted_at : Option ℕ
  pub resolve_delivered_at : Option ℕ

pub record AlertFiring : Type 0 where
  pub id : ℕ
  pub alert_key : String
  pub code : AlertCode
  pub severity : AlertSeverity
  pub message : Message
  pub machine_id : Option String
  pub machine_name : Option String
  pub connector : Option String
  pub since : Option String
  pub status : AlertFiringStatus
  pub scope : AlertFiringScope
  pub first_fired_at : ℕ
  pub last_seen_at : ℕ
  pub resolved_at : Option ℕ
  pub acked_at : Option ℕ

pub record Firings : Type 0 where
  pub rows : List Row
  pub next_id : ℕ

abbrev pub code_text : AlertCode → String
code_text collector_offline = "collector.offline"
code_text collector_stale = "collector.stale"
code_text connector_failing = "connector.failing"
code_text backlog_high = "sync.backlog_high"
code_text backlog_growing = "sync.backlog_growing"
code_text update_requires_approval = "catalog.update_requires_approval"
code_text auth_failure = "ingest.auth_failure"
code_text archive_unreachable = "archive.unreachable"
code_text failure_rate = "connector.failure_rate"

unfoldable pub alert_key : OperationalAlert → String
alert_key a =
    str_append (code_text a.code)
      (str_append ":" (value_or (coalesce a.machine_id a.connector) "*"))

abbrev pub is_open : AlertFiringStatus → Bool
is_open opened = true
is_open resolved = false

abbrev pub is_some {ℓ} : {A : Type ℓ} → Option A → Bool
is_some none = false
is_some (some a) = true

-- `scopePredicate`: an equation with NULL is never true.
unfoldable pub scope_predicate : FiringScope → Option String → Bool
scope_predicate (org o) none = false
scope_predicate (org o) (some p) = str_eq p o
scope_predicate deployment none = true
scope_predicate deployment (some p) = false

abbrev pub org_of : FiringScope → Option String
org_of (org o) = some o
org_of deployment = none

unfoldable pub to_firing : Row → AlertFiring
to_firing r = record {
  id = r.id;
  alert_key = r.alert_key;
  code = r.code;
  severity = r.severity;
  message = r.message;
  machine_id = r.machine_id;
  machine_name = r.machine_name;
  connector = r.connector;
  since = r.since;
  status = r.status;
  scope = elim r.org_id [ none ↦ of_deployment | some _ ↦ of_org ];
  first_fired_at = r.first_fired_at;
  last_seen_at = r.last_seen_at;
  resolved_at = r.resolved_at;
  acked_at = r.acked_at;
}

unfoldable pub update_where : (Row → Bool) → (Row → Row) → List Row → List Row
update_where p f [] = []
update_where p f (r ∷ rest) = (if p r then f r else r) ∷ update_where p f rest

-- The conflict of the two partial unique indexes: an open row of the scope and the key.
unfoldable pub conflicts : FiringScope → String → Row → Bool
conflicts scope key r =
    scope_predicate scope r.org_id && (is_open r.status && str_eq r.alert_key key)

abbrev pub values : FiringScope → String → OperationalAlert → ℕ → ℕ → Row
values scope user_id a now id = record {
  id = id;
  org_id = org_of scope;
  user_id = user_id;
  alert_key = alert_key a;
  code = a.code;
  severity = a.severity;
  message = a.message;
  machine_id = a.machine_id;
  machine_name = a.machine_name;
  connector = a.connector;
  since = a.since;
  status = opened;
  first_fired_at = now;
  last_seen_at = now;
  resolved_at = none;
  acked_at = none;
  delivery_attempted_at = none;
  resolve_delivered_at = none;
}

-- The `set` of the upsert.
abbrev pub touch : OperationalAlert → ℕ → Row → Row
touch a now r = record r {
  last_seen_at = now;
  message = a.message;
  severity = a.severity;
  since = a.since;
}

unfoldable pub upsert : FiringScope → String → ℕ → Firings → OperationalAlert → Firings
upsert scope user_id now t a =
    if any (conflicts scope (alert_key a)) t.rows
    then record t { rows = update_where (conflicts scope (alert_key a)) (touch a now) t.rows }
    else record t {
      rows = t.rows ++ values scope user_id a now t.next_id ∷ [];
      next_id = suc t.next_id;
    }

unfoldable pub upsert_all : FiringScope → String → ℕ → Firings → List OperationalAlert → Firings
upsert_all scope user_id now t [] = t
upsert_all scope user_id now t (a ∷ alerts) =
    upsert_all scope user_id now (upsert scope user_id now t a) alerts

abbrev pub mem : String → List String → Bool
mem k = any (λ j. str_eq j k)

-- The open rows of the scope whose key is not derived any more.
unfoldable pub is_cleared : FiringScope → List String → Row → Bool
is_cleared scope keys r =
    scope_predicate scope r.org_id && (is_open r.status && not (mem r.alert_key keys))

abbrev pub resolve : ℕ → Row → Row
resolve now r = record r { status = resolved; resolved_at = some now }

unfoldable pub reconcile_firings :
    FiringScope → String → List OperationalAlert → ℕ → Firings → Firings
reconcile_firings scope user_id alerts now t =
    let u = upsert_all scope user_id now t alerts in
    record u { rows = update_where (is_cleared scope (map alert_key alerts)) (resolve now) u.rows }
