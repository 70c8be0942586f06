-- ===== src/Health.antt =====
-- packages/shared/src/capture-health.ts: the state of every connector of every machine. `Date.parse` is
-- the field `parse` of the clock: none is NaN. `localeCompare` is a parameter of the sort.
pub mod Ladder
pub mod Meaning
pub mod Rows
pub mod Tests
use ai.Common.{
  ℕ, ◌+◌, ◌*◌, String, Bool, true, false, ◌&&◌, ◌||◌, not, Option, none, some, List, [], ◌∷◌, ◌++◌,
  leb, str_eq, if◌then◌else◌, value_or, any, map,
}
use Prim.Native.Char.{nul}
use Prim.Native.String.{◌∷◌ as str_cons, ◌++◌ as str_append}
use ai.Common.Sort.{sort_by}
use ai.Alerts.{MonitorStatus, online, stale, offline, is_offline_status}

pub data CaptureHealthState : Type 0 where
  healthy idle erroring needs_approval disabled silent unreported unknown : CaptureHealthState

pub data CaptureHealthVerdict : Type 0 where
  capturing not_capturing broken verdict_unknown : CaptureHealthVerdict

abbrev pub capture_health_verdict : CaptureHealthState → CaptureHealthVerdict
capture_health_verdict healthy = capturing
capture_health_verdict idle = capturing
capture_health_verdict disabled = not_capturing
capture_health_verdict erroring = broken
capture_health_verdict silent = broken
capture_health_verdict needs_approval = broken
capture_health_verdict unreported = verdict_unknown
capture_health_verdict unknown = verdict_unknown

pub data Liveness : Type 0 where
  streaming near_real_time snapshot batch : Liveness

pub data Approval : Type 0 where
  approved awaits_approval : Approval

pub record ObservedConnectorRow : Type 0 where
  pub machine_id : String
  pub connector_id : String
  pub last_event_at : Option String
  pub event_count : ℕ

-- The fields of a declaration that the classification reads, and its error record.
pub record DeclaredConnectorRow : Type 0 where
  pub observed : ObservedConnectorRow
  pub enabled : Bool
  pub approval : Approval
  pub liveness : Liveness
  pub last_error_at : Option String
  pub error_count : ℕ

pub record CaptureHealthMachine : Type 0 where
  pub id : String
  pub name : String
  pub status : MonitorStatus

pub record CaptureHealthInputs : Type 0 where
  pub machines : List CaptureHealthMachine
  pub declared : List DeclaredConnectorRow
  pub observed : List ObservedConnectorRow

pub record CaptureHealthRow : Type 0 where
  pub machine_id : String
  pub machine_name : String
  pub machine_status : MonitorStatus
  pub connector_id : String
  pub state : CaptureHealthState
  pub verdict : CaptureHealthVerdict
  pub declared : Bool
  pub enabled : Option Bool
  pub last_event_at : Option String
  pub event_count : ℕ
  pub error_count : ℕ

-- `Date.parse` and the instant of the read.
pub record Clock : Type 0 where
  pub parse : String → Option ℕ
  pub now_ms : ℕ

abbrev pub fresh_event_ms : ℕ
fresh_event_ms = 24 * 60 * 60 * 1000

abbrev pub ms_of : Clock → Option String → Option ℕ
ms_of k none = none
ms_of k (some iso) = if str_eq iso "" then none else k.parse iso

abbrev pub is_recent : ℕ → Option ℕ → Bool
is_recent now none = false
is_recent now (some ms) = leb now (ms + fresh_event_ms)

unfoldable pub fresh : Clock → Option String → Bool
fresh k iso = is_recent k.now_ms (ms_of k iso)

abbrev pub is_live_capture : Liveness → Bool
is_live_capture streaming = true
is_live_capture near_real_time = true
is_live_capture snapshot = false
is_live_capture batch = false

-- An error at or after the last event.
abbrev pub error_after : Option ℕ → Option ℕ → Bool
error_after none event_ms = false
error_after (some error_ms) none = true
error_after (some error_ms) (some event_ms) = leb event_ms error_ms

abbrev pub awaits : Approval → Bool
awaits approved = false
awaits awaits_approval = true

abbrev pub is_absent {ℓ} : {A : Type ℓ} → Option A → Bool
is_absent none = true
is_absent (some a) = false

-- The machines with recent activity are given as a list.
unfoldable pub classify_declared :
    Clock → DeclaredConnectorRow → MonitorStatus → List String → CaptureHealthState
classify_declared k d machine_status recent =
    if is_offline_status machine_status
    then unknown
    else if not d.enabled
    then disabled
    else if awaits d.approval
    then needs_approval
    else if error_after (ms_of k d.last_error_at) (ms_of k d.observed.last_event_at)
    then erroring
    else if fresh k d.observed.last_event_at
    then healthy
    else if is_live_capture d.liveness
        && (is_absent d.observed.last_event_at || any (str_eq d.observed.machine_id) recent)
    then silent
    else idle

-- `new Map(machines.map(...)).get(id)`: the last machine of an id wins.
unfoldable pub machine_by_id : String → List CaptureHealthMachine → Option CaptureHealthMachine
machine_by_id id [] = none
machine_by_id id (m ∷ ms) = elim (machine_by_id id ms) [
  | some n ↦ some n
  | none ↦ if str_eq m.id id then some m else none
]

abbrev pub status_of : Option CaptureHealthMachine → MonitorStatus
status_of none = offline
status_of (some m) = m.status

abbrev pub name_of : String → Option CaptureHealthMachine → String
name_of id none = id
name_of id (some m) = m.name

unfoldable pub machines_with_recent_activity : Clock → List ObservedConnectorRow → List String
machines_with_recent_activity k [] = []
machines_with_recent_activity k (o ∷ os) =
    if fresh k o.last_event_at
    then o.machine_id ∷ machines_with_recent_activity k os
    else machines_with_recent_activity k os

unfoldable pub declared_row :
    Clock → List CaptureHealthMachine → List String → DeclaredConnectorRow → CaptureHealthRow
declared_row k machines recent d =
    let machine = machine_by_id d.observed.machine_id machines in
    let state = classify_declared k d (status_of machine) recent in
    record {
      machine_id = d.observed.machine_id;
      machine_name = name_of d.observed.machine_id machine;
      machine_status = status_of machine;
      connector_id = d.observed.connector_id;
      state = state;
      verdict = capture_health_verdict state;
      declared = true;
      enabled = some d.enabled;
      last_event_at = d.observed.last_event_at;
      event_count = d.observed.event_count;
      error_count = d.error_count;
    }

unfoldable pub observed_row : List CaptureHealthMachine → ObservedConnectorRow → CaptureHealthRow
observed_row machines o =
    let machine = machine_by_id o.machine_id machines in
    record {
      machine_id = o.machine_id;
      machine_name = name_of o.machine_id machine;
      machine_status = status_of machine;
      connector_id = o.connector_id;
      state = unreported;
      verdict = capture_health_verdict unreported;
      declared = false;
      enabled = none;
      last_event_at = o.last_event_at;
      event_count = o.event_count;
      error_count = 0;
    }

-- The two ids, joined by the NUL character.
abbrev pub key : (machine_id connector_id : String) → String
key machine_id connector_id = str_append machine_id (str_cons nul connector_id)

unfoldable pub is_declared : List DeclaredConnectorRow → ObservedConnectorRow → Bool
is_declared ds o =
    any
      (λ (d : DeclaredConnectorRow).
        str_eq (key d.observed.machine_id d.observed.connector_id)
          (key o.machine_id o.connector_id))
      ds

unfoldable pub undeclared_rows :
    List CaptureHealthMachine
    → List DeclaredConnectorRow
    → List ObservedConnectorRow
    → List CaptureHealthRow
undeclared_rows machines ds [] = []
undeclared_rows machines ds (o ∷ os) =
    if is_declared ds o
    then undeclared_rows machines ds os
    else observed_row machines o ∷ undeclared_rows machines ds os

-- `le` is the comparator of the final sort.
unfoldable pub derive_capture_health :
    (CaptureHealthRow → CaptureHealthRow → Bool)
    → CaptureHealthInputs
    → Clock
    → List CaptureHealthRow
derive_capture_health le inputs k =
    let recent =
      machines_with_recent_activity k
        (map (λ (d : DeclaredConnectorRow). d.observed) inputs.declared ++ inputs.observed) in
    sort_by le (
      map (declared_row k inputs.machines recent) inputs.declared
      ++ undeclared_rows inputs.machines inputs.declared inputs.observed)
