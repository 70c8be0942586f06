-- ===== src/Engine.antt =====
-- The decisions of apps/collector/src/capture-engine.ts and the fault record of apps/collector/src/fault.ts:
-- when a run of sync failures is recorded, and how a record that is written again keeps the start of the
-- outage. The record is the fields of the JSON file; loadFault reads none from a file that it cannot parse.
pub mod Stamps
pub mod Faults
pub mod Drain
pub mod Shutdown
pub mod Tests
use ai.Common.{
  ℕ, zero, suc, ◌+◌, String, Bool, true, false, ◌&&◌, Option, none, some, List, [], ◌∷◌, ltb, ◌==◌,
  str_eq, if◌then◌else◌, value_or, coalesce,
}

pub record Decision : Type 0 where
  pub stamp : Bool
  pub crossing : Bool
  pub failures_since_stamp : ℕ

abbrev pub archive_unreachable_min_failures : ℕ
archive_unreachable_min_failures = 3

abbrev pub degraded_restamp_every : ℕ
degraded_restamp_every = 60

unfoldable pub degraded_stamp_decision : (consecutive failures_since_stamp : ℕ) → Decision
degraded_stamp_decision consecutive failures_since_stamp =
    if ltb consecutive archive_unreachable_min_failures
    then record { stamp = false; crossing = false; failures_since_stamp = failures_since_stamp }
    else if consecutive == archive_unreachable_min_failures
    then record { stamp = true; crossing = true; failures_since_stamp = 0 }
    else if ltb (failures_since_stamp + 1) degraded_restamp_every
    then record { stamp = false; crossing = false; failures_since_stamp = failures_since_stamp + 1 }
    else record { stamp = true; crossing = false; failures_since_stamp = 0 }

pub data FaultCode : Type 0 where
  auth_revoked archive_unreachable : FaultCode

pub record CaptureFault : Type 0 where
  pub code : FaultCode
  pub message : String
  pub since : String
  pub last_observed_at : Option String
  pub url : String

abbrev pub code_eq : FaultCode → FaultCode → Bool
code_eq auth_revoked auth_revoked = true
code_eq auth_revoked archive_unreachable = false
code_eq archive_unreachable auth_revoked = false
code_eq archive_unreachable archive_unreachable = true

abbrev pub continuing : Option CaptureFault → CaptureFault → Bool
continuing none fault = false
continuing (some prior) fault = code_eq prior.code fault.code && str_eq prior.url fault.url

abbrev pub since_of : Option CaptureFault → CaptureFault → String
since_of none fault = fault.since
since_of (some prior) fault = if continuing (some prior) fault then prior.since else fault.since

-- The record that `saveFault` writes over what `loadFault` reads.
unfoldable pub save_fault : CaptureFault → Option CaptureFault → CaptureFault
save_fault fault prior = record fault {
  since = since_of prior fault;
  last_observed_at = some (value_or fault.last_observed_at fault.since);
}
