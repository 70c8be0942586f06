-- ===== src/Alerts/Status.antt =====
-- The liveness that monitor.ts derives for a machine.
use ai.Common.{
  ℕ, ◌+◌, ◌≤◌, ◌≡◌, String, false, Option, none, some, leb, str_eq, if◌then◌else◌, arith, coalesce,
  Bool-cases, inl, inr,
}
use ai.Alerts.{
  MonitorStatus, online, stale, offline, status_of_age, status_of_ref, derive_machine_status,
}

-- How far a status is from being online.
abbrev pub lateness : MonitorStatus → ℕ
lateness online = 0
lateness stale = 1
lateness offline = 2

age_monotone :
    (now later : ℕ) (t : Option ℕ)
    → now ≤ later
    → lateness (status_of_age now t) ≤ lateness (status_of_age later t)
age_monotone now later none h = omega arith
age_monotone now later (some t) h = ground arith

-- While no newer heartbeat arrives a machine's status never improves.
pub derive_machine_status_monotone :
    (parse : String → Option ℕ) (heartbeat seen : Option String) (now later : ℕ)
    → now ≤ later
    → lateness (derive_machine_status parse heartbeat seen now)
      ≤ lateness (derive_machine_status parse heartbeat seen later)
unfolding derive_machine_status
derive_machine_status_monotone parse heartbeat seen now later h = by_ref (coalesce heartbeat seen)
  where
    by_ref :
        (o : Option String)
        → lateness (status_of_ref parse now o) ≤ lateness (status_of_ref parse later o)
    by_ref none = omega arith
    by_ref (some ref) = elim (Bool-cases (str_eq ref "")) [
      | inl e ↦ rw e (omega arith)
      | inr e ↦ rw e (age_monotone now later (parse ref) h)
    ]

-- A machine is online exactly up to 90 seconds after its last heartbeat, and offline exactly from
-- five minutes on; the time it was last seen plays no part once there is a heartbeat.
pub derive_machine_status_ages :
    (parse : String → Option ℕ) (heartbeat : String) (seen : Option String) (now t : ℕ)
    → str_eq heartbeat "" ≡ false
    → parse heartbeat ≡ some t
    → derive_machine_status parse (some heartbeat) seen now
      ≡ (if leb now (t + 90_000) then online else if leb now (t + 300_000) then stale else offline)
unfolding derive_machine_status
derive_machine_status_ages parse heartbeat seen now t filled e =
    rw (filled, e, status_of_age) (ground arith)
