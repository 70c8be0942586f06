-- ===== src/Health/Ladder.antt =====
-- `classifyDeclared` of packages/shared/src/capture-health.ts.
use ai.Common.{
  ◌≡◌, refl, ap, ◌∙◌, String, Bool, true, false, ◌&&◌, ◌||◌, not, List, if◌then◌else◌, any, str_eq,
}
use ai.Alerts.{MonitorStatus, is_offline_status}
use ai.Health.{
  CaptureHealthState, healthy, idle, erroring, needs_approval, disabled, silent, unknown,
  capture_health_verdict, capturing, not_capturing, broken, verdict_unknown, CaptureHealthVerdict,
  DeclaredConnectorRow, Clock, ms_of, fresh, is_live_capture, error_after, awaits, is_absent,
  classify_declared,
}

abbrev pub is_capturing : CaptureHealthVerdict → Bool
is_capturing capturing = true
is_capturing not_capturing = false
is_capturing broken = false
is_capturing verdict_unknown = false

abbrev pub is_idle : CaptureHealthState → Bool
is_idle idle = true
is_idle _ = false

-- The ladder over its tests.
abbrev ladder : (off en aw err fr live : Bool) → CaptureHealthState
ladder off en aw err fr live =
    if off
    then unknown
    else if not en
    then disabled
    else if aw
    then needs_approval
    else if err
    then erroring
    else if fr
    then healthy
    else if live
    then silent
    else idle

ladder-capturing :
    (off en aw err fr live : Bool)
    → is_capturing (capture_health_verdict (ladder off en aw err fr live))
      ≡ (not off && (en && (not aw && (not err && (fr || not live)))))
ladder-capturing true en aw err fr live = refl
ladder-capturing false false aw err fr live = refl
ladder-capturing false true true err fr live = refl
ladder-capturing false true false true fr live = refl
ladder-capturing false true false false true live = refl
ladder-capturing false true false false false true = refl
ladder-capturing false true false false false false = refl

ladder-idle : (off en aw err fr : Bool) → is_idle (ladder off en aw err fr true) ≡ false
ladder-idle true en aw err fr = refl
ladder-idle false false aw err fr = refl
ladder-idle false true true err fr = refl
ladder-idle false true false true fr = refl
ladder-idle false true false false true = refl
ladder-idle false true false false false = refl

-- The tests of the code, in one expression.
pub capturing_tests :
    (k : Clock) (d : DeclaredConnectorRow) (status : MonitorStatus) (recent : List String)
    → is_capturing (capture_health_verdict (classify_declared k d status recent)) ≡ (
        not (is_offline_status status)
        && (d.enabled
            && (not (awaits d.approval)
                && (not (error_after (ms_of k d.last_error_at) (ms_of k d.observed.last_event_at))
                    && (fresh k d.observed.last_event_at
                        || not (
                            is_live_capture d.liveness
                            && (is_absent d.observed.last_event_at
                                || any (str_eq d.observed.machine_id) recent)))))))
unfolding classify_declared
capturing_tests k d status recent =
    ladder-capturing (is_offline_status status) d.enabled (awaits d.approval) _ _ _

-- A live-capture connector of an active machine is never called idle.
pub classify_declared-idle :
    (k : Clock) (d : DeclaredConnectorRow) (status : MonitorStatus) (recent : List String)
    → is_live_capture d.liveness ≡ true
    → any (str_eq d.observed.machine_id) recent ≡ true
    → is_idle (classify_declared k d status recent) ≡ false
unfolding classify_declared
classify_declared-idle k d status recent l a =
    ap
      (λ b. is_idle (
        ladder (is_offline_status status) d.enabled (awaits d.approval)
          (error_after (ms_of k d.last_error_at) (ms_of k d.observed.last_event_at))
          (fresh k d.observed.last_event_at) b))
      (both (is_live_capture d.liveness) (is_absent d.observed.last_event_at) _ l a)
    ∙ ladder-idle (is_offline_status status) d.enabled (awaits d.approval) _ _
  where
    both :
        (live absent active : Bool)
        → live ≡ true
        → active ≡ true
        → (live && (absent || active)) ≡ true
    both live absent active l a = rw (l, a) (or_true absent)
      where
        or_true : (b : Bool) → (b || true) ≡ true
        or_true true = refl
        or_true false = refl
