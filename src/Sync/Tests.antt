-- ===== src/Sync/Tests.antt =====
-- Runs of the sync loop at concrete inputs, and its theorems at them.
use ai.Common.{ℕ, ◌≡◌, ◌+◌, refl, String, true, false, none, some, List, [], ◌∷◌}
use ai.Queue.{raw, upsert, fresh}
use ai.Queue.Settle.{mark_failed_all}
use ai.Queue.Tests.{sample, sample-IsValid, machinery}
use ai.Sync.{
  PostResult, accepted, http_error, other_error, Attempt, group, after_claim, sync_once,
  sync_once_amid, after_claim_amid, enqueue_others,
}
use ai.Sync.Heartbeat.{
  absent, throws, Beat, attempts, Spaced, attempts-Spaced, maybe_send_heartbeat, body,
}
use ai.Sync.Loop.{
  Notice, on_sync, on_sync_refused, on_sync_failure, Round, Config, Vars, run_sync_loop,
  attempt_drain, conclude, account, beat, send_heartbeat,
}
use ai.Sync.Once.{described, batch_rows, sync_once-described}
use ai.Sync.Failures.{drains, failed_drains}
use ai.Sync.Streak.{WellCounted, streak, run_sync_loop-WellCounted}
use ai.Sync.Conserve.{Conserves, run_sync_loop-Conserves}

abbrev attempt : ℕ → PostResult → Attempt
attempt at res = record { claim_at = at; post = λ b. res; aborted = false; clock = λ id. at }

abbrev round : ℕ → PostResult → Round String
round at res = record {
  aborted_at_start = false;
  before = [];
  heartbeat_at = at;
  stats_read = true;
  reports = absent;
  beating = [];
  attempt = attempt at res;
  posting = [];
  aborted_after = false;
  synced_at = at;
}

abbrev config : Config
config = record {
  batch_size = some 2;
  collector_version = some "0.1.0";
  heartbeat_interval_ms = some 5000;
}

abbrev start : Vars
start = record { store = sample; last_sent = 0; failures = 0 }

-- The archive is down for three passes, the second of which finds nothing due; then it refuses the
-- rows, and at last accepts them.
abbrev outage : List (Round String)
outage =
    round 6000 (http_error 503)
    ∷ round 6500 other_error
    ∷ round 6600 other_error
    ∷ round 9000 other_error
    ∷ round 20_000 (http_error 422)
    ∷ round 40_000 accepted
    ∷ []

sync_machinery : Unit {0}
unfolding machinery mark_failed_all group sync_once sync_once_amid after_claim_amid enqueue_others
    run_sync_loop maybe_send_heartbeat body beat send_heartbeat attempt_drain conclude account
    after_claim
sync_machinery = tt

abbrev told : List (Notice String) → List ℕ
told [] = []
told (on_sync at d ∷ log) = (at + d) ∷ told log
told (on_sync_failure n ∷ log) = n ∷ told log
told (on_sync_refused s ∷ log) = s ∷ told log
told (_ ∷ log) = told log

-- The streak counts 1, 2, 3 over the empty drain, and the refusal ends it.
outage_test : told (run_sync_loop config outage start).log ≡ 1 ∷ 2 ∷ 6600 ∷ 3 ∷ 422 ∷ 40_002 ∷ []
unfolding sync_machinery
outage_test = refl

-- A row that is enqueued anew while its batch is posted keeps its id: the acknowledgement deletes it, and its
-- new payload is never sent.
overtaken :
    let d =
      sync_once_amid
        (record { kind = raw; dedup_key = "k"; content_hash = "h2"; payload_json = "p2" } ∷ [])
        none
        (attempt 1 accepted)
        (upsert raw "k" "h1" "p1" fresh) in
    (d.delivered ≡ some 1) × (d.store.items ≡ [])
unfolding sync_machinery upsert fresh
overtaken = (refl, refl)

sync_once-described_example :
    sync_once (some 2) (attempt 6000 (http_error 401)) sample
    ≡ described
        (some 2)
        (attempt 6000 (http_error 401))
        sample
        (batch_rows (some 2) (attempt 6000 (http_error 401)) sample)
sync_once-described_example =
    sync_once-described (some 2) (attempt 6000 (http_error 401)) sample sample-IsValid

run_sync_loop-WellCounted_example :
    WellCounted 0 (run_sync_loop config outage start).log
    × ((run_sync_loop config outage start).vars.failures
        ≡ streak 0 (run_sync_loop config outage start).log)
    × ((run_sync_loop config outage start).vars.failures
        ≡ failed_drains 0 (drains config outage sample))
run_sync_loop-WellCounted_example = run_sync_loop-WellCounted config outage start

run_sync_loop-Conserves_example :
    Conserves sample
      (run_sync_loop config outage start).vars
      (run_sync_loop config outage start).log
run_sync_loop-Conserves_example = run_sync_loop-Conserves config outage start sample-IsValid

abbrev beats : List (Beat String)
beats =
    record { now = 6000; failures = 0; stats = none; reports = absent }
    ∷ record { now = 7000; failures = 1; stats = none; reports = throws }
    ∷ record { now = 11_000; failures = 2; stats = none; reports = absent }
    ∷ []

attempts-Spaced_example : Spaced 5000 0 (attempts "0.1.0" 5000 0 beats)
attempts-Spaced_example = attempts-Spaced "0.1.0" 5000 0 beats
