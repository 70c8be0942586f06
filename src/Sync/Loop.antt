-- ===== src/Sync/Loop.antt =====
-- `runSyncLoop` of sync-worker.ts. One element of the list of rounds is what the environment does in
-- one pass of `while (!signal.aborted)`: the list may end before the loop does. The idle and retry
-- delays only pass time, which the clock readings of the next round show. The watcher, the polls and the
-- push receiver of the same process enqueue while the loop awaits: `before` the pass, while its
-- heartbeat is sent (`beating`), and while its batch is posted (`posting`).
use ai.Common.{
  ℕ, ◌+◌, String, Bool, true, false, Option, none, some, List, [], ◌∷◌, ◌++◌, ltb, if◌then◌else◌,
}
use ai.Queue.{Store, QueueStats, stats}
use ai.Sync.{
  SyncOutcome, ok, retry, stop, Drain, Attempt, Enqueued, enqueue_others, sync_once_amid,
  or_default,
}
use ai.Sync.Heartbeat.{Thunk, Ping, throttled, posts, fails, HeartbeatBody, maybe_send_heartbeat}

-- A call of one of the loop's callbacks.
pub data Notice {ℓ} (R : Type ℓ) : Type ℓ where
  heartbeat : HeartbeatBody R → Notice R
  on_delivered : (items : ℕ) → Notice R
  on_refused : (status : ℕ) → Notice R
  on_stop : Notice R
  on_sync : (at delivered : ℕ) → Notice R
  on_sync_refused : (status : ℕ) → Notice R
  on_sync_failure : (consecutive : ℕ) → Notice R

pub record Round {ℓ} (R : Type ℓ) : Type ℓ where
  pub aborted_at_start : Bool
  pub before : List Enqueued
  pub heartbeat_at : ℕ
  pub stats_read : Bool
  pub reports : Thunk R
  pub beating : List Enqueued
  pub attempt : Attempt
  pub posting : List Enqueued
  pub aborted_after : Bool
  pub synced_at : ℕ

pub record Config : Type 0 where
  pub batch_size : Option ℕ
  pub collector_version : Option String
  pub heartbeat_interval_ms : Option ℕ

-- The loop's variables: the store it drains, `lastSentMs` and `consecutiveSyncFailures`.
pub record Vars : Type 0 where
  pub store : Store
  pub last_sent : ℕ
  pub failures : ℕ

pub data Ending : Type 0 where
  was_aborted was_stopped running : Ending

pub record Result {ℓ} (R : Type ℓ) : Type ℓ where
  pub ending : Ending
  pub vars : Vars
  pub log : List (Notice R)

-- What one pass does: it goes on, or it leaves the loop.
pub data Pass {ℓ} (R : Type ℓ) : Type ℓ where
  goes_on : Vars → List (Notice R) → Pass R
  leaves : Ending → Vars → List (Notice R) → Pass R

abbrev pub read_stats : Bool → Store → Option QueueStats
read_stats true s = some (stats s)
read_stats false s = none

abbrev pub delivered_count : Option ℕ → ℕ
delivered_count none = 0
delivered_count (some n) = n

abbrev pub is_stop : SyncOutcome → Bool
is_stop ok = false
is_stop retry = false
is_stop stop = true

module _ {ℓ} {R : Type ℓ} where
  abbrev pub ping_log : Ping R → List (Notice R)
  ping_log throttled = []
  ping_log (posts b) = heartbeat b ∷ []
  ping_log fails = []

  unfoldable pub beat : Option String → Config → Round R → Vars → ℕ × List (Notice R)
  beat none c r v = (v.last_sent, [])
  beat (some version) c r v =
      let (last, ping) =
        maybe_send_heartbeat version (or_default c.heartbeat_interval_ms 30_000) v.failures
          r.heartbeat_at (read_stats r.stats_read v.store) r.reports v.last_sent in
      (last, ping_log ping)

  -- `sendHeartbeat`, disabled where no version is set.
  unfoldable pub send_heartbeat : Config → Round R → Vars → ℕ × List (Notice R)
  send_heartbeat c r v = beat c.collector_version c r v

  -- `syncOnce` calls these two, and the loop passes the calls on.
  abbrev pub delivered_log : Option ℕ → List (Notice R)
  delivered_log none = []
  delivered_log (some n) = on_delivered n ∷ []

  abbrev pub refused_log : Option ℕ → List (Notice R)
  refused_log none = []
  refused_log (some status) = on_refused status ∷ []

  -- The branches behind `if (signal.aborted) break`.
  unfoldable pub account : SyncOutcome → ℕ → Option ℕ → ℕ → ℕ → ℕ × List (Notice R)
  account ok delivered refused at failures =
      (if ltb 0 delivered then 0 else failures, on_sync at delivered ∷ [])
  account retry delivered (some status) at failures = (0, on_sync_refused status ∷ [])
  account retry delivered none at failures = (failures + 1, on_sync_failure (failures + 1) ∷ [])
  account stop delivered refused at failures = (failures, [])

  -- After `syncOnce` returned: the two exits, and the rest of the pass. `told` is the log so far.
  unfoldable pub conclude : Bool → Bool → Round R → Drain → Vars → List (Notice R) → Pass R
  conclude true aborted r d v told = leaves was_stopped v (told ++ on_stop ∷ [])
  conclude false true r d v told = leaves was_aborted v told
  conclude false false r d v told =
      let (failures, notices) =
        account d.outcome (delivered_count d.delivered) d.refused r.synced_at v.failures in
      goes_on (record v { failures = failures }) (told ++ notices)

  abbrev pub drain_log : Drain → List (Notice R)
  drain_log d = delivered_log d.delivered ++ refused_log d.refused

  unfoldable pub attempt_drain : Bool → Config → Round R → Vars → Pass R
  attempt_drain true c r v = leaves was_aborted v []
  attempt_drain false c r v =
      let s = enqueue_others r.before v.store in
      let (last, sent) = send_heartbeat c r (record v { store = s }) in
      let d = sync_once_amid r.posting c.batch_size r.attempt (enqueue_others r.beating s) in
      conclude (is_stop d.outcome) r.aborted_after r d
        (record v { store = d.store; last_sent = last }) (sent ++ drain_log d)

  -- One pass of the loop.
  unfoldable pub pass : Config → Round R → Vars → Pass R
  pass c r v = attempt_drain r.aborted_at_start c r v

  abbrev pub prepend : List (Notice R) → Result R → Result R
  prepend log res = record res { log = log ++ res.log }

  unfoldable pub follow : (Vars → Result R) → Pass R → Result R
  follow go_on (goes_on v log) = prepend log (go_on v)
  follow go_on (leaves e v log) = record { ending = e; vars = v; log = log }

  unfoldable pub run_sync_loop : Config → List (Round R) → Vars → Result R
  unfolding follow pass
  run_sync_loop c [] v = record { ending = running; vars = v; log = [] }
  run_sync_loop c (r ∷ rounds) v = follow (run_sync_loop c rounds) (pass c r v)
