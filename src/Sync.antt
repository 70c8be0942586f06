-- ===== src/Sync.antt =====
-- apps/collector/src/sync/sync-worker.ts and apps/collector/src/heartbeat.ts: the loop that drains
-- the queue to the archive. The archive, the abort signal and the clock are the environment: what
-- they answer in one round of the loop is a `Round`. What the loop tells its caller through
-- callbacks is the log, in the order of the calls. A payload is its JSON text, as in the queue.
pub mod Heartbeat
pub mod Once
pub mod Loop
pub mod Failures
pub mod Streak
pub mod Delivery
pub mod Amid
pub mod Flight
pub mod Conserve
pub mod Tests
use ai.Common.{
  ℕ, ◌+◌, String, Bool, true, false, ◌&&◌, ◌||◌, Option, none, some, List, [], ◌∷◌, ◌++◌, ltb, leb,
  ◌==◌, if◌then◌else◌, length,
}
use ai.Queue.{QueueKind, raw, event, QueueRow, Store, upsert, claim_batch, ack, release_inflight}
use ai.Queue.Settle.{row_ids, mark_failed_all}

pub data SyncOutcome : Type 0 where
  ok retry stop : SyncOutcome

-- How the POST of a batch ends: accepted, refused with an HTTP status (`IngestHttpError`), cancelled
-- (`AbortError` or `TimeoutError`), or any other error.
pub data PostResult : Type 0 where
  accepted : PostResult
  http_error : (status : ℕ) → PostResult
  abort_error : PostResult
  other_error : PostResult

pub record IngestBatch : Type 0 where
  pub records : List String
  pub events : List String

abbrev pub put : QueueKind → String → IngestBatch → IngestBatch
put raw json b = record b { records = b.records ++ json ∷ [] }
put event json b = record b { events = b.events ++ json ∷ [] }

-- The loop that groups the claimed items.
unfoldable pub group : List QueueRow → IngestBatch → IngestBatch
group [] batch = batch
group (r ∷ rows) batch = group rows (put r.kind r.payload_json batch)

abbrev pub is_unauthorized : PostResult → Bool
is_unauthorized (http_error status) = status == 401
is_unauthorized _ = false

abbrev pub is_abort_error : PostResult → Bool
is_abort_error abort_error = true
is_abort_error _ = false

-- The status reported to `onRefused`, if it is called.
abbrev pub refusal : PostResult → Option ℕ
refusal (http_error status) = if leb 400 status && ltb status 500 then some status else none
refusal _ = none

-- What `syncOnce` leaves: its result, the store, and the arguments of `onDelivered` and `onRefused`
-- where they are called.
pub record Drain : Type 0 where
  pub outcome : SyncOutcome
  pub store : Store
  pub delivered : Option ℕ
  pub refused : Option ℕ

-- The environment of one drain.
pub record Attempt : Type 0 where
  pub claim_at : ℕ
  pub post : IngestBatch → PostResult
  pub aborted : Bool
  pub clock : ℕ → ℕ

abbrev pub is_accepted : PostResult → Bool
is_accepted accepted = true
is_accepted _ = false

abbrev pub settled : Attempt → PostResult → List QueueRow → Store → Drain
settled a res items s =
    if is_accepted res
    then record {
      outcome = ok;
      store = ack (row_ids items) s;
      delivered = some (length items);
      refused = none;
    }
    else if is_unauthorized res
    then record {
      outcome = stop;
      store = release_inflight (row_ids items) s;
      delivered = none;
      refused = none;
    }
    else if is_abort_error res || a.aborted
    then record {
      outcome = retry;
      store = release_inflight (row_ids items) s;
      delivered = none;
      refused = none;
    }
    else record {
      outcome = retry;
      store = mark_failed_all a.clock items s;
      delivered = none;
      refused = refusal res;
    }

abbrev pub or_default : Option ℕ → ℕ → ℕ
or_default none d = d
or_default (some n) d = n

abbrev pub empty_batch : IngestBatch
empty_batch = record { records = []; events = [] }

unfoldable pub after_claim : Attempt → List QueueRow → Store → Drain
after_claim a [] s = record { outcome = ok; store = s; delivered = none; refused = none }
after_claim a (r ∷ rows) s = settled a (a.post (group (r ∷ rows) empty_batch)) (r ∷ rows) s

unfoldable pub sync_once : Option ℕ → Attempt → Store → Drain
unfolding after_claim
sync_once batch_size a s =
    let claim = claim_batch a.claim_at (or_default batch_size 500) s in
    after_claim a claim.1 claim.0

-- A row that another loop of the process puts on the queue, with the digest of its payload.
pub record Enqueued : Type 0 where
  pub kind : QueueKind
  pub dedup_key : String
  pub content_hash : String
  pub payload_json : String

unfoldable pub enqueue_others : List Enqueued → Store → Store
enqueue_others [] s = s
enqueue_others (w ∷ ws) s =
    enqueue_others ws (upsert w.kind w.dedup_key w.content_hash w.payload_json s)

-- As `after_claim`, the rows `ws` being enqueued while the POST is awaited.
unfoldable pub after_claim_amid : List Enqueued → Attempt → List QueueRow → Store → Drain
after_claim_amid ws a [] s = record { outcome = ok; store = s; delivered = none; refused = none }
after_claim_amid ws a (r ∷ rows) s =
    settled a (a.post (group (r ∷ rows) empty_batch)) (r ∷ rows) (enqueue_others ws s)

unfoldable pub sync_once_amid : List Enqueued → Option ℕ → Attempt → Store → Drain
unfolding after_claim_amid
sync_once_amid ws batch_size a s =
    let claim = claim_batch a.claim_at (or_default batch_size 500) s in
    after_claim_amid ws a claim.1 claim.0
