-- ===== src/Queue/Tests.antt =====
-- Runs of the queue at concrete inputs, and the queue's theorems at them.
use ai.Common.{
  ◌≤◌, ◌≡◌, refl, String, ◌&&◌, some, List, [], ◌∷◌, map, take, drop, keep, ltb, str_eq,
  if◌then◌else◌, ◌*◌, ◌^◌,
}
use ai.Queue.{
  raw, event, noop, updated, Store, fresh, enqueue, claim_batch, mark_failed, recover_inflight,
  release_inflight, ack, stats, upsert, enqueue_result, update_where, delete_where, flip_all,
  is_due, to_row, backoff, find_row, kind_eq,
}
use ai.Queue.Invariant.{IsValid}
use ai.Queue.History.{Call, enqueues, claims, fails, step, run, run-fresh-IsValid}
use ai.Queue.Enqueue.{written, find_row-enqueue}
use ai.Queue.Claim.{claim_batch-claim_batch}
use ai.Queue.Settle.{row_ids, release_inflight-claim_batch}
use ai.Queue.Backoff.{backoff_schedule}

-- A digest that tells all texts apart.
abbrev pub plain : String → String
plain s = s

abbrev pub calls : List Call
calls =
    enqueues raw "claude-code:1" "{a}"
    ∷ enqueues event "f1" "{b}"
    ∷ enqueues event "f2" "{c}"
    ∷ claims 10 1
    ∷ fails 10 1 0
    ∷ enqueues event "f1" "{d}"
    ∷ []

abbrev pub sample : Store
sample = run plain fresh calls

pub sample-IsValid : IsValid sample
sample-IsValid = run-fresh-IsValid plain calls

unfoldable pub machinery : Unit {0}
unfolding run step fresh enqueue upsert enqueue_result find_row update_where delete_where
    claim_batch flip_all ack mark_failed backoff release_inflight recover_inflight stats
machinery = tt

run-fresh-IsValid_example : IsValid (run plain fresh calls)
run-fresh-IsValid_example = run-fresh-IsValid plain calls

find_row-enqueue_example : find_row event "f1" (enqueue plain event "f1" "{e}" sample).0.items ≡ (
    if kind_eq event event && str_eq "f1" "f1"
    then some (written sample.next_id event "f1" "{e}" "{e}" (find_row event "f1" sample.items))
    else find_row event "f1" sample.items)
find_row-enqueue_example = find_row-enqueue plain event event "f1" "f1" "{e}" sample

claim_batch-claim_batch_example :
    (claim_batch 20 1 (claim_batch 20 1 sample).0).1
    ≡ map to_row (take 1 (drop 1 (keep (is_due 20) sample.items)))
claim_batch-claim_batch_example = claim_batch-claim_batch 20 1 1 sample sample-IsValid

release_inflight-claim_batch_example :
    release_inflight (row_ids (claim_batch 20 2 sample).1) (claim_batch 20 2 sample).0 ≡ sample
release_inflight-claim_batch_example = release_inflight-claim_batch 20 2 sample sample-IsValid

backoff_schedule_example :
    (1000 ≤ backoff 3)
    × (backoff 3 ≤ 30_000)
    × (backoff 3 ≤ backoff 4)
    × (backoff 3 ≡ (if ltb 3 5 then 1000 * 2 ^ 3 else 30_000))
backoff_schedule_example = backoff_schedule 3

-- The changed payload of `f1` is an update, and the failed row waits for its backoff.
calls_test :
    ((enqueue plain event "f1" "{d}" sample).1 ≡ noop)
    × ((enqueue plain event "f1" "{e}" sample).1 ≡ updated)
    × (row_ids (claim_batch 20 5 sample).1 ≡ 2 ∷ 3 ∷ [])
    × (row_ids (claim_batch 1010 5 sample).1 ≡ 1 ∷ 2 ∷ 3 ∷ [])
unfolding machinery
calls_test = (refl, refl, refl, refl)
