-- ===== src/Engine/Tests.antt =====
-- An outage at its first failures, and a shutdown whose second reading of the clock is late.
use ai.Common.{◌&&◌, true, ℕ, ◌+◌, ◌*◌, ◌≡◌, false, some, arith, length, any}
use ai.Queue.Tests.{sample, sample-IsValid}
use ai.Sync.{Attempt, accepted}
use ai.Sync.Loop.{is_stop}
use ai.Sync.Delivery.{flying}
use ai.Engine.Drain.{Drained, DrainedBy}
use ai.Engine.Shutdown.{
  Draining, drain_call, pending_items, drain_queue, shutdown_report, drain_queue_ends,
}

abbrev archive : ℕ → ℕ → Attempt
archive i timeout = record {
  claim_at = 9000;
  post = λ batch. accepted;
  aborted = false;
  clock = λ id. 9000;
}

abbrev clock : ℕ → ℕ
clock i = 1000 + 3000 * i

drain_queue_ends_example :
    (d : Drained Draining) × ((drain_queue archive clock 2 sample ≡ some d)
      × DrainedBy (drain_call archive clock) (pending_items archive clock) clock 5000 2 d
      × (length d.state.store.items + d.state.delivered ≡ length sample.items)
      × (flying d.state.store.items ≡ flying sample.items)
      × ((shutdown_report archive clock false d).fatal
          ≡ (any (λ c. is_stop c.outcome) d.calls && true)))
drain_queue_ends_example =
    drain_queue_ends archive clock false 2 sample sample-IsValid (omega arith) (omega arith)
