-- ===== src/Engine/Shutdown.antt =====
-- The end of `runCaptureEngine` of apps/collector/src/capture-engine.ts: the drain of the queue before the
-- process exits, and what is reported of it. `attempt i timeout` is what the archive answers to call
-- number `i`; its signal aborts after `timeout`.
use ai.Common.{
  ℕ, ◌+◌, ◌≤◌, ◌<◌, ◌≡◌, refl, sym, ap, ◌∙◌, Bool, true, false, ◌&&◌, ◌||◌, not, Option, none, some,
  List, [], ◌∷◌, arith, ltb, if◌then◌else◌, length, any,
}
use ai.Queue.{Store, stats}
use ai.Queue.Invariant.{IsValid}
use ai.Sync.{SyncOutcome, ok, Attempt, sync_once}
use ai.Sync.Loop.{is_stop}
use ai.Sync.Delivery.{flying, delivered_count, sync_once-Keeps, sync_once-IsValid}
use ai.Engine.Drain.{
  DrainCall, Drained, DrainedBy, Chained, drain_before_exit, drain_before_exit_ends,
  drain_before_exit_keeps,
}

abbrev pub shutdown_drain_ms : ℕ
shutdown_drain_ms = 5_000

-- The queue, and `drainDelivered`.
pub record Draining : Type 0 where
  pub store : Store
  pub delivered : ℕ

-- The argument of `onSyncSuccess`, where it is called, and whether `reportFatal` reports the fault: not
-- if a fault was `reported` before, as `onStop` of the sync loop does.
pub record Report : Type 0 where
  pub sync_success : Option ℕ
  pub fatal : Bool

or_false : (b : Bool) → (b || false) ≡ b
or_false true = refl
or_false false = refl

-- Every call before the last succeeded: the only one that can be told to stop is the last.
any_stop {ℓ} :
    {S : Type ℓ} (sync : ℕ → ℕ → S → S × SyncOutcome) (pending : S → ℕ) (now : ℕ → ℕ)
    (before : SyncOutcome) (calls : List DrainCall) (final : SyncOutcome)
    → Chained sync pending now before calls final
    → (is_stop before || any (λ c. is_stop c.outcome) calls) ≡ is_stop final
any_stop sync pending now before [] final h = rw h (or_false (is_stop final))
any_stop sync pending now before (c ∷ cs) final h =
    rw (h.0) (any_stop sync pending now c.outcome cs final h.1)

module _ (attempt : ℕ → ℕ → Attempt) (now : ℕ → ℕ) where
  abbrev pub drain_call : ℕ → ℕ → Draining → Draining × SyncOutcome
  drain_call i timeout v =
      let d = sync_once none (attempt i timeout) v.store in
      (record { store = d.store; delivered = v.delivered + delivered_count d.delivered }, d.outcome)

  abbrev pub pending_items : Draining → ℕ
  pending_items v = (stats v.store).pending

  unfoldable pub drain_queue : ℕ → Store → Option (Drained Draining)
  drain_queue fuel s =
      drain_before_exit drain_call pending_items now fuel shutdown_drain_ms
        (record { store = s; delivered = 0 })

  unfoldable pub shutdown_report : Bool → Drained Draining → Report
  shutdown_report reported d = record {
    sync_success =
        if ltb 0 d.state.delivered && not (is_stop d.outcome) then some d.state.delivered else none;
    fatal = is_stop d.outcome && not reported;
  }

  -- The rows left and those delivered are the rows at first.
  record Accounts (s : Store) (v : Draining) : Type 0 where
    pub valid : IsValid v.store
    pub rows : length v.store.items + v.delivered ≡ length s.items
    pub flight : flying v.store.items ≡ flying s.items

  drain_call-Accounts :
      (s : Store) (i timeout : ℕ) (v : Draining)
      → Accounts s v
      → Accounts s (drain_call i timeout v).0
  drain_call-Accounts s i timeout v h =
      let keeps = sync_once-Keeps none (attempt i timeout) v.store h.valid in
      record {
        valid = sync_once-IsValid none (attempt i timeout) v.store h.valid;
        rows = omega (arith, keeps.rows, h.rows);
        flight = keeps.flight ∙ h.flight;
      }

  -- Once a reading of the clock, the one numbered `fuel`, is five seconds or more past the first one, the
  -- drain of a valid queue has ended: each call of it may last until those five seconds are over and no
  -- longer. What it reports to have delivered and the rows it leaves are the rows there were, and no row
  -- is left in flight that was not before. The fault is reported exactly if some call was told that the
  -- credential is revoked and no fault was reported before.
  pub drain_queue_ends :
      (reported : Bool) (fuel : ℕ) (s : Store)
      → IsValid s
      → 0 < fuel
      → now 0 + shutdown_drain_ms ≤ now fuel
      → (d : Drained Draining) × ((drain_queue fuel s ≡ some d)
          × DrainedBy drain_call pending_items now shutdown_drain_ms fuel d
          × (length d.state.store.items + d.state.delivered ≡ length s.items)
          × (flying d.state.store.items ≡ flying s.items)
          × ((shutdown_report reported d).fatal
              ≡ (any (λ c. is_stop c.outcome) d.calls && not reported)))
  unfolding drain_queue shutdown_report
  drain_queue_ends reported fuel s v h late =
      let (d, (e, by)) =
        drain_before_exit_ends drain_call pending_items now fuel shutdown_drain_ms
          (record { store = s; delivered = 0 }) h (omega arith) late in
      let kept =
        drain_before_exit_keeps drain_call pending_items now (Accounts s) (drain_call-Accounts s)
          fuel shutdown_drain_ms (record { store = s; delivered = 0 }) d e
          (record { valid = v; rows = omega arith; flight = refl }) in
      (
        d,
        (
          e,
          by,
          kept.rows,
          kept.flight,
          ap (λ b. b && not reported)
              (sym (any_stop drain_call pending_items now ok d.calls d.outcome by.chained)),
        ),
      )
