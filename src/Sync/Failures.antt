-- ===== src/Sync/Failures.antt =====
-- The count of failed drains in `runSyncLoop` of sync-worker.ts, against what the drains did.
use ai.Common.{
  if◌then◌else◌, ◌||◌, ℕ, zero, suc, ◌≡◌, refl, ap, ◌∙◌, Option, none, some, List, [], ◌∷◌, arith,
  Bool-cases, inl, inr,
}
use ai.Queue.{QueueRow, Store}
use ai.Sync.{
  SyncOutcome, ok, retry, stop, Drain, Attempt, PostResult, Enqueued, enqueue_others, is_accepted,
  is_unauthorized, is_abort_error, refusal, settled, group, empty_batch, after_claim_amid,
  sync_once_amid,
}
use ai.Sync.Loop.{
  Round, Config, Vars, account, pass, follow, run_sync_loop, is_stop, conclude, attempt_drain,
  delivered_count,
}

-- The drains since the archive last took items or answered with a refusal that could not complete a
-- request.
abbrev pub failures_after : ℕ → (delivered : ℕ) → (refused : Option ℕ) → SyncOutcome → ℕ
failures_after n (suc k) refused outcome = 0
failures_after n zero (some status) outcome = 0
failures_after n zero none ok = n
failures_after n zero none retry = suc n
failures_after n zero none stop = n

unfoldable pub failed_drains : ℕ → List Drain → ℕ
failed_drains n [] = n
failed_drains n (d ∷ ds) =
    failed_drains (failures_after n (delivered_count d.delivered) d.refused d.outcome) ds

module _ {ℓ} where
  -- What the loop makes of a drain is what the drain did.
  account-settled :
      (R : Type ℓ) (a : Attempt) (res : PostResult) (row : QueueRow) (rows : List QueueRow)
      (t : Store) (at n : ℕ)
      → let d = settled a res (row ∷ rows) t in
        (account {R = R} d.outcome (delivered_count d.delivered) d.refused at n).0
        ≡ failures_after n (delivered_count d.delivered) d.refused d.outcome
  unfolding account
  account-settled R a res row rows t at n = elim (Bool-cases (is_accepted res)) [
    | inl e ↦ rw e (ground arith)
    | inr f ↦ rw f (elim (Bool-cases (is_unauthorized res)) [
      | inl e ↦ rw e refl
      | inr g ↦ rw g (elim (Bool-cases (is_abort_error res || a.aborted)) [
        | inl e ↦ rw e (omega arith)
        | inr h ↦ rw h (by_refusal (refusal res))
      ])
    ])
  ]
    where
      by_refusal : (o : Option ℕ) → (account {R = R} retry 0 o at n).0 ≡ failures_after n 0 o retry
      by_refusal none = omega arith
      by_refusal (some status) = refl

  account-after_claim_amid :
      (R : Type ℓ) (ws : List Enqueued) (a : Attempt) (rows : List QueueRow) (t : Store) (at n : ℕ)
      → let d = after_claim_amid ws a rows t in
        (account {R = R} d.outcome (delivered_count d.delivered) d.refused at n).0
        ≡ failures_after n (delivered_count d.delivered) d.refused d.outcome
  unfolding after_claim_amid account
  account-after_claim_amid R ws a [] t at n = refl
  account-after_claim_amid R ws a (r ∷ rows) t at n =
      account-settled R a (a.post (group (r ∷ rows) empty_batch)) r rows (enqueue_others ws t) at n

module _ {ℓ} {R : Type ℓ} where
  -- The drain of a pass.
  abbrev pub drained : Config → Round R → Store → Drain
  drained c r s =
      sync_once_amid r.posting c.batch_size r.attempt
        (enqueue_others r.beating (enqueue_others r.before s))

  -- The drains of a run of the loop, until it leaves.
  unfoldable pub drains : Config → List (Round R) → Store → List Drain
  drains c [] s = []
  drains c (r ∷ rounds) s =
      let rest = drains c rounds (drained c r s).store in
      if r.aborted_at_start
      then []
      else if is_stop (drained c r s).outcome
      then []
      else if r.aborted_after
      then []
      else drained c r s ∷ rest

  account-drained :
      (c : Config) (r : Round R) (s : Store) (n : ℕ)
      → let d = drained c r s in
        (account {R = R} d.outcome (delivered_count d.delivered) d.refused r.synced_at n).0
        ≡ failures_after n (delivered_count d.delivered) d.refused d.outcome
  unfolding sync_once_amid
  account-drained c r s n = account-after_claim_amid R r.posting r.attempt _ _ r.synced_at n

  pub run_sync_loop-failures :
      (c : Config) (rounds : List (Round R)) (v : Vars)
      → (run_sync_loop c rounds v).vars.failures
        ≡ failed_drains v.failures (drains c rounds v.store)
  unfolding run_sync_loop pass attempt_drain follow conclude drains failed_drains
  run_sync_loop-failures c [] v = refl
  run_sync_loop-failures c (r ∷ rounds) v = elim (Bool-cases r.aborted_at_start) [
    | inl e ↦ rw e refl
    | inr e ↦ rw e (elim (Bool-cases (is_stop (drained c r v.store).outcome)) [
      | inl f ↦ rw f refl
      | inr f ↦ rw f (elim (Bool-cases r.aborted_after) [
        | inl g ↦ rw g refl
        | inr g ↦ rw g (
            run_sync_loop-failures c rounds _
            ∙ ap (λ n. failed_drains n (drains c rounds (drained c r v.store).store))
                (account-drained c r v.store v.failures))
      ])
    ])
  ]
