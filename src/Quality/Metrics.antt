-- ===== src/Quality/Metrics.antt =====
-- What the result of `deriveDataQualityMetrics` of packages/shared/src/data-quality.ts adds up to.
use ai.Common.{
  ℕ, suc, ◌+◌, ◌≤◌, ◌<◌, ◌≡◌, refl, none, some, List, [], ◌∷◌, arith, inl, inr, Bool-cases,
  if◌then◌else◌, leb, length, length-keep-le,
}
use ai.Health.{
  CaptureHealthVerdict, CaptureHealthRow, capturing, not_capturing, broken, verdict_unknown,
}
use ai.Quality.{
  MetricValue, measured, sampled, unmeasured, UnmeasuredReason, ratio_metric, SessionQualityRow,
  summarize_declarations, start_buckets,
}
use ai.Quality.Derive.{
  DataQualityInputs, DataQualityMetricTable, with_verdict, verdict_eq, derive_data_quality_metrics,
  no_tokens_counted, no_lag_counted, nothing_rolled_up,
}
use ai.Quality.Counts.{
  token_total, token_counts_total, freshness_counts_total, skipped, recoverability_rollup_total,
}
use ai.Quality.Git.{git_total}

-- A ratio is of a part to a whole that is there; a sample's size is that whole.
abbrev pub IsRatio : MetricValue → Type 0
IsRatio (measured n d) = (0 < d) × (n ≤ d)
IsRatio (sampled n d size) = (0 < d) × (n ≤ d) × (size ≡ d)
IsRatio (unmeasured reason) = Unit

ratio_metric-IsRatio :
    (n d : ℕ) (reason : UnmeasuredReason) → n ≤ d → IsRatio (ratio_metric n d reason none)
unfolding ratio_metric
ratio_metric-IsRatio n d reason h = elim (Bool-cases (leb d 0)) [
  | inl e ↦ rw e tt
  | inr e ↦ rw e (ground arith, h)
]

ratio_metric-IsRatio_sample :
    (n d : ℕ) (reason : UnmeasuredReason) → n ≤ d → IsRatio (ratio_metric n d reason (some d))
unfolding ratio_metric
ratio_metric-IsRatio_sample n d reason h = elim (Bool-cases (leb d 0)) [
  | inl e ↦ rw e tt
  | inr e ↦ rw e (ground arith, h, refl)
]

-- A metric that the archive cannot measure is unmeasured, for some reason.
pub record IsSound (t : DataQualityMetricTable) : Type 0 where
  pub coverage : (reason : UnmeasuredReason) × (t.capture_coverage ≡ unmeasured reason)
  pub correctness : (reason : UnmeasuredReason) × (t.attribution_correctness ≡ unmeasured reason)
  pub attribution : IsRatio t.attribution_coverage
  pub tokens : IsRatio t.token_completeness
  pub parses : IsRatio t.parse_success
  pub duplicates : IsRatio t.duplicate_rate
  pub freshness : IsRatio t.sync_freshness
  pub recovery : IsRatio t.recoverability

-- If no more raw records yielded events than there are, every ratio of the table is of a part to a whole
-- that is not empty, so at most one, and the two metrics that the archive cannot know are unmeasured.
pub derive_data_quality_metrics-IsSound :
    (inputs : DataQualityInputs) (health : List CaptureHealthRow)
    → inputs.yielded_events ≤ inputs.raw_rows
    → IsSound (derive_data_quality_metrics inputs health).metrics
unfolding derive_data_quality_metrics
derive_data_quality_metrics-IsSound inputs health h = record {
  coverage = (_, refl);
  correctness = (_, refl);
  attribution =
      ratio_metric-IsRatio _ _ _
        (length-keep-le (λ (s : SessionQualityRow). s.attributed) inputs.sessions);
  tokens =
      ratio_metric-IsRatio _ _ _
        (token_counts_total (summarize_declarations inputs.declarations) inputs.sessions
          no_tokens_counted (omega arith)).1;
  parses = ratio_metric-IsRatio _ _ _ h;
  duplicates = ratio_metric-IsRatio _ _ _ (omega arith);
  freshness = ratio_metric-IsRatio _ _ _ (omega arith);
  recovery =
      ratio_metric-IsRatio_sample _ _ _
        (recoverability_rollup_total inputs.recoverability nothing_rolled_up (omega arith)).1;
}

verdict_total :
    (rows : List CaptureHealthRow)
    → with_verdict capturing rows
        + with_verdict not_capturing rows
        + with_verdict broken rows
        + with_verdict verdict_unknown rows
      ≡ length rows
verdict_total [] = omega arith
verdict_total (r ∷ rows) = by_verdict r.verdict (verdict_total rows)
  where
    one : CaptureHealthVerdict → CaptureHealthVerdict → ℕ
    one x v = if verdict_eq x v then 1 else 0

    by_verdict :
        (x : CaptureHealthVerdict)
        → with_verdict capturing rows
            + with_verdict not_capturing rows
            + with_verdict broken rows
            + with_verdict verdict_unknown rows
          ≡ length rows
        → (one x capturing + with_verdict capturing rows)
            + (one x not_capturing + with_verdict not_capturing rows)
            + (one x broken + with_verdict broken rows)
            + (one x verdict_unknown + with_verdict verdict_unknown rows)
          ≡ suc (length rows)
    by_verdict capturing h = omega arith
    by_verdict not_capturing h = omega arith
    by_verdict broken h = omega arith
    by_verdict verdict_unknown h = omega arith

-- Every session is counted once by its connector's token declaration, every lag once by its freshness,
-- every sampled session once as attempted or under its reason, every distinct session once by its git
-- links, and every row of the capture health once by its verdict.
pub derive_data_quality_metrics_partitions :
    (inputs : DataQualityInputs) (health : List CaptureHealthRow)
    → let q = derive_data_quality_metrics inputs health in
      (token_total q.token_eligibility ≡ length inputs.sessions)
      × (q.sync_freshness.fresh_rows + q.sync_freshness.stale_rows + q.sync_freshness.unknown_rows
          ≡ length inputs.lag)
      × (q.recoverability.attempted + skipped q.recoverability ≡ length inputs.recoverability)
      × (q.git_confidence.confirmed + q.git_confidence.heuristic + q.git_confidence.unlinked
          ≡ q.distinct_sessions)
      × (q.verdicts.capturing_rows + q.verdicts.not_capturing_rows + q.verdicts.broken_rows
            + q.verdicts.unknown_rows
          ≡ length health)
unfolding derive_data_quality_metrics token_total skipped
derive_data_quality_metrics_partitions inputs health =
    let d = summarize_declarations inputs.declarations in
    let tokens = token_counts_total d inputs.sessions no_tokens_counted (omega arith) in
    let freshness = freshness_counts_total d inputs.lag no_lag_counted in
    let recovery =
      recoverability_rollup_total inputs.recoverability nothing_rolled_up (omega arith) in
    (
      omega (arith, tokens.0),
      omega (arith, freshness),
      omega (arith, recovery.0),
      git_total inputs.git_links (start_buckets inputs.sessions []),
      verdict_total health,
    )
