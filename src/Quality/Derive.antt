-- ===== src/Quality/Derive.antt =====
-- `deriveDataQualityMetrics` of packages/shared/src/data-quality.ts.
use ai.Common.{
  ℕ, ◌+◌, Bool, true, false, none, some, List, [], ◌∷◌, ltb, if◌then◌else◌, length, count, keep,
}
use ai.Health.{
  CaptureHealthVerdict, CaptureHealthRow, capturing, not_capturing, broken, verdict_unknown,
}
use ai.Quality.{
  MetricValue, unmeasured, UnmeasuredReason, capture_coverage, attribution_correctness, no_sessions,
  no_eligible_session, no_raw_records, no_events, none_token_capable, none_measurable, no_lag,
  none_reparsed, ratio_metric, SessionQualityRow, IngestLagRow, ConnectorDeclarationRow,
  summarize_declarations, TokenEligibilityCounts, token_counts, SyncFreshnessCounts,
  freshness_counts, RecoverabilityRow, RecoverabilityRollup, recoverability_rollup, GitLinkageRow,
  Buckets, confirmed_link, heuristic_link, no_link, start_buckets, link_all, in_bucket,
}

pub record DataQualityInputs : Type 0 where
  pub sessions : List SessionQualityRow
  pub raw_rows : ℕ
  pub yielded_events : ℕ
  pub duplicate_events : ℕ
  pub distinct_events : ℕ
  pub lag : List IngestLagRow
  pub declarations : List ConnectorDeclarationRow
  pub git_links : List GitLinkageRow
  pub recoverability : List RecoverabilityRow

pub record DataQualityMetricTable : Type 0 where
  pub capture_coverage : MetricValue
  pub attribution_coverage : MetricValue
  pub attribution_correctness : MetricValue
  pub token_completeness : MetricValue
  pub parse_success : MetricValue
  pub duplicate_rate : MetricValue
  pub sync_freshness : MetricValue
  pub recoverability : MetricValue

pub record GitConfidenceCounts : Type 0 where
  pub confirmed : ℕ
  pub heuristic : ℕ
  pub unlinked : ℕ
  pub sessions : ℕ

pub record Verdicts : Type 0 where
  pub capturing_rows : ℕ
  pub not_capturing_rows : ℕ
  pub broken_rows : ℕ
  pub unknown_rows : ℕ

pub record DataQualityMetrics : Type 0 where
  pub sessions_in_window : ℕ
  pub distinct_sessions : ℕ
  pub events_in_window : ℕ
  pub metrics : DataQualityMetricTable
  pub token_eligibility : TokenEligibilityCounts
  pub sync_freshness : SyncFreshnessCounts
  pub git_confidence : GitConfidenceCounts
  pub verdicts : Verdicts
  pub recoverability : RecoverabilityRollup

abbrev pub verdict_eq : CaptureHealthVerdict → CaptureHealthVerdict → Bool
verdict_eq capturing capturing = true
verdict_eq not_capturing not_capturing = true
verdict_eq broken broken = true
verdict_eq verdict_unknown verdict_unknown = true
verdict_eq _ _ = false

abbrev pub with_verdict : CaptureHealthVerdict → List CaptureHealthRow → ℕ
with_verdict v rows = count (λ (r : CaptureHealthRow). verdict_eq r.verdict v) rows

abbrev pub events_of : List SessionQualityRow → ℕ
events_of [] = 0
events_of (s ∷ sessions) = s.event_count + events_of sessions

abbrev pub no_tokens_counted : TokenEligibilityCounts
no_tokens_counted = record { eligible = 0; ineligible = 0; undeclared = 0; usable = 0 }

abbrev pub no_lag_counted : SyncFreshnessCounts
no_lag_counted = record { fresh_rows = 0; stale_rows = 0; unknown_rows = 0 }

abbrev pub nothing_rolled_up : RecoverabilityRollup
nothing_rolled_up = record {
  attempted = 0;
  ok = 0;
  skipped_gemini = 0;
  skipped_unsupported = 0;
  skipped_no_raw_records = 0;
  skipped_decrypt_error = 0;
}

abbrev tokens_reason : TokenEligibilityCounts → UnmeasuredReason
tokens_reason c =
    if ltb 0 c.undeclared then none_token_capable c.undeclared else no_eligible_session

abbrev freshness_reason : SyncFreshnessCounts → UnmeasuredReason
freshness_reason c = if ltb 0 c.unknown_rows then none_measurable c.unknown_rows else no_lag

abbrev git_counts : Buckets → Buckets → GitConfidenceCounts
git_counts distinct buckets = record {
  confirmed = in_bucket confirmed_link buckets;
  heuristic = in_bucket heuristic_link buckets;
  unlinked = in_bucket no_link buckets;
  sessions = length distinct;
}

unfoldable pub derive_data_quality_metrics :
    DataQualityInputs → List CaptureHealthRow → DataQualityMetrics
unfolding ratio_metric summarize_declarations token_counts freshness_counts recoverability_rollup
    start_buckets link_all
derive_data_quality_metrics inputs health =
    let declarations = summarize_declarations inputs.declarations in
    let tokens = token_counts declarations inputs.sessions no_tokens_counted in
    let freshness = freshness_counts declarations inputs.lag no_lag_counted in
    let rollup = recoverability_rollup inputs.recoverability nothing_rolled_up in
    let distinct = start_buckets inputs.sessions [] in
    let buckets = link_all inputs.git_links distinct in
    record {
      sessions_in_window = length inputs.sessions;
      distinct_sessions = length distinct;
      events_in_window = events_of inputs.sessions;
      metrics = record {
        capture_coverage = unmeasured capture_coverage;
        attribution_coverage =
            ratio_metric (length (keep (λ (s : SessionQualityRow). s.attributed) inputs.sessions))
              (length inputs.sessions) no_sessions none;
        attribution_correctness = unmeasured attribution_correctness;
        token_completeness = ratio_metric tokens.usable tokens.eligible (tokens_reason tokens) none;
        parse_success = ratio_metric inputs.yielded_events inputs.raw_rows no_raw_records none;
        duplicate_rate =
            ratio_metric inputs.duplicate_events (inputs.distinct_events + inputs.duplicate_events)
              no_events none;
        sync_freshness =
            ratio_metric freshness.fresh_rows (freshness.fresh_rows + freshness.stale_rows)
              (freshness_reason freshness) none;
        recoverability =
            ratio_metric rollup.ok rollup.attempted none_reparsed (some rollup.attempted);
      };
      token_eligibility = tokens;
      sync_freshness = freshness;
      git_confidence = git_counts distinct buckets;
      verdicts = record {
        capturing_rows = with_verdict capturing health;
        not_capturing_rows = with_verdict not_capturing health;
        broken_rows = with_verdict broken health;
        unknown_rows = with_verdict verdict_unknown health;
      };
      recoverability = rollup;
    }
