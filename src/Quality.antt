-- ===== src/Quality.antt =====
-- packages/shared/src/data-quality.ts: the metrics of the capture pipeline over a window. A ratio is kept
-- as its numerator and denominator. A reason is the constant text of its template, by name, with the count
-- that is put in it. What the result only repeats of its inputs is left out, and the rows of the capture
-- health are an argument, since they are derived in Health.
pub mod Derive
pub mod Counts
pub mod Git
pub mod Metrics
pub mod Tests
use ai.Common.{
  ℕ, suc, ◌+◌, String, str_eq, Bool, true, false, ◌&&◌, ◌||◌, not, Option, none, some, List, [],
  ◌∷◌, ltb, leb, if◌then◌else◌, length, count, keep, lookup, insert, string_Eq,
}
use ai.Health.{Liveness, is_live_capture, CaptureHealthVerdict, CaptureHealthRow}

pub data UnmeasuredReason : Type 0 where
  capture_coverage attribution_correctness no_sessions no_eligible_session no_raw_records
        no_events :
      UnmeasuredReason
  none_token_capable : (undeclared : ℕ) → UnmeasuredReason
  none_measurable : (unmeasured : ℕ) → UnmeasuredReason
  no_lag none_reparsed : UnmeasuredReason

pub data MetricValue : Type 0 where
  measured : (numerator denominator : ℕ) → MetricValue
  sampled : (numerator denominator sample_size : ℕ) → MetricValue
  unmeasured : UnmeasuredReason → MetricValue

abbrev pub with_size : ℕ → ℕ → Option ℕ → MetricValue
with_size numerator denominator none = measured numerator denominator
with_size numerator denominator (some size) = sampled numerator denominator size

unfoldable pub ratio_metric : ℕ → ℕ → UnmeasuredReason → Option ℕ → MetricValue
ratio_metric numerator denominator empty_reason sample_size =
    if leb denominator 0
    then unmeasured empty_reason
    else with_size numerator denominator sample_size

abbrev pub sync_freshness_ms : ℕ
sync_freshness_ms = 3_600_000

pub record SessionQualityRow : Type 0 where
  pub session_id : String
  pub source_connector : String
  pub event_count : ℕ
  pub with_tokens : ℕ
  pub attributed : Bool

pub record IngestLagRow : Type 0 where
  pub source_connector : String
  pub lag_ms : Option ℕ

pub record ConnectorDeclarationRow : Type 0 where
  pub connector_id : String
  pub tokens : String
  pub liveness : Liveness

pub record Declaration : Type 0 where
  pub token_eligible : Bool
  pub live_capture : Bool

abbrev pub Declarations : Type 0
Declarations = List (String × Declaration)

-- `prev?.field ?? false`.
abbrev pub was : (Declaration → Bool) → Option Declaration → Bool
was field none = false
was field (some d) = field d

abbrev pub declare : ConnectorDeclarationRow → Declarations → Declarations
declare r by_connector =
    let prev = lookup r.connector_id by_connector in
    insert r.connector_id
      (record {
        token_eligible = was (λ d. d.token_eligible) prev || not (str_eq r.tokens "none");
        live_capture = was (λ d. d.live_capture) prev || is_live_capture r.liveness;
      })
      by_connector

unfoldable pub summarize : List ConnectorDeclarationRow → Declarations → Declarations
summarize [] by_connector = by_connector
summarize (r ∷ rows) by_connector = summarize rows (declare r by_connector)

unfoldable pub summarize_declarations : List ConnectorDeclarationRow → Declarations
unfolding summarize
summarize_declarations rows = summarize rows []

pub record TokenEligibilityCounts : Type 0 where
  pub eligible : ℕ
  pub ineligible : ℕ
  pub undeclared : ℕ
  pub usable : ℕ

abbrev pub count_tokens : Option Declaration → ℕ → TokenEligibilityCounts → TokenEligibilityCounts
count_tokens none with_tokens c = record c { undeclared = c.undeclared + 1 }
count_tokens (some d) with_tokens c =
    if not d.token_eligible then record c { ineligible = c.ineligible + 1 } else record c {
      eligible = c.eligible + 1;
      usable = c.usable + (if ltb 0 with_tokens then 1 else 0);
    }

unfoldable pub token_counts :
    Declarations → List SessionQualityRow → TokenEligibilityCounts → TokenEligibilityCounts
token_counts declarations [] c = c
token_counts declarations (s ∷ sessions) c =
    token_counts declarations sessions
      (count_tokens (lookup s.source_connector declarations) s.with_tokens c)

pub record SyncFreshnessCounts : Type 0 where
  pub fresh_rows : ℕ
  pub stale_rows : ℕ
  pub unknown_rows : ℕ

-- The lag that a row is judged by, if it has one.
abbrev pub judged_lag : Option ℕ → Option Declaration → Option ℕ
judged_lag none d = none
judged_lag (some lag) none = none
judged_lag (some lag) (some d) = if d.live_capture then some lag else none

abbrev pub count_lag : Option ℕ → SyncFreshnessCounts → SyncFreshnessCounts
count_lag none c = record c { unknown_rows = c.unknown_rows + 1 }
count_lag (some lag) c =
    if leb lag sync_freshness_ms
    then record c { fresh_rows = c.fresh_rows + 1 }
    else record c { stale_rows = c.stale_rows + 1 }

unfoldable pub freshness_counts :
    Declarations → List IngestLagRow → SyncFreshnessCounts → SyncFreshnessCounts
freshness_counts declarations [] c = c
freshness_counts declarations (r ∷ rows) c =
    freshness_counts declarations rows
      (count_lag (judged_lag r.lag_ms (lookup r.source_connector declarations)) c)

pub data SkippedReason : Type 0 where
  gemini unsupported_connector no_raw_record decrypt_error : SkippedReason

pub record RecoverabilityRow : Type 0 where
  pub ok : Bool
  pub skipped_reason : Option SkippedReason

pub record RecoverabilityRollup : Type 0 where
  pub attempted : ℕ
  pub ok : ℕ
  pub skipped_gemini : ℕ
  pub skipped_unsupported : ℕ
  pub skipped_no_raw_records : ℕ
  pub skipped_decrypt_error : ℕ

abbrev pub roll_up : Bool → Option SkippedReason → RecoverabilityRollup → RecoverabilityRollup
roll_up ok (some gemini) c = record c { skipped_gemini = c.skipped_gemini + 1 }
roll_up ok (some unsupported_connector) c = record c {
  skipped_unsupported = c.skipped_unsupported + 1;
}
roll_up ok (some no_raw_record) c = record c {
  skipped_no_raw_records = c.skipped_no_raw_records + 1;
}
roll_up ok (some decrypt_error) c = record c { skipped_decrypt_error = c.skipped_decrypt_error + 1 }
roll_up ok none c = record c { attempted = c.attempted + 1; ok = c.ok + (if ok then 1 else 0) }

unfoldable pub recoverability_rollup :
    List RecoverabilityRow → RecoverabilityRollup → RecoverabilityRollup
recoverability_rollup [] c = c
recoverability_rollup (r ∷ rows) c = recoverability_rollup rows (roll_up r.ok r.skipped_reason c)

pub data GitBucket : Type 0 where
  confirmed_link heuristic_link no_link : GitBucket

pub record GitLinkageRow : Type 0 where
  pub session_id : String
  pub status : String

abbrev pub Buckets : Type 0
Buckets = List (String × GitBucket)

-- The keys are the distinct session ids.
unfoldable pub start_buckets : List SessionQualityRow → Buckets → Buckets
start_buckets [] buckets = buckets
start_buckets (s ∷ sessions) buckets = start_buckets sessions (insert s.session_id no_link buckets)

abbrev pub link_bucket : String → GitBucket → GitBucket
link_bucket status confirmed_link = confirmed_link
link_bucket status heuristic_link =
    if str_eq status "confirmed" then confirmed_link else heuristic_link
link_bucket status no_link =
    if str_eq status "confirmed"
    then confirmed_link
    else if str_eq status "suggested"
    then heuristic_link
    else no_link

abbrev pub link_at : GitLinkageRow → Option GitBucket → Buckets → Buckets
link_at l none buckets = buckets
link_at l (some b) buckets = insert l.session_id (link_bucket l.status b) buckets

unfoldable pub link_all : List GitLinkageRow → Buckets → Buckets
link_all [] buckets = buckets
link_all (l ∷ links) buckets = link_all links (link_at l (lookup l.session_id buckets) buckets)

abbrev pub bucket_eq : GitBucket → GitBucket → Bool
bucket_eq confirmed_link confirmed_link = true
bucket_eq heuristic_link heuristic_link = true
bucket_eq no_link no_link = true
bucket_eq _ _ = false

abbrev pub in_bucket : GitBucket → Buckets → ℕ
in_bucket b buckets = count (λ p. bucket_eq p.1 b) buckets
