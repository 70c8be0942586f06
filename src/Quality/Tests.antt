-- ===== src/Quality/Tests.antt =====
-- Two sessions of one declared connector and one of an undeclared one, with links of the first.
use ai.Common.{
  ℕ, ◌≡◌, refl, String, true, none, some, List, [], ◌∷◌, arith, if◌then◌else◌, here, lookup, insert,
  string_Eq,
}
use ai.Health.{streaming}
use ai.Quality.{
  SessionQualityRow, GitLinkageRow, measured, confirmed_link, heuristic_link, no_link,
  start_buckets, link_all, summarize, summarize_declarations, token_counts, ratio_metric,
}
use ai.Quality.Derive.{DataQualityInputs, derive_data_quality_metrics}
use ai.Quality.Git.{linked_as, lookup-link_all-start_buckets}
use ai.Quality.Metrics.{IsSound, derive_data_quality_metrics-IsSound}

abbrev session : String → String → ℕ → SessionQualityRow
session id connector with_tokens = record {
  session_id = id;
  source_connector = connector;
  event_count = 5;
  with_tokens = with_tokens;
  attributed = true;
}

abbrev sessions : List SessionQualityRow
sessions = session "s1" "claude-code" 2 ∷ session "s2" "claude-code" 0 ∷ session "s3" "other" 1 ∷ []

abbrev links : List GitLinkageRow
links =
    record { session_id = "s1"; status = "suggested" }
    ∷ record { session_id = "s1"; status = "confirmed" }
    ∷ record { session_id = "s1"; status = "suggested" }
    ∷ []

abbrev inputs : DataQualityInputs
inputs = record {
  sessions = sessions;
  raw_rows = 10;
  yielded_events = 9;
  duplicate_events = 1;
  distinct_events = 14;
  lag = record { source_connector = "claude-code"; lag_ms = some 60000 } ∷ [];
  declarations =
      record { connector_id = "claude-code"; tokens = "exact"; liveness = streaming } ∷ [];
  git_links = links;
  recoverability = record { ok = true; skipped_reason = none } ∷ [];
}

-- One of the two sessions on a token-capable connector has usable tokens.
half_complete : (derive_data_quality_metrics inputs []).metrics.token_completeness ≡ measured 1 2
unfolding derive_data_quality_metrics ratio_metric token_counts summarize_declarations summarize
    lookup insert
half_complete = refl

derive_data_quality_metrics-IsSound_example :
    IsSound (derive_data_quality_metrics inputs []).metrics
derive_data_quality_metrics-IsSound_example =
    derive_data_quality_metrics-IsSound inputs [] (omega arith)

lookup-link_all-start_buckets_example :
    lookup "s1" (link_all links (start_buckets sessions []))
    ≡ some (
        if linked_as "confirmed" "s1" links
        then confirmed_link
        else if linked_as "suggested" "s1" links
        then heuristic_link
        else no_link)
lookup-link_all-start_buckets_example =
    lookup-link_all-start_buckets sessions links (session "s1" "claude-code" 2) here
