-- ===== src/Quality/Counts.antt =====
-- The counts that `deriveDataQualityMetrics` of packages/shared/src/data-quality.ts sorts its inputs into.
use ai.Common.{
  ℕ, suc, ◌+◌, ◌≤◌, ◌≡◌, ◌∙◌, Bool, true, false, not, Option, none, some, List, [], ◌∷◌, arith, inl,
  inr, Bool-cases, if◌then◌else◌, length, ltb, leb, lookup, string_Eq,
}
use ai.Quality.{
  Declaration, Declarations, SessionQualityRow, IngestLagRow, TokenEligibilityCounts, count_tokens,
  token_counts, SyncFreshnessCounts, judged_lag, count_lag, freshness_counts, SkippedReason, gemini,
  unsupported_connector, no_raw_record, decrypt_error, RecoverabilityRow, RecoverabilityRollup,
  roll_up, recoverability_rollup, sync_freshness_ms,
}

unfoldable pub token_total : TokenEligibilityCounts → ℕ
token_total c = c.eligible + c.ineligible + c.undeclared

pub token_counts_total :
    (d : Declarations) (sessions : List SessionQualityRow) (c : TokenEligibilityCounts)
    → c.usable ≤ c.eligible
    → (token_total (token_counts d sessions c) ≡ token_total c + length sessions)
      × ((token_counts d sessions c).usable ≤ (token_counts d sessions c).eligible)
unfolding token_counts token_total
token_counts_total d [] c h = (omega arith, h)
token_counts_total d (s ∷ sessions) c h =
    one (lookup s.source_connector d) (λ e. token_counts_total d sessions e)
  where
    one :
        (o : Option Declaration)
        → ((e : TokenEligibilityCounts)
            → e.usable ≤ e.eligible
            → (token_total (token_counts d sessions e) ≡ token_total e + length sessions)
              × ((token_counts d sessions e).usable ≤ (token_counts d sessions e).eligible))
        → let e = count_tokens o s.with_tokens c in
          (token_total (token_counts d sessions e) ≡ token_total c + suc (length sessions))
          × ((token_counts d sessions e).usable ≤ (token_counts d sessions e).eligible)
    one none ih = let (t, u) = ih (count_tokens none s.with_tokens c) h in (omega arith, u)
    one (some x) ih = elim (Bool-cases (not x.token_eligible)) [
      | inl e ↦
          let (t, u) = ih (record c { ineligible = c.ineligible + 1 }) h in rw e (omega arith, u)
      | inr e ↦
          let (t, u) =
            ih
              (record c {
                eligible = c.eligible + 1;
                usable = c.usable + (if ltb 0 s.with_tokens then 1 else 0);
              })
              (ground arith) in
          rw e (omega arith, u)
    ]

pub freshness_counts_total :
    (d : Declarations) (rows : List IngestLagRow) (c : SyncFreshnessCounts)
    → (freshness_counts d rows c).fresh_rows
        + (freshness_counts d rows c).stale_rows
        + (freshness_counts d rows c).unknown_rows
      ≡ c.fresh_rows + c.stale_rows + c.unknown_rows + length rows
unfolding freshness_counts
freshness_counts_total d [] c = omega arith
freshness_counts_total d (r ∷ rows) c = freshness_counts_total d rows (count_lag lag c) ∙ one lag
  where
    lag : Option ℕ
    lag = judged_lag r.lag_ms (lookup r.source_connector d)

    one :
        (o : Option ℕ)
        → (count_lag o c).fresh_rows
            + (count_lag o c).stale_rows
            + (count_lag o c).unknown_rows
            + length rows
          ≡ c.fresh_rows + c.stale_rows + c.unknown_rows + suc (length rows)
    one none = omega arith
    one (some l) = elim (Bool-cases (leb l sync_freshness_ms)) [
      | inl e ↦ rw e (omega arith)
      | inr e ↦ rw e (omega arith)
    ]

unfoldable pub skipped : RecoverabilityRollup → ℕ
skipped c =
    c.skipped_gemini + c.skipped_unsupported + c.skipped_no_raw_records + c.skipped_decrypt_error

pub recoverability_rollup_total :
    (rows : List RecoverabilityRow) (c : RecoverabilityRollup)
    → c.ok ≤ c.attempted
    → ((recoverability_rollup rows c).attempted + skipped (recoverability_rollup rows c)
        ≡ c.attempted + skipped c + length rows)
      × ((recoverability_rollup rows c).ok ≤ (recoverability_rollup rows c).attempted)
unfolding recoverability_rollup skipped
recoverability_rollup_total [] c h = (omega arith, h)
recoverability_rollup_total (r ∷ rows) c h =
    let (t, u) = recoverability_rollup_total rows (roll_up r.ok r.skipped_reason c) ok_kept in
    (omega (arith, one r.skipped_reason), u)
  where
    bit : (b : Bool) → (if b then 1 else 0) ≤ 1
    bit true = omega arith
    bit false = omega arith

    ok_kept : (roll_up r.ok r.skipped_reason c).ok ≤ (roll_up r.ok r.skipped_reason c).attempted
    ok_kept = by_reason r.skipped_reason
      where
        by_reason :
            (o : Option SkippedReason) → (roll_up r.ok o c).ok ≤ (roll_up r.ok o c).attempted
        by_reason none = omega (arith, bit r.ok)
        by_reason (some gemini) = h
        by_reason (some unsupported_connector) = h
        by_reason (some no_raw_record) = h
        by_reason (some decrypt_error) = h

    one :
        (o : Option SkippedReason)
        → (roll_up r.ok o c).attempted + skipped (roll_up r.ok o c) ≡ suc (c.attempted + skipped c)
    one none = omega arith
    one (some gemini) = omega arith
    one (some unsupported_connector) = omega arith
    one (some no_raw_record) = omega arith
    one (some decrypt_error) = omega arith
