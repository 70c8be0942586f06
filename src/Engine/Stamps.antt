-- ===== src/Engine/Stamps.antt =====
-- `degradedStampDecision` of apps/collector/src/capture-engine.ts over a run of consecutive failures.
use ai.Common.{
  ℕ, zero, suc, ◌+◌, ◌%◌, ◌<◌, ◌≡◌, refl, ◌∙◌, ap, Bool, true, false, arith, ltb, ◌==◌,
  if◌then◌else◌, not,
}
use ai.Engine.{
  Decision, degraded_stamp_decision, archive_unreachable_min_failures, degraded_restamp_every,
}

-- The engine's counter after the first `n` failures of an outage, from what an earlier one left.
unfoldable pub counter : ℕ → ℕ → ℕ
counter before zero = before
counter before (suc n) = (degraded_stamp_decision (suc n) (counter before n)).failures_since_stamp

-- The counter goes round in sixty.
round : (c : ℕ) → (if ltb (c % 60 + 1) 60 then c % 60 + 1 else 0) ≡ suc c % 60
round c = ground arith

late : (k : ℕ) → ltb (suc (k + 3)) archive_unreachable_min_failures ≡ false
late k = ground arith

past : (k : ℕ) → (suc (k + 3) == archive_unreachable_min_failures) ≡ false
past k = ground arith

abbrev waited : Bool → ℕ → Decision
waited true c = record { stamp = false; crossing = false; failures_since_stamp = c }
waited false c = record { stamp = true; crossing = false; failures_since_stamp = 0 }

-- A failure beyond the third.
later :
    (k c : ℕ)
    → degraded_stamp_decision (suc (k + 3)) c ≡ waited (ltb (c + 1) degraded_restamp_every) (c + 1)
unfolding degraded_stamp_decision
later k c = rw (late k, past k) (by_test (ltb (c + 1) degraded_restamp_every))
  where
    by_test :
        (b : Bool)
        → (if b
            then record { stamp = false; crossing = false; failures_since_stamp = c + 1 }
            else record { stamp = true; crossing = false; failures_since_stamp = 0 })
          ≡ waited b (c + 1)
    by_test true = refl
    by_test false = refl

third :
    (c : ℕ)
    → degraded_stamp_decision 3 c
      ≡ record { stamp = true; crossing = true; failures_since_stamp = 0 }
unfolding degraded_stamp_decision
third c = refl

early : (n c : ℕ) → n < 2 → (degraded_stamp_decision (suc n) c).stamp ≡ false
unfolding degraded_stamp_decision
early n c h = rw (below n h) refl
  where
    below : (n : ℕ) → n < 2 → ltb (suc n) archive_unreachable_min_failures ≡ true
    below n h = ground arith

counter_lem : (before k : ℕ) → counter before (k + 3) ≡ k % 60
unfolding counter
counter_lem before zero = ap (λ (d : Decision). d.failures_since_stamp) (third _)
counter_lem before (suc k) =
    ap (counter before) (plus k)
    ∙ ap (λ (d : Decision). d.failures_since_stamp) (later k (counter before (k + 3)))
    ∙ by_test (ltb (counter before (k + 3) + 1) 60)
    ∙ ap (λ c. if ltb (c + 1) 60 then c + 1 else 0) (counter_lem before k)
    ∙ round k
  where
    plus : (k : ℕ) → suc k + 3 ≡ suc (k + 3)
    plus k = omega arith

    by_test :
        (b : Bool)
        → (waited b (counter before (k + 3) + 1)).failures_since_stamp
          ≡ (if b then counter before (k + 3) + 1 else 0)
    by_test true = refl
    by_test false = refl

-- An outage is recorded at its third failure and at every sixtieth after it, never before, whatever an
-- earlier outage left in the counter; only the third failure is a crossing.
pub degraded_stamp_schedule :
    (before n k : ℕ)
    → n < 2
    → ((degraded_stamp_decision (suc n) (counter before n)).stamp ≡ false)
      × ((degraded_stamp_decision 3 (counter before 2)).crossing ≡ true)
      × ((degraded_stamp_decision (suc (k + 3)) (counter before (k + 3))).crossing ≡ false)
      × ((degraded_stamp_decision 3 (counter before 2)).stamp ≡ true)
      × ((degraded_stamp_decision (suc (k + 3)) (counter before (k + 3))).stamp ≡ (suc k % 60 == 0))
degraded_stamp_schedule before n k h = (
  early n (counter before n) h,
  ap (λ (d : Decision). d.crossing) (third _),
  ap (λ (d : Decision). d.crossing) (later k (counter before (k + 3)))
      ∙ not_crossing (ltb (counter before (k + 3) + 1) degraded_restamp_every) _,
  ap (λ (d : Decision). d.stamp) (third _),
  ap (λ (d : Decision). d.stamp) (later k (counter before (k + 3)))
      ∙ stamped (ltb (counter before (k + 3) + 1) degraded_restamp_every) _
      ∙ ap (λ c. not (ltb (c + 1) 60)) (counter_lem before k)
      ∙ due k,
)
  where
    not_crossing : (b : Bool) (c : ℕ) → (waited b c).crossing ≡ false
    not_crossing true c = refl
    not_crossing false c = refl

    stamped : (b : Bool) (c : ℕ) → (waited b c).stamp ≡ not b
    stamped true c = refl
    stamped false c = refl

    due : (k : ℕ) → not (ltb (k % 60 + 1) 60) ≡ (suc k % 60 == 0)
    due k = ground arith
