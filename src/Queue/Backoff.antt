-- ===== src/Queue/Backoff.antt =====
-- The backoff of `markFailed`, boot recovery and the counters of queue-store.ts.
use native.Mathlib.Nat.{pow-suc}
use ai.Common.{
  ℕ, zero, suc, ◌+◌, ◌*◌, ◌^◌, ◌≤◌, ◌<◌, ◌≡◌, ◌≢◌, ◌⊎◌, refl, leb, List, [], ◌∷◌, arith, ◌==◌, ltb,
  ltb→lt, if◌then◌else◌, All, Bool-cases, inl, inr, count, length,
}
use ai.Queue.{
  Item, Store, pending, is_due, is_pending, is_inflight, set_status, update_where, backoff,
  mark_failed, recover_inflight, stats,
}

pow-ge : (a : ℕ) → 1 ≤ 2 ^ a
pow-ge zero = omega arith
pow-ge (suc a) = rw (pow-suc 2 a) (omega (arith, pow-ge a))

pow-le_16 : (a : ℕ) → a < 5 → 2 ^ a ≤ 16
pow-le_16 zero h = omega arith
pow-le_16 (suc zero) h = omega arith
pow-le_16 (suc (suc zero)) h = omega arith
pow-le_16 (suc (suc (suc zero))) h = omega arith
pow-le_16 (suc (suc (suc (suc zero)))) h = omega arith
pow-le_16 (suc (suc (suc (suc (suc a))))) h = absurd (omega arith)

pow-ge_32 : (a : ℕ) → 5 ≤ a → 32 ≤ 2 ^ a
pow-ge_32 (suc (suc (suc (suc (suc a))))) h = simp pow-suc (omega (arith, pow-ge a))
pow-ge_32 a h = absurd (omega arith)

-- The delay doubles from one second with each earlier attempt and is thirty seconds from the fifth
-- on: it is never less than one second, never more than thirty, and never falls.
pub backoff_schedule :
    (attempts : ℕ)
    → (1000 ≤ backoff attempts)
      × (backoff attempts ≤ 30_000)
      × (backoff attempts ≤ backoff (suc attempts))
      × (backoff attempts ≡ (if ltb attempts 5 then 1000 * 2 ^ attempts else 30_000))
unfolding backoff
backoff_schedule a = (
  omega (arith, pow-ge a),
  omega arith,
  omega (arith, pow-suc 2 a),
  elim (Bool-cases (ltb a 5)) [
    | inl e ↦ rw e (omega (arith, pow-le_16 a (ltb→lt a 5 e)))
    | inr e ↦ rw e (omega (arith, pow-ge_32 a (ground arith)))
  ],
)

update_where_counts :
    (items : List Item)
    → (count
          (λ it. is_inflight it.status)
          (update_where (λ it. is_inflight it.status) (set_status pending) items)
        ≡ 0)
      × (count
            (λ it. is_pending it.status)
            (update_where (λ it. is_inflight it.status) (set_status pending) items)
          ≡ length items)
unfolding update_where
update_where_counts [] = omega arith
update_where_counts (it ∷ rest) = ground (arith, update_where_counts rest)

-- Boot recovery leaves no row in flight and loses none: all rows count as pending.
pub stats-recover_inflight :
    (s : Store) → stats (recover_inflight s) ≡ record { pending = length s.items; inflight = 0 }
unfolding stats recover_inflight
stats-recover_inflight s = ground (arith, update_where_counts s.items)

failed_rows :
    (now id attempts later : ℕ) (items : List Item)
    → All
        (λ it. (it.id ≢ id) ⊎ (is_due later it ≡ leb (now + backoff attempts) later))
        (update_where
          (λ it. it.id == id)
          (λ it. record it {
            status = pending;
            attempts = it.attempts + 1;
            next_attempt_at = now + backoff attempts;
          })
          items)
unfolding update_where
failed_rows now id attempts later [] = tt
failed_rows now id attempts later (it ∷ rest) = elim (Bool-cases (it.id == id)) [
  | inl e ↦ rw e (inr refl, failed_rows now id attempts later rest)
  | inr e ↦ rw e (inl (λ h. ground arith), failed_rows now id attempts later rest)
]

-- After `markFailed` a row with that id is due at an instant exactly when its backoff has passed.
pub mark_failed-is_due :
    (now id attempts later : ℕ) (s : Store)
    → All
        (λ it. (it.id ≢ id) ⊎ (is_due later it ≡ leb (now + backoff attempts) later))
        (mark_failed now id attempts s).items
unfolding mark_failed
mark_failed-is_due now id attempts later s = failed_rows now id attempts later s.items
