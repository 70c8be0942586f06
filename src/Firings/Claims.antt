-- ===== src/Firings/Claims.antt =====
-- The claims of the two deliverers of packages/db/src/repositories/alert-firings.ts.
use ai.Common.{
  ℕ, ◌+◌, ◌≡◌, refl, ◌∙◌, Bool, true, false, ◌&&◌, not, List, [], ◌∷◌, arith, ◌==◌, count, &&-split,
  and_false, and_true, not-true,
}
use ai.Firings.{
  FiringScope, Row, Firings, is_open, is_some, scope_predicate, to_firing, update_where,
}
use ai.Firings.Delivery.{
  returning, is_undelivered, set_attempted, deliver_pending_firings, is_unnoticed, set_noticed,
  deliver_resolved_firings,
}
use ai.Firings.Table.{count-update}
use ai.Firings.Counts.{with_id, attempted, noticed, count-moved, count-returned}
use ai.Firings.History.{starts, ends}
use ai.Firings.Balance.{Balanced, Balanced-none}

-- A claim stamps the rows that it returns.
pub undelivered :
    (scope : FiringScope) (r : Row)
    → is_undelivered scope r ≡ true
    → (is_open r.status ≡ true) × (is_some r.delivery_attempted_at ≡ false)
unfolding is_undelivered
undelivered scope r h =
    let rest = &&-split (is_open r.status) _ (&&-split (scope_predicate scope r.org_id) _ h).1 in
    (rest.0, not-true _ rest.1)

pub unnoticed :
    (scope : FiringScope) (r : Row)
    → is_unnoticed scope r ≡ true
    → (is_open r.status ≡ false)
      × (is_some r.delivery_attempted_at ≡ true)
      × (is_some r.resolve_delivered_at ≡ false)
unfolding is_unnoticed
unnoticed scope r h =
    let rest =
      &&-split (not (is_open r.status)) _ (&&-split (scope_predicate scope r.org_id) _ h).1 in
    let stamps =
      &&-split (is_some r.delivery_attempted_at) _ (&&-split (is_some r.resolved_at) _ rest.1).1 in
    (not-true _ rest.0, stamps.0, not-true _ stamps.1)

count-never : (p : Row → Bool) (rows : List Row) → count (λ r. p r && false) rows ≡ 0
count-never p [] = refl
count-never p (r ∷ rows) = rw (and_false (p r)) (omega (arith, count-never p rows))

pub deliver_pending-Balanced :
    (i : ℕ) (scope : FiringScope) (deliverer : Bool) (now : ℕ) (t : Firings)
    → let out = deliver_pending_firings scope deliverer now t in Balanced i t out.0 out.1
unfolding deliver_pending_firings to_firing
deliver_pending-Balanced i scope false now t = Balanced-none i t
deliver_pending-Balanced i scope true now t = (
  rw (moved, returned) refl,
  rw
      (
        count-update (noticed i) (is_undelivered scope) (set_attempted now) (λ r. refl) t.rows,
        none_end,
      )
      (omega arith),
)
  where
    moved :
        count (attempted i) (update_where (is_undelivered scope) (set_attempted now) t.rows)
        ≡ count (λ r. is_undelivered scope r && with_id i r) t.rows + count (attempted i) t.rows
    moved =
        count-moved (attempted i) (is_undelivered scope) (with_id i) (set_attempted now)
          (λ r h. rw ((undelivered scope r h).1) (and_false (r.id == i)))
          (λ r h. and_true (with_id i r)) t.rows

    returned :
        count (starts i) (returning (is_undelivered scope) (set_attempted now) t.rows)
        ≡ count (λ r. is_undelivered scope r && with_id i r) t.rows
    returned =
        count-returned (starts i) (is_undelivered scope) (with_id i) (set_attempted now) t.rows
          (λ r h. rw ((undelivered scope r h).0) (and_true (r.id == i)))

    none_end : count (ends i) (returning (is_undelivered scope) (set_attempted now) t.rows) ≡ 0
    none_end =
        count-returned (ends i) (is_undelivered scope) (λ r. false) (set_attempted now) t.rows
          (λ r h. rw ((undelivered scope r h).0) (and_false (r.id == i)))
        ∙ count-never (is_undelivered scope) t.rows

pub deliver_resolved-Balanced :
    (i : ℕ) (scope : FiringScope) (deliverer : Bool) (now : ℕ) (t : Firings)
    → let out = deliver_resolved_firings scope deliverer now t in Balanced i t out.0 out.1
unfolding deliver_resolved_firings to_firing
deliver_resolved-Balanced i scope false now t = Balanced-none i t
deliver_resolved-Balanced i scope true now t = (
  rw
      (
        count-update (attempted i) (is_unnoticed scope) (set_noticed now) (λ r. refl) t.rows,
        none_start,
      )
      (omega arith),
  rw (moved, returned) refl,
)
  where
    moved :
        count (noticed i) (update_where (is_unnoticed scope) (set_noticed now) t.rows)
        ≡ count (λ r. is_unnoticed scope r && with_id i r) t.rows + count (noticed i) t.rows
    moved =
        count-moved (noticed i) (is_unnoticed scope) (with_id i) (set_noticed now)
          (λ r h. rw ((unnoticed scope r h).2) (and_false (r.id == i)))
          (λ r h. and_true (with_id i r)) t.rows

    returned :
        count (ends i) (returning (is_unnoticed scope) (set_noticed now) t.rows)
        ≡ count (λ r. is_unnoticed scope r && with_id i r) t.rows
    returned =
        count-returned (ends i) (is_unnoticed scope) (with_id i) (set_noticed now) t.rows
          (λ r h. rw ((unnoticed scope r h).0) (and_true (r.id == i)))

    none_start : count (starts i) (returning (is_unnoticed scope) (set_noticed now) t.rows) ≡ 0
    none_start =
        count-returned (starts i) (is_unnoticed scope) (λ r. false) (set_noticed now) t.rows
          (λ r h. rw ((unnoticed scope r h).0) (and_false (r.id == i)))
        ∙ count-never (is_unnoticed scope) t.rows
