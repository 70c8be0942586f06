-- ===== src/Firings/Delivery.antt =====
-- The acknowledgement of a firing and the two deliverers of packages/db/src/repositories/alert-firings.ts.
-- A deliverer is the list of the firings that it is called with, in order: what a call throws is only
-- logged. A missing deliverer is `false`.
use ai.Common.{
  ℕ, Bool, ◌&&◌, ◌||◌, not, Option, none, some, String, List, [], ◌∷◌, map, ◌==◌, if◌then◌else◌,
  keep,
}
use ai.Firings.{
  FiringScope, org, deployment, Row, AlertFiring, Firings, is_open, is_some, scope_predicate,
  to_firing, update_where,
}

abbrev pub may_ack : String → ℕ → Row → Bool
may_ack org_id id r =
    (r.id == id) && (scope_predicate (org org_id) r.org_id || scope_predicate deployment r.org_id)

abbrev pub set_acked : ℕ → Row → Row
set_acked now r = record r { acked_at = some now }

-- The updated rows that `RETURNING` gives.
abbrev pub returning : (Row → Bool) → (Row → Row) → List Row → List AlertFiring
returning p f rows = map (λ r. to_firing (f r)) (keep p rows)

abbrev pub first : List AlertFiring → Option AlertFiring
first [] = none
first (f ∷ fs) = some f

unfoldable pub ack_alert_firing : String → ℕ → ℕ → Firings → Firings × Option AlertFiring
ack_alert_firing org_id id now t = (
  record t { rows = update_where (may_ack org_id id) (set_acked now) t.rows },
  first (returning (may_ack org_id id) (set_acked now) t.rows),
)

unfoldable pub is_undelivered : FiringScope → Row → Bool
is_undelivered scope r =
    scope_predicate scope r.org_id && (is_open r.status && not (is_some r.delivery_attempted_at))

abbrev pub set_attempted : ℕ → Row → Row
set_attempted now r = record r { delivery_attempted_at = some now }

unfoldable pub deliver_pending_firings :
    FiringScope → Bool → ℕ → Firings → Firings × List AlertFiring
deliver_pending_firings scope deliverer now t = if not deliverer then (t, []) else (
  record t { rows = update_where (is_undelivered scope) (set_attempted now) t.rows },
  returning (is_undelivered scope) (set_attempted now) t.rows,
)

unfoldable pub is_unnoticed : FiringScope → Row → Bool
is_unnoticed scope r =
    scope_predicate scope r.org_id
    && (not (is_open r.status)
        && (is_some r.resolved_at
            && (is_some r.delivery_attempted_at && not (is_some r.resolve_delivered_at))))

abbrev pub set_noticed : ℕ → Row → Row
set_noticed now r = record r { resolve_delivered_at = some now }

unfoldable pub deliver_resolved_firings :
    FiringScope → Bool → ℕ → Firings → Firings × List AlertFiring
deliver_resolved_firings scope deliverer now t = if not deliverer then (t, []) else (
  record t { rows = update_where (is_unnoticed scope) (set_noticed now) t.rows },
  returning (is_unnoticed scope) (set_noticed now) t.rows,
)
