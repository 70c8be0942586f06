-- ===== src/Firings/Acks.antt =====
-- `ackAlertFiring` of packages/db/src/repositories/alert-firings.ts.
use ai.Common.{
  ℕ, ◌≡◌, refl, String, Bool, ◌||◌, not, List, [], ◌∷◌, keep, any, count, ap, Bool-cases, &&-split,
  inl, inr,
}
use ai.Firings.{FiringScope, org, deployment, Row, Firings, conflicts, is_some, scope_predicate}
use ai.Firings.Delivery.{may_ack, set_acked, returning, first, ack_alert_firing}
use ai.Firings.Table.{count-update, keep-update_others}

first-returning :
    (p : Row → Bool) (f : Row → Row) (rows : List Row)
    → is_some (first (returning p f rows)) ≡ any p rows
first-returning p f [] = refl
first-returning p f (r ∷ rows) = elim (Bool-cases (p r)) [
  | inl e ↦ rw e
  | inr e ↦ rw e (first-returning p f rows)
]

-- A row that an organization can see: its own, and the deployment's.
abbrev pub is_shared : String → Row → Bool
is_shared org_id r = scope_predicate (org org_id) r.org_id || scope_predicate deployment r.org_id

-- An acknowledgement finds a firing exactly if a row with the id is the organization's or the
-- deployment's; it opens and closes nothing, and touches no row of another organization.
pub ack_alert_firing_lem :
    (org_id : String) (id now : ℕ) (t : Firings) (scope : FiringScope) (key : String)
    → let out = ack_alert_firing org_id id now t in
      (is_some out.1 ≡ any (may_ack org_id id) t.rows)
      × (count (conflicts scope key) out.0.rows ≡ count (conflicts scope key) t.rows)
      × (keep (λ r. not (is_shared org_id r)) out.0.rows
          ≡ keep (λ r. not (is_shared org_id r)) t.rows)
unfolding ack_alert_firing conflicts
ack_alert_firing_lem org_id id now t scope key = (
  first-returning (may_ack org_id id) (set_acked now) t.rows,
  count-update (conflicts scope key) (may_ack org_id id) (set_acked now) (λ r. refl) t.rows,
  keep-update_others (λ r. not (is_shared org_id r)) (may_ack org_id id) (set_acked now)
      (λ r h. ap not ((&&-split _ _ h).1)) (λ r h. ap not ((&&-split _ _ h).1)) t.rows,
)
