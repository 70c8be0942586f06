-- ===== src/Firings/Once.antt =====
-- What holds of every history of calls on the firings.
use ai.Common.{
  ℕ, ◌≤◌, refl, String, true, false, List, [], ◌∷◌, map, arith, ◌==◌, count, count-append, &&-split,
}
use ai.Firings.{
  FiringScope, Firings, conflicts, alert_key, upsert_all, is_cleared, resolve, reconcile_firings,
}
use ai.Firings.Delivery.{
  may_ack, set_acked, ack_alert_firing, is_undelivered, set_attempted, deliver_pending_firings,
  is_unnoticed, set_noticed, deliver_resolved_firings,
}
use ai.Firings.Table.{count-update}
use ai.Firings.Unique.{IsUnique, reconcile_firings-IsUnique}
use ai.Firings.Counts.{with_id, attempted, noticed, count-imp, IsRow, All-update}
use ai.Firings.History.{
  FiringCall, reconciles, acks, delivers_pending, delivers_resolved, step, run, no_firings, starts,
  ends,
}
use ai.Firings.Balance.{
  IsTable, Balanced, Balanced-none, upsert_all-IsTable, upsert_all-Balanced, update-IsTable,
  update-Balanced,
}
use ai.Firings.Claims.{unnoticed, deliver_pending-Balanced, deliver_resolved-Balanced}

step-Balanced :
    (i : ℕ) (t : Firings) (c : FiringCall) → let out = step t c in Balanced i t out.0 out.1
unfolding step reconcile_firings ack_alert_firing
step-Balanced i t (reconciles scope user_id alerts now) =
    let first = upsert_all-Balanced scope user_id now i t alerts in
    let rest =
      update-Balanced (is_cleared scope (map alert_key alerts)) (resolve now) (λ r. refl)
        (λ r. refl) (λ r. refl) i (upsert_all scope user_id now t alerts) in
    (omega (arith, first.0, rest.0), omega (arith, first.1, rest.1))
step-Balanced i t (acks org_id id now) =
    update-Balanced (may_ack org_id id) (set_acked now) (λ r. refl) (λ r. refl) (λ r. refl) i t
step-Balanced i t (delivers_pending scope deliverer now) =
    deliver_pending-Balanced i scope deliverer now t
step-Balanced i t (delivers_resolved scope deliverer now) =
    deliver_resolved-Balanced i scope deliverer now t

step-IsTable : (t : Firings) (c : FiringCall) → IsTable t → IsTable (step t c).0
unfolding step reconcile_firings ack_alert_firing deliver_pending_firings deliver_resolved_firings
step-IsTable t (reconciles scope user_id alerts now) v =
    update-IsTable (is_cleared scope (map alert_key alerts)) (resolve now) (λ r. refl) (λ r. refl)
      (λ r. refl) (upsert_all scope user_id now t alerts)
      (upsert_all-IsTable scope user_id now t alerts v)
step-IsTable t (acks org_id id now) v =
    update-IsTable (may_ack org_id id) (set_acked now) (λ r. refl) (λ r. refl) (λ r. refl) t v
step-IsTable t (delivers_pending scope false now) v = v
step-IsTable t (delivers_pending scope true now) v = (
  All-update (IsRow t.next_id) (is_undelivered scope) (set_attempted now) t.rows
      (λ r e g. (g.0, λ h. refl)) v.0,
  λ i.
      rw (count-update (with_id i) (is_undelivered scope) (set_attempted now) (λ r. refl) t.rows)
        (v.1 i),
)
step-IsTable t (delivers_resolved scope false now) v = v
step-IsTable t (delivers_resolved scope true now) v = (
  All-update (IsRow t.next_id) (is_unnoticed scope) (set_noticed now) t.rows
      (λ r e g. (g.0, λ h. (unnoticed scope r e).1)) v.0,
  λ i.
      rw (count-update (with_id i) (is_unnoticed scope) (set_noticed now) (λ r. refl) t.rows)
        (v.1 i),
)

run-IsTable : (t : Firings) (cs : List FiringCall) → IsTable t → IsTable (run t cs).0
unfolding run
run-IsTable t [] v = v
run-IsTable t (c ∷ cs) v = run-IsTable (step t c).0 cs (step-IsTable t c v)

run-Balanced :
    (i : ℕ) (t : Firings) (cs : List FiringCall) → let out = run t cs in Balanced i t out.0 out.1
unfolding run
run-Balanced i t [] = Balanced-none i t
run-Balanced i t (c ∷ cs) =
    let first = step-Balanced i t c in
    let rest = run-Balanced i (step t c).0 cs in
    (
      rw (count-append (starts i) (step t c).1 (run (step t c).0 cs).1)
          (omega (arith, first.0, rest.0)),
      rw (count-append (ends i) (step t c).1 (run (step t c).0 cs).1)
          (omega (arith, first.1, rest.1)),
    )

-- Whatever calls are made on an empty table, in whatever order, a firing's start is notified at most
-- once, and its end at most once and only if its start was.
pub run-notifies_once :
    (cs : List FiringCall) (i : ℕ)
    → (count (starts i) (run no_firings cs).1 ≤ 1)
      × (count (ends i) (run no_firings cs).1 ≤ count (starts i) (run no_firings cs).1)
run-notifies_once cs i =
    let v = run-IsTable no_firings cs (tt, λ j. omega arith) in
    let b = run-Balanced i no_firings cs in
    let rows = (run no_firings cs).0.rows in
    let few =
      count-imp (IsRow (run no_firings cs).0.next_id) (attempted i) (with_id i) rows
        (λ r g h. (&&-split _ _ h).0) v.0 in
    let after =
      count-imp (IsRow (run no_firings cs).0.next_id) (noticed i) (attempted i) rows
        (λ r g h. let parts = &&-split (r.id == i) _ h in rw (parts.0, g.1 parts.1)) v.0 in
    (omega (arith, b.0, few, v.1 i), omega (arith, b.0, b.1, after))

step-IsUnique : (t : Firings) (c : FiringCall) → IsUnique t.rows → IsUnique (step t c).0.rows
unfolding step ack_alert_firing deliver_pending_firings deliver_resolved_firings conflicts
step-IsUnique t (reconciles scope user_id alerts now) u =
    reconcile_firings-IsUnique scope user_id alerts now t u
step-IsUnique t (acks org_id id now) u = λ s k.
    rw (count-update (conflicts s k) (may_ack org_id id) (set_acked now) (λ r. refl) t.rows) (u s k)
step-IsUnique t (delivers_pending scope false now) u = u
step-IsUnique t (delivers_pending scope true now) u = λ s k.
    rw (count-update (conflicts s k) (is_undelivered scope) (set_attempted now) (λ r. refl) t.rows)
      (u s k)
step-IsUnique t (delivers_resolved scope false now) u = u
step-IsUnique t (delivers_resolved scope true now) u = λ s k.
    rw (count-update (conflicts s k) (is_unnoticed scope) (set_noticed now) (λ r. refl) t.rows)
      (u s k)

run-IsUnique_from :
    (t : Firings) (cs : List FiringCall) → IsUnique t.rows → IsUnique (run t cs).0.rows
unfolding run
run-IsUnique_from t [] u = u
run-IsUnique_from t (c ∷ cs) u = run-IsUnique_from (step t c).0 cs (step-IsUnique t c u)

-- Whatever calls are made on an empty table, no organization, nor the deployment, ever has two open
-- firings of one key.
pub run-IsUnique :
    (cs : List FiringCall) (scope : FiringScope) (key : String)
    → count (conflicts scope key) (run no_firings cs).0.rows ≤ 1
run-IsUnique cs = run-IsUnique_from no_firings cs (λ s k. omega arith)
