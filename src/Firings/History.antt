-- ===== src/Firings/History.antt =====
-- Histories of calls on the firings: reconciles, acknowledgements and deliveries by any callers, in any
-- order. Each statement of the code that changes rows is atomic; a claim and its stamp are one.
use ai.Common.{ℕ, String, Bool, ◌&&◌, not, List, [], ◌∷◌, ◌++◌, ◌==◌}
use ai.Alerts.{OperationalAlert}
use ai.Firings.{FiringScope, AlertFiring, Firings, is_open, reconcile_firings}
use ai.Firings.Delivery.{ack_alert_firing, deliver_pending_firings, deliver_resolved_firings}

pub data FiringCall : Type 0 where
  reconciles : FiringScope → (user_id : String) → List OperationalAlert → (now : ℕ) → FiringCall
  acks : (org_id : String) (id now : ℕ) → FiringCall
  delivers_pending delivers_resolved : FiringScope → (deliverer : Bool) (now : ℕ) → FiringCall

-- The table after a call, and the firings that the deliverer was called with.
unfoldable pub step : Firings → FiringCall → Firings × List AlertFiring
step t (reconciles scope user_id alerts now) = (reconcile_firings scope user_id alerts now t, [])
step t (acks org_id id now) = ((ack_alert_firing org_id id now t).0, [])
step t (delivers_pending scope deliverer now) = deliver_pending_firings scope deliverer now t
step t (delivers_resolved scope deliverer now) = deliver_resolved_firings scope deliverer now t

unfoldable pub run : Firings → List FiringCall → Firings × List AlertFiring
run t [] = (t, [])
run t (c ∷ cs) = ((run (step t c).0 cs).0, (step t c).1 ++ (run (step t c).0 cs).1)

abbrev pub no_firings : Firings
no_firings = record { rows = []; next_id = 1 }

-- The notices of a firing's start and of its end.
abbrev pub starts : ℕ → AlertFiring → Bool
starts i f = (f.id == i) && is_open f.status

abbrev pub ends : ℕ → AlertFiring → Bool
ends i f = (f.id == i) && not (is_open f.status)
