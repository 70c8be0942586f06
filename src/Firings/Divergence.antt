-- ===== src/Firings/Divergence.antt =====
-- `openFiringsDiverge` of apps/ingest/src/alert-set.ts. A `Set` keeps each key once, at its first insertion.
use ai.Common.{
  ◌≡◌, ◌↔◌, refl, String, string_Eq, Bool, true, false, not, List, map, ◌==◌, if◌then◌else◌, length,
  keep, every,
}
use ai.Alerts.{OperationalAlert}
use ai.Firings.Keys.{distinct, same_size_every}
use ai.Firings.{AlertFiring, is_open, alert_key, mem}

abbrev pub open_keys : List AlertFiring → List String
open_keys firings =
    map (λ (f : AlertFiring). f.alert_key) (keep (λ (f : AlertFiring). is_open f.status) firings)

unfoldable pub open_firings_diverge : List OperationalAlert → List AlertFiring → Bool
open_firings_diverge alerts firings =
    let open_set = distinct (open_keys firings) in
    let derived = distinct (map alert_key alerts) in
    if not (length open_set == length derived)
    then true
    else not (every (λ k. mem k open_set) derived)

-- The test finds no divergence exactly if the open firings and the derived alerts have the same keys.
pub open_firings_diverge-false :
    (alerts : List OperationalAlert) (firings : List AlertFiring)
    → (open_firings_diverge alerts firings ≡ false)
      ↔ ((k : String) → mem k (map alert_key alerts) ≡ mem k (open_keys firings))
unfolding open_firings_diverge
open_firings_diverge-false alerts firings =
    (λ h. (same_size_every _ _).0 (parts _ _ h), λ f. whole _ _ ((same_size_every _ _).1 f))
  where
    parts : (a b : Bool) → (if not a then true else not b) ≡ false → (a ≡ true) × (b ≡ true)
    parts true true h = (refl, refl)
    parts true false h = cc
    parts false b h = cc

    whole : (a b : Bool) → (a ≡ true) × (b ≡ true) → (if not a then true else not b) ≡ false
    whole a b h = rw (h.0, h.1) refl
