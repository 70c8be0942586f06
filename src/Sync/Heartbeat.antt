-- ===== src/Sync/Heartbeat.antt =====
-- apps/collector/src/heartbeat.ts: the throttled, best-effort liveness ping. A failure of the local
-- reads or of the POST is swallowed; the caller only sees it through `onError`.
use ai.Common.{
  ℕ, ◌+◌, ◌≤◌, ◌≡◌, refl, String, Bool, true, false, Option, none, some, List, [], ◌∷◌, ltb,
  if◌then◌else◌, arith, Bool-cases, inl, inr,
}
use ai.Queue.{QueueStats}

-- What the thunk `connectorReports` does: it is not wired, it gives the inventory, or it throws.
pub data Thunk {ℓ} (R : Type ℓ) : Type ℓ where
  absent : Thunk R
  gives : R → Thunk R
  throws : Thunk R

pub record HeartbeatBody {ℓ} (R : Type ℓ) : Type ℓ where
  pub queue_pending : ℕ
  pub queue_inflight : ℕ
  pub collector_version : String
  pub consecutive_sync_failures : ℕ
  pub connectors : Option R

-- What one call does: it is throttled, it posts a body, or it fails before the post.
pub data Ping {ℓ} (R : Type ℓ) : Type ℓ where
  throttled : Ping R
  posts : HeartbeatBody R → Ping R
  fails : Ping R

module _ {ℓ} {R : Type ℓ} where
  -- `stats` is none where `queue.stats()` throws.
  unfoldable pub body : String → ℕ → Option QueueStats → Thunk R → Ping R
  body version failures none reports = fails
  body version failures (some st) throws = fails
  body version failures (some st) absent = posts (record {
    queue_pending = st.pending;
    queue_inflight = st.inflight;
    collector_version = version;
    consecutive_sync_failures = failures;
    connectors = none;
  })
  body version failures (some st) (gives r) = posts (record {
    queue_pending = st.pending;
    queue_inflight = st.inflight;
    collector_version = version;
    consecutive_sync_failures = failures;
    connectors = some r;
  })

  -- The throttle state is `lastSentMs`. `nowMs - lastSentMs < intervalMs` is written with the sum,
  -- since the clock may stand before `lastSentMs`.
  unfoldable pub maybe_send_heartbeat :
      String → ℕ → ℕ → ℕ → Option QueueStats → Thunk R → ℕ → ℕ × Ping R
  maybe_send_heartbeat version interval failures now st reports last =
      if ltb now (last + interval)
      then (last, throttled)
      else (now, body version failures st reports)

abbrev is_throttled {ℓ} : {R : Type ℓ} → Ping R → Bool
is_throttled throttled = true
is_throttled (posts b) = false
is_throttled fails = false

-- One call: the instant it reads, the streak it reports, and what the local reads give.
pub record Beat {ℓ} (R : Type ℓ) : Type ℓ where
  pub now : ℕ
  pub failures : ℕ
  pub stats : Option QueueStats
  pub reports : Thunk R

module _ {ℓ} {R : Type ℓ} (version : String) (interval : ℕ) where
  -- The instants of the attempts that a run of calls makes.
  pub attempts : ℕ → List (Beat R) → List ℕ
  attempts last [] = []
  attempts last (b ∷ later) =
      let (last', ping) =
        maybe_send_heartbeat version interval b.failures b.now b.stats b.reports last in
      if is_throttled ping then attempts last' later else b.now ∷ attempts last' later

abbrev pub Spaced : ℕ → ℕ → List ℕ → Type 0
Spaced interval last [] = Unit {0}
Spaced interval last (t ∷ ts) = (last + interval ≤ t) × Spaced interval t ts

module _ {ℓ} {R : Type ℓ} (version : String) (interval : ℕ) where
  body-attempts :
      (failures : ℕ) (st : Option QueueStats) (reports : Thunk R)
      → is_throttled (body version failures st reports) ≡ false
  unfolding body
  body-attempts failures none reports = refl
  body-attempts failures (some st) absent = refl
  body-attempts failures (some st) (gives r) = refl
  body-attempts failures (some st) throws = refl

  -- Whatever the clock, the local reads and the failures of earlier calls, two attempts are never
  -- closer than the interval, and the first is no closer to the last one before the run.
  pub attempts-Spaced :
      (last : ℕ) (beats : List (Beat R))
      → Spaced interval last (attempts version interval last beats)
  unfolding attempts maybe_send_heartbeat
  attempts-Spaced last [] = tt
  attempts-Spaced last (b ∷ later) = elim (Bool-cases (ltb b.now (last + interval))) [
    | inl e ↦ rw e (attempts-Spaced last later)
    | inr e ↦
        rw (e, body-attempts b.failures b.stats b.reports)
          (ground arith, attempts-Spaced b.now later)
  ]
