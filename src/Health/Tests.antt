-- ===== src/Health/Tests.antt =====
-- One machine with a live connector that fell silent beside an active one.
use ai.Common.{
  ◌≢◌, ◌↔◌, ◌⊎◌, ℕ, ◌≡◌, String, Bool, true, false, Option, none, some, [], ◌∷◌, str_eq,
}
use ai.Alerts.{offline, online}
use ai.Health.{
  capture_health_verdict, streaming, approved, ObservedConnectorRow, DeclaredConnectorRow,
  CaptureHealthInputs, CaptureHealthRow, Clock, ms_of, classify_declared,
}
use ai.Health.Ladder.{is_capturing}
use ai.Health.Meaning.{NoErrorSince, Within, Unsurprising, classify_declared-capturing}

abbrev seen : String → Option String → ObservedConnectorRow
seen connector last_event_at = record {
  machine_id = "m";
  connector_id = connector;
  last_event_at = last_event_at;
  event_count = 1;
}

abbrev live : String → Option String → DeclaredConnectorRow
live connector last_event_at = record {
  observed = seen connector last_event_at;
  enabled = true;
  approval = approved;
  liveness = streaming;
  last_error_at = none;
  error_count = 0;
}

abbrev clock : Clock
clock = record { parse = λ s. if_new (str_eq s "new"); now_ms = 200_000_000 }
  where
    if_new : Bool → Option ℕ
    if_new true = some 199_000_000
    if_new false = some 1000

abbrev inputs : CaptureHealthInputs
inputs = record {
  machines = record { id = "m"; name = "laptop"; status = online } ∷ [];
  declared = live "codex" (some "old") ∷ live "claude" (some "new") ∷ [];
  observed = seen "codex" (some "old") ∷ seen "cursor" none ∷ [];
}

classify_declared-capturing_example :
    (is_capturing (capture_health_verdict (classify_declared clock (live "codex" none) online []))
      ≡ true)
    ↔ ((online ≢ offline)
        × ((true ≡ true)
            × ((approved ≡ approved)
                × (NoErrorSince (ms_of clock none) (ms_of clock none)
                    × (Within 200_000_000 (ms_of clock none)
                        ⊎ Unsurprising (live "codex" none) [])))))
classify_declared-capturing_example =
    classify_declared-capturing clock (live "codex" none) online []

abbrev always : CaptureHealthRow → CaptureHealthRow → Bool
always a b = true
