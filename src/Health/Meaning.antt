-- ===== src/Health/Meaning.antt =====
-- What the tests of `classifyDeclared` of packages/shared/src/capture-health.ts come to.
use ai.Common.{
  ℕ, ◌+◌, ◌≤◌, ◌<◌, ◌≡◌, ◌≢◌, ◌⊎◌, ◌↔◌, refl, sym, String, Bool, true, false, ◌&&◌, ◌||◌, not,
  Option, none, some, List, inl, inr, arith, any, str_eq, &&-split, not-true,
}
use ai.Alerts.{MonitorStatus, online, stale, offline, is_offline_status}
use ai.Health.{
  Liveness, streaming, near_real_time, snapshot, batch, Approval, approved, awaits_approval,
  capture_health_verdict, DeclaredConnectorRow, Clock, ms_of, is_recent, fresh, is_live_capture,
  error_after, awaits, is_absent, classify_declared,
}
use ai.Health.Ladder.{is_capturing, capturing_tests}

-- No error is as late as the last event.
abbrev pub NoErrorSince : Option ℕ → Option ℕ → Type 0
NoErrorSince none event_ms = Unit
NoErrorSince (some error_ms) none = ⊥
NoErrorSince (some error_ms) (some event_ms) = error_ms < event_ms

-- The event is at most a day old.
abbrev pub Within : ℕ → Option ℕ → Type 0
Within now none = ⊥
Within now (some ms) = now ≤ ms + 86_400_000

-- Its silence is no surprise: it captures in snapshots or batches, or it has produced an event and nothing
-- on its machine is active.
abbrev pub Unsurprising : DeclaredConnectorRow → List String → Type 0
Unsurprising d recent =
    ((d.liveness ≡ snapshot) ⊎ (d.liveness ≡ batch))
    ⊎ (((at : String) × (d.observed.last_event_at ≡ some at))
        × (any (str_eq d.observed.machine_id) recent ≡ false))

and_iff :
    {A B : Type 0} (a b : Bool) → (a ≡ true) ↔ A → (b ≡ true) ↔ B → ((a && b) ≡ true) ↔ (A × B)
and_iff a b f g =
    (λ h. let (x, y) = &&-split a b h in (f.0 x, g.0 y), λ p. rw (f.1 p.0, g.1 p.1) refl)

or_iff : {A B : Type 0} (a b : Bool) → (a ≡ true) ↔ A → (b ≡ true) ↔ B → ((a || b) ≡ true) ↔ (A ⊎ B)
or_iff true b f g = (λ h. inl (f.0 refl), λ p. refl)
or_iff {A} {B} false b f g = (λ h. inr (g.0 h), back)
  where
    back : A ⊎ B → b ≡ true
    back (inl a) = let h = f.1 a in cc
    back (inr y) = g.1 y

not_iff : {A : Type 0} (a : Bool) → (a ≡ false) ↔ A → (not a ≡ true) ↔ A
not_iff a f = (λ h. f.0 (not-true a h), λ x. rw (f.1 x) refl)

error_after-NoErrorSince :
    (error_ms event_ms : Option ℕ)
    → (error_after error_ms event_ms ≡ false) ↔ NoErrorSince error_ms event_ms
error_after-NoErrorSince none e = (λ h. tt, λ h. refl)
error_after-NoErrorSince (some x) none = (λ h. cc, λ h. absurd h)
error_after-NoErrorSince (some x) (some e) = (λ h. ground arith, λ h. ground arith)

is_recent-Within : (now : ℕ) (ms : Option ℕ) → (is_recent now ms ≡ true) ↔ Within now ms
is_recent-Within now none = (λ h. cc, λ h. absurd h)
is_recent-Within now (some ms) = (λ h. ground arith, λ h. ground arith)

online_iff : (status : MonitorStatus) → (is_offline_status status ≡ false) ↔ (status ≢ offline)
online_iff online = (λ h e. cc, λ h. refl)
online_iff stale = (λ h e. cc, λ h. refl)
online_iff offline = (λ h e. cc, λ h. absurd (h refl))

approved_iff : (a : Approval) → (awaits a ≡ false) ↔ (a ≡ approved)
approved_iff approved = (λ h. refl, λ h. refl)
approved_iff awaits_approval = (λ h. cc, λ h. cc)

live_iff : (l : Liveness) → (is_live_capture l ≡ false) ↔ ((l ≡ snapshot) ⊎ (l ≡ batch))
live_iff snapshot = (λ h. inl refl, λ h. refl)
live_iff batch = (λ h. inr refl, λ h. refl)
live_iff streaming = (λ h. cc, none_of)
  where
    none_of : (streaming ≡ snapshot) ⊎ (streaming ≡ batch) → is_live_capture streaming ≡ false
    none_of (inl e) = cc
    none_of (inr e) = cc
live_iff near_real_time = (λ h. cc, none_of)
  where
    none_of :
        (near_real_time ≡ snapshot) ⊎ (near_real_time ≡ batch)
        → is_live_capture near_real_time ≡ false
    none_of (inl e) = cc
    none_of (inr e) = cc

silence_iff :
    (live absent active : Bool) {L P : Type 0}
    → (live ≡ false) ↔ L
    → (absent ≡ false) ↔ P
    → (not (live && (absent || active)) ≡ true) ↔ (L ⊎ (P × (active ≡ false)))
silence_iff false absent active f g = (λ h. inl (f.0 refl), λ h. refl)
silence_iff true true active {L} {P} f g = (λ h. cc, back)
  where
    back : L ⊎ (P × (active ≡ false)) → false ≡ true
    back (inl x) = sym (f.1 x)
    back (inr p) = let h = g.1 p.0 in cc
silence_iff true false active {L} {P} f g = (λ h. inr (g.0 refl, not-true active h), back)
  where
    back : L ⊎ (P × (active ≡ false)) → not active ≡ true
    back (inl x) = let h = f.1 x in cc
    back (inr p) = rw (p.1) refl

present_iff : (o : Option String) → (is_absent o ≡ false) ↔ ((at : String) × (o ≡ some at))
present_iff none = (λ h. cc, λ p. let e = p.1 in cc)
present_iff (some at) = (λ h. (at, refl), λ p. refl)

-- A declared connector is called capturing exactly if its machine is not offline, it is enabled and
-- approved, every error of it is earlier than its last event, and that event is at most 24 hours old or its
-- silence is no surprise: it captures in snapshots or batches, or it has produced an event before and
-- nothing on its machine is active.
pub classify_declared-capturing :
    (k : Clock) (d : DeclaredConnectorRow) (status : MonitorStatus) (recent : List String)
    → (is_capturing (capture_health_verdict (classify_declared k d status recent)) ≡ true) ↔ (
        (status ≢ offline)
        × ((d.enabled ≡ true)
            × ((d.approval ≡ approved)
                × (NoErrorSince (ms_of k d.last_error_at) (ms_of k d.observed.last_event_at)
                    × (Within k.now_ms (ms_of k d.observed.last_event_at)
                        ⊎ Unsurprising d recent)))))
unfolding fresh
classify_declared-capturing k d status recent = rw (capturing_tests k d status recent) (
    and_iff _ _ (not_iff (is_offline_status status) (online_iff status)) (
      and_iff d.enabled _ (λ h. h, λ h. h)
        (and_iff _ _ (not_iff (awaits d.approval) (approved_iff d.approval)) (
          and_iff _ _
            (not_iff (error_after (ms_of k d.last_error_at) (ms_of k d.observed.last_event_at)) (
              error_after-NoErrorSince (ms_of k d.last_error_at)
                (ms_of k d.observed.last_event_at)))
            (or_iff (is_recent k.now_ms (ms_of k d.observed.last_event_at)) _
              (is_recent-Within k.now_ms (ms_of k d.observed.last_event_at))
              (silence_iff (is_live_capture d.liveness) (is_absent d.observed.last_event_at)
                (any (str_eq d.observed.machine_id) recent) (live_iff d.liveness)
                (present_iff d.observed.last_event_at)))))))
