-- ===== src/Sync/Conserve.antt =====
-- The rows of the queue over a whole run of `runSyncLoop`, against the deliveries that it reports.
use ai.Common.{
  ℕ, ◌+◌, ◌≤◌, ◌≡◌, refl, Bool, true, false, Option, none, some, List, [], ◌∷◌, ◌++◌, arith, String,
}
use ai.Queue.{Store}
use ai.Queue.Invariant.{IsValid}
use ai.Sync.{SyncOutcome, ok, retry, stop, Drain, enqueue_others, sync_once_amid}
use ai.Sync.Delivery.{flying, delivered_count}
use ai.Sync.Flight.{enqueue_others-flying, sync_once_amid-flying}
use ai.Sync.Amid.{
  Balanced, enqueue_others-IsValid, enqueue_others-Balanced, sync_once_amid-Balanced,
}
use ai.Sync.Heartbeat.{Ping, throttled, posts, fails}
use ai.Sync.Loop.{
  Notice, heartbeat, on_delivered, on_refused, on_stop, on_sync, on_sync_refused, on_sync_failure,
  Round, Config, Vars, Result, Pass, goes_on, leaves, ping_log, drain_log, delivered_log,
  refused_log, beat, send_heartbeat, account, conclude, attempt_drain, follow, run_sync_loop,
  is_stop,
}

module _ {ℓ} {R : Type ℓ} where
  -- The items that the log reports as delivered.
  unfoldable pub delivered_total : List (Notice R) → ℕ
  delivered_total [] = 0
  delivered_total (on_delivered n ∷ log) = n + delivered_total log
  delivered_total (heartbeat b ∷ log) = delivered_total log
  delivered_total (on_refused s ∷ log) = delivered_total log
  delivered_total (on_stop ∷ log) = delivered_total log
  delivered_total (on_sync at d ∷ log) = delivered_total log
  delivered_total (on_sync_refused s ∷ log) = delivered_total log
  delivered_total (on_sync_failure k ∷ log) = delivered_total log

  delivered_total-append :
      (xs ys : List (Notice R))
      → delivered_total (xs ++ ys) ≡ delivered_total xs + delivered_total ys
  unfolding delivered_total
  delivered_total-append [] ys = omega arith
  delivered_total-append (on_delivered n ∷ xs) ys = omega (arith, delivered_total-append xs ys)
  delivered_total-append (heartbeat b ∷ xs) ys = delivered_total-append xs ys
  delivered_total-append (on_refused s ∷ xs) ys = delivered_total-append xs ys
  delivered_total-append (on_stop ∷ xs) ys = delivered_total-append xs ys
  delivered_total-append (on_sync at d ∷ xs) ys = delivered_total-append xs ys
  delivered_total-append (on_sync_refused s ∷ xs) ys = delivered_total-append xs ys
  delivered_total-append (on_sync_failure k ∷ xs) ys = delivered_total-append xs ys

  -- From the store `s` a stretch of the loop comes to `v` with the log `log`: the rows left and those
  -- reported as delivered are the rows there were and one for each id given since.
  pub record Conserves (s : Store) (v : Vars) (log : List (Notice R)) : Type 0 where
    pub valid : IsValid v.store
    pub rows : Balanced s v.store (delivered_total log)
    pub flight : flying v.store.items ≤ flying s.items

  drain_total :
      (r : Round R) (d : Drain)
      → delivered_total (drain_log {R = R} d) ≡ delivered_count d.delivered
  unfolding delivered_total
  drain_total r d = by_parts d.delivered d.refused
    where
      by_parts :
          (o p : Option ℕ)
          → delivered_total (delivered_log {R = R} o ++ refused_log p) ≡ delivered_count o
      by_parts none none = refl
      by_parts none (some s) = refl
      by_parts (some n) none = omega arith
      by_parts (some n) (some s) = omega arith

  beat_total :
      (o : Option String) (c : Config) (r : Round R) (v : Vars)
      → delivered_total (beat o c r v).1 ≡ 0
  unfolding beat delivered_total
  beat_total none c r v = refl
  beat_total (some version) c r v = ping_total _
    where
      ping_total : (p : Ping R) → delivered_total (ping_log p) ≡ 0
      ping_total throttled = refl
      ping_total (posts b) = refl
      ping_total fails = refl

  account_total :
      (r : Round R) (o : SyncOutcome) (k : ℕ) (p : Option ℕ) (at n : ℕ)
      → delivered_total (account {R = R} o k p at n).1 ≡ 0
  unfolding account delivered_total
  account_total r ok k p at n = refl
  account_total r retry k (some s) at n = refl
  account_total r retry k none at n = refl
  account_total r stop k p at n = refl

  abbrev PassConserves : Store → Pass R → Type 0
  PassConserves s (goes_on v log) = Conserves s v log
  PassConserves s (leaves e v log) = Conserves s v log

  -- A stretch goes on with notices that report no delivery.
  Conserves-append :
      (s : Store) (v w : Vars) (xs ys : List (Notice R))
      → w.store ≡ v.store
      → delivered_total ys ≡ 0
      → Conserves s v xs
      → Conserves s w (xs ++ ys)
  Conserves-append s v w xs ys e h c = record {
    valid = rw e c.valid;
    rows = rw e (omega (arith, delivered_total-append xs ys, c.rows));
    flight = rw e c.flight;
  }

  conclude-Conserves :
      (stopped aborted : Bool) (r : Round R) (d : Drain) (s : Store) (v : Vars)
      (told : List (Notice R))
      → Conserves s v told
      → PassConserves s (conclude stopped aborted r d v told)
  unfolding conclude
  conclude-Conserves true aborted r d s v told h =
      Conserves-append s v v told _ refl (unfold delivered_total in refl) h
  conclude-Conserves false true r d s v told h = h
  conclude-Conserves false false r d s v told h =
      Conserves-append s v _ told _ refl
        (account_total r d.outcome _ d.refused r.synced_at v.failures) h

  attempt_drain-Conserves :
      (b : Bool) (c : Config) (r : Round R) (v : Vars)
      → IsValid v.store
      → PassConserves v.store (attempt_drain b c r v)
  unfolding attempt_drain send_heartbeat
  attempt_drain-Conserves true c r v h = record {
    valid = h;
    rows = unfold delivered_total in omega arith;
    flight = omega arith;
  }
  attempt_drain-Conserves false c r v h =
      let before = enqueue_others r.before v.store in
      let claiming = enqueue_others r.beating before in
      let h1 = enqueue_others-IsValid r.before v.store h in
      let h2 = enqueue_others-IsValid r.beating before h1 in
      let d = sync_once_amid r.posting c.batch_size r.attempt claiming in
      let (valid, k) = sync_once_amid-Balanced r.posting c.batch_size r.attempt claiming h2 in
      conclude-Conserves (is_stop d.outcome) r.aborted_after r d v.store _ _ (record {
        valid = valid;
        rows = omega (
          arith,
          k,
          enqueue_others-Balanced r.before v.store,
          enqueue_others-Balanced r.beating before,
          drain_total r d,
          beat_total c.collector_version c r (record v { store = before }),
          delivered_total-append (beat c.collector_version c r (record v { store = before })).1
              (drain_log d),
        );
        flight = omega (
          arith,
          enqueue_others-flying r.before v.store,
          enqueue_others-flying r.beating before,
          sync_once_amid-flying r.posting c.batch_size r.attempt claiming,
        );
      })

  follow-Conserves :
      (s : Store) (go_on : Vars → Result R)
      → ((v : Vars) → IsValid v.store → Conserves v.store (go_on v).vars (go_on v).log)
      → (p : Pass R) → PassConserves s p
      → Conserves s (follow go_on p).vars (follow go_on p).log
  unfolding follow
  follow-Conserves s go_on ih (goes_on v log) h =
      let k = ih v h.valid in
      record {
        valid = k.valid;
        rows = omega (arith, h.rows, k.rows, delivered_total-append log (go_on v).log);
        flight = omega (arith, h.flight, k.flight);
      }
  follow-Conserves s go_on ih (leaves e v log) h = h

  -- Over any run of the loop on a valid store, whatever rows the other loops of the process enqueue before
  -- and during its heartbeats and its requests, the queue stays valid, and the rows left and the items
  -- reported as delivered add up to the rows there were and those inserted since, and no more
  -- rows are in flight than there were.
  pub run_sync_loop-Conserves :
      (c : Config) (rounds : List (Round R)) (v : Vars)
      → IsValid v.store
      → Conserves v.store (run_sync_loop c rounds v).vars (run_sync_loop c rounds v).log
  unfolding run_sync_loop
  run_sync_loop-Conserves c [] v h = record {
    valid = h;
    rows = unfold delivered_total in omega arith;
    flight = omega arith;
  }
  run_sync_loop-Conserves c (r ∷ rounds) v h =
      follow-Conserves v.store (run_sync_loop c rounds) (run_sync_loop-Conserves c rounds)
        (attempt_drain r.aborted_at_start c r v)
        (attempt_drain-Conserves r.aborted_at_start c r v h)
