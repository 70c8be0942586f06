-- ===== src/Sync/Streak.antt =====
-- The count of consecutive sync failures in `runSyncLoop`, against the log of its callbacks.
use ai.Common.{
  ℕ, zero, suc, ◌+◌, ◌≡◌, refl, sym, ap, ◌∙◌, Bool, true, false, String, Option, none, some, List,
  [], ◌∷◌, ◌++◌, arith, Bool-cases, inl, inr, ltb,
}
use ai.Queue.{QueueStats}
use ai.Sync.{SyncOutcome, ok, retry, stop, Drain, enqueue_others}
use ai.Sync.Heartbeat.{maybe_send_heartbeat, body, Thunk, absent, gives, throws}
use ai.Sync.Loop.{
  Notice, heartbeat, on_delivered, on_refused, on_stop, on_sync, on_sync_refused, on_sync_failure,
  Round, Config, Vars, Result, Pass, goes_on, leaves, ping_log, delivered_log, refused_log, beat,
  send_heartbeat, account, pass, follow, run_sync_loop, is_stop, conclude, attempt_drain,
  delivered_count,
}
use ai.Sync.Failures.{drained, drains, failed_drains, run_sync_loop-failures}

module _ {ℓ} {R : Type ℓ} where
  -- The failures since the last proof that the archive can be reached: a drain that delivered
  -- something, or one that the archive answered and refused.
  abbrev pub counted : ℕ → Notice R → ℕ
  counted n (heartbeat b) = n
  counted n (on_delivered k) = n
  counted n (on_refused status) = n
  counted n on_stop = n
  counted n (on_sync at zero) = n
  counted n (on_sync at (suc d)) = 0
  counted n (on_sync_refused status) = 0
  counted n (on_sync_failure k) = suc n

  unfoldable pub streak : ℕ → List (Notice R) → ℕ
  streak n [] = n
  streak n (e ∷ log) = streak (counted n e) log

  -- What a notice says of the streak before it.
  abbrev pub Tells : ℕ → Notice R → Type 0
  Tells n (heartbeat b) = b.consecutive_sync_failures ≡ n
  Tells n (on_delivered k) = Unit {0}
  Tells n (on_refused status) = Unit {0}
  Tells n on_stop = Unit {0}
  Tells n (on_sync at d) = Unit {0}
  Tells n (on_sync_refused status) = Unit {0}
  Tells n (on_sync_failure k) = k ≡ suc n

  abbrev pub WellCounted : ℕ → List (Notice R) → Type 0
  WellCounted n [] = Unit {0}
  WellCounted n (e ∷ log) = Tells n e × WellCounted (counted n e) log

  streak-append : (n : ℕ) (xs ys : List (Notice R)) → streak n (xs ++ ys) ≡ streak (streak n xs) ys
  unfolding streak
  streak-append n [] ys = refl
  streak-append n (x ∷ xs) ys = streak-append (counted n x) xs ys

  WellCounted-append :
      (n : ℕ) (xs ys : List (Notice R))
      → WellCounted n xs
      → WellCounted (streak n xs) ys
      → WellCounted n (xs ++ ys)
  unfolding streak
  WellCounted-append n [] ys h k = k
  WellCounted-append n (x ∷ xs) ys h k = (h.0, WellCounted-append (counted n x) xs ys h.1 k)

  -- A part of the log that is well counted from `n` and leaves the streak at `m`.
  pub record Counts (n m : ℕ) (log : List (Notice R)) : Type 0 where
    pub well : WellCounted n log
    pub ends : streak n log ≡ m

  Counts-append :
      (n m k : ℕ) (xs ys : List (Notice R)) → Counts n m xs → Counts m k ys → Counts n k (xs ++ ys)
  Counts-append n m k xs ys h g = record {
    well = WellCounted-append n xs ys h.well (rw h.ends g.well);
    ends = streak-append n xs ys ∙ ap (λ x. streak x ys) h.ends ∙ g.ends;
  }

  Counts-nil : (n : ℕ) → Counts n n []
  unfolding streak
  Counts-nil n = record { well = tt; ends = refl }

  ping-Counts :
      (version : String) (interval n now last : ℕ) (st : Option QueueStats) (reports : Thunk R)
      → Counts n n (ping_log (maybe_send_heartbeat version interval n now st reports last).1)
  unfolding maybe_send_heartbeat body streak
  ping-Counts version interval n now last st reports =
      elim (Bool-cases (ltb now (last + interval))) [
        | inl e ↦ rw e (Counts-nil n)
        | inr e ↦ rw e (sent st reports)
      ]
    where
      sent :
          (st : Option QueueStats) (reports : Thunk R)
          → Counts n n (ping_log (body version n st reports))
      sent none reports = Counts-nil n
      sent (some q) absent = record { well = (refl, tt); ends = refl }
      sent (some q) (gives x) = record { well = (refl, tt); ends = refl }
      sent (some q) throws = Counts-nil n

  beat-Counts :
      (o : Option String) (c : Config) (r : Round R) (v : Vars)
      → Counts v.failures v.failures (beat o c r v).1
  unfolding beat
  beat-Counts none c r v = Counts-nil v.failures
  beat-Counts (some version) c r v = ping-Counts version _ v.failures _ _ _ _

  told-Counts : (n : ℕ) (o p : Option ℕ) → Counts n n (delivered_log {R = R} o ++ refused_log p)
  unfolding streak
  told-Counts n none none = record { well = tt; ends = refl }
  told-Counts n none (some s) = record { well = (tt, tt); ends = refl }
  told-Counts n (some k) none = record { well = (tt, tt); ends = refl }
  told-Counts n (some k) (some s) = record { well = (tt, (tt, tt)); ends = refl }

  account-Counts :
      (o : SyncOutcome) (k : ℕ) (p : Option ℕ) (at n : ℕ)
      → Counts n (account {R = R} o k p at n).0 (account o k p at n).1
  unfolding account streak
  account-Counts ok zero p at n = record { well = (tt, tt); ends = refl }
  account-Counts ok (suc k) p at n = record { well = (tt, tt); ends = ground arith }
  account-Counts retry k (some s) at n = record { well = (tt, tt); ends = refl }
  account-Counts retry k none at n = record { well = (omega arith, tt); ends = omega arith }
  account-Counts stop k p at n = Counts-nil n

  -- What a pass leaves counted, whichever way it ends.
  abbrev PassCounts : ℕ → Pass R → Type 0
  PassCounts n (goes_on v log) = Counts n v.failures log
  PassCounts n (leaves e v log) = Counts n v.failures log

  on_stop-Counts : (n : ℕ) → Counts n n (on_stop ∷ [])
  unfolding streak
  on_stop-Counts n = record { well = (tt, tt); ends = refl }

  conclude-Counts :
      (stopped aborted : Bool) (r : Round R) (d : Drain) (n : ℕ) (v : Vars) (told : List (Notice R))
      → Counts n v.failures told
      → PassCounts n (conclude stopped aborted r d v told)
  unfolding conclude
  conclude-Counts true aborted r d n v told h =
      Counts-append n v.failures v.failures told _ h (on_stop-Counts v.failures)
  conclude-Counts false true r d n v told h = h
  conclude-Counts false false r d n v told h =
      Counts-append n v.failures _ told _ h
        (account-Counts d.outcome (delivered_count d.delivered) d.refused r.synced_at v.failures)

  attempt_drain-Counts :
      (b : Bool) (c : Config) (r : Round R) (v : Vars)
      → PassCounts v.failures (attempt_drain b c r v)
  unfolding attempt_drain send_heartbeat
  attempt_drain-Counts true c r v = Counts-nil v.failures
  attempt_drain-Counts false c r v =
      let d = drained c r v.store in
      conclude-Counts (is_stop d.outcome) r.aborted_after r d v.failures _ _ (
        Counts-append v.failures v.failures v.failures _ _
          (beat-Counts c.collector_version c r
            (record v { store = enqueue_others r.before v.store }))
          (told-Counts v.failures d.delivered d.refused))

  follow-Counts :
      (n : ℕ) (go_on : Vars → Result R)
      → ((v : Vars) → Counts v.failures (go_on v).vars.failures (go_on v).log)
      → (p : Pass R) → PassCounts n p
      → Counts n (follow go_on p).vars.failures (follow go_on p).log
  unfolding follow
  follow-Counts n go_on ih (goes_on v log) h = Counts-append n v.failures _ log _ h (ih v)
  follow-Counts n go_on ih (leaves e v log) h = h

  run-Counts :
      (c : Config) (rounds : List (Round R)) (v : Vars)
      → Counts v.failures (run_sync_loop c rounds v).vars.failures (run_sync_loop c rounds v).log
  unfolding run_sync_loop pass
  run-Counts c [] v = Counts-nil v.failures
  run-Counts c (r ∷ rounds) v =
      follow-Counts v.failures (run_sync_loop c rounds) (run-Counts c rounds)
        (attempt_drain r.aborted_at_start c r v) (attempt_drain-Counts r.aborted_at_start c r v)

  -- However other loops enqueue meanwhile, in the log of the loop every heartbeat reports the number of
  -- drains that could not complete a request since the archive last accepted items or answered with a
  -- refusal, and every failure notice reports one more. That number, which the log shows, is counted as
  -- well by what the drains themselves did, and is what the loop's variable holds at its end; an empty
  -- drain counts as neither.
  pub run_sync_loop-WellCounted :
      (c : Config) (rounds : List (Round R)) (v : Vars)
      → WellCounted v.failures (run_sync_loop c rounds v).log
        × ((run_sync_loop c rounds v).vars.failures
            ≡ streak v.failures (run_sync_loop c rounds v).log)
        × ((run_sync_loop c rounds v).vars.failures
            ≡ failed_drains v.failures (drains c rounds v.store))
  run_sync_loop-WellCounted c rounds v =
      let h = run-Counts c rounds v in (h.well, sym h.ends, run_sync_loop-failures c rounds v)
