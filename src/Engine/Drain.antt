-- ===== src/Engine/Drain.antt =====
-- `drainBeforeExit` of apps/collector/src/capture-engine.ts, with its callbacks and its clock as
-- functions: `sync i timeout` is the call number `i`, on the state that the callbacks share, and `now i`
-- the reading number `i` of the clock. The `while` loop is recursion on fuel, one unit a round.
use ai.Common.{
  ℕ, zero, suc, ◌+◌, ◌-◌, ◌≤◌, ◌<◌, ◌≡◌, ◌⊎◌, refl, ap, subst, Bool, true, false, ◌&&◌, Option,
  none, some, List, [], ◌∷◌, arith, inl, inr, Bool-cases, &&-split, ltb, ltb→lt, if◌then◌else◌,
  length, All,
}
use ai.Sync.{SyncOutcome, ok, retry, stop}

-- A call of `sync`: when, with which timeout, and how it ended.
pub record DrainCall : Type 0 where
  pub at : ℕ
  pub timeout : ℕ
  pub outcome : SyncOutcome

abbrev pub is_ok : SyncOutcome → Bool
is_ok ok = true
is_ok retry = false
is_ok stop = false

pub record Drained {ℓ} (S : Type ℓ) : Type ℓ where
  pub state : S
  pub outcome : SyncOutcome
  pub calls : List DrainCall

module _ {ℓ} {S : Type ℓ} where
  abbrev pub after_call : DrainCall → Option (Drained S) → Option (Drained S)
  after_call c none = none
  after_call c (some d) = some (record d { calls = c ∷ d.calls })

ok_of : (o : SyncOutcome) → is_ok o ≡ true → o ≡ ok
ok_of ok e = refl
ok_of retry e = cc
ok_of stop e = cc

not_lt : (a b : ℕ) → ltb a b ≡ false → b ≤ a
not_lt a b e = ground arith

module _ {ℓ} {S : Type ℓ} (sync : ℕ → ℕ → S → S × SyncOutcome) (pending : S → ℕ) (now : ℕ → ℕ) where
  -- The test of the loop after call `i`: `remaining` is positive exactly if the deadline is ahead.
  abbrev pub drain_goes_on : ℕ → ℕ → S → SyncOutcome → Bool
  drain_goes_on deadline i s outcome =
      is_ok outcome && (ltb 0 (pending s) && ltb (now (suc i)) deadline)

  unfoldable pub drain_loop : ℕ → ℕ → ℕ → S → SyncOutcome → Option (Drained S)
  drain_loop zero deadline i s outcome = none
  drain_loop (suc fuel) deadline i s outcome =
      let remaining = deadline - now (suc i) in
      let p = sync (suc i) remaining s in
      let rest = drain_loop fuel deadline (suc i) p.0 p.1 in
      if drain_goes_on deadline i s outcome
      then after_call (record { at = now (suc i); timeout = remaining; outcome = p.1 }) rest
      else some (record { state = s; outcome = outcome; calls = [] })

  unfoldable pub drain_before_exit : ℕ → ℕ → S → Option (Drained S)
  unfolding drain_loop
  drain_before_exit fuel deadline_ms s =
      let p = sync 0 deadline_ms s in
      after_call (record { at = now 0; timeout = deadline_ms; outcome = p.1 })
        (drain_loop fuel (now 0 + deadline_ms) 0 p.0 p.1)

  -- All calls but the last one succeeded, and the last one ended as the drain does.
  abbrev pub Chained : SyncOutcome → List DrainCall → SyncOutcome → Type 0
  Chained before [] final = before ≡ final
  Chained before (c ∷ cs) final = (before ≡ ok) × Chained c.outcome cs final

  -- The drain went on as long as it could: it ended with an error, or with nothing pending, or late.
  abbrev pub Exhausted : ℕ → ℕ → Drained S → Type 0
  Exhausted deadline i d =
      (is_ok d.outcome ≡ false)
      ⊎ ((pending d.state ≡ 0) ⊎ ((k : ℕ) × ((k ≡ suc (i + length d.calls)) × (deadline ≤ now k))))

  record Ended (deadline i fuel : ℕ) (before : SyncOutcome) (d : Drained S) : Type 0 where
    pub in_time : All (λ c. (c.at + c.timeout ≡ deadline) × (0 < c.timeout)) d.calls
    pub chained : Chained before d.calls d.outcome
    pub exhausted : Exhausted deadline i d
    pub few : length d.calls < fuel

  loop_stops :
      (deadline i : ℕ) (s : S) (outcome : SyncOutcome)
      → drain_goes_on deadline i s outcome ≡ false
      → Exhausted deadline i (record { state = s; outcome = outcome; calls = [] })
  loop_stops deadline i s outcome e = elim (Bool-cases (is_ok outcome)) [
    | inr f ↦ inl f
    | inl f ↦ inr (elim (Bool-cases (ltb 0 (pending s))) [
      | inr g ↦ inl (omega (arith, not_lt 0 (pending s) g))
      | inl g ↦
          let late = rw (f, g) at e in
          inr (suc i, (omega arith, omega (arith, not_lt (now (suc i)) deadline late)))
    ])
  ]

  one_more :
      (deadline i fuel : ℕ) (s : S) (outcome : SyncOutcome) (c : DrainCall) (d : Drained S)
      → (outcome ≡ ok)
      → (c.at + c.timeout ≡ deadline)
      → 0 < c.timeout
      → Ended deadline (suc i) fuel c.outcome d
      → Ended deadline i (suc fuel) outcome (record d { calls = c ∷ d.calls })
  one_more deadline i fuel s outcome c d e f g ended = record {
    in_time = ((f, g), ended.in_time);
    chained = (e, ended.chained);
    exhausted = shifted ended.exhausted;
    few = omega (arith, ended.few);
  }
    where
      shifted :
          Exhausted deadline (suc i) d → Exhausted deadline i (record d { calls = c ∷ d.calls })
      shifted (inl h) = inl h
      shifted (inr (inl h)) = inr (inl h)
      shifted (inr (inr (k, (h, late)))) = inr (inr (k, (omega arith, late)))

  -- While the deadline is ahead the reading that reaches it is a later one.
  fuel_left :
      (fuel deadline i k : ℕ)
      → now (suc i) < deadline
      → k ≡ i + suc fuel
      → deadline ≤ now k
      → 0 < fuel
  fuel_left zero deadline i k early e late =
      let same : now k ≡ now (suc i) = ap now (omega arith) in absurd (omega arith)
  fuel_left (suc fuel) deadline i k early e late = omega arith

  drain_loop_ends :
      (fuel deadline i : ℕ) (s : S) (outcome : SyncOutcome) (k : ℕ)
      → 0 < fuel
      → k ≡ i + fuel
      → deadline ≤ now k
      → (d : Drained S) × ((drain_loop fuel deadline i s outcome ≡ some d)
          × Ended deadline i fuel outcome d)
  unfolding drain_loop
  drain_loop_ends zero deadline i s outcome k h e late = absurd (omega arith)
  drain_loop_ends (suc fuel) deadline i s outcome k h e late =
      elim (Bool-cases (drain_goes_on deadline i s outcome)) [
        | inr f ↦ rw f (
          record { state = s; outcome = outcome; calls = [] },
          (
            refl,
            record {
              in_time = tt;
              chained = refl;
              exhausted = loop_stops deadline i s outcome f;
              few = omega arith;
            },
          ),
        )
        | inl f ↦
            let (a, b) =
              &&-split (is_ok outcome) (ltb 0 (pending s) && ltb (now (suc i)) deadline) f in
            let (g, before) = &&-split (ltb 0 (pending s)) (ltb (now (suc i)) deadline) b in
            let early = ltb→lt (now (suc i)) deadline before in
            let remaining = deadline - now (suc i) in
            let p = sync (suc i) remaining s in
            let c : DrainCall = record { at = now (suc i); timeout = remaining; outcome = p.1 } in
            let (d, (q, ended)) =
              drain_loop_ends fuel deadline (suc i) p.0 p.1 k
                (fuel_left fuel deadline i k early e late) (omega arith) late in
            rw (f, q)
              (
                record d { calls = c ∷ d.calls },
                (
                  refl,
                  one_more deadline i fuel s outcome c d (ok_of outcome a) (omega arith)
                      (omega arith) ended,
                ),
              )
      ]

  -- How a drain ended, of at most `most` calls.
  pub record DrainedBy (deadline_ms most : ℕ) (d : Drained S) : Type 0 where
    pub in_time : All (λ c. (c.at + c.timeout ≡ now 0 + deadline_ms) × (0 < c.timeout)) d.calls
    pub chained : Chained ok d.calls d.outcome
    pub exhausted :
        (is_ok d.outcome ≡ false)
        ⊎ ((pending d.state ≡ 0) ⊎ (now 0 + deadline_ms ≤ now (length d.calls)))
    pub few : length d.calls ≤ most

  drained :
      (deadline_ms fuel : ℕ) (before : SyncOutcome) (d : Drained S)
      → 0 < deadline_ms
      → Ended (now 0 + deadline_ms) 0 fuel before d
      → DrainedBy deadline_ms fuel (record d {
        calls = record { at = now 0; timeout = deadline_ms; outcome = before } ∷ d.calls;
      })
  drained deadline_ms fuel before d h ended = record {
    in_time = ((refl, h), ended.in_time);
    chained = (refl, ended.chained);
    exhausted = reached ended.exhausted;
    few = omega (arith, ended.few);
  }
    where
      reached :
          Exhausted (now 0 + deadline_ms) 0 d
          → (is_ok d.outcome ≡ false)
            ⊎ ((pending d.state ≡ 0) ⊎ (now 0 + deadline_ms ≤ now (suc (length d.calls))))
      reached (inl e) = inl e
      reached (inr (inl e)) = inr (inl e)
      reached (inr (inr (k, (e, late)))) =
          let same : now k ≡ now (suc (length d.calls)) = ap now (omega arith) in
          inr (inr (omega arith))

  -- If a later reading of the clock, the one numbered `fuel`, has reached the deadline, then the drain
  -- ends, after at most `fuel` calls. Each call may last until the deadline and no longer. All calls but
  -- the last succeed, the drain's outcome is the last one's, and `ok` means that nothing is pending or
  -- that the deadline has come.
  pub drain_before_exit_ends :
      (fuel deadline_ms : ℕ) (s : S)
      → 0 < fuel
      → 0 < deadline_ms
      → now 0 + deadline_ms ≤ now fuel
      → (d : Drained S) × ((drain_before_exit fuel deadline_ms s ≡ some d)
          × DrainedBy deadline_ms fuel d)
  unfolding drain_before_exit
  drain_before_exit_ends fuel deadline_ms s h g late =
      let p = sync 0 deadline_ms s in
      let (d, (e, ended)) =
        drain_loop_ends fuel (now 0 + deadline_ms) 0 p.0 p.1 fuel h (omega arith) late in
      rw e (
        record d { calls = record { at = now 0; timeout = deadline_ms; outcome = p.1 } ∷ d.calls },
        (refl, drained deadline_ms fuel p.1 d g ended),
      )

  -- A drain that ended left a state with the property.
  abbrev Leaves {κ} : (S → Type κ) → Option (Drained S) → Type κ
  Leaves I none = Unit
  Leaves I (some d) = I d.state

  after_call-Leaves {κ} :
      (I : S → Type κ) (c : DrainCall) (o : Option (Drained S))
      → Leaves I o
      → Leaves I (after_call c o)
  after_call-Leaves I c none h = tt
  after_call-Leaves I c (some d) h = h

  drain_loop-Leaves {κ} :
      (I : S → Type κ)
      → ((i timeout : ℕ) (s : S) → I s → I (sync i timeout s).0)
      → (fuel deadline i : ℕ) (s : S) (outcome : SyncOutcome) → I s
      → Leaves I (drain_loop fuel deadline i s outcome)
  unfolding drain_loop
  drain_loop-Leaves I keep zero deadline i s outcome h = tt
  drain_loop-Leaves I keep (suc fuel) deadline i s outcome h =
      elim (Bool-cases (drain_goes_on deadline i s outcome)) [
        | inr f ↦ rw f h
        | inl f ↦
            let remaining = deadline - now (suc i) in
            let p = sync (suc i) remaining s in
            rw f (
              after_call-Leaves I (record { at = now (suc i); timeout = remaining; outcome = p.1 })
                (drain_loop fuel deadline (suc i) p.0 p.1)
                (drain_loop-Leaves I keep fuel deadline (suc i) p.0 p.1
                  (keep (suc i) remaining s h)))
      ]

  -- What every call keeps, the drain keeps.
  pub drain_before_exit_keeps {κ} :
      (I : S → Type κ)
      → ((i timeout : ℕ) (s : S) → I s → I (sync i timeout s).0)
      → (fuel deadline_ms : ℕ) (s : S) (d : Drained S)
      → drain_before_exit fuel deadline_ms s ≡ some d
      → I s
      → I d.state
  unfolding drain_before_exit
  drain_before_exit_keeps I keep fuel deadline_ms s d e h =
      let p = sync 0 deadline_ms s in
      subst (Leaves I) e (
        after_call-Leaves I (record { at = now 0; timeout = deadline_ms; outcome = p.1 })
          (drain_loop fuel (now 0 + deadline_ms) 0 p.0 p.1)
          (drain_loop-Leaves I keep fuel (now 0 + deadline_ms) 0 p.0 p.1 (keep 0 deadline_ms s h)))
