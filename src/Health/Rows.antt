-- ===== src/Health/Rows.antt =====
-- `deriveCaptureHealth` of packages/shared/src/capture-health.ts.
use ai.Common.{
  ◌+◌, ◌≡◌, refl, sym, ap, ◌∙◌, string_Eq, Bool, true, false, ◌&&◌, ◌||◌, not, List, [], ◌∷◌, ◌++◌,
  map, arith, any, str_eq, eq_refl, count, count-append, In, here, there, Bool-cases, inl, inr,
}
use ai.Common.Sort.{sort_by-count}
use ai.Health.{
  ObservedConnectorRow, DeclaredConnectorRow, CaptureHealthInputs, CaptureHealthMachine,
  CaptureHealthRow, Clock, fresh, is_live_capture, machine_by_id, status_of,
  machines_with_recent_activity, declared_row, observed_row, is_declared, undeclared_rows,
  derive_capture_health,
}
use ai.Health.Ladder.{is_idle, classify_declared-idle}

count-map {ℓ κ} :
    {A : Type ℓ} {B : Type κ} (p : B → Bool) (f : A → B) (xs : List A)
    → count p (map f xs) ≡ count (λ x. p (f x)) xs
count-map p f [] = refl
count-map p f (x ∷ xs) = omega (arith, count-map p f xs)

count-undeclared :
    (p : CaptureHealthRow → Bool) (ms : List CaptureHealthMachine) (ds : List DeclaredConnectorRow)
    (os : List ObservedConnectorRow)
    → count p (undeclared_rows ms ds os)
      ≡ count (λ o. not (is_declared ds o) && p (observed_row ms o)) os
unfolding undeclared_rows
count-undeclared p ms ds [] = refl
count-undeclared p ms ds (o ∷ os) = elim (Bool-cases (is_declared ds o)) [
  | inl e ↦ rw e (omega (arith, count-undeclared p ms ds os))
  | inr e ↦ rw e (omega (arith, count-undeclared p ms ds os))
]

abbrev pub observations : CaptureHealthInputs → List ObservedConnectorRow
observations inputs =
    map (λ (d : DeclaredConnectorRow). d.observed) inputs.declared ++ inputs.observed

-- The scorecard holds one row for each declaration, one for each observation that no declaration
-- covers, and no other, whatever the order.
pub derive_capture_health-count :
    (le : CaptureHealthRow → CaptureHealthRow → Bool) (inputs : CaptureHealthInputs) (k : Clock)
    (p : CaptureHealthRow → Bool)
    → count p (derive_capture_health le inputs k)
      ≡ count
          (λ d. p (
            declared_row k inputs.machines
              (machines_with_recent_activity k (observations inputs))
              d))
          inputs.declared
        + count
            (λ o. not (is_declared inputs.declared o) && p (observed_row inputs.machines o))
            inputs.observed
unfolding derive_capture_health
derive_capture_health-count le inputs k p =
    sort_by-count le p _
    ∙ count-append p
        (map
          (declared_row k inputs.machines (machines_with_recent_activity k (observations inputs)))
          inputs.declared)
        _
    ∙ omega (
      arith,
      count-map p
          (declared_row k inputs.machines (machines_with_recent_activity k (observations inputs)))
          inputs.declared,
      count-undeclared p inputs.machines inputs.declared inputs.observed,
    )

machines_with_recent_activity-fresh :
    (k : Clock) (o : ObservedConnectorRow) (os : List ObservedConnectorRow)
    → In o os
    → fresh k o.last_event_at ≡ true
    → any (str_eq o.machine_id) (machines_with_recent_activity k os) ≡ true
unfolding machines_with_recent_activity
machines_with_recent_activity-fresh k o [] m f = elim m [ ]
machines_with_recent_activity-fresh k o (x ∷ os) here f = rw (f, eq_refl o.machine_id) refl
machines_with_recent_activity-fresh k o (x ∷ os) (there m) f =
    elim (Bool-cases (fresh k x.last_event_at)) [
      | inl e ↦ rw e (
          later (str_eq o.machine_id x.machine_id) (machines_with_recent_activity-fresh k o os m f))
      | inr e ↦ rw e (machines_with_recent_activity-fresh k o os m f)
    ]
  where
    later : (b : Bool) {c : Bool} → c ≡ true → (b || c) ≡ true
    later true h = refl
    later false h = h

-- Beside a fresh observation of the same machine no live-capture connector is called idle.
pub derive_capture_health-idle :
    (inputs : CaptureHealthInputs) (k : Clock) (d : DeclaredConnectorRow) (o : ObservedConnectorRow)
    → In o (observations inputs)
    → o.machine_id ≡ d.observed.machine_id
    → fresh k o.last_event_at ≡ true
    → is_live_capture d.liveness ≡ true
    → is_idle
        (declared_row k inputs.machines
          (machines_with_recent_activity k (observations inputs))
          d).state
      ≡ false
unfolding declared_row
derive_capture_health-idle inputs k d o m e f l =
    classify_declared-idle k d (status_of (machine_by_id d.observed.machine_id inputs.machines)) _ l
      (ap (λ x. any (str_eq x) (machines_with_recent_activity k (observations inputs))) (sym e)
        ∙ machines_with_recent_activity-fresh k o (observations inputs) m f)
