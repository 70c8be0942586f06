-- ===== src/Firings/Visible.antt =====
-- The reads of the firings: `listAlertFirings`, its order, and what a reconcile leaves for the
-- divergence test of apps/ingest/src/alert-set.ts to see.
use ai.Common.{
  ℕ, ◌≡◌, refl, sym, ◌∙◌, ap, String, string_Eq, Bool, true, false, ◌&&◌, ◌||◌, not, Option, none,
  some, List, [], ◌∷◌, map, arith, ◌==◌, str_eq, if◌then◌else◌, keep, any, count, value_or,
  Bool-cases, inl, inr,
}
use ai.Common.Sort.{sort_by-count, Sorted, sort_by-Sorted}
use ai.Alerts.{OperationalAlert}
use ai.Firings.{
  org, deployment, AlertFiringScope, of_org, of_deployment, Row, AlertFiring, Firings, is_open,
  is_some, to_firing, scope_predicate, conflicts, mem, alert_key, reconcile_firings,
}
use ai.Firings.Listing.{precedes, sort_firings, is_listed, visible_window, list_alert_firings}
use ai.Firings.Table.{map_row, any-find}
use ai.Firings.Reconcile.{memory, open_memory, reconcile_firings-open_memory}
use ai.Firings.Divergence.{open_keys, open_firings_diverge, open_firings_diverge-false}

precedes_total : (a b : AlertFiring) → precedes a b ≡ false → precedes b a ≡ true
unfolding precedes
precedes_total a b h = ground arith

precedes_trans :
    (a b c : AlertFiring) → precedes a b ≡ true → precedes b c ≡ true → precedes a c ≡ true
unfolding precedes
precedes_trans a b c h g = ground arith

count-map :
    (p : AlertFiring → Bool) (rows : List Row)
    → count p (map to_firing rows) ≡ count (λ r. p (to_firing r)) rows
count-map p [] = refl
count-map p (r ∷ rows) = omega (arith, count-map p rows)

count-keep {ℓ} :
    {A : Type ℓ} (p q : A → Bool) (rows : List A)
    → count p (keep q rows) ≡ count (λ r. q r && p r) rows
count-keep p q [] = refl
count-keep p q (r ∷ rows) = elim (Bool-cases (q r)) [
  | inl e ↦ rw e (omega (arith, count-keep p q rows))
  | inr e ↦ rw e (omega (arith, count-keep p q rows))
]

-- A list of an organization's firings holds each visible row of the organization and of the
-- deployment once and no other, and is in order: open before acknowledged before resolved, then by
-- severity, then by age.
pub list_alert_firings_lem :
    (org_id : String) (now : ℕ) (t : Firings) (p : AlertFiring → Bool)
    → Sorted precedes (list_alert_firings org_id now t)
      × (count p (list_alert_firings org_id now t)
          ≡ count (λ (r : Row). is_listed org_id now r && p (to_firing r)) t.rows)
unfolding list_alert_firings sort_firings
list_alert_firings_lem org_id now t p = (
  sort_by-Sorted precedes precedes_total precedes_trans _,
  sort_by-count precedes p _
      ∙ count-map p _
      ∙ count-keep (λ r. p (to_firing r)) (is_listed org_id now) t.rows,
)

abbrev pub is_org_firing : AlertFiring → Bool
is_org_firing f = elim f.scope [ of_org ↦ true | of_deployment ↦ false ]

any-count_zero {ℓ} : {A : Type ℓ} (p : A → Bool) (xs : List A) → any p xs ≡ not (count p xs == 0)
any-count_zero p [] = refl
any-count_zero p (x ∷ xs) = elim (Bool-cases (p x)) [
  | inl e ↦ rw e (ground arith)
  | inr e ↦ rw e (any-count_zero p xs ∙ ground arith)
]

count-same {ℓ} :
    {A : Type ℓ} (p q : A → Bool) (xs : List A) → ((x : A) → p x ≡ q x) → count p xs ≡ count q xs
count-same p q [] h = refl
count-same p q (x ∷ xs) h = rw (h x) (omega (arith, count-same p q xs h))

abbrev is_open_key : String → AlertFiring → Bool
is_open_key k f = is_open f.status && str_eq f.alert_key k

mem-open_keys : (k : String) (fs : List AlertFiring) → mem k (open_keys fs) ≡ any (is_open_key k) fs
mem-open_keys k [] = refl
mem-open_keys k (f ∷ fs) = elim (Bool-cases (is_open f.status)) [
  | inl e ↦ rw (e, mem-open_keys k fs)
  | inr e ↦ rw (e, mem-open_keys k fs)
]

listed_conflicts :
    (org_id k : String) (now : ℕ) (r : Row)
    → (is_listed org_id now r && (is_org_firing (to_firing r) && is_open_key k (to_firing r)))
      ≡ conflicts (org org_id) k r
unfolding is_listed visible_window to_firing scope_predicate conflicts
listed_conflicts org_id k now r = by_org r.org_id (is_open r.status) (str_eq r.alert_key k) _
  where
    by_org :
        (o : Option String) (op same late : Bool)
        → (((scope_predicate (org org_id) o || scope_predicate deployment o)
              && (op || (not op && late)))
            && ((elim (elim o as (λ _. AlertFiringScope) [ none ↦ of_deployment | some _ ↦ of_org ])
                  as (λ _. Bool) [ of_org ↦ true | of_deployment ↦ false ])
                && (op && same)))
          ≡ (scope_predicate (org org_id) o && (op && same))
    by_org none true same late = refl
    by_org none false same true = refl
    by_org none false same false = refl
    by_org (some p) op same late = elim (Bool-cases (str_eq p org_id)) [
      | inl e ↦ rw e (settle op)
      | inr e ↦ rw e refl
    ]
      where
        settle : (op : Bool) → ((op || (not op && late)) && (op && same)) ≡ (op && same)
        settle true = refl
        settle false = elim (Bool-cases late) [ inl l ↦ rw l refl | inr l ↦ rw l refl ]

-- After a reconcile of an organization's alerts the divergence test finds nothing to do: the open
-- firings of the organization in the list that is read back have the keys of the derived alerts.
pub open_firings_diverge-reconcile_firings :
    (org_id user_id : String) (alerts : List OperationalAlert) (now later : ℕ) (t : Firings)
    → open_firings_diverge alerts (
        keep is_org_firing
          (list_alert_firings org_id later (reconcile_firings (org org_id) user_id alerts now t)))
      ≡ false
open_firings_diverge-reconcile_firings org_id user_id alerts now later t =
    (open_firings_diverge-false alerts _).1 (λ k.
      sym (derived k)
      ∙ seen _
      ∙ sym (any-find (conflicts (org org_id) k) u.rows)
      ∙ any-count_zero (conflicts (org org_id) k) u.rows
      ∙ ap (λ n. not (n == 0)) (sym (counted k))
      ∙ sym (any-count_zero (is_open_key k) listed)
      ∙ sym (mem-open_keys k listed))
  where
    u : Firings
    u = reconcile_firings (org org_id) user_id alerts now t

    listed : List AlertFiring
    listed = keep is_org_firing (list_alert_firings org_id later u)

    counted : (k : String) → count (is_open_key k) listed ≡ count (conflicts (org org_id) k) u.rows
    counted k =
        count-keep (is_open_key k) is_org_firing (list_alert_firings org_id later u)
        ∙ (list_alert_firings_lem org_id later u (λ f. is_org_firing f && is_open_key k f)).1
        ∙ count-same _ _ u.rows (listed_conflicts org_id k later)

    is_memory : Option (ℕ × Option ℕ) → Bool
    is_memory none = false
    is_memory (some m) = true

    seen : (o : Option Row) → is_memory (map_row memory o) ≡ is_some o
    seen none = refl
    seen (some r) = refl

    derived : (k : String) → is_memory (open_memory (org org_id) k u) ≡ mem k (map alert_key alerts)
    derived k =
        ap is_memory (reconcile_firings-open_memory (org org_id) k user_id alerts now t)
        ∙ by_mem (mem k (map alert_key alerts))
      where
        by_mem :
            (b : Bool)
            → is_memory
                (if b then some (value_or (open_memory (org org_id) k t) (now, none)) else none)
              ≡ b
        by_mem true = refl
        by_mem false = refl
