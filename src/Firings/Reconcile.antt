-- ===== src/Firings/Reconcile.antt =====
-- `reconcileFirings` of packages/db/src/repositories/alert-firings.ts: the open firings before and after.
use ai.Common.{
  ℕ, ◌≡◌, refl, sym, ap, ◌∙◌, String, string_Eq, eq_iff, str_eq, Bool, true, false, ◌&&◌, not,
  Option, none, some, List, [], ◌∷◌, map, if◌then◌else◌, value_or, any, Bool-cases, and_false, inl,
  inr,
}
use ai.Alerts.{OperationalAlert}
use ai.Firings.{
  FiringScope, Row, Firings, is_open, is_some, scope_predicate, update_where, conflicts, alert_key,
  values, touch, upsert, upsert_all, mem, is_cleared, resolve, reconcile_firings,
}
use ai.Firings.Scopes.{scope_predicate-org_of}
use ai.Firings.Table.{find, map_row, or_else, find-append, any-find, find-update}

-- What an open firing remembers: when it was first fired, and its acknowledgement.
abbrev pub memory : Row → ℕ × Option ℕ
memory r = (r.first_fired_at, r.acked_at)

abbrev pub open_memory : FiringScope → String → Firings → Option (ℕ × Option ℕ)
open_memory scope key t = map_row memory (find (conflicts scope key) t.rows)

pub conflicts-touch :
    (s : FiringScope) (k : String) (a : OperationalAlert) (now : ℕ) (r : Row)
    → conflicts s k (touch a now r) ≡ conflicts s k r
unfolding conflicts
conflicts-touch s k a now r = refl

conflicts-values :
    (scope : FiringScope) (k user_id : String) (a : OperationalAlert) (now id : ℕ)
    → conflicts scope k (values scope user_id a now id) ≡ str_eq (alert_key a) k
unfolding conflicts
conflicts-values scope k user_id a now id = rw (scope_predicate-org_of scope) refl

memory-touch :
    (p : Row → Bool) (a : OperationalAlert) (now : ℕ) (o : Option Row)
    → map_row memory (map_row (λ r. if p r then touch a now r else r) o) ≡ map_row memory o
memory-touch p a now none = refl
memory-touch p a now (some r) = elim (Bool-cases (p r)) [ inl h ↦ rw h | inr h ↦ rw h ]

-- What is remembered of a key after the upsert of an alert.
upsert-open_memory :
    (scope : FiringScope) (k user_id : String) (now : ℕ) (t : Firings) (a : OperationalAlert)
    → open_memory scope k (upsert scope user_id now t a) ≡ (
        if str_eq (alert_key a) k
        then some (value_or (open_memory scope k t) (now, none))
        else open_memory scope k t)
unfolding upsert
upsert-open_memory scope k user_id now t a =
    elim (Bool-cases (any (conflicts scope (alert_key a)) t.rows)) [
      | inl e ↦
          rw
            (
              e,
              find-update (conflicts scope k) (conflicts scope (alert_key a)) (touch a now)
                  (conflicts-touch scope k a now) t.rows,
              memory-touch (conflicts scope (alert_key a)) a now,
            )
            (present e)
      | inr e ↦ rw (e, find-append, conflicts-values) (absent e)
    ]
  where
    present :
        any (conflicts scope (alert_key a)) t.rows ≡ true
        → open_memory scope k t ≡ (
            if str_eq (alert_key a) k
            then some (value_or (open_memory scope k t) (now, none))
            else open_memory scope k t)
    present e = elim (Bool-cases (str_eq (alert_key a) k)) [
      | inl h ↦ rw h (
          found _ (
            sym (any-find _ t.rows)
            ∙ ap (λ j. any (conflicts scope j) t.rows) (sym ((eq_iff _ _).0 h))
            ∙ e))
      | inr h ↦ rw h refl
    ]
      where
        found :
            (o : Option Row)
            → is_some o ≡ true
            → map_row memory o ≡ some (value_or (map_row memory o) (now, none))
        found none i = cc
        found (some r) i = refl

    absent :
        any (conflicts scope (alert_key a)) t.rows ≡ false
        → map_row memory (
            or_else (find (conflicts scope k) t.rows) (
              if str_eq (alert_key a) k then some (values scope user_id a now t.next_id) else none))
          ≡ (if str_eq (alert_key a) k
              then some (value_or (open_memory scope k t) (now, none))
              else open_memory scope k t)
    absent e = elim (Bool-cases (str_eq (alert_key a) k)) [
      | inl h ↦ rw h (
          fresh _ (
            sym (any-find _ t.rows)
            ∙ ap (λ j. any (conflicts scope j) t.rows) (sym ((eq_iff _ _).0 h))
            ∙ e))
      | inr h ↦ rw h (same _)
    ]
      where
        fresh :
            (o : Option Row)
            → is_some o ≡ false
            → map_row memory (or_else o (some (values scope user_id a now t.next_id)))
              ≡ some (value_or (map_row memory o) (now, none))
        fresh none i = refl
        fresh (some r) i = cc

        same : (o : Option Row) → map_row memory (or_else o none) ≡ map_row memory o
        same none = refl
        same (some r) = refl

upsert_all-open_memory :
    (scope : FiringScope) (k user_id : String) (now : ℕ) (t : Firings)
    (alerts : List OperationalAlert)
    → open_memory scope k (upsert_all scope user_id now t alerts) ≡ (
        if mem k (map alert_key alerts)
        then some (value_or (open_memory scope k t) (now, none))
        else open_memory scope k t)
unfolding upsert_all
upsert_all-open_memory scope k user_id now t [] = refl
upsert_all-open_memory scope k user_id now t (a ∷ alerts) =
    rw
      (
        upsert_all-open_memory scope k user_id now (upsert scope user_id now t a) alerts,
        upsert-open_memory,
      )
      (elim (Bool-cases (str_eq (alert_key a) k)) [
        | inl h ↦ rw h (elim (Bool-cases (mem k (map alert_key alerts))) [
          | inl g ↦ rw g refl
          | inr g ↦ rw g refl
        ])
        | inr h ↦ rw h refl
      ])

-- A row in the scope, open, with the key of the test, among the derived keys, that key among them.
not_both :
    (in_scope is_op same own given : Bool)
    → (same ≡ true → own ≡ given)
    → (in_scope && (is_op && not own)) ≡ true
    → given ≡ true
    → (in_scope && (is_op && same)) ≡ false
not_both true true true true given f c g = cc
not_both true true true false given f c g = sym (f refl ∙ g)
not_both true true false own given f c g = refl
not_both true false same own given f c g = refl
not_both false is_op same own given f c g = refl

one_of :
    (in_scope is_op same own given : Bool)
    → (same ≡ true → own ≡ given)
    → (in_scope && (is_op && not own)) ≡ false
    → (in_scope && (is_op && same)) ≡ true
    → given ≡ true
one_of true true true true given f c h = sym (f refl)
one_of true true true false given f c h = cc
one_of true true false own given f c h = cc
one_of true false same own given f c h = cc
one_of false is_op same own given f c h = cc

-- Resolving closes the firings whose key is not derived, and no other.
module _ (scope : FiringScope) (k : String) (keys : List String) where
  own_key : (r : Row) → str_eq r.alert_key k ≡ true → mem r.alert_key keys ≡ mem k keys
  own_key r h = ap (λ j. mem j keys) ((eq_iff _ _).0 h)

  cleared_other :
      (r : Row) → is_cleared scope keys r ≡ true → mem k keys ≡ true → conflicts scope k r ≡ false
  unfolding conflicts is_cleared
  cleared_other r c m =
      not_both (scope_predicate scope r.org_id) (is_open r.status) _ _ _ (own_key r) c m

  kept_derived :
      (r : Row) → is_cleared scope keys r ≡ false → conflicts scope k r ≡ true → mem k keys ≡ true
  unfolding conflicts is_cleared
  kept_derived r c h =
      one_of (scope_predicate scope r.org_id) (is_open r.status) _ _ _ (own_key r) c h

  pub closed : (now : ℕ) (r : Row) → conflicts scope k (resolve now r) ≡ false
  unfolding conflicts
  closed now r = and_false (scope_predicate scope r.org_id)

  find-resolve :
      (now : ℕ) (rows : List Row)
      → find (conflicts scope k) (update_where (is_cleared scope keys) (resolve now) rows)
        ≡ (if mem k keys then find (conflicts scope k) rows else none)
  unfolding find update_where
  find-resolve now [] = elim (Bool-cases (mem k keys)) [ inl m ↦ rw m | inr m ↦ rw m ]
  find-resolve now (r ∷ rows) = elim (Bool-cases (is_cleared scope keys r)) [
    | inl c ↦ elim (Bool-cases (mem k keys)) [
      | inl m ↦ rw (c, closed now r, find-resolve now rows, m, cleared_other r c m)
      | inr m ↦ rw (c, closed now r, find-resolve now rows, m)
    ]
    | inr c ↦ elim (Bool-cases (conflicts scope k r)) [
      | inl h ↦ rw (c, h, kept_derived r c h)
      | inr h ↦ rw (c, h, find-resolve now rows)
    ]
  ]

-- After a reconcile a firing of the scope is open exactly if its alert is derived; one that was open
-- keeps the time it was first fired at and its acknowledgement, and one that was not begins now,
-- unacknowledged.
pub reconcile_firings-open_memory :
    (scope : FiringScope) (k user_id : String) (alerts : List OperationalAlert) (now : ℕ)
    (t : Firings)
    → open_memory scope k (reconcile_firings scope user_id alerts now t) ≡ (
        if mem k (map alert_key alerts)
        then some (value_or (open_memory scope k t) (now, none))
        else none)
unfolding reconcile_firings
reconcile_firings-open_memory scope k user_id alerts now t =
    elim (Bool-cases (mem k (map alert_key alerts))) [
      | inl m ↦
          rw (find-resolve scope k (map alert_key alerts) now, m)
            (upsert_all-open_memory scope k user_id now t alerts
              ∙ ap
                  (λ b.
                    if b
                    then some (value_or (open_memory scope k t) (now, none))
                    else open_memory scope k t)
                  m)
      | inr m ↦ rw (find-resolve scope k (map alert_key alerts) now, m)
    ]
