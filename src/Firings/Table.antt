-- ===== src/Firings/Table.antt =====
-- Statements on the table `alert_firings`: what an update or an insertion does to the rows that a
-- predicate selects.
use ai.Common.{
  ◌≡◌, refl, sym, ap, ◌∙◌, Bool, true, false, ◌||◌, Option, none, some, List, [], ◌∷◌, ◌++◌, arith,
  if◌then◌else◌, keep, any, count, Bool-cases, inl, inr,
}
use ai.Firings.{Row, update_where, is_some}

unfoldable pub find : (Row → Bool) → List Row → Option Row
find p [] = none
find p (r ∷ rest) = if p r then some r else find p rest

abbrev pub map_row {ℓ} : {A : Type ℓ} → (Row → A) → Option Row → Option A
map_row f none = none
map_row f (some r) = some (f r)

abbrev pub or_else : Option Row → Option Row → Option Row
or_else none b = b
or_else (some a) b = some a

pub find-append :
    (q : Row → Bool) (rows : List Row) (r : Row)
    → find q (rows ++ r ∷ []) ≡ or_else (find q rows) (if q r then some r else none)
unfolding find
find-append q [] r = refl
find-append q (x ∷ rows) r = elim (Bool-cases (q x)) [
  | inl e ↦ rw e
  | inr e ↦ rw e (find-append q rows r)
]

pub any-find : (q : Row → Bool) (rows : List Row) → any q rows ≡ is_some (find q rows)
unfolding find
any-find q [] = refl
any-find q (x ∷ rows) = elim (Bool-cases (q x)) [ inl e ↦ rw e | inr e ↦ rw e (any-find q rows) ]

pub any-count : (q : Row → Bool) (rows : List Row) → any q rows ≡ false → count q rows ≡ 0
any-count q [] h = refl
any-count q (x ∷ rows) h = elim (Bool-cases (q x)) [
  | inl e ↦ cc
  | inr e ↦ rw e (omega (arith, any-count q rows (by_tail e h)))
]
  where
    by_tail : q x ≡ false → (q x || any q rows) ≡ false → any q rows ≡ false
    by_tail e g = ap (λ b. b || any q rows) (sym e) ∙ g

-- An update that leaves a predicate as it was.
module _ (q p : Row → Bool) (f : Row → Row) (same : (r : Row) → q (f r) ≡ q r) where
  pub find-update :
      (rows : List Row)
      → find q (update_where p f rows) ≡ map_row (λ r. if p r then f r else r) (find q rows)
  unfolding find update_where
  find-update [] = refl
  find-update (x ∷ rows) = elim (Bool-cases (q x)) [
    | inl e ↦ elim (Bool-cases (p x)) [
      | inl h ↦ rw (h, same, e) (rw h refl)
      | inr h ↦ rw (h, e) (rw h refl)
    ]
    | inr e ↦ elim (Bool-cases (p x)) [
      | inl h ↦ rw (h, same, e) (find-update rows)
      | inr h ↦ rw (h, e) (find-update rows)
    ]
  ]

  pub count-update : (rows : List Row) → count q (update_where p f rows) ≡ count q rows
  unfolding update_where
  count-update [] = refl
  count-update (x ∷ rows) = elim (Bool-cases (p x)) [
    | inl h ↦ rw (h, same) (omega (arith, count-update rows))
    | inr h ↦ rw h (omega (arith, count-update rows))
  ]

-- An update of rows that a predicate does not select, before or after.
module _ (q p : Row → Bool) (f : Row → Row) (before : (r : Row) → p r ≡ true → q r ≡ false)
    (after : (r : Row) → p r ≡ true → q (f r) ≡ false) where
  pub keep-update_others : (rows : List Row) → keep q (update_where p f rows) ≡ keep q rows
  unfolding update_where
  keep-update_others [] = refl
  keep-update_others (x ∷ rows) = elim (Bool-cases (p x)) [
    | inl h ↦ rw (h, before x h, after x h) (keep-update_others rows)
    | inr h ↦ rw (h, keep-update_others rows)
  ]

pub keep-append_other :
    (q : Row → Bool) (rows : List Row) (r : Row)
    → q r ≡ false
    → keep q (rows ++ r ∷ []) ≡ keep q rows
keep-append_other q [] r h = rw h
keep-append_other q (x ∷ rows) r h = rw (keep-append_other q rows r h)
