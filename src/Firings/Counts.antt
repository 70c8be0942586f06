-- ===== src/Firings/Counts.antt =====
-- The rows that an update moves from one count to another.
use ai.Common.{
  ℕ, ◌+◌, ◌≤◌, ◌<◌, ◌≡◌, refl, Bool, true, false, ◌&&◌, List, [], ◌∷◌, map, arith, ◌==◌, keep,
  count, All, Bool-cases, inl, inr,
}
use ai.Firings.{Row, AlertFiring, update_where, to_firing, is_some}

abbrev pub with_id : ℕ → Row → Bool
with_id i r = r.id == i

-- The rows of an id that a notice was claimed for.
abbrev pub attempted : ℕ → Row → Bool
attempted i r = (r.id == i) && is_some r.delivery_attempted_at

abbrev pub noticed : ℕ → Row → Bool
noticed i r = (r.id == i) && is_some r.resolve_delivered_at

module _ (q p w : Row → Bool) (f : Row → Row) (before : (r : Row) → p r ≡ true → q r ≡ false)
    (after : (r : Row) → p r ≡ true → q (f r) ≡ w r) where
  pub count-moved :
      (rows : List Row)
      → count q (update_where p f rows) ≡ count (λ r. p r && w r) rows + count q rows
  unfolding update_where
  count-moved [] = omega arith
  count-moved (r ∷ rows) = elim (Bool-cases (p r)) [
    | inl e ↦ rw (e, before r e, after r e) (omega (arith, count-moved rows))
    | inr e ↦ rw e (omega (arith, count-moved rows))
  ]

pub count-returned :
    (n : AlertFiring → Bool) (p w : Row → Bool) (f : Row → Row) (rows : List Row)
    → ((r : Row) → p r ≡ true → n (to_firing (f r)) ≡ w r)
    → count n (map (λ r. to_firing (f r)) (keep p rows)) ≡ count (λ r. p r && w r) rows
count-returned n p w f [] h = refl
count-returned n p w f (r ∷ rows) h = elim (Bool-cases (p r)) [
  | inl e ↦ rw (e, h r e) (omega (arith, count-returned n p w f rows h))
  | inr e ↦ rw e (omega (arith, count-returned n p w f rows h))
]

pub count-imp :
    (P : Row → Type 0) (p q : Row → Bool) (rows : List Row)
    → ((r : Row) → P r → p r ≡ true → q r ≡ true)
    → All P rows
    → count p rows ≤ count q rows
count-imp P p q [] h a = omega arith
count-imp P p q (r ∷ rows) h a = elim (Bool-cases (p r)) [
  | inl e ↦ rw (e, h r a.0 e) (omega (arith, count-imp P p q rows h a.1))
  | inr e ↦ rw e (ground (arith, count-imp P p q rows h a.1))
]

-- A row of a table: its id was given out, and a notice of its end follows a notice of its start.
abbrev pub IsRow : ℕ → Row → Type 0
IsRow next r =
    (r.id < next) × (is_some r.resolve_delivered_at ≡ true → is_some r.delivery_attempted_at ≡ true)

pub count-with_id_above :
    (n : ℕ) (rows : List Row) → All (IsRow n) rows → count (with_id n) rows ≡ 0
count-with_id_above n [] b = refl
count-with_id_above n (r ∷ rows) b = ground (arith, count-with_id_above n rows b.1, b.0.0)

pub All-update :
    (P : Row → Type 0) (p : Row → Bool) (f : Row → Row) (rows : List Row)
    → ((r : Row) → p r ≡ true → P r → P (f r))
    → All P rows
    → All P (update_where p f rows)
unfolding update_where
All-update P p f [] h a = tt
All-update P p f (r ∷ rows) h a = elim (Bool-cases (p r)) [
  | inl e ↦ rw e (h r e a.0, All-update P p f rows h a.1)
  | inr e ↦ rw e (a.0, All-update P p f rows h a.1)
]
