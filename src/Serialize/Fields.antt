-- ===== src/Serialize/Fields.antt =====
-- How the reader takes a field that `quoteField` of serialize.ts wrote, and what ends it.
use ai.Common.{
  ℕ, ◌≡◌, refl, sym, ap, ◌∙◌, Bool, true, false, Option, none, some, List, [], ◌∷◌, ◌++◌, arith,
  inl, inr, Bool-cases, ◌==◌, any,
}
use ai.Serialize.{
  Text, comma, double_quote, cr, lf, must_quote, needs_quoting, double_quotes, quote_text,
}
use ai.Serialize.Reader.{
  Mode, start, plain, quoted, closing, returning, Reader, is_special, take_in, and_then, feed,
  at_start,
}

pub append_assoc {ℓ} : {A : Type ℓ} (xs ys zs : List A) → (xs ++ ys) ++ zs ≡ xs ++ (ys ++ zs)
append_assoc [] ys zs = refl
append_assoc (x ∷ xs) ys zs = ap (λ l. x ∷ l) (append_assoc xs ys zs)

append_nil {ℓ} : {A : Type ℓ} (xs : List A) → xs ++ [] ≡ xs
append_nil [] = refl
append_nil (x ∷ xs) = ap (λ l. x ∷ l) (append_nil xs)

abbrev pub reader : Mode → Text → List Text → List (List Text) → Reader
reader m field fields records = record {
  mode = m;
  field = field;
  fields = fields;
  records = records;
}

feed-append : (xs ys : Text) (r : Reader) → feed (xs ++ ys) r ≡ and_then (feed xs r) (feed ys)
unfolding feed
feed-append [] ys r = refl
feed-append (x ∷ xs) ys r = by_step (feed-append xs ys) (take_in r.mode x r)
  where
    by_step :
        ((q : Reader) → feed (xs ++ ys) q ≡ and_then (feed xs q) (feed ys))
        → (o : Option Reader)
        → and_then o (feed (xs ++ ys)) ≡ and_then (and_then o (feed xs)) (feed ys)
    by_step ih none = refl
    by_step ih (some q) = ih q

-- What follows a text that was read to `q`.
pub feed_then : (xs ys : Text) (r q : Reader) → feed xs r ≡ some q → feed (xs ++ ys) r ≡ feed ys q
feed_then xs ys r q e = feed-append xs ys r ∙ ap (λ o. and_then o (feed ys)) e

-- What the writer leaves without quotes, the reader takes without quotes.
must_quote-is_special : (c : ℕ) → must_quote c ≡ false → is_special c ≡ false
must_quote-is_special c h = ground arith

feed-plain :
    (s f : Text) (fs : List Text) (rs : List (List Text))
    → any must_quote s ≡ false
    → feed s (reader plain f fs rs) ≡ some (reader plain (f ++ s) fs rs)
unfolding feed
feed-plain [] f fs rs h = ap (λ g. some (reader plain g fs rs)) (sym (append_nil f))
feed-plain (c ∷ s) f fs rs h = elim (Bool-cases (must_quote c)) [
  | inl e ↦ cc
  | inr e ↦ rw (must_quote-is_special c e) (
      feed-plain s (f ++ c ∷ []) fs rs (rw e at h)
      ∙ ap (λ g. some (reader plain g fs rs)) (append_assoc f (c ∷ []) s))
]

feed-quoted :
    (s f : Text) (fs : List Text) (rs : List (List Text))
    → feed (double_quotes s) (reader quoted f fs rs) ≡ some (reader quoted (f ++ s) fs rs)
unfolding feed double_quotes
feed-quoted [] f fs rs = ap (λ g. some (reader quoted g fs rs)) (sym (append_nil f))
feed-quoted (c ∷ s) f fs rs = elim (Bool-cases (c == double_quote)) [
  | inl e ↦
      rw (e, e)
        (feed-quoted s (f ++ c ∷ []) fs rs
          ∙ ap (λ g. some (reader quoted g fs rs)) (append_assoc f (c ∷ []) s))
  | inr e ↦
      rw (e, e)
        (feed-quoted s (f ++ c ∷ []) fs rs
          ∙ ap (λ g. some (reader quoted g fs rs)) (append_assoc f (c ∷ []) s))
]

-- The modes that a field ends in.
abbrev pub is_open : Mode → Bool
is_open start = true
is_open plain = true
is_open closing = true
is_open quoted = false
is_open returning = false

open_comma :
    (m : Mode) (f : Text) (fs : List Text) (rs : List (List Text))
    → is_open m ≡ true
    → take_in m comma (reader m f fs rs) ≡ some (at_start (fs ++ f ∷ []) rs)
open_comma start f fs rs h = refl
open_comma plain f fs rs h = refl
open_comma closing f fs rs h = refl
open_comma quoted f fs rs h = cc
open_comma returning f fs rs h = cc

open_cr :
    (m : Mode) (f : Text) (fs : List Text) (rs : List (List Text))
    → is_open m ≡ true
    → take_in m cr (reader m f fs rs) ≡ some (reader returning f fs rs)
open_cr start f fs rs h = refl
open_cr plain f fs rs h = refl
open_cr closing f fs rs h = refl
open_cr quoted f fs rs h = cc
open_cr returning f fs rs h = cc

-- The end of a field, and of a record.
pub feed-comma :
    (m : Mode) (f s : Text) (fs : List Text) (rs : List (List Text))
    → is_open m ≡ true
    → feed (comma ∷ s) (reader m f fs rs) ≡ feed s (at_start (fs ++ f ∷ []) rs)
unfolding feed
feed-comma m f s fs rs h = ap (λ o. and_then o (feed s)) (open_comma m f fs rs h)

pub feed-crlf :
    (m : Mode) (f s : Text) (fs : List Text) (rs : List (List Text))
    → is_open m ≡ true
    → feed (cr ∷ lf ∷ s) (reader m f fs rs) ≡ feed s (at_start [] (rs ++ (fs ++ f ∷ []) ∷ []))
unfolding feed
feed-crlf m f s fs rs h = ap (λ o. and_then o (feed (lf ∷ s))) (open_cr m f fs rs h)

abbrev pub Reads : Text → List Text → List (List Text) → Type 0
Reads s fs rs =
    (m : Mode) × ((is_open m ≡ true)
      × (feed (quote_text s) (at_start fs rs) ≡ some (reader m s fs rs)))

unquoted-Reads :
    (s : Text) (fs : List Text) (rs : List (List Text))
    → any must_quote s ≡ false
    → (m : Mode) × ((is_open m ≡ true) × (feed s (at_start fs rs) ≡ some (reader m s fs rs)))
unfolding feed
unquoted-Reads [] fs rs h = (start, (refl, refl))
unquoted-Reads (c ∷ s) fs rs h = elim (Bool-cases (must_quote c)) [
  | inl e ↦ cc
  | inr e ↦
      let f : (c == double_quote) ≡ false = ground arith in
      (plain, (refl, rw (must_quote-is_special c e, f) (feed-plain s (c ∷ []) fs rs (rw e at h))))
]

-- A field that was written is read back.
pub field-Reads : (s : Text) (fs : List Text) (rs : List (List Text)) → Reads s fs rs
unfolding needs_quoting double_quotes feed
field-Reads s fs rs = elim (Bool-cases (any must_quote s)) [
  | inr e ↦ rw e (unquoted-Reads s fs rs e)
  | inl e ↦ rw e (
    closing,
    (
      refl,
      feed_then (double_quotes s) (double_quote ∷ []) (reader quoted [] fs rs)
          (reader quoted s fs rs) (feed-quoted s [] fs rs),
    ),
  )
]
