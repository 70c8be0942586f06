-- ===== src/Serialize/Reader.antt =====
-- A reader of CSV as RFC 4180 defines it, to say what the output of serialize.ts means.
use ai.Common.{ℕ, Option, none, some, Bool, true, List, [], ◌∷◌, ◌++◌, if◌then◌else◌, ◌==◌}
use ai.Serialize.{Text, comma, double_quote, cr, lf}

-- Where in a field the reader is: at its start, in a plain one, inside quotes, after a quote in them, or
-- after the CR that ends a record.
pub data Mode : Type 0 where
  start plain quoted closing returning : Mode

pub record Reader : Type 0 where
  pub mode : Mode
  pub field : Text
  pub fields : List Text
  pub records : List (List Text)

abbrev pub next_field : Reader → Reader
next_field r = record r { mode = start; field = []; fields = r.fields ++ r.field ∷ [] }

abbrev pub next_record : Reader → Reader
next_record r = record {
  mode = start;
  field = [];
  fields = [];
  records = r.records ++ (r.fields ++ r.field ∷ []) ∷ [];
}

abbrev pub add : ℕ → Mode → Reader → Reader
add c m r = record r { mode = m; field = r.field ++ c ∷ [] }

-- The characters that a field outside quotes does not have.
abbrev pub is_special : ℕ → Bool
is_special c =
    if c == comma
    then true
    else if c == double_quote
    then true
    else if c == cr
    then true
    else c == lf

-- A character outside quotes.
abbrev pub unquoted : ℕ → Reader → Option Reader
unquoted c r =
    if c == comma
    then some (next_field r)
    else if c == cr
    then some (record r { mode = returning })
    else none

abbrev pub take_in : Mode → ℕ → Reader → Option Reader
take_in start c r =
    if c == double_quote
    then some (record r { mode = quoted })
    else if is_special c
    then unquoted c r
    else some (add c plain r)
take_in plain c r = if is_special c then unquoted c r else some (add c plain r)
take_in quoted c r =
    if c == double_quote then some (record r { mode = closing }) else some (add c quoted r)
take_in closing c r = if c == double_quote then some (add c quoted r) else unquoted c r
take_in returning c r = if c == lf then some (next_record r) else none

abbrev pub and_then : Option Reader → (Reader → Option Reader) → Option Reader
and_then none k = none
and_then (some r) k = k r

unfoldable pub feed : Text → Reader → Option Reader
feed [] r = some r
feed (c ∷ s) r = and_then (take_in r.mode c r) (feed s)

abbrev pub at_start : List Text → List (List Text) → Reader
at_start fields records = record { mode = start; field = []; fields = fields; records = records }

-- A file ends with the end of a record.
abbrev ending : Mode → Text → List Text → List (List Text) → Option (List (List Text))
ending start [] [] records = some records
ending _ _ _ _ = none

abbrev pub finished : Option Reader → Option (List (List Text))
finished none = none
finished (some r) = ending r.mode r.field r.fields r.records

unfoldable pub read_csv : Text → Option (List (List Text))
unfolding feed
read_csv s = finished (feed s (at_start [] []))
