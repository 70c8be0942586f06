-- ===== src/Serialize.antt =====
-- packages/shared/src/serialize.ts: exports as CSV (RFC 4180) and as JSON lines. A text is the list of its
-- code units. A cell's value is absent (null, undefined, or no such key) or has the text that `String` or
-- `JSON.stringify` of the runtime gives it.
pub mod Reader
pub mod Fields
pub mod Roundtrip
pub mod Tests
use ai.Common.{
  ℕ, Bool, true, false, ◌||◌, List, [], ◌∷◌, ◌++◌, map, if◌then◌else◌, ◌==◌, any, lookup, Eq,
  Option, none, some,
}

abbrev pub Text : Type 0
Text = List ℕ

abbrev pub comma : ℕ
comma = 44

abbrev pub double_quote : ℕ
double_quote = 34

abbrev pub cr : ℕ
cr = 13

abbrev pub lf : ℕ
lf = 10

abbrev pub must_quote : ℕ → Bool
must_quote c = (c == comma) || ((c == double_quote) || ((c == cr) || (c == lf)))

unfoldable pub needs_quoting : Text → Bool
needs_quoting field = any must_quote field

abbrev pub cell_to_string : Option Text → Text
cell_to_string none = []
cell_to_string (some s) = s

-- `s.replace(/"/g, '""')`.
unfoldable pub double_quotes : Text → Text
double_quotes [] = []
double_quotes (c ∷ s) =
    if c == double_quote then double_quote ∷ c ∷ double_quotes s else c ∷ double_quotes s

abbrev pub quote_text : Text → Text
quote_text s = if needs_quoting s then double_quote ∷ (double_quotes s ++ double_quote ∷ []) else s

unfoldable pub quote_field : Option Text → Text
unfolding needs_quoting double_quotes
quote_field value = quote_text (cell_to_string value)

-- `parts.join(separator)`.
unfoldable pub join : List Text → Text → Text
join [] separator = []
join (p ∷ []) separator = p
join (p ∷ q ∷ parts) separator = p ++ (separator ++ join (q ∷ parts) separator)

abbrev pub crlf : Text
crlf = cr ∷ lf ∷ []

-- A row is its cells by column; the columns are named by their texts.
module _ ⦃e : Eq Text⦄ where
  abbrev pub header_line : List Text → Text
  header_line columns = join (map (λ c. quote_field (some c)) columns) (comma ∷ [])

  abbrev pub row_line : List Text → List (Text × Text) → Text
  row_line columns row = join (map (λ c. quote_field (lookup c row)) columns) (comma ∷ [])

  unfoldable pub to_csv : List (List (Text × Text)) → List Text → Text
  unfolding quote_field join
  to_csv rows columns = join (header_line columns ∷ map (row_line columns) rows) crlf ++ crlf

-- Each line is the `JSON.stringify` of a row.
unfoldable pub to_jsonl : List Text → Text
unfolding join
to_jsonl [] = []
to_jsonl (r ∷ rows) = join (r ∷ rows) (lf ∷ []) ++ lf ∷ []
