-- ===== src/Serialize/Roundtrip.antt =====
-- What the reader makes of the output of `toCsv` of serialize.ts.
use ai.Common.{◌≡◌, refl, sym, ap, ap₂, ◌∙◌, some, List, [], ◌∷◌, ◌++◌, map, lookup, Eq}
use ai.Serialize.{
  Text, comma, cr, lf, crlf, quote_text, quote_field, cell_to_string, join, row_line, to_csv,
}
use ai.Serialize.Reader.{feed, at_start, finished, read_csv}
use ai.Serialize.Fields.{append_assoc, reader, feed_then, feed-comma, feed-crlf, field-Reads}

line-Reads :
    (c : Text) (cs : List Text) (after : Text) (fs : List Text) (rs : List (List Text))
    → feed (join (map quote_text (c ∷ cs)) (comma ∷ []) ++ (cr ∷ lf ∷ after)) (at_start fs rs)
      ≡ feed after (at_start [] (rs ++ (fs ++ c ∷ cs) ∷ []))
unfolding join
line-Reads c [] after fs rs =
    let (m, (o, e)) = field-Reads c fs rs in
    feed_then (quote_text c) (cr ∷ lf ∷ after) (at_start fs rs) (reader m c fs rs) e
    ∙ feed-crlf m c after fs rs o
line-Reads c (d ∷ ds) after fs rs =
    let (m, (o, e)) = field-Reads c fs rs in
    let rest : Text = join (map quote_text (d ∷ ds)) (comma ∷ []) in
    ap (λ s. feed s (at_start fs rs)) (append_assoc (quote_text c) (comma ∷ rest) (cr ∷ lf ∷ after))
    ∙ (feed_then (quote_text c) (comma ∷ (rest ++ (cr ∷ lf ∷ after))) (at_start fs rs)
          (reader m c fs rs) e
        ∙ (feed-comma m c (rest ++ (cr ∷ lf ∷ after)) fs rs o
            ∙ (line-Reads d ds after (fs ++ c ∷ []) rs
                ∙ ap (λ l. feed after (at_start [] (rs ++ l ∷ [])))
                    (append_assoc fs (c ∷ []) (d ∷ ds)))))

abbrev line : List Text → Text
line cells = join (map quote_text cells) (comma ∷ [])

-- The cells of a row, in the order of the columns.
abbrev pub cells_of : ⦃e : Eq Text⦄ → List Text → List (Text × Text) → List Text
cells_of columns row = map (λ c. cell_to_string (lookup c row)) columns

-- A record with at least one cell, by its first cell and the others.
abbrev cells : Text × List Text → List Text
cells p = p.0 ∷ p.1

map_cells :
    (f : Text → Text) (cs : List Text) → map quote_text (map f cs) ≡ map (λ c. quote_text (f c)) cs
map_cells f [] = refl
map_cells f (c ∷ cs) = ap (λ l. quote_text (f c) ∷ l) (map_cells f cs)

lines-Reads :
    (p : Text × List Text) (ps : List (Text × List Text)) (rs : List (List Text))
    → feed (join (map (λ q. line (cells q)) (p ∷ ps)) crlf ++ crlf) (at_start [] rs)
      ≡ some (at_start [] (rs ++ map cells (p ∷ ps)))
unfolding join feed
lines-Reads p [] rs = line-Reads p.0 p.1 [] [] rs
lines-Reads p (q ∷ ps) rs =
    let rest : Text = join (map (λ x. line (cells x)) (q ∷ ps)) crlf in
    ap (λ s. feed s (at_start [] rs)) (append_assoc (line (cells p)) (crlf ++ rest) crlf)
    ∙ (line-Reads p.0 p.1 (rest ++ crlf) [] rs
        ∙ (lines-Reads q ps (rs ++ cells p ∷ [])
            ∙ ap (λ l. some (at_start [] l)) (append_assoc rs (cells p ∷ []) (map cells (q ∷ ps)))))

module _ ⦃e : Eq Text⦄ where
  abbrev first_cells : Text → List Text → List (Text × Text) → Text × List Text
  first_cells c cs row =
      (cell_to_string (lookup c row), map (λ d. cell_to_string (lookup d row)) cs)

  row_lines :
      (c : Text) (cs : List Text) (rows : List (List (Text × Text)))
      → map (row_line (c ∷ cs)) rows ≡ map (λ q. line (cells q)) (map (first_cells c cs) rows)
  unfolding quote_field
  row_lines c cs [] = refl
  row_lines c cs (row ∷ rows) =
      ap₂ (λ x y. x ∷ y)
        (ap (λ l. join (quote_text (cell_to_string (lookup c row)) ∷ l) (comma ∷ []))
          (sym (map_cells (λ d. cell_to_string (lookup d row)) cs)))
        (row_lines c cs rows)

  all_cells :
      (c : Text) (cs : List Text) (rows : List (List (Text × Text)))
      → map cells (map (first_cells c cs) rows) ≡ map (cells_of (c ∷ cs)) rows
  all_cells c cs [] = refl
  all_cells c cs (row ∷ rows) = ap (λ l. cells_of (c ∷ cs) row ∷ l) (all_cells c cs rows)

  -- With at least one column, what RFC 4180 reads in the output of `toCsv` is the columns, and then for
  -- each row its cells in the order of the columns, whatever characters they hold: an absent cell reads as
  -- the empty text, and nothing else is there.
  pub read_csv-to_csv :
      (rows : List (List (Text × Text))) (c : Text) (cs : List Text)
      → read_csv (to_csv rows (c ∷ cs)) ≡ some ((c ∷ cs) ∷ map (cells_of (c ∷ cs)) rows)
  unfolding read_csv to_csv quote_field
  read_csv-to_csv rows c cs =
      ap (λ ls. finished (feed (join (line (c ∷ cs) ∷ ls) crlf ++ crlf) (at_start [] [])))
        (row_lines c cs rows)
      ∙ (ap finished (lines-Reads (c, cs) (map (first_cells c cs) rows) [])
          ∙ ap (λ l. some ((c ∷ cs) ∷ l)) (all_cells c cs rows))
