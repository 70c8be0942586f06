-- ===== src/Serialize/Tests.antt =====
-- Two rows of two columns: a cell with a comma and a quote, and an absent one.
use ai.Common.{◌≡◌, refl, subst, true, List, [], ◌∷◌, map, Eq, some, lookup}
use ai.Mfa.Totp.{same_text}
use ai.Mfa.Codes.{same_text_refl, same_text→≡}
use ai.Serialize.{Text, to_csv, needs_quoting, double_quotes, quote_field, join}
use ai.Serialize.Reader.{read_csv}
use ai.Serialize.Roundtrip.{cells_of, read_csv-to_csv}

instance abbrev text_Eq : Eq Text
text_Eq = record {
  beq = same_text;
  beq_iff = λ a b. (same_text→≡ a b, λ e. subst (λ x. same_text a x ≡ true) e (same_text_refl a));
}

abbrev rows : List (List (Text × Text))
rows = ((97 ∷ [], 120 ∷ 44 ∷ 34 ∷ []) ∷ (98 ∷ [], 49 ∷ []) ∷ []) ∷ ((98 ∷ [], 10 ∷ []) ∷ []) ∷ []

-- a,b / "x,""",1 / ,"\n"
written :
    to_csv rows ((97 ∷ []) ∷ (98 ∷ []) ∷ [])
    ≡ 97 ∷ 44 ∷ 98 ∷ 13 ∷ 10 ∷ 34 ∷ 120 ∷ 44 ∷ 34 ∷ 34 ∷ 34 ∷ 44 ∷ 49 ∷ 13 ∷ 10 ∷ 44 ∷ 34 ∷ 10 ∷ 34
      ∷ 13 ∷ 10 ∷ []
unfolding to_csv quote_field join needs_quoting double_quotes same_text lookup
written = refl

read_csv-to_csv_example :
    read_csv (to_csv rows ((97 ∷ []) ∷ (98 ∷ []) ∷ []))
    ≡ some (((97 ∷ []) ∷ (98 ∷ []) ∷ []) ∷ map (cells_of ((97 ∷ []) ∷ (98 ∷ []) ∷ [])) rows)
read_csv-to_csv_example = read_csv-to_csv rows (97 ∷ []) ((98 ∷ []) ∷ [])
