-- ===== src/ApiKeys/Listing.antt =====
-- The list of a user's keys: packages/db/src/repositories/api-keys.ts.
use ai.Common.{
  ℕ, ◌≡◌, refl, ◌∙◌, String, Bool, true, List, [], ◌∷◌, length, length-map, keep, count, leb, arith,
  inl, inr, Bool-cases,
}
use ai.Common.Sort.{sort_by, sort_by-count}
use ai.ApiKeys.{ApiKey, ApiKeys, is_live_of, count_live_api_keys, list_api_keys, api_key_row}

-- What the cap counts is what the owner is shown.
length-list_api_keys :
    (t : ApiKeys) (u : String) (now : ℕ)
    → length (list_api_keys t u now) ≡ count_live_api_keys t u now
unfolding list_api_keys count_live_api_keys
length-list_api_keys t u now =
    length-map api_key_row (sort_by newest (keep (is_live_of now u) t.keys))
    ∙ (length-count (sort_by newest (keep (is_live_of now u) t.keys))
        ∙ (sort_by-count newest (λ k. true) (keep (is_live_of now u) t.keys) ∙ kept t.keys))
  where
    newest : ApiKey → ApiKey → Bool
    newest a b = leb b.created_at a.created_at

    length-count : (xs : List ApiKey) → length xs ≡ count (λ k. true) xs
    length-count [] = refl
    length-count (x ∷ xs) = omega (arith, length-count xs)

    kept :
        (xs : List ApiKey)
        → count (λ k. true) (keep (is_live_of now u) xs) ≡ count (is_live_of now u) xs
    kept [] = refl
    kept (x ∷ xs) = elim (Bool-cases (is_live_of now u x)) [
      | inl e ↦ rw e (omega (arith, kept xs))
      | inr e ↦ rw e (omega (arith, kept xs))
    ]
