-- ===== src/Catalogs/Approval.antt =====
-- What an approval answers and leaves: packages/db/src/repositories/pricing-catalogs.ts.
use ai.Common.{
  ℕ, ◌≡◌, refl, ap, ◌∙◌, String, true, false, Option, none, some, List, [], ◌∷◌, map, arith, inl,
  inr, Bool-cases, any, ◌⊎◌,
}
use ai.Catalogs.{
  CatalogStatus, pending, active, superseded, rejected, PricingCatalogRow, Catalogs, is_active,
  find_active, get_active_catalog, version_and_rates, demote, is_target, promoted, set_target,
  returned, approve_catalog,
}

module _ {P : Type 0} where
  -- Demotion takes no row out of the pending ones.
  is_target-demote : (id : ℕ) (r : PricingCatalogRow P) → is_target id (demote r) ≡ is_target id r
  is_target-demote id r = by_status r.status refl
    where
      by_status : (s : CatalogStatus) → r.status ≡ s → is_target id (demote r) ≡ is_target id r
      by_status pending e = rw e refl
      by_status active e = rw e refl
      by_status superseded e = rw e refl
      by_status rejected e = rw e refl

  is_active-demote : (r : PricingCatalogRow P) → is_active (demote r).status ≡ false
  is_active-demote r = elim (Bool-cases (is_active r.status)) [ inl e ↦ rw e refl | inr e ↦ rw e e ]

  -- The first row in force after the promotion is the one returned.
  find_active-approved :
      (id : ℕ) (by : String) (now : ℕ) (rows : List (PricingCatalogRow P))
      → find_active (map (set_target id (promoted by now)) (map demote rows))
        ≡ returned id (promoted by now) (map demote rows)
  unfolding find_active
  find_active-approved id by now [] = refl
  find_active-approved id by now (r ∷ rows) = elim (Bool-cases (is_target id (demote r))) [
    | inl e ↦ rw e refl
    | inr e ↦ rw (e, is_active-demote r) (find_active-approved id by now rows)
  ]

  id-demote : (r : PricingCatalogRow P) → (demote r).id ≡ r.id
  id-demote r = elim (Bool-cases (is_active r.status)) [ inl e ↦ rw e refl | inr e ↦ rw e refl ]

  target_id : (id : ℕ) (r : PricingCatalogRow P) → is_target id r ≡ true → r.id ≡ id
  target_id id r e = ground arith

  -- The row that an approval returns: its target, promoted.
  abbrev Answered : ℕ → List (PricingCatalogRow P) → Option (PricingCatalogRow P) → Type 0
  Answered id rows o =
      ((any (is_target id) rows ≡ true)
        × ((r : PricingCatalogRow P) × ((o ≡ some r) × (r.id ≡ id) × (r.status ≡ active))))
      ⊎ ((any (is_target id) rows ≡ false) × (o ≡ none))

  returned-Answered :
      (id : ℕ) (by : String) (now : ℕ) (rows : List (PricingCatalogRow P))
      → Answered id rows (returned id (promoted by now) (map demote rows))
  returned-Answered id by now [] = inr (refl, refl)
  returned-Answered id by now (r ∷ rows) = elim (Bool-cases (is_target id r)) [
    | inl e ↦
        rw (is_target-demote id r, e)
          (inl (refl, (promoted by now (demote r), (refl, id-demote r ∙ target_id id r e, refl))))
    | inr e ↦ rw (is_target-demote id r, e) (returned-Answered id by now rows)
  ]

  -- The active catalog after an approval is the row that it returns: the target, if it was pending. If
  -- the id is of no pending row, nothing is returned, and no catalog is active afterwards, whichever was
  -- before.
  pub approve_catalog_cases :
      (t : Catalogs P) (id : ℕ) (by : String) (now : ℕ)
      → let after = approve_catalog t id by now in
        ((any (is_target id) t.rows ≡ true)
          × ((r : PricingCatalogRow P) × ((after.1 ≡ some r)
                × (r.id ≡ id)
                × (r.status ≡ active)
                × (get_active_catalog after.0 ≡ some (r.version, r.payload)))))
        ⊎ ((any (is_target id) t.rows ≡ false)
            × (after.1 ≡ none)
            × (get_active_catalog after.0 ≡ none))
  unfolding approve_catalog get_active_catalog
  approve_catalog_cases t id by now =
      answered (returned id (promoted by now) (map demote t.rows)) refl
        (returned-Answered id by now t.rows)
    where
      active_row :
          find_active (map (set_target id (promoted by now)) (map demote t.rows))
          ≡ returned id (promoted by now) (map demote t.rows)
      active_row = find_active-approved id by now t.rows

      answered :
          (o : Option (PricingCatalogRow P))
          → returned id (promoted by now) (map demote t.rows) ≡ o
          → Answered id t.rows o
          → ((any (is_target id) t.rows ≡ true)
              × ((r : PricingCatalogRow P) × ((returned id (promoted by now) (map demote t.rows)
                      ≡ some r)
                    × (r.id ≡ id)
                    × (r.status ≡ active)
                    × (version_and_rates
                          (find_active (map (set_target id (promoted by now)) (map demote t.rows)))
                        ≡ some (r.version, r.payload)))))
            ⊎ ((any (is_target id) t.rows ≡ false)
                × (returned id (promoted by now) (map demote t.rows) ≡ none)
                × (version_and_rates
                      (find_active (map (set_target id (promoted by now)) (map demote t.rows)))
                    ≡ none))
      answered o e (inl (f, (r, (g, i, a)))) =
          inl (f, (r, (e ∙ g, i, a, ap version_and_rates (active_row ∙ (e ∙ g)))))
      answered o e (inr (f, g)) = inr (f, e ∙ g, ap version_and_rates (active_row ∙ (e ∙ g)))
