-- ===== src/Catalogs/Tests.antt =====
-- Two uploads, of which the first is approved; then an approval of an id that is not there.
use ai.Common.{ℕ, ◌≡◌, ◌⊎◌, refl, true, false, none, some, List, [], ◌∷◌, any}
use ai.Catalogs.{
  active, PricingCatalogRow, Catalogs, is_target, find_version, insert_pending_catalog, find_active,
  get_active_catalog, approve_catalog,
}
use ai.Catalogs.Invariant.{
  Call, uploads, approves, rejects, step, run, IsValid, no_catalogs, run-IsValid_catalogs,
}
use ai.Catalogs.Approval.{approve_catalog_cases}
use ai.Catalogs.Lifecycle.{Evolves, run-Evolves}

abbrev calls : List (Call ℕ)
calls = uploads "v1" 7 "s1" 1 ∷ uploads "v2" 9 "s2" 2 ∷ approves 0 "admin" 3 ∷ []

abbrev table : Catalogs ℕ
table = run no_catalogs calls

-- The first catalog is in force.
table-active : get_active_catalog table ≡ some ("v1", 7)
unfolding get_active_catalog find_active step insert_pending_catalog approve_catalog find_version
table-active = refl

-- A request to approve an unknown catalog takes it out of force.
unknown-approved : get_active_catalog (approve_catalog table 5 "admin" 4).0 ≡ none
unfolding get_active_catalog find_active step insert_pending_catalog approve_catalog find_version
unknown-approved = refl

run-IsValid_catalogs_example : IsValid (run no_catalogs calls)
run-IsValid_catalogs_example = run-IsValid_catalogs calls

run-Evolves_example : Evolves table.rows (run table (approves 1 "admin" 4 ∷ rejects 1 5 ∷ [])).rows
run-Evolves_example = run-Evolves (approves 1 "admin" 4 ∷ rejects 1 5 ∷ []) table

approve_catalog_cases_example :
    ((any (is_target 5) table.rows ≡ true)
      × ((r : PricingCatalogRow ℕ) × (((approve_catalog table 5 "admin" 4).1 ≡ some r)
            × (r.id ≡ 5)
            × (r.status ≡ active)
            × (get_active_catalog (approve_catalog table 5 "admin" 4).0
                ≡ some (r.version, r.payload)))))
    ⊎ ((any (is_target 5) table.rows ≡ false)
        × ((approve_catalog table 5 "admin" 4).1 ≡ none)
        × (get_active_catalog (approve_catalog table 5 "admin" 4).0 ≡ none))
approve_catalog_cases_example = approve_catalog_cases table 5 "admin" 4
