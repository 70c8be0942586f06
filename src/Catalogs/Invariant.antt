-- ===== src/Catalogs/Invariant.antt =====
-- The unique keys of the table and its one active row, kept by every statement of
-- packages/db/src/repositories/pricing-catalogs.ts.
use ai.Common.{
  ℕ, ◌≤◌, ◌<◌, ◌≡◌, refl, ap, String, str_eq, Bool, Option, none, some, List, [], ◌∷◌, map, arith,
  inl, inr, eq_iff, Bool-cases, count, All, All-append, All-imp, count-append, ◌==◌,
}
use ai.Catalogs.{
  PricingCatalogRow, Catalogs, is_active, find_version, uploaded, insert_new,
  insert_pending_catalog, demote, is_target, promoted, declined, set_target, approve_catalog,
  reject_catalog,
}

-- What users of the table do, each call one transaction.
pub data Call (P : Type 0) : Type 0 where
  uploads : String → P → String → ℕ → Call P
  approves : ℕ → String → ℕ → Call P
  rejects : ℕ → ℕ → Call P

module _ {P : Type 0} where
  unfoldable pub step : Catalogs P → Call P → Catalogs P
  unfolding insert_pending_catalog approve_catalog reject_catalog
  step t (uploads version payload signature now) =
      (insert_pending_catalog t version payload signature now).0
  step t (approves id approved_by now) = (approve_catalog t id approved_by now).0
  step t (rejects id now) = (reject_catalog t id now).0

  abbrev pub run : Catalogs P → List (Call P) → Catalogs P
  run t [] = t
  run t (c ∷ cs) = run (step t c) cs

  abbrev pub has_id : ℕ → PricingCatalogRow P → Bool
  has_id id r = r.id == id

  abbrev pub has_version : String → PricingCatalogRow P → Bool
  has_version version r = str_eq r.version version

  abbrev pub in_force : PricingCatalogRow P → Bool
  in_force r = is_active r.status

  pub record IsValid (t : Catalogs P) : Type 0 where
    pub one_active : count in_force t.rows ≤ 1
    pub ids_unique : (id : ℕ) → count (has_id id) t.rows ≤ 1
    pub ids_below : All (λ r. r.id < t.next_id) t.rows
    pub versions_unique : (version : String) → count (has_version version) t.rows ≤ 1

  -- A change of the status only.
  abbrev Restatus : (PricingCatalogRow P → PricingCatalogRow P) → Type 0
  Restatus f = (r : PricingCatalogRow P) → ((f r).id ≡ r.id) × ((f r).version ≡ r.version)

  count-map_same :
      (p : PricingCatalogRow P → Bool) (f : PricingCatalogRow P → PricingCatalogRow P)
      (rows : List (PricingCatalogRow P))
      → ((r : PricingCatalogRow P) → p (f r) ≡ p r)
      → count p (map f rows) ≡ count p rows
  count-map_same p f [] e = refl
  count-map_same p f (r ∷ rows) e = rw (e r, count-map_same p f rows e) refl

  All-map_below :
      (f : PricingCatalogRow P → PricingCatalogRow P) (n : ℕ) (rows : List (PricingCatalogRow P))
      → Restatus f
      → All (λ r. r.id < n) rows
      → All (λ r. r.id < n) (map f rows)
  All-map_below f n [] e h = tt
  All-map_below f n (r ∷ rows) e h = (rw ((e r).0) h.0, All-map_below f n rows e h.1)

  demote-Restatus : Restatus demote
  demote-Restatus r = elim (Bool-cases (is_active r.status)) [
    | inl e ↦ rw e (refl, refl)
    | inr e ↦ rw e (refl, refl)
  ]

  set_target-Restatus :
      (id : ℕ) (f : PricingCatalogRow P → PricingCatalogRow P)
      → Restatus f
      → Restatus (set_target id f)
  set_target-Restatus id f g r = elim (Bool-cases (is_target id r)) [
    | inl e ↦ rw e (g r)
    | inr e ↦ rw e (refl, refl)
  ]

  -- A row in force after an approval has its id.
  count-approved :
      (id : ℕ) (by : String) (now : ℕ) (rows : List (PricingCatalogRow P))
      → count in_force (map (set_target id (promoted by now)) (map demote rows))
        ≤ count (has_id id) rows
  count-approved id by now [] = omega arith
  count-approved id by now (r ∷ rows) = ground (arith, count-approved id by now rows)

  count-rejected :
      (id now : ℕ) (rows : List (PricingCatalogRow P))
      → count in_force (map (set_target id (declined now)) rows) ≤ count in_force rows
  count-rejected id now [] = omega arith
  count-rejected id now (r ∷ rows) = ground (arith, count-rejected id now rows)

  -- No row has an id that is not given yet, or a version that the search missed.
  count-below :
      (n : ℕ) (rows : List (PricingCatalogRow P))
      → All (λ r. r.id < n) rows
      → count (has_id n) rows ≡ 0
  count-below n [] h = refl
  count-below n (r ∷ rows) h = ground (arith, h.0, count-below n rows h.1)

  count-find_version :
      (version : String) (rows : List (PricingCatalogRow P))
      → find_version version rows ≡ none
      → count (has_version version) rows ≡ 0
  unfolding find_version
  count-find_version version [] h = refl
  count-find_version version (r ∷ rows) h = ground (arith, count-find_version version rows)

  uploaded-IsValid :
      (t : Catalogs P) (version : String) (payload : P) (signature : String) (now : ℕ)
      → find_version version t.rows ≡ none
      → IsValid t
      → IsValid (insert_new t version payload signature now none).0
  uploaded-IsValid t version payload signature now fresh v = record {
    one_active = omega (arith, count-append in_force t.rows (row ∷ []), v.one_active);
    ids_unique = λ id. ground (
      arith,
      count-append (has_id id) t.rows (row ∷ []),
      v.ids_unique id,
      count-below t.next_id t.rows v.ids_below,
    );
    ids_below =
        All-append _ t.rows (row ∷ []) (All-imp _ _ t.rows (λ r below. omega arith) v.ids_below)
          (omega arith, tt);
    versions_unique = λ w. ground (
      arith,
      eq_iff version w,
      count-append (has_version w) t.rows (row ∷ []),
      v.versions_unique w,
      count-find_version version t.rows fresh,
    );
  }
    where
      row : PricingCatalogRow P
      row = uploaded t.next_id version payload signature now

  -- A change of statuses keeps the keys; what is left is the active row.
  Restatus-IsValid :
      (t : Catalogs P) (f : PricingCatalogRow P → PricingCatalogRow P)
      → Restatus f
      → count in_force (map f t.rows) ≤ 1
      → IsValid t
      → IsValid (record t { rows = map f t.rows })
  Restatus-IsValid t f e a v = record {
    one_active = a;
    ids_unique = λ id.
        rw (count-map_same (has_id id) f t.rows (λ r. ap (λ i. i == id) ((e r).0)))
          (v.ids_unique id);
    ids_below = All-map_below f t.next_id t.rows e v.ids_below;
    versions_unique = λ w.
        rw (count-map_same (has_version w) f t.rows (λ r. ap (λ x. str_eq x w) ((e r).1)))
          (v.versions_unique w);
  }

  pub count-demote : (rows : List (PricingCatalogRow P)) → count in_force (map demote rows) ≡ 0
  count-demote [] = refl
  count-demote (r ∷ rows) = ground (arith, count-demote rows)

  promoted-Restatus : (by : String) (now : ℕ) → Restatus (promoted by now)
  promoted-Restatus by now r = (refl, refl)

  declined-Restatus : (now : ℕ) → Restatus (declined now)
  declined-Restatus now r = (refl, refl)

  approve_catalog-IsValid :
      (t : Catalogs P) (id : ℕ) (by : String) (now : ℕ)
      → IsValid t
      → IsValid (approve_catalog t id by now).0
  unfolding approve_catalog
  approve_catalog-IsValid t id by now v =
      Restatus-IsValid (record t { rows = map demote t.rows }) (set_target id (promoted by now))
        (set_target-Restatus id (promoted by now) (promoted-Restatus by now))
        (omega (arith, count-approved id by now t.rows, v.ids_unique id))
        (Restatus-IsValid t demote demote-Restatus (omega (arith, count-demote t.rows)) v)

  reject_catalog-IsValid :
      (t : Catalogs P) (id now : ℕ) → IsValid t → IsValid (reject_catalog t id now).0
  unfolding reject_catalog
  reject_catalog-IsValid t id now v =
      Restatus-IsValid t (set_target id (declined now))
        (set_target-Restatus id (declined now) (declined-Restatus now))
        (omega (arith, count-rejected id now t.rows, v.one_active)) v

  insert_pending_catalog-IsValid :
      (t : Catalogs P) (version : String) (payload : P) (signature : String) (now : ℕ)
      → IsValid t
      → IsValid (insert_pending_catalog t version payload signature now).0
  unfolding insert_pending_catalog
  insert_pending_catalog-IsValid t version payload signature now v =
      by_version (find_version version t.rows) refl
    where
      by_version :
          (o : Option (PricingCatalogRow P))
          → find_version version t.rows ≡ o
          → IsValid (insert_new t version payload signature now o).0
      by_version none e = uploaded-IsValid t version payload signature now e v
      by_version (some r) e = v

  pub step-IsValid : (t : Catalogs P) (c : Call P) → IsValid t → IsValid (step t c)
  unfolding step
  step-IsValid t (uploads version payload signature now) v =
      insert_pending_catalog-IsValid t version payload signature now v
  step-IsValid t (approves id by now) v = approve_catalog-IsValid t id by now v
  step-IsValid t (rejects id now) v = reject_catalog-IsValid t id now v

  pub run-IsValid : (cs : List (Call P)) (t : Catalogs P) → IsValid t → IsValid (run t cs)
  run-IsValid [] t v = v
  run-IsValid (c ∷ cs) t v = run-IsValid cs (step t c) (step-IsValid t c v)

  abbrev pub no_catalogs : Catalogs P
  no_catalogs = record { rows = []; next_id = 0 }

  -- Whatever uploads, approvals and rejections are made on an empty table, at most one row is active, no
  -- two rows share an id or a version, and every id is below the next one.
  pub run-IsValid_catalogs : (cs : List (Call P)) → IsValid (run no_catalogs cs)
  run-IsValid_catalogs cs = run-IsValid cs no_catalogs (record {
    one_active = omega arith;
    ids_unique = λ id. omega arith;
    ids_below = tt;
    versions_unique = λ version. omega arith;
  })
