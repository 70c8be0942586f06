-- ===== src/Catalogs.antt =====
-- packages/db/src/repositories/pricing-catalogs.ts: signed pricing catalogs, held until an administrator
-- decides. connector-catalogs.ts in the same folder has the same statements over its own table. A row
-- keeps its payload in type `P`. The unique index on `version` is the conflict target of the insertion;
-- that on the active status refuses a second active row.
pub mod Invariant
pub mod Approval
pub mod Lifecycle
pub mod Tests
use ai.Common.{
  ℕ, suc, ◌+◌, String, str_eq, Bool, true, false, ◌&&◌, ◌||◌, not, Option, none, some, List, [],
  ◌∷◌, ◌++◌, map, if◌then◌else◌, any, count, ◌==◌,
}

pub data CatalogStatus : Type 0 where
  pending active superseded rejected : CatalogStatus

pub record PricingCatalogRow (P : Type 0) : Type 0 where
  pub id : ℕ
  pub version : String
  pub payload : P
  pub signature : String
  pub status : CatalogStatus
  pub uploaded_at : ℕ
  pub approved_at : Option ℕ
  pub approved_by : Option String

abbrev pub is_pending : CatalogStatus → Bool
is_pending pending = true
is_pending active = false
is_pending superseded = false
is_pending rejected = false

abbrev pub is_active : CatalogStatus → Bool
is_active pending = false
is_active active = true
is_active superseded = false
is_active rejected = false

-- The table, and the next id that its default value gives.
pub record Catalogs (P : Type 0) : Type 0 where
  pub rows : List (PricingCatalogRow P)
  pub next_id : ℕ

module _ {P : Type 0} where
  unfoldable pub find_version : String → List (PricingCatalogRow P) → Option (PricingCatalogRow P)
  find_version version [] = none
  find_version version (r ∷ rows) =
      if str_eq r.version version then some r else find_version version rows

  abbrev pub uploaded : ℕ → String → P → String → ℕ → PricingCatalogRow P
  uploaded id version payload signature now = record {
    id = id;
    version = version;
    payload = payload;
    signature = signature;
    status = pending;
    uploaded_at = now;
    approved_at = none;
    approved_by = none;
  }

  -- `ON CONFLICT DO NOTHING`, then the existing row.
  abbrev pub insert_new :
      Catalogs P
      → String
      → P
      → String
      → ℕ
      → Option (PricingCatalogRow P)
      → Catalogs P × PricingCatalogRow P
  insert_new t version payload signature now none = (
    record {
      rows = t.rows ++ uploaded t.next_id version payload signature now ∷ [];
      next_id = suc t.next_id;
    },
    uploaded t.next_id version payload signature now,
  )
  insert_new t version payload signature now (some r) = (t, r)

  unfoldable pub insert_pending_catalog :
      Catalogs P → String → P → String → ℕ → Catalogs P × PricingCatalogRow P
  unfolding find_version
  insert_pending_catalog t version payload signature now =
      insert_new t version payload signature now (find_version version t.rows)

  unfoldable pub find_active : List (PricingCatalogRow P) → Option (PricingCatalogRow P)
  find_active [] = none
  find_active (r ∷ rows) = if is_active r.status then some r else find_active rows

  abbrev pub version_and_rates : Option (PricingCatalogRow P) → Option (String × P)
  version_and_rates none = none
  version_and_rates (some r) = some (r.version, r.payload)

  unfoldable pub get_active_catalog : Catalogs P → Option (String × P)
  unfolding find_active
  get_active_catalog t = version_and_rates (find_active t.rows)

  abbrev pub demote : PricingCatalogRow P → PricingCatalogRow P
  demote r = if is_active r.status then record r { status = superseded } else r

  -- The WHERE clause of the promotion and of the rejection.
  abbrev pub is_target : ℕ → PricingCatalogRow P → Bool
  is_target id r = (r.id == id) && is_pending r.status

  abbrev pub promoted : String → ℕ → PricingCatalogRow P → PricingCatalogRow P
  promoted approved_by now r = record r {
    status = active;
    approved_at = some now;
    approved_by = some approved_by;
  }

  abbrev pub declined : ℕ → PricingCatalogRow P → PricingCatalogRow P
  declined now r = record r { status = rejected; approved_at = some now }

  abbrev pub set_target :
      ℕ → (PricingCatalogRow P → PricingCatalogRow P) → PricingCatalogRow P → PricingCatalogRow P
  set_target id f r = if is_target id r then f r else r

  -- `RETURNING` of an UPDATE by id: the row after it.
  abbrev pub returned :
      ℕ
      → (PricingCatalogRow P → PricingCatalogRow P)
      → List (PricingCatalogRow P)
      → Option (PricingCatalogRow P)
  returned id f [] = none
  returned id f (r ∷ rows) = if is_target id r then some (f r) else returned id f rows

  unfoldable pub approve_catalog :
      Catalogs P → ℕ → String → ℕ → Catalogs P × Option (PricingCatalogRow P)
  approve_catalog t id approved_by now =
      let demoted = map demote t.rows in
      (
        record t { rows = map (set_target id (promoted approved_by now)) demoted },
        returned id (promoted approved_by now) demoted,
      )

  unfoldable pub reject_catalog : Catalogs P → ℕ → ℕ → Catalogs P × Option (PricingCatalogRow P)
  reject_catalog t id now = (
    record t { rows = map (set_target id (declined now)) t.rows },
    returned id (declined now) t.rows,
  )

  unfoldable pub count_pending_catalogs : Catalogs P → ℕ
  count_pending_catalogs t = count (λ r. is_pending r.status) t.rows
