-- ===== src/Catalogs/Lifecycle.antt =====
-- The states that a catalog passes through, and what of its row never changes:
-- packages/db/src/repositories/pricing-catalogs.ts.
use ai.Common.{
  ℕ, ◌≡◌, refl, ◌∙◌, String, true, Option, none, some, List, [], ◌∷◌, ◌++◌, map, inl, inr,
  Bool-cases, &&-split, ◌==◌,
}
use ai.Catalogs.{
  CatalogStatus, pending, active, superseded, rejected, PricingCatalogRow, Catalogs, is_pending,
  is_active, find_version, uploaded, insert_new, insert_pending_catalog, demote, is_target,
  promoted, declined, set_target, approve_catalog, reject_catalog,
}
use ai.Catalogs.Invariant.{Call, uploads, approves, rejects, step, run}

infix 40 ◌⟶◌ ◌⟶*◌
pub data ◌⟶◌ : CatalogStatus → CatalogStatus → Type 0 where
  approved : pending ⟶ active
  refused : pending ⟶ rejected
  replaced : active ⟶ superseded

pub data ◌⟶*◌ : CatalogStatus → CatalogStatus → Type 0 where
  stays : {s : CatalogStatus} → s ⟶* s
  moves : {s t u : CatalogStatus} → s ⟶ t → t ⟶* u → s ⟶* u

then_moves : {s t u : CatalogStatus} → s ⟶* t → t ⟶* u → s ⟶* u
then_moves stays q = q
then_moves (moves e p) q = moves e (then_moves p q)

active_status : (s : CatalogStatus) → is_active s ≡ true → s ≡ active
active_status active e = refl
active_status pending e = cc
active_status superseded e = cc
active_status rejected e = cc

pending_status : (s : CatalogStatus) → is_pending s ≡ true → s ≡ pending
pending_status pending e = refl
pending_status active e = cc
pending_status superseded e = cc
pending_status rejected e = cc

module _ {P : Type 0} where
  -- A row later: the same signed content, its status moved along the diagram.
  pub record Later (r q : PricingCatalogRow P) : Type 0 where
    pub same_id : q.id ≡ r.id
    pub same_version : q.version ≡ r.version
    pub same_payload : q.payload ≡ r.payload
    pub same_signature : q.signature ≡ r.signature
    pub moved : r.status ⟶* q.status

  -- A table later: its rows in their order, and rows that were uploaded since.
  pub data Evolves : List (PricingCatalogRow P) → List (PricingCatalogRow P) → Type 0 where
    ends : Evolves [] []
    gains :
        {q : PricingCatalogRow P} {qs : List (PricingCatalogRow P)}
        → pending ⟶* q.status
        → Evolves [] qs
        → Evolves [] (q ∷ qs)
    keeps :
        {r q : PricingCatalogRow P} {rs qs : List (PricingCatalogRow P)}
        → Later r q
        → Evolves rs qs
        → Evolves (r ∷ rs) (q ∷ qs)

  Later-refl : (r : PricingCatalogRow P) → Later r r
  Later-refl r = record {
    same_id = refl;
    same_version = refl;
    same_payload = refl;
    same_signature = refl;
    moved = stays;
  }

  Later-trans : (r q p : PricingCatalogRow P) → Later r q → Later q p → Later r p
  Later-trans r q p f g = record {
    same_id = g.same_id ∙ f.same_id;
    same_version = g.same_version ∙ f.same_version;
    same_payload = g.same_payload ∙ f.same_payload;
    same_signature = g.same_signature ∙ f.same_signature;
    moved = then_moves f.moved g.moved;
  }

  Evolves_refl : (rs : List (PricingCatalogRow P)) → Evolves rs rs
  Evolves_refl [] = ends
  Evolves_refl (r ∷ rs) = keeps (Later-refl r) (Evolves_refl rs)

  Evolves_trans :
      (rs qs ps : List (PricingCatalogRow P)) → Evolves rs qs → Evolves qs ps → Evolves rs ps
  Evolves_trans [] [] ps ends f = f
  Evolves_trans [] (q ∷ qs) (p ∷ ps) (gains e es) (keeps f fs) =
      gains (then_moves e f.moved) (Evolves_trans [] qs ps es fs)
  Evolves_trans [] (q ∷ qs) [] e f = elim f [ ]
  Evolves_trans (r ∷ rs) [] ps e f = elim e [ ]
  Evolves_trans (r ∷ rs) (q ∷ qs) [] e f = elim f [ ]
  Evolves_trans (r ∷ rs) (q ∷ qs) (p ∷ ps) (keeps e es) (keeps f fs) =
      keeps (Later-trans r q p e f) (Evolves_trans rs qs ps es fs)

  Evolves-map :
      (f : PricingCatalogRow P → PricingCatalogRow P) (rs : List (PricingCatalogRow P))
      → ((r : PricingCatalogRow P) → Later r (f r))
      → Evolves rs (map f rs)
  Evolves-map f [] e = ends
  Evolves-map f (r ∷ rs) e = keeps (e r) (Evolves-map f rs e)

  Evolves-append :
      (rs : List (PricingCatalogRow P)) (q : PricingCatalogRow P)
      → pending ⟶* q.status
      → Evolves rs (rs ++ q ∷ [])
  Evolves-append [] q e = gains e ends
  Evolves-append (r ∷ rs) q e = keeps (Later-refl r) (Evolves-append rs q e)

  -- The status of a row is changed, or not, as an edge allows.
  restatus :
      (r : PricingCatalogRow P) (q : PricingCatalogRow P)
      → q.id ≡ r.id
      → q.version ≡ r.version
      → q.payload ≡ r.payload
      → q.signature ≡ r.signature
      → r.status ⟶ q.status
      → Later r q
  restatus r q a b c d e = record {
    same_id = a;
    same_version = b;
    same_payload = c;
    same_signature = d;
    moved = moves e stays;
  }

  demote-Later : (r : PricingCatalogRow P) → Later r (demote r)
  demote-Later r = elim (Bool-cases (is_active r.status)) [
    | inl e ↦ rw e (
        restatus r (record r { status = superseded }) refl refl refl refl
          (rw (active_status r.status e) replaced))
    | inr e ↦ rw e (Later-refl r)
  ]

  -- A target is pending.
  target_pending : (id : ℕ) (r : PricingCatalogRow P) → is_target id r ≡ true → r.status ≡ pending
  target_pending id r h =
      pending_status r.status ((&&-split (r.id == id) (is_pending r.status) h).1)

  promote-Later :
      (id : ℕ) (by : String) (now : ℕ) (r : PricingCatalogRow P)
      → Later r (set_target id (promoted by now) r)
  promote-Later id by now r = elim (Bool-cases (is_target id r)) [
    | inl e ↦
        rw e
          (restatus r (promoted by now r) refl refl refl refl (rw (target_pending id r e) approved))
    | inr e ↦ rw e (Later-refl r)
  ]

  decline-Later : (id now : ℕ) (r : PricingCatalogRow P) → Later r (set_target id (declined now) r)
  decline-Later id now r = elim (Bool-cases (is_target id r)) [
    | inl e ↦
        rw e (restatus r (declined now r) refl refl refl refl (rw (target_pending id r e) refused))
    | inr e ↦ rw e (Later-refl r)
  ]

  insert_new-Evolves :
      (t : Catalogs P) (version : String) (payload : P) (signature : String) (now : ℕ)
      (o : Option (PricingCatalogRow P))
      → Evolves t.rows (insert_new t version payload signature now o).0.rows
  insert_new-Evolves t version payload signature now none =
      Evolves-append t.rows (uploaded t.next_id version payload signature now) stays
  insert_new-Evolves t version payload signature now (some r) = Evolves_refl t.rows

  step-Evolves : (t : Catalogs P) (c : Call P) → Evolves t.rows (step t c).rows
  unfolding step insert_pending_catalog approve_catalog reject_catalog
  step-Evolves t (uploads version payload signature now) =
      insert_new-Evolves t version payload signature now (find_version version t.rows)
  step-Evolves t (approves id by now) =
      Evolves_trans t.rows (map demote t.rows)
        (map (set_target id (promoted by now)) (map demote t.rows))
        (Evolves-map demote t.rows demote-Later)
        (Evolves-map (set_target id (promoted by now)) (map demote t.rows)
          (promote-Later id by now))
  step-Evolves t (rejects id now) =
      Evolves-map (set_target id (declined now)) t.rows (decline-Later id now)

  -- Over any uploads, approvals and rejections no catalog is lost, its id and its signed content never
  -- change, and its status only moves along the diagram from pending to active and superseded, or to
  -- rejected; the rows that are new come after the others and have moved from pending.
  pub run-Evolves : (cs : List (Call P)) (t : Catalogs P) → Evolves t.rows (run t cs).rows
  run-Evolves [] t = Evolves_refl t.rows
  run-Evolves (c ∷ cs) t =
      Evolves_trans t.rows (step t c).rows (run (step t c) cs).rows (step-Evolves t c)
        (run-Evolves cs (step t c))
