-- ===== src/Ingest/Loops.antt =====
-- The two loops of `ingestBatch` of packages/db/src/repositories/ingest.ts: what each leaves alone, and what
-- is stored after it.
use ai.Common.{
  ℕ, suc, ◌≡◌, refl, ap, ◌∙◌, String, string_Eq, true, Option, List, [], ◌∷◌, arith, any, All,
  Bool-cases, inl, inr,
}
use ai.Ingest.{
  RawRecordPayload, EventPayload, RawRow, Archive, Repricing, same_record, insert_record,
  insert_records, put_event,
}
use ai.Ingest.Stored.{seen_record, seen_event, insert_record-seen, put_event-seen}
use ai.Ingest.Merging.{recorded, merged}

module _ {C : Type 0} (seal : ℕ → String → C) where
  -- What the loop over the events writes if no statement raises.
  unfoldable pub put_events :
      Option Repricing → String → String → Archive C → List EventPayload → Archive C × ℕ
  put_events repricing org_id machine_id t [] = (t, 0)
  put_events repricing org_id machine_id t (e ∷ es) =
      let (u, n) =
        put_events repricing org_id machine_id (put_event seal repricing org_id machine_id t e)
          es in
      (u, suc n)

module _ {C : Type 0} (seal : ℕ → String → C) where
  -- Every record of the list is stored.
  abbrev pub Present : String → List RawRecordPayload → List (RawRow C) → Type 0
  Present machine_id rs rows =
      All
        (λ (r : RawRecordPayload).
          any (same_record seal machine_id r.source_connector r.source_record_id) rows ≡ true)
        rs

  insert_record-apart :
      (org_id machine_id : String) (t : Archive C) (r : RawRecordPayload)
      → ((insert_record seal org_id machine_id t r).0.events ≡ t.events)
        × ((insert_record seal org_id machine_id t r).0.machines ≡ t.machines)
  unfolding insert_record
  insert_record-apart org_id machine_id t r =
      elim (Bool-cases
        (any (same_record seal machine_id r.source_connector r.source_record_id) t.records)) [
          | inl e ↦ rw e (refl, refl)
          | inr e ↦ rw e (refl, refl)
        ]

  pub insert_records-apart :
      (org_id machine_id : String) (t : Archive C) (rs : List RawRecordPayload)
      → ((insert_records seal org_id machine_id t rs).0.events ≡ t.events)
        × ((insert_records seal org_id machine_id t rs).0.machines ≡ t.machines)
  unfolding insert_records
  insert_records-apart org_id machine_id t [] = (refl, refl)
  insert_records-apart org_id machine_id t (r ∷ rs) =
      let rest =
        insert_records-apart org_id machine_id (insert_record seal org_id machine_id t r).0 rs in
      let one = insert_record-apart org_id machine_id t r in (rest.0 ∙ one.0, rest.1 ∙ one.1)

  pub put_events-apart :
      (repricing : Option Repricing) (org_id machine_id : String) (t : Archive C)
      (es : List EventPayload)
      → ((put_events seal repricing org_id machine_id t es).0.records ≡ t.records)
        × ((put_events seal repricing org_id machine_id t es).0.machines ≡ t.machines)
  unfolding put_events put_event
  put_events-apart repricing org_id machine_id t [] = (refl, refl)
  put_events-apart repricing org_id machine_id t (e ∷ es) =
      put_events-apart repricing org_id machine_id (put_event seal repricing org_id machine_id t e)
        es

  -- Records that are all stored are not inserted again.
  pub insert_records-none :
      (org_id machine_id : String) (t : Archive C) (rs : List RawRecordPayload)
      → Present machine_id rs t.records
      → (insert_records seal org_id machine_id t rs).1 ≡ 0
  unfolding insert_records insert_record
  insert_records-none org_id machine_id t [] h = refl
  insert_records-none org_id machine_id t (r ∷ rs) h = rw (h.0) (
      omega
        (arith, insert_records-none org_id machine_id (record t { sealed = suc t.sealed }) rs h.1))

module _ {C : Type 0} (seal : ℕ → String → C) (unseal : C → String)
    (law : (n : ℕ) (p : String) → unseal (seal n p) ≡ p) where
  pub insert_records-seen :
      (org_id machine_id m c i : String) (t : Archive C) (rs : List RawRecordPayload)
      → seen_record seal unseal law m c i (insert_records seal org_id machine_id t rs).0
        ≡ recorded org_id machine_id m c i rs (seen_record seal unseal law m c i t)
  unfolding insert_records recorded
  insert_records-seen org_id machine_id m c i t [] = refl
  insert_records-seen org_id machine_id m c i t (r ∷ rs) =
      insert_records-seen org_id machine_id m c i (insert_record seal org_id machine_id t r).0 rs
      ∙ ap (recorded org_id machine_id m c i rs)
          (insert_record-seen seal unseal law org_id machine_id m c i t r)

  pub put_events-seen :
      (repricing : Option Repricing) (org_id machine_id g : String) (t : Archive C)
      (es : List EventPayload)
      → seen_event seal unseal law g (put_events seal repricing org_id machine_id t es).0
        ≡ merged repricing org_id machine_id g es (seen_event seal unseal law g t)
  unfolding put_events merged
  put_events-seen repricing org_id machine_id g t [] = refl
  put_events-seen repricing org_id machine_id g t (e ∷ es) =
      put_events-seen repricing org_id machine_id g (put_event seal repricing org_id machine_id t e)
        es
      ∙ ap (merged repricing org_id machine_id g es)
          (put_event-seen seal unseal law repricing org_id machine_id g t e)
