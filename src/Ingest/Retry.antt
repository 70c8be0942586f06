-- ===== src/Ingest/Retry.antt =====
-- Sending a batch again: what `ingestBatch` of packages/db/src/repositories/ingest.ts does to a retry, as the
-- sync worker makes one when the answer to an accepted request is lost.
use ai.Common.{
  ℕ, ◌≡◌, refl, sym, ap, ◌∙◌, subst, String, string_Eq, Option, none, some, lookup, All-imp,
}
use ai.Ingest.{
  RawRow, Archive, IngestBatch, IngestResponse, Repricing, same_record, insert_records,
  has_fingerprint, upsert_events, respond, ingest_for, ingest_batch,
}
use ai.Ingest.Stored.{
  find, is_some, any-find, map_some, view_record, view_event, seen_record, seen_event,
}
use ai.Ingest.Merging.{recorded, recorded_twice, recorded-own, merged, merged_twice}
use ai.Ingest.Loops.{
  put_events, Present, insert_records-apart, put_events-apart, insert_records-none,
  insert_records-seen, put_events-seen,
}
use ai.Ingest.Permitted.{
  Permitted, put_events-Permitted, upsert_events-put_events, upsert_events-Permitted,
}

module _ {C : Type 0} where
  -- The archive after a call; a throw rolls back.
  abbrev pub archive_of : Option (Archive C × IngestResponse) → Archive C → Archive C
  archive_of none t = t
  archive_of (some out) t = out.0

  abbrev pub inserted_of : Option (Archive C × IngestResponse) → Option ℕ
  inserted_of none = none
  inserted_of (some out) = some out.1.records_inserted

module _ {C : Type 0} (seal : ℕ → String → C) (unseal : C → String)
    (law : (n : ℕ) (p : String) → unseal (seal n p) ≡ p) (repricing : Option Repricing)
    (machine_id org_id : String) (batch : IngestBatch) where
  -- The batch stored by the organization of the machine.
  store : Archive C → Archive C
  store t =
      (put_events seal repricing org_id machine_id
        (insert_records seal org_id machine_id t batch.records).0 batch.events).0

  store-records :
      (t : Archive C)
      → (store t).records ≡ (insert_records seal org_id machine_id t batch.records).0.records
  unfolding store
  store-records t =
      (put_events-apart seal repricing org_id machine_id
        (insert_records seal org_id machine_id t batch.records).0 batch.events).0

  store-machines : (t : Archive C) → (store t).machines ≡ t.machines
  unfolding store
  store-machines t =
      (put_events-apart seal repricing org_id machine_id
        (insert_records seal org_id machine_id t batch.records).0 batch.events).1
      ∙ (insert_records-apart seal org_id machine_id t batch.records).1

  store-seen_record :
      (m c i : String) (t : Archive C)
      → seen_record seal unseal law m c i (store t)
        ≡ recorded org_id machine_id m c i batch.records (seen_record seal unseal law m c i t)
  store-seen_record m c i t =
      ap (λ rows. map_some (view_record seal unseal law) (find (same_record seal m c i) rows))
        (store-records t)
      ∙ insert_records-seen seal unseal law org_id machine_id m c i t batch.records

  store-seen_event :
      (g : String) (t : Archive C)
      → seen_event seal unseal law g (store t)
        ≡ merged repricing org_id machine_id g batch.events (seen_event seal unseal law g t)
  unfolding store
  store-seen_event g t =
      put_events-seen seal unseal law repricing org_id machine_id g
        (insert_records seal org_id machine_id t batch.records).0 batch.events
      ∙ ap
          (λ rows.
            merged repricing org_id machine_id g batch.events
              (map_some (view_event seal unseal law) (find (has_fingerprint seal g) rows)))
          (insert_records-apart seal org_id machine_id t batch.records).0

  store-Present : (t : Archive C) → Present seal machine_id batch.records (store t).records
  store-Present t =
      All-imp _ _ batch.records
        (λ r h.
          any-find (same_record seal machine_id r.source_connector r.source_record_id)
            (store t).records
          ∙ mapped _
          ∙ ap is_some (store-seen_record machine_id r.source_connector r.source_record_id t)
          ∙ h _)
        (recorded-own org_id machine_id batch.records)
    where
      mapped :
          (o : Option (RawRow C)) → is_some o ≡ is_some (map_some (view_record seal unseal law) o)
      mapped none = refl
      mapped (some r) = refl

  -- What is asked of a second call, from its result.
  abbrev Settled : Archive C → Option (Archive C × IngestResponse) → Type 0
  Settled u out =
      (inserted_of out ≡ some 0)
      × ((m c i : String)
          → seen_record seal unseal law m c i (archive_of out u)
            ≡ seen_record seal unseal law m c i u)
      × ((g : String)
          → seen_event seal unseal law g (archive_of out u) ≡ seen_event seal unseal law g u)

  -- Where no event is another organization's, the call stores the batch.
  Permitted-ingest_for :
      (u : Archive C)
      → Permitted seal org_id batch.events u.events
      → ingest_for seal (some org_id) repricing machine_id batch u
        ≡ some (
          store u,
          record {
            records_inserted = (insert_records seal org_id machine_id u batch.records).1;
            events_upserted =
                (put_events seal repricing org_id machine_id
                  (insert_records seal org_id machine_id u batch.records).0
                  batch.events).1;
          },
        )
  unfolding store
  Permitted-ingest_for u h =
      rw
        (upsert_events-put_events seal repricing org_id machine_id
          (insert_records seal org_id machine_id u batch.records).0 batch.events
          (subst (Permitted seal org_id batch.events)
            (sym (insert_records-apart seal org_id machine_id u batch.records).0) h))
        refl

  -- A call that succeeds has stored the batch, whose events are the organization's.
  ingest_for-stored :
      (t : Archive C) (first : Archive C × IngestResponse)
      → ingest_for seal (some org_id) repricing machine_id batch t ≡ some first
      → (first.0 ≡ store t) × Permitted seal org_id batch.events t.events
  ingest_for-stored t first e =
      by_loop
        (upsert_events seal repricing org_id machine_id
          (insert_records seal org_id machine_id t batch.records).0 batch.events)
        refl e
    where
      by_loop :
          (o : Option (Archive C × ℕ))
          → upsert_events seal repricing org_id machine_id
              (insert_records seal org_id machine_id t batch.records).0
              batch.events
            ≡ o
          → respond seal (insert_records seal org_id machine_id t batch.records).1 o ≡ some first
          → (first.0 ≡ store t) × Permitted seal org_id batch.events t.events
      by_loop none q k = cc
      by_loop (some p) q k =
          let h : Permitted seal org_id batch.events t.events =
            subst (Permitted seal org_id batch.events)
              (insert_records-apart seal org_id machine_id t batch.records).0
              (upsert_events-Permitted seal repricing org_id machine_id
                (insert_records seal org_id machine_id t batch.records).0 batch.events p q) in
          (ap (λ o. archive_of o t) (sym e ∙ Permitted-ingest_for t h), h)

  stored-Settled :
      (t : Archive C)
      → Permitted seal org_id batch.events t.events
      → Settled (store t) (ingest_for seal (some org_id) repricing machine_id batch (store t))
  unfolding store
  stored-Settled t permitted = rw (Permitted-ingest_for (store t) again) (
    ap some (insert_records-none seal org_id machine_id (store t) batch.records (store-Present t)),
    (λ m c i. stored_again m c i),
    (λ g. merged_again g),
  )
    where
      again : Permitted seal org_id batch.events (store t).events
      again =
          put_events-Permitted seal repricing org_id machine_id
            (insert_records seal org_id machine_id t batch.records).0 batch.events batch.events
            (subst (Permitted seal org_id batch.events)
              (sym (insert_records-apart seal org_id machine_id t batch.records).0) permitted)

      stored_again :
          (m c i : String)
          → seen_record seal unseal law m c i (store (store t))
            ≡ seen_record seal unseal law m c i (store t)
      stored_again m c i =
          store-seen_record m c i (store t)
          ∙ ap (recorded org_id machine_id m c i batch.records) (store-seen_record m c i t)
          ∙ recorded_twice org_id machine_id m c i batch.records
              (seen_record seal unseal law m c i t)
          ∙ sym (store-seen_record m c i t)

      merged_again :
          (g : String)
          → seen_event seal unseal law g (store (store t)) ≡ seen_event seal unseal law g (store t)
      merged_again g =
          store-seen_event g (store t)
          ∙ ap (merged repricing org_id machine_id g batch.events) (store-seen_event g t)
          ∙ merged_twice repricing org_id machine_id g batch.events (seen_event seal unseal law g t)
          ∙ sym (store-seen_event g t)

  -- If the machine is known, what is sealed can be opened, and a batch was accepted, then the same batch,
  -- sent again at once and under the same prices, is accepted again, inserts no record, and changes
  -- nothing that is stored under any key.
  pub ingest_batch_twice :
      (t : Archive C) (first : Archive C × IngestResponse)
      → lookup machine_id t.machines ≡ some org_id
      → ingest_batch seal repricing machine_id batch t ≡ some first
      → let again = ingest_batch seal repricing machine_id batch first.0 in
        (inserted_of again ≡ some 0)
        × ((m c i : String)
            → seen_record seal unseal law m c i (archive_of again first.0)
              ≡ seen_record seal unseal law m c i first.0)
        × ((g : String)
            → seen_event seal unseal law g (archive_of again first.0)
              ≡ seen_event seal unseal law g first.0)
  ingest_batch_twice t first h e =
      let (same, permitted) = ingest_for-stored t first (sym (opened t h) ∙ e) in
      subst (λ u. Settled u (ingest_batch seal repricing machine_id batch u)) (sym same)
        (subst (Settled (store t))
          (sym (opened (store t) (ap (lookup machine_id) (store-machines t) ∙ h)))
          (stored-Settled t permitted))
    where
      opened :
          (u : Archive C)
          → lookup machine_id u.machines ≡ some org_id
          → ingest_batch seal repricing machine_id batch u
            ≡ ingest_for seal (some org_id) repricing machine_id batch u
      opened u e = unfold ingest_batch in ap (λ o. ingest_for seal o repricing machine_id batch u) e
