-- ===== src/Ingest.antt =====
-- packages/db/src/repositories/ingest.ts: how the archive stores a batch. `seal` is encryptField, whose
-- random nonce is the value of a counter; the rates and computeCost of a repricing are one function
-- (none is undefined). The call is made as the routes make it, in the context of the machine's organization:
-- row-level security refuses to update the event of another one. Tokens, costs and payloads are their JSON texts.
pub mod Stored
pub mod Merging
pub mod Loops
pub mod Permitted
pub mod Retry
pub mod Tests
use ai.Common.{
  ℕ, zero, suc, ◌+◌, String, string_Eq, str_eq, Bool, true, false, ◌&&◌, not, Option, none, some,
  List, [], ◌∷◌, ◌++◌, if◌then◌else◌, any, lookup,
}

pub record RawRecordPayload : Type 0 where
  pub source_connector : String
  pub session_id : String
  pub source_record_id : String
  pub payload : String

-- The columns of an event that an update leaves as they were inserted.
pub record Origin : Type 0 where
  pub source_connector : String
  pub raw_record_id : String
  pub event_index : ℕ
  pub event_type : String
  pub session_id : String
  pub project_path : Option String
  pub git_branch : Option String
  pub model : Option String
  pub ts : String

pub record EventPayload : Type 0 where
  pub fingerprint : String
  pub origin : Origin
  pub parser_version : String
  pub catalog_version : Option String
  pub tokens : Option String
  pub cost : Option String
  pub payload : Option String

-- The columns that an update sets.
pub record Latest (C : Type 0) : Type 0 where
  pub parser_version : String
  pub catalog_version : Option String
  pub machine_id : String
  pub tokens : Option String
  pub cost : Option String
  pub payload : Option C

-- A row of `events`.
pub record EventRow (C : Type 0) : Type 0 where
  pub fingerprint : String
  pub org_id : String
  pub origin : Origin
  pub latest : Latest C

-- A row of `raw_source_records`.
pub record RawRow (C : Type 0) : Type 0 where
  pub org_id : String
  pub machine_id : String
  pub source_connector : String
  pub session_id : String
  pub source_record_id : String
  pub payload : C

pub record Archive (C : Type 0) : Type 0 where
  pub machines : List (String × String)
  pub records : List (RawRow C)
  pub events : List (EventRow C)
  pub sealed : ℕ

pub record IngestBatch : Type 0 where
  pub records : List RawRecordPayload
  pub events : List EventPayload

pub record IngestResponse : Type 0 where
  pub records_inserted : ℕ
  pub events_upserted : ℕ

pub record Repricing : Type 0 where
  pub version : String
  pub compute_cost : (model tokens : String) → Option String

abbrev pub reprice :
    Option Repricing
    → (model tokens cost catalog_version : Option String) → Option String × Option String
reprice (some p) (some model) (some tokens) (some cost) catalog_version =
    if str_eq model ""
    then (some cost, catalog_version)
    else (p.compute_cost model tokens, some p.version)
reprice _ _ _ cost catalog_version = (cost, catalog_version)

module _ {C : Type 0} (seal : ℕ → String → C) where
  -- The conflict target of the records.
  abbrev pub same_record : String → String → String → RawRow C → Bool
  same_record machine_id connector id r =
      str_eq r.machine_id machine_id
      && (str_eq r.source_connector connector && str_eq r.source_record_id id)

  unfoldable pub insert_record : String → String → Archive C → RawRecordPayload → Archive C × ℕ
  insert_record org_id machine_id t r =
      if any (same_record machine_id r.source_connector r.source_record_id) t.records
      then (record t { sealed = suc t.sealed }, 0)
      else (
        record t {
          sealed = suc t.sealed;
          records =
              t.records
              ++ record {
                org_id = org_id;
                machine_id = machine_id;
                source_connector = r.source_connector;
                session_id = r.session_id;
                source_record_id = r.source_record_id;
                payload = seal t.sealed r.payload;
              }
                ∷ [];
        },
        1,
      )

  abbrev pub seal_payload : ℕ → Option String → Option C
  seal_payload n none = none
  seal_payload n (some p) = some (seal n p)

  abbrev pub latest_of : Option Repricing → String → ℕ → EventPayload → Latest C
  latest_of repricing machine_id n e =
      let (cost, catalog_version) =
        reprice repricing e.origin.model e.tokens e.cost e.catalog_version in
      record {
        parser_version = e.parser_version;
        catalog_version = catalog_version;
        machine_id = machine_id;
        tokens = e.tokens;
        cost = cost;
        payload = seal_payload n e.payload;
      }

  abbrev pub has_fingerprint : String → EventRow C → Bool
  has_fingerprint f r = str_eq r.fingerprint f

  unfoldable pub update_latest : String → Latest C → List (EventRow C) → List (EventRow C)
  update_latest f latest [] = []
  update_latest f latest (r ∷ rows) =
      (if has_fingerprint f r then record r { latest = latest } else r)
      ∷ update_latest f latest rows

  abbrev pub sealed_after : ℕ → Option String → ℕ
  sealed_after n none = n
  sealed_after n (some p) = suc n

  unfoldable pub put_event :
      Option Repricing → String → String → Archive C → EventPayload → Archive C
  put_event repricing org_id machine_id t e =
      let latest = latest_of repricing machine_id t.sealed e in
      record t {
        sealed = sealed_after t.sealed e.payload;
        events =
            if any (has_fingerprint e.fingerprint) t.events
            then update_latest e.fingerprint latest t.events
            else t.events
              ++ record {
                fingerprint = e.fingerprint;
                org_id = org_id;
                origin = e.origin;
                latest = latest;
              }
                ∷ [];
      }

  -- A row with the event's fingerprint that is another organization's.
  abbrev pub is_foreign : String → EventPayload → EventRow C → Bool
  is_foreign org_id e r = has_fingerprint e.fingerprint r && not (str_eq r.org_id org_id)

  -- The statement raises where row-level security forbids its update.
  unfoldable pub upsert_event :
      Option Repricing → String → String → Archive C → EventPayload → Option (Archive C)
  unfolding put_event
  upsert_event repricing org_id machine_id t e =
      if any (is_foreign org_id e) t.events
      then none
      else some (put_event repricing org_id machine_id t e)

  unfoldable pub insert_records :
      String → String → Archive C → List RawRecordPayload → Archive C × ℕ
  insert_records org_id machine_id t [] = (t, 0)
  insert_records org_id machine_id t (r ∷ rs) =
      let (u, n) = insert_record org_id machine_id t r in
      let (v, m) = insert_records org_id machine_id u rs in (v, n + m)

  abbrev pub and_then :
      Option (Archive C) → (Archive C → Option (Archive C × ℕ)) → Option (Archive C × ℕ)
  and_then none k = none
  and_then (some t) k = k t

  abbrev pub one_more : Option (Archive C × ℕ) → Option (Archive C × ℕ)
  one_more none = none
  one_more (some p) = some (p.0, suc p.1)

  unfoldable pub upsert_events :
      Option Repricing → String → String → Archive C → List EventPayload → Option (Archive C × ℕ)
  upsert_events repricing org_id machine_id t [] = some (t, 0)
  upsert_events repricing org_id machine_id t (e ∷ es) =
      and_then (upsert_event repricing org_id machine_id t e)
        (λ u. one_more (upsert_events repricing org_id machine_id u es))

  abbrev pub respond : ℕ → Option (Archive C × ℕ) → Option (Archive C × IngestResponse)
  respond n none = none
  respond n (some p) = some (p.0, record { records_inserted = n; events_upserted = p.1 })

  abbrev pub ingest_for :
      Option String
      → Option Repricing
      → String
      → IngestBatch
      → Archive C
      → Option (Archive C × IngestResponse)
  ingest_for none repricing machine_id batch t = none
  ingest_for (some org_id) repricing machine_id batch t =
      let (u, n) = insert_records org_id machine_id t batch.records in
      respond n (upsert_events repricing org_id machine_id u batch.events)

  -- `ingestBatch`: none is a throw, which rolls the transaction back.
  unfoldable pub ingest_batch :
      Option Repricing → String → IngestBatch → Archive C → Option (Archive C × IngestResponse)
  ingest_batch repricing machine_id batch t =
      ingest_for (lookup machine_id t.machines) repricing machine_id batch t
