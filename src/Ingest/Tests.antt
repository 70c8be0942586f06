-- ===== src/Ingest/Tests.antt =====
-- A batch of one record and two versions of an event, sent twice.
use ai.Common.{ℕ, ◌≡◌, refl, String, none, some, [], ◌∷◌, lookup, string_Eq}
use ai.Ingest.{
  Origin, EventPayload, Archive, IngestBatch, IngestResponse, insert_record, insert_records,
  update_latest, put_event, upsert_event, upsert_events, ingest_batch,
}
use ai.Ingest.Stored.{seen_record, seen_event}
use ai.Ingest.Retry.{archive_of, inserted_of, ingest_batch_twice}

abbrev seal : ℕ → String → ℕ × String
seal n p = (n, p)

abbrev unseal : ℕ × String → String
unseal c = c.1

abbrev law : (n : ℕ) (p : String) → unseal (seal n p) ≡ p
law n p = refl

abbrev origin : Origin
origin = record {
  source_connector = "codex";
  raw_record_id = "r";
  event_index = 0;
  event_type = "message";
  session_id = "s";
  project_path = none;
  git_branch = none;
  model = none;
  ts = "t";
}

abbrev version : String → EventPayload
version parser = record {
  fingerprint = "f";
  origin = origin;
  parser_version = parser;
  catalog_version = none;
  tokens = none;
  cost = none;
  payload = some "{}";
}

abbrev batch : IngestBatch
batch = record {
  records =
      record {
        source_connector = "codex";
        session_id = "s";
        source_record_id = "r";
        payload = "line";
      }
      ∷ [];
  events = version "v1" ∷ version "v2" ∷ [];
}

abbrev empty : Archive (ℕ × String)
empty = record { machines = ("m", "o") ∷ []; records = []; events = []; sealed = 0 }

abbrev first : Archive (ℕ × String) × IngestResponse
first = (
  archive_of (ingest_batch seal none "m" batch empty) empty,
  record { records_inserted = 1; events_upserted = 2 },
)

accepted_first : ingest_batch seal none "m" batch empty ≡ some first
unfolding ingest_batch insert_records insert_record upsert_events upsert_event put_event
    update_latest lookup
accepted_first = refl

-- A machine of another organization is refused the event.
abbrev two : Archive (ℕ × String)
two = record first.0 { machines = ("m", "o") ∷ ("n", "p") ∷ [] }

foreign_refused : ingest_batch seal none "n" batch two ≡ none
unfolding ingest_batch insert_records insert_record upsert_events upsert_event put_event
    update_latest lookup
foreign_refused = refl

ingest_batch_twice_example :
    let again = ingest_batch seal none "m" batch first.0 in
    (inserted_of again ≡ some 0)
    × ((m c i : String)
        → seen_record seal unseal law m c i (archive_of again first.0)
          ≡ seen_record seal unseal law m c i first.0)
    × ((g : String)
        → seen_event seal unseal law g (archive_of again first.0)
          ≡ seen_event seal unseal law g first.0)
ingest_batch_twice_example =
    ingest_batch_twice seal unseal law none "m" "o" batch empty first known accepted_first
  where
    known : lookup "m" empty.machines ≡ some "o"
    known = unfold lookup in refl
