-- ===== src/Ingest/Merging.antt =====
-- What is stored under one key after a list of records or events, as packages/db/src/repositories/ingest.ts
-- stores them one by one.
use ai.Common.{
  ◌≡◌, refl, sym, ap, ◌∙◌, String, string_Eq, str_eq, eq_refl, Bool, true, ◌&&◌, Option, none, some,
  List, [], ◌∷◌, if◌then◌else◌, value_or, All, All-imp, Bool-cases, inl, inr,
}
use ai.Ingest.{RawRecordPayload, EventPayload, Latest, EventRow, Repricing}
use ai.Ingest.Stored.{is_some, plain_latest, merge}

-- What is stored under the key of a record after a list of records.
module _ (org_id machine_id m c i : String) where
  abbrev pub matches : RawRecordPayload → Bool
  matches r = str_eq machine_id m && (str_eq r.source_connector c && str_eq r.source_record_id i)

  unfoldable pub recorded :
      List RawRecordPayload → Option (String × String × String) → Option (String × String × String)
  recorded [] o = o
  recorded (r ∷ rs) o =
      recorded rs (if matches r then some (value_or o (org_id, r.session_id, r.payload)) else o)

  pub recorded-some :
      (rs : List RawRecordPayload) (x : String × String × String) → recorded rs (some x) ≡ some x
  unfolding recorded
  recorded-some [] x = refl
  recorded-some (r ∷ rs) x = elim (Bool-cases (matches r)) [
    | inl e ↦ rw e (recorded-some rs x)
    | inr e ↦ rw e (recorded-some rs x)
  ]

  pub recorded_twice :
      (rs : List RawRecordPayload) (o : Option (String × String × String))
      → recorded rs (recorded rs o) ≡ recorded rs o
  unfolding recorded
  recorded_twice [] o = refl
  recorded_twice (r ∷ rs) o = elim (Bool-cases (matches r)) [
    | inl e ↦ rw (e, recorded-some, recorded-some)
    | inr e ↦ rw e (recorded_twice rs o)
  ]

-- A record of the list is stored.
pub recorded-own :
    (org_id machine_id : String) (rs : List RawRecordPayload)
    → All
        (λ (r : RawRecordPayload).
          (o : Option (String × String × String))
          → is_some
              (recorded org_id machine_id machine_id r.source_connector r.source_record_id rs o)
            ≡ true)
        rs
unfolding recorded
recorded-own org_id machine_id [] = tt
recorded-own org_id machine_id (r ∷ rs) = (
  λ o.
      rw (eq_refl machine_id, eq_refl r.source_connector, eq_refl r.source_record_id)
        (ap is_some
          (recorded-some org_id machine_id machine_id r.source_connector r.source_record_id rs _)),
  All-imp _ _ rs (λ q h o. h _) (recorded-own org_id machine_id rs),
)

-- What is stored under a fingerprint after a list of events.
module _ (repricing : Option Repricing) (org_id machine_id g : String) where
  unfoldable pub merged : List EventPayload → Option (EventRow String) → Option (EventRow String)
  merged [] o = o
  merged (e ∷ es) o =
      merged es (if str_eq e.fingerprint g then some (merge repricing org_id machine_id e o) else o)

  unfoldable latest : List EventPayload → Latest String → Latest String
  latest [] l = l
  latest (e ∷ es) l =
      latest es (if str_eq e.fingerprint g then plain_latest repricing machine_id e else l)

  merged-some :
      (es : List EventPayload) (r : EventRow String)
      → merged es (some r) ≡ some (record r { latest = latest es r.latest })
  unfolding merged latest
  merged-some [] r = refl
  merged-some (e ∷ es) r = elim (Bool-cases (str_eq e.fingerprint g)) [
    | inl h ↦ rw h (merged-some es (record r { latest = plain_latest repricing machine_id e }))
    | inr h ↦ rw h (merged-some es r)
  ]

  pub merged_twice :
      (es : List EventPayload) (o : Option (EventRow String))
      → merged es (merged es o) ≡ merged es o
  unfolding merged
  merged_twice [] o = refl
  merged_twice (e ∷ es) o = elim (Bool-cases (str_eq e.fingerprint g)) [
    | inl h ↦ rw h (again (merge repricing org_id machine_id e o) (own o))
    | inr h ↦ rw h (merged_twice es o)
  ]
    where
      own :
          (o : Option (EventRow String))
          → (merge repricing org_id machine_id e o).latest ≡ plain_latest repricing machine_id e
      own none = refl
      own (some r) = refl

      again :
          (x : EventRow String)
          → x.latest ≡ plain_latest repricing machine_id e
          → merged es (some (merge repricing org_id machine_id e (merged es (some x))))
            ≡ merged es (some x)
      again x l =
          ap (λ o. merged es (some (merge repricing org_id machine_id e o))) (merged-some es x)
          ∙ ap (λ y. merged es (some (record x { latest = y }))) (sym l)
