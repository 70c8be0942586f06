-- ===== src/Ingest/Permitted.antt =====
-- Where the upsert loop of packages/db/src/repositories/ingest.ts is refused by row-level security: on an event
-- whose fingerprint another organization has.
use ai.Common.{
  Bool, ◌++◌, ◌||◌, ◌&&◌, false, some, none, str_eq, eq_iff, sym, ℕ, ◌≡◌, refl, ap, ◌∙◌, String,
  string_Eq, true, Option, List, [], ◌∷◌, any, All, Bool-cases, inl, inr,
}
use ai.Ingest.{
  EventPayload, Archive, Repricing, put_event, upsert_event, upsert_events, one_more, is_foreign,
  has_fingerprint, update_latest, latest_of, EventRow, Latest,
}
use ai.Ingest.Loops.{put_events}

module _ {C : Type 0} (seal : ℕ → String → C) where
  -- No event of the list is another organization's.
  abbrev pub Permitted : String → List EventPayload → List (EventRow C) → Type 0
  Permitted org_id es rows = All (λ e. any (is_foreign seal org_id e) rows ≡ false) es

  update_latest-foreign :
      (org_id f : String) (e : EventPayload) (l : Latest C) (rows : List (EventRow C))
      → any (is_foreign seal org_id e) (update_latest seal f l rows)
        ≡ any (is_foreign seal org_id e) rows
  unfolding update_latest
  update_latest-foreign org_id f e l [] = refl
  update_latest-foreign org_id f e l (r ∷ rows) = elim (Bool-cases (has_fingerprint seal f r)) [
    | inl h ↦
        rw h (ap (λ b. is_foreign seal org_id e r || b) (update_latest-foreign org_id f e l rows))
    | inr h ↦
        rw h (ap (λ b. is_foreign seal org_id e r || b) (update_latest-foreign org_id f e l rows))
  ]

  append-foreign :
      (org_id : String) (e : EventPayload) (rows : List (EventRow C)) (r : EventRow C)
      → r.org_id ≡ org_id
      → any (is_foreign seal org_id e) (rows ++ r ∷ []) ≡ any (is_foreign seal org_id e) rows
  append-foreign org_id e [] r h =
      let own : str_eq r.org_id org_id ≡ true = (eq_iff r.org_id org_id).1 h in
      rw own (nothing (has_fingerprint seal e.fingerprint r))
    where
      nothing : (b : Bool) → ((b && false) || false) ≡ false
      nothing true = refl
      nothing false = refl
  append-foreign org_id e (x ∷ rows) r h =
      ap (λ b. is_foreign seal org_id e x || b) (append-foreign org_id e rows r h)

  -- A write for an organization leaves foreign what is foreign to it, and nothing else.
  put_event-foreign :
      (repricing : Option Repricing) (org_id machine_id : String) (t : Archive C)
      (d e : EventPayload)
      → any (is_foreign seal org_id e) (put_event seal repricing org_id machine_id t d).events
        ≡ any (is_foreign seal org_id e) t.events
  unfolding put_event
  put_event-foreign repricing org_id machine_id t d e =
      elim (Bool-cases (any (has_fingerprint seal d.fingerprint) t.events)) [
        | inl h ↦ rw h (
            update_latest-foreign org_id d.fingerprint e
              (latest_of seal repricing machine_id t.sealed d) t.events)
        | inr h ↦ rw h (append-foreign org_id e t.events _ refl)
      ]

  put_event-Permitted :
      (repricing : Option Repricing) (org_id machine_id : String) (t : Archive C) (d : EventPayload)
      (es : List EventPayload)
      → (Permitted org_id es t.events
          → Permitted org_id es (put_event seal repricing org_id machine_id t d).events)
        × (Permitted org_id es (put_event seal repricing org_id machine_id t d).events
            → Permitted org_id es t.events)
  put_event-Permitted repricing org_id machine_id t d [] = (λ h. tt, λ h. tt)
  put_event-Permitted repricing org_id machine_id t d (e ∷ es) =
      let same = put_event-foreign repricing org_id machine_id t d e in
      let rest = put_event-Permitted repricing org_id machine_id t d es in
      (λ h. (same ∙ h.0, rest.0 h.1), λ h. (sym same ∙ h.0, rest.1 h.1))

  pub put_events-Permitted :
      (repricing : Option Repricing) (org_id machine_id : String) (t : Archive C)
      (ds es : List EventPayload)
      → Permitted org_id es t.events
      → Permitted org_id es (put_events seal repricing org_id machine_id t ds).0.events
  unfolding put_events
  put_events-Permitted repricing org_id machine_id t [] es h = h
  put_events-Permitted repricing org_id machine_id t (d ∷ ds) es h =
      put_events-Permitted repricing org_id machine_id
        (put_event seal repricing org_id machine_id t d) ds es
        ((put_event-Permitted repricing org_id machine_id t d es).0 h)

  -- The loop succeeds exactly where no event is another organization's.
  pub upsert_events-put_events :
      (repricing : Option Repricing) (org_id machine_id : String) (t : Archive C)
      (es : List EventPayload)
      → Permitted org_id es t.events
      → upsert_events seal repricing org_id machine_id t es
        ≡ some (put_events seal repricing org_id machine_id t es)
  unfolding upsert_events upsert_event put_events
  upsert_events-put_events repricing org_id machine_id t [] h = refl
  upsert_events-put_events repricing org_id machine_id t (e ∷ es) h = rw (h.0) (
      ap (one_more seal) (
        upsert_events-put_events repricing org_id machine_id
          (put_event seal repricing org_id machine_id t e) es
          ((put_event-Permitted repricing org_id machine_id t e es).0 h.1)))

  pub upsert_events-Permitted :
      (repricing : Option Repricing) (org_id machine_id : String) (t : Archive C)
      (es : List EventPayload) (p : Archive C × ℕ)
      → upsert_events seal repricing org_id machine_id t es ≡ some p
      → Permitted org_id es t.events
  unfolding upsert_events upsert_event
  upsert_events-Permitted repricing org_id machine_id t [] p h = tt
  upsert_events-Permitted repricing org_id machine_id t (e ∷ es) p h =
      elim (Bool-cases (any (is_foreign seal org_id e) t.events)) [
        | inl f ↦ let h' = rw f at h in cc
        | inr f ↦
            let rest = rw f at h in
            (
              f,
              (put_event-Permitted repricing org_id machine_id t e es).1 (
                  by_rest
                    (upsert_events seal repricing org_id machine_id
                      (put_event seal repricing org_id machine_id t e) es)
                    (upsert_events-Permitted repricing org_id machine_id
                      (put_event seal repricing org_id machine_id t e) es)
                    refl rest),
            )
      ]
    where
      by_rest :
          (o : Option (Archive C × ℕ))
          → ((x : Archive C × ℕ)
              → upsert_events seal repricing org_id machine_id
                  (put_event seal repricing org_id machine_id t e)
                  es
                ≡ some x
              → Permitted org_id es (put_event seal repricing org_id machine_id t e).events)
          → upsert_events seal repricing org_id machine_id
              (put_event seal repricing org_id machine_id t e)
              es
            ≡ o
          → one_more seal o ≡ some p
          → Permitted org_id es (put_event seal repricing org_id machine_id t e).events
      by_rest none ih q k = cc
      by_rest (some x) ih q k = ih x q
