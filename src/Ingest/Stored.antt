-- ===== src/Ingest/Stored.antt =====
-- What the archive holds under a key after a batch of packages/db/src/repositories/ingest.ts, with the
-- payloads opened.
use ai.Common.{
  ℕ, ◌≡◌, refl, sym, ap, ◌∙◌, String, str_eq, eq_iff, Bool, true, false, ◌&&◌, Option, none, some,
  List, [], ◌∷◌, ◌++◌, if◌then◌else◌, any, value_or, &&-split, Bool-cases, inl, inr,
}
use ai.Ingest.{
  RawRecordPayload, EventPayload, Latest, EventRow, RawRow, Archive, Repricing, same_record,
  insert_record, seal_payload, latest_of, has_fingerprint, update_latest, put_event,
}

module _ {A : Type 0} where
  unfoldable pub find : (A → Bool) → List A → Option A
  find p [] = none
  find p (x ∷ xs) = if p x then some x else find p xs

  abbrev pub or_else : Option A → Option A → Option A
  or_else none b = b
  or_else (some a) b = some a

  abbrev pub is_some : Option A → Bool
  is_some none = false
  is_some (some a) = true

  pub find-append :
      (q : A → Bool) (xs : List A) (x : A)
      → find q (xs ++ x ∷ []) ≡ or_else (find q xs) (if q x then some x else none)
  unfolding find
  find-append q [] x = refl
  find-append q (y ∷ xs) x = elim (Bool-cases (q y)) [
    | inl e ↦ rw e
    | inr e ↦ rw e (find-append q xs x)
  ]

  pub any-find : (q : A → Bool) (xs : List A) → any q xs ≡ is_some (find q xs)
  unfolding find
  any-find q [] = refl
  any-find q (x ∷ xs) = elim (Bool-cases (q x)) [ inl e ↦ rw e | inr e ↦ rw e (any-find q xs) ]

abbrev pub map_some : {A B : Type 0} → (A → B) → Option A → Option B
map_some f none = none
map_some f (some a) = some (f a)

-- An event as it was sent.
abbrev pub plain_latest : Option Repricing → String → EventPayload → Latest String
plain_latest repricing machine_id e = latest_of (λ n p. p) repricing machine_id 0 e

-- The latest upsert of an event wins, but for the columns of its first insertion.
abbrev pub merge :
    Option Repricing → String → String → EventPayload → Option (EventRow String) → EventRow String
merge repricing org_id machine_id e none = record {
  fingerprint = e.fingerprint;
  org_id = org_id;
  origin = e.origin;
  latest = plain_latest repricing machine_id e;
}
merge repricing org_id machine_id e (some r) = record r {
  latest = plain_latest repricing machine_id e;
}

module _ {C : Type 0} (seal : ℕ → String → C) (unseal : C → String)
    (law : (n : ℕ) (p : String) → unseal (seal n p) ≡ p) where
  -- A stored record: its organization, its session and its opened payload.
  abbrev pub view_record : RawRow C → String × String × String
  view_record r = (r.org_id, r.session_id, unseal r.payload)

  abbrev pub seen_record : String → String → String → Archive C → Option (String × String × String)
  seen_record machine_id connector id t =
      map_some view_record (find (same_record seal machine_id connector id) t.records)

  abbrev pub view_latest : Latest C → Latest String
  view_latest l = record {
    parser_version = l.parser_version;
    catalog_version = l.catalog_version;
    machine_id = l.machine_id;
    tokens = l.tokens;
    cost = l.cost;
    payload = map_some unseal l.payload;
  }

  abbrev pub view_event : EventRow C → EventRow String
  view_event r = record {
    fingerprint = r.fingerprint;
    org_id = r.org_id;
    origin = r.origin;
    latest = view_latest r.latest;
  }

  abbrev pub seen_event : String → Archive C → Option (EventRow String)
  seen_event f t = map_some view_event (find (has_fingerprint seal f) t.events)

  view_latest_of :
      (repricing : Option Repricing) (machine_id : String) (n : ℕ) (e : EventPayload)
      → view_latest (latest_of seal repricing machine_id n e) ≡ plain_latest repricing machine_id e
  view_latest_of repricing machine_id n e =
      ap (λ x. record (plain_latest repricing machine_id e) { payload = x }) (opened e.payload)
    where
      opened :
          (o : Option String)
          → map_some unseal (seal_payload seal n o) ≡ seal_payload (λ n p. p) 0 o
      opened none = refl
      opened (some p) = ap some (law n p)

  same_key :
      (machine_id m connector c id i : String) (t : Archive C)
      → (str_eq machine_id m && (str_eq connector c && str_eq id i)) ≡ true
      → any (same_record seal machine_id connector id) t.records
        ≡ is_some (find (same_record seal m c i) t.records)
  same_key machine_id m connector c id i t h =
      let parts = &&-split (str_eq machine_id m) _ h in
      let rest = &&-split (str_eq connector c) _ parts.1 in
      ap (λ x. any (same_record seal x connector id) t.records) ((eq_iff machine_id m).0 parts.0)
      ∙ ap (λ x. any (same_record seal m x id) t.records) ((eq_iff connector c).0 rest.0)
      ∙ ap (λ x. any (same_record seal m c x) t.records) ((eq_iff id i).0 rest.1)
      ∙ any-find (same_record seal m c i) t.records

  -- The first insertion of a record stays.
  pub insert_record-seen :
      (org_id machine_id m c i : String) (t : Archive C) (r : RawRecordPayload)
      → seen_record m c i (insert_record seal org_id machine_id t r).0 ≡ (
          if str_eq machine_id m && (str_eq r.source_connector c && str_eq r.source_record_id i)
          then some (value_or (seen_record m c i t) (org_id, r.session_id, r.payload))
          else seen_record m c i t)
  unfolding insert_record
  insert_record-seen org_id machine_id m c i t r =
      elim (Bool-cases
        (any (same_record seal machine_id r.source_connector r.source_record_id) t.records)) [
          | inl e ↦
              rw e
                (elim (Bool-cases (
                  str_eq machine_id m
                  && (str_eq r.source_connector c && str_eq r.source_record_id i))) [
                    | inl h ↦ rw h (
                        found _ (
                          sym (same_key machine_id m r.source_connector c r.source_record_id i t h)
                          ∙ e))
                    | inr h ↦ rw h refl
                  ])
          | inr e ↦
              rw (e, find-append)
                (elim (Bool-cases (
                  str_eq machine_id m
                  && (str_eq r.source_connector c && str_eq r.source_record_id i))) [
                    | inl h ↦ rw h (
                        added _ (
                          sym (same_key machine_id m r.source_connector c r.source_record_id i t h)
                          ∙ e))
                    | inr h ↦ rw h (same _)
                  ])
        ]
    where
      found :
          (o : Option (RawRow C))
          → is_some o ≡ true
          → map_some view_record o
            ≡ some (value_or (map_some view_record o) (org_id, r.session_id, r.payload))
      found none h = cc
      found (some x) h = refl

      new : RawRow C
      new = record {
        org_id = org_id;
        machine_id = machine_id;
        source_connector = r.source_connector;
        session_id = r.session_id;
        source_record_id = r.source_record_id;
        payload = seal t.sealed r.payload;
      }

      added :
          (o : Option (RawRow C))
          → is_some o ≡ false
          → map_some view_record (or_else o (some new))
            ≡ some (value_or (map_some view_record o) (org_id, r.session_id, r.payload))
      added none h = ap (λ x. some (org_id, r.session_id, x)) (law t.sealed r.payload)
      added (some x) h = cc

      same :
          (o : Option (RawRow C)) → map_some view_record (or_else o none) ≡ map_some view_record o
      same none = refl
      same (some x) = refl

  update_latest-seen :
      (f g : String) (l : Latest C) (rows : List (EventRow C))
      → map_some view_event (find (has_fingerprint seal g) (update_latest seal f l rows)) ≡ (
          if str_eq f g
          then map_some
              (λ (r : EventRow String). record r { latest = view_latest l })
              (map_some view_event (find (has_fingerprint seal g) rows))
          else map_some view_event (find (has_fingerprint seal g) rows))
  unfolding find update_latest
  update_latest-seen f g l [] = elim (Bool-cases (str_eq f g)) [ inl h ↦ rw h | inr h ↦ rw h ]
  update_latest-seen f g l (x ∷ rows) = elim (Bool-cases (str_eq x.fingerprint f)) [
    | inl a ↦ elim (Bool-cases (str_eq x.fingerprint g)) [
      | inl b ↦ rw (a, b, ap (λ y. str_eq y g) (sym ((eq_iff x.fingerprint f).0 a)) ∙ b)
      | inr b ↦ rw (a, b) (update_latest-seen f g l rows)
    ]
    | inr a ↦ elim (Bool-cases (str_eq x.fingerprint g)) [
      | inl b ↦ rw (a, b, other ((eq_iff x.fingerprint g).0 b) a)
      | inr b ↦ rw (a, b) (update_latest-seen f g l rows)
    ]
  ]
    where
      other : x.fingerprint ≡ g → str_eq x.fingerprint f ≡ false → str_eq f g ≡ false
      other e a = elim (Bool-cases (str_eq f g)) [
        | inl h ↦ absurd (cc (a, (eq_iff x.fingerprint f).1 (e ∙ sym ((eq_iff f g).0 h))))
        | inr h ↦ h
      ]

  pub put_event-seen :
      (repricing : Option Repricing) (org_id machine_id g : String) (t : Archive C)
      (e : EventPayload)
      → seen_event g (put_event seal repricing org_id machine_id t e) ≡ (
          if str_eq e.fingerprint g
          then some (merge repricing org_id machine_id e (seen_event g t))
          else seen_event g t)
  unfolding put_event
  put_event-seen repricing org_id machine_id g t e =
      elim (Bool-cases (any (has_fingerprint seal e.fingerprint) t.events)) [
        | inl h ↦
            rw
              (
                h,
                update_latest-seen e.fingerprint g (latest_of seal repricing machine_id t.sealed e)
                    t.events,
              )
              (elim (Bool-cases (str_eq e.fingerprint g)) [
                | inl q ↦ rw q (found _ (there q h))
                | inr q ↦ rw q refl
              ])
        | inr h ↦
            rw (h, find-append)
              (elim (Bool-cases (str_eq e.fingerprint g)) [
                | inl q ↦ rw q (added _ (there q h))
                | inr q ↦ rw q (same _)
              ])
      ]
    where
      there :
          {b : Bool}
          → str_eq e.fingerprint g ≡ true
          → any (has_fingerprint seal e.fingerprint) t.events ≡ b
          → is_some (find (has_fingerprint seal g) t.events) ≡ b
      there q h =
          sym (any-find (has_fingerprint seal g) t.events)
          ∙ ap (λ y. any (has_fingerprint seal y) t.events) (sym ((eq_iff e.fingerprint g).0 q))
          ∙ h

      plain :
          view_latest (latest_of seal repricing machine_id t.sealed e)
          ≡ plain_latest repricing machine_id e
      plain = view_latest_of repricing machine_id t.sealed e

      found :
          (o : Option (EventRow C))
          → is_some o ≡ true
          → map_some
              (λ (r : EventRow String). record r {
                latest = view_latest (latest_of seal repricing machine_id t.sealed e);
              })
              (map_some view_event o)
            ≡ some (merge repricing org_id machine_id e (map_some view_event o))
      found none h = cc
      found (some r) h = ap (λ l. some (record (view_event r) { latest = l })) plain

      new : EventRow C
      new = record {
        fingerprint = e.fingerprint;
        org_id = org_id;
        origin = e.origin;
        latest = latest_of seal repricing machine_id t.sealed e;
      }

      added :
          (o : Option (EventRow C))
          → is_some o ≡ false
          → map_some view_event (or_else o (some new))
            ≡ some (merge repricing org_id machine_id e (map_some view_event o))
      added none h = ap (λ l. some (record (view_event new) { latest = l })) plain
      added (some r) h = cc

      same :
          (o : Option (EventRow C)) → map_some view_event (or_else o none) ≡ map_some view_event o
      same none = refl
      same (some r) = refl
