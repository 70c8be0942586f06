-- ===== src/Queue/Enqueue.antt =====
-- `enqueue` of queue-store.ts: the row of its key and the rows of the others, before and after.
use mathlib.Core.Option
use mathlib.Core.Path.{ap₂, subst₂}
use ai.Common.{
  ℕ, ◌≡◌, refl, sym, ap, subst, ◌∙◌, &&-split, String, Bool, true, false, ◌&&◌, not, Option, none,
  some, List, [], ◌∷◌, ◌++◌, eq_refl, eq_iff, str_eq, if◌then◌else◌, All, All-append, Bool-cases,
  Option-cases, inl, inr,
}
use ai.Queue.{
  pending, QueueKind, Item, Store, noop, updated, same_key, kind_eq, find_row, refresh, fresh_row,
  upsert, enqueue_result, enqueue, update_where,
}
use ai.Queue.Rows.{same_key_sound, update_where_none, kind_eq_iff}

abbrev or_else : Option Item → Option Item → Option Item
or_else (some it) o = some it
or_else none o = o

find_row-append :
    (kind : QueueKind) (key : String) (xs ys : List Item)
    → find_row kind key (xs ++ ys) ≡ or_else (find_row kind key xs) (find_row kind key ys)
unfolding find_row
find_row-append kind key [] ys = refl
find_row-append kind key (x ∷ xs) ys = elim (Bool-cases (same_key kind key x)) [
  | inl e ↦ rw e
  | inr e ↦ rw e (find_row-append kind key xs ys)
]

abbrev stale : QueueKind → String → String → Item → Bool
stale kind key hash it = same_key kind key it && not (str_eq it.content_hash hash)

-- The row that `enqueue` leaves for its key, by the row that stood there before.
unfoldable pub written : ℕ → QueueKind → String → String → String → Option Item → Item
written id kind key hash json none = record {
  id = id;
  kind = kind;
  dedup_key = key;
  content_hash = hash;
  payload_json = json;
  status = pending;
  attempts = 0;
  next_attempt_at = 0;
}
written id kind key hash json (some it) = if str_eq it.content_hash hash then it else record it {
  content_hash = hash;
  payload_json = json;
  status = pending;
  attempts = 0;
  next_attempt_at = 0;
}

abbrev touched : QueueKind → String → String → String → Item → Item
touched kind key hash json it = if stale kind key hash it then refresh hash json it else it

find_row-refresh :
    (kind k : QueueKind) (key d hash json : String) (items : List Item)
    → find_row k d (update_where (stale kind key hash) (refresh hash json) items)
      ≡ Option.map (touched kind key hash json) (find_row k d items)
unfolding find_row update_where
find_row-refresh kind k key d hash json [] = refl
find_row-refresh kind k key d hash json (it ∷ rest) =
    ap (λ b. if b then some (touched kind key hash json it) else tail) same
    ∙ elim (Bool-cases (same_key k d it)) [
      | inl e ↦ rw e
      | inr e ↦ rw e (find_row-refresh kind k key d hash json rest)
    ]
  where
    tail : Option Item
    tail = find_row k d (update_where (stale kind key hash) (refresh hash json) rest)

    same : same_key k d (touched kind key hash json it) ≡ same_key k d it
    same = elim (Bool-cases (stale kind key hash it)) [ inl e ↦ rw e | inr e ↦ rw e ]

find_row-same_key :
    (kind : QueueKind) (key : String) (items : List Item) (it : Item)
    → find_row kind key items ≡ some it
    → same_key kind key it ≡ true
unfolding find_row
find_row-same_key kind key [] it h = cc
find_row-same_key kind key (x ∷ rest) it h = elim (Bool-cases (same_key kind key x)) [
  | inl e ↦
      let found : some x ≡ some it = rw e at h in
      let same : x ≡ it = cc in subst (λ y. same_key kind key y ≡ true) same e
  | inr e ↦ find_row-same_key kind key rest it (rw e at h)
]

abbrev is_key : QueueKind → String → QueueKind → String → Bool
is_key kind key k d = kind_eq kind k && str_eq key d

is_key_sound :
    (kind k : QueueKind) (key d : String) → is_key kind key k d ≡ true → (kind ≡ k) × (key ≡ d)
is_key_sound kind k key d h =
    let (a, b) = &&-split _ _ h in ((kind_eq_iff kind k).0 a, (eq_iff key d).0 b)

-- A row found under another key is not touched.
untouched :
    (kind k : QueueKind) (key d hash json : String) (items : List Item) (o : Option Item)
    → is_key kind key k d ≡ false
    → find_row k d items ≡ o
    → Option.map (touched kind key hash json) o ≡ o
untouched kind k key d hash json items none n e = refl
untouched kind k key d hash json items (some it) n e = elim (Bool-cases (same_key kind key it)) [
  | inl hit ↦ absurd (cc (other hit, n))
  | inr miss ↦ rw miss
]
  where
    other : same_key kind key it ≡ true → is_key kind key k d ≡ true
    other hit =
        let a = same_key_sound kind key it hit in
        let b = same_key_sound k d it (find_row-same_key k d items it e) in
        let p = sym a ∙ b in
        ap₂ (◌&&◌) ((kind_eq_iff kind k).1 (ap (λ x. x.0) p)) ((eq_iff key d).1 (ap (λ x. x.1) p))

or_else-none : (o : Option Item) → or_else o none ≡ o
or_else-none none = refl
or_else-none (some it) = refl

upsert_none :
    (kind k : QueueKind) (key d hash json : String) (s : Store)
    → find_row kind key s.items ≡ none
    → find_row k d (s.items ++ fresh_row s.next_id kind key hash json ∷ []) ≡ (
        if is_key kind key k d
        then some (fresh_row s.next_id kind key hash json)
        else find_row k d s.items)
unfolding find_row
upsert_none kind k key d hash json s e =
    find_row-append k d s.items _ ∙ elim (Bool-cases (is_key kind key k d)) [
      | inl hit ↦
          let (a, b) = is_key_sound kind k key d hit in
          rw (hit, subst₂ (λ x y. find_row x y s.items ≡ none) a b e)
      | inr miss ↦ rw miss (or_else-none _)
    ]

upsert_some :
    (kind k : QueueKind) (key d hash json : String) (s : Store) (it : Item)
    → find_row kind key s.items ≡ some it
    → find_row k d (update_where (stale kind key hash) (refresh hash json) s.items) ≡ (
        if is_key kind key k d
        then some (if str_eq it.content_hash hash then it else refresh hash json it)
        else find_row k d s.items)
upsert_some kind k key d hash json s it e =
    find_row-refresh kind k key d hash json s.items ∙ elim (Bool-cases (is_key kind key k d)) [
      | inl hit ↦
          let (a, b) = is_key_sound kind k key d hit in
          rw
            (
              hit,
              subst₂ (λ x y. find_row x y s.items ≡ some it) a b e,
              find_row-same_key kind key s.items it e,
            )
            (elim (Bool-cases (str_eq it.content_hash hash)) [ inl t ↦ rw t | inr f ↦ rw f ])
      | inr miss ↦ rw miss (untouched kind k key d hash json s.items _ miss refl)
    ]

-- After `enqueue` the row of the key is the new one, or the old one if its content hash is that of
-- the payload, or else the old one with the payload, pending at once and with no attempts; the row
-- of any other key is as it was.
pub find_row-enqueue :
    (sha256 : String → String) (kind k : QueueKind) (key d json : String) (s : Store)
    → find_row k d (enqueue sha256 kind key json s).0.items ≡ (
        if kind_eq kind k && str_eq key d
        then some (written s.next_id kind key (sha256 json) json (find_row kind key s.items))
        else find_row k d s.items)
unfolding enqueue written
find_row-enqueue sha256 kind k key d json s = elim (Option-cases (find_row kind key s.items)) [
  | inl e ↦ rw (e, upsert, written) (upsert_none kind k key d (sha256 json) json s e)
  | inr (it, e) ↦ rw (e, upsert, written) (upsert_some kind k key d (sha256 json) json s it e)
]

not_stale :
    (kind : QueueKind) (key hash json : String) (items : List Item)
    → All
        (λ it. stale kind key hash it ≡ false)
        (update_where (stale kind key hash) (refresh hash json) items)
unfolding update_where
not_stale kind key hash json [] = tt
not_stale kind key hash json (it ∷ rest) = elim (Bool-cases (stale kind key hash it)) [
  | inl e ↦ rw e (clean (same_key kind key it), not_stale kind key hash json rest)
  | inr e ↦ rw e (e, not_stale kind key hash json rest)
]
  where
    clean : (b : Bool) → (b && not (str_eq hash hash)) ≡ false
    clean true = rw (eq_refl hash)
    clean false = refl

stale_of_none :
    (kind : QueueKind) (key hash : String) (items : List Item)
    → find_row kind key items ≡ none
    → All (λ it. stale kind key hash it ≡ false) items
unfolding find_row
stale_of_none kind key hash [] h = tt
stale_of_none kind key hash (it ∷ rest) h = elim (Bool-cases (same_key kind key it)) [
  | inl e ↦ absurd (cc (rw e at h))
  | inr e ↦ (rw e, stale_of_none kind key hash rest (rw e at h))
]

upsert-not_stale :
    (kind : QueueKind) (key hash json : String) (s : Store)
    → All (λ it. stale kind key hash it ≡ false) (upsert kind key hash json s).items
unfolding upsert
upsert-not_stale kind key hash json s = elim (Option-cases (find_row kind key s.items)) [
  | inl e ↦
      rw (e, upsert)
        (All-append _ s.items _ (stale_of_none kind key hash s.items e)
          (clean (same_key kind key (fresh_row s.next_id kind key hash json)), tt))
  | inr (it, e) ↦ rw (e, upsert) (not_stale kind key hash json s.items)
]
  where
    clean : (b : Bool) → (b && not (str_eq hash hash)) ≡ false
    clean true = rw (eq_refl hash)
    clean false = refl

written-content_hash :
    (id : ℕ) (kind : QueueKind) (key hash json : String) (o : Option Item)
    → str_eq (written id kind key hash json o).content_hash hash ≡ true
unfolding written
written-content_hash id kind key hash json none = eq_refl hash
written-content_hash id kind key hash json (some it) =
    elim (Bool-cases (str_eq it.content_hash hash)) [ inl e ↦ rw e e | inr e ↦ rw e (eq_refl hash) ]

upsert_found :
    (kind : QueueKind) (key hash json : String) (s : Store) (it : Item)
    → find_row kind key s.items ≡ some it
    → All (λ x. stale kind key hash x ≡ false) s.items
    → upsert kind key hash json s ≡ s
unfolding upsert
upsert_found kind key hash json s it e clean =
    rw (e, upsert) (ap (λ items. record s { items = items }) (update_where_none _ _ s.items clean))

-- Enqueueing the same payload under the same key a second time changes nothing, and says so.
pub enqueue_twice :
    (sha256 : String → String) (kind : QueueKind) (key json : String) (s : Store)
    → enqueue sha256 kind key json (enqueue sha256 kind key json s).0
      ≡ ((enqueue sha256 kind key json s).0, noop)
unfolding enqueue enqueue_result
enqueue_twice sha256 kind key json s = λ i. (same_store i, same_result i)
  where
    hash : String
    hash = sha256 json

    s1 : Store
    s1 = upsert kind key hash json s

    row : Item
    row = written s.next_id kind key hash json (find_row kind key s.items)

    self : is_key kind key kind key ≡ true
    self = ap₂ (◌&&◌) ((kind_eq_iff kind kind).1 refl) (eq_refl key)

    found : find_row kind key s1.items ≡ some row
    found =
        find_row-enqueue sha256 kind kind key key json s
        ∙ ap (λ b. if b then some row else find_row kind key s.items) self

    same_store : upsert kind key hash json s1 ≡ s1
    same_store =
        upsert_found kind key hash json s1 row found (upsert-not_stale kind key hash json s)

    same_result : enqueue_result (find_row kind key s1.items) hash ≡ noop
    same_result =
        ap (λ o. enqueue_result o hash) found
        ∙ ap (λ b. if b then noop else updated)
            (written-content_hash s.next_id kind key hash json (find_row kind key s.items))
