-- ===== src/Queue/Invariant.antt =====
-- The invariant of the `queue_items` table, and histories of calls.
use ai.Common.{
  ℕ, suc, ◌≤◌, ◌<◌, ◌≡◌, ◌≢◌, refl, sym, ap, String, List, [], ◌∷◌, ◌++◌, map, none, arith, All,
  All-append, All-imp, Bool-cases, Option-cases, inl, inr, Bool,
}
use ai.Queue.{QueueKind, Item, Store, fresh, update_where, delete_where, find_row, same_key, upsert}
use ai.Queue.Rows.{ids, keys, key_of, ids-update_where, keys-update_where, same_key_complete}

-- Strictly ascending, from `lo` on.
abbrev pub Ascending : ℕ → List ℕ → Type 0
Ascending lo [] = Unit {0}
Ascending lo (x ∷ xs) = (lo ≤ x) × Ascending (suc x) xs

-- No key stands twice.
abbrev pub Unique : List (QueueKind × String) → Type 0
Unique [] = Unit {0}
Unique (k ∷ ks) = All (λ j. j ≢ k) ks × Unique ks

pub record IsValid (s : Store) : Type 0 where
  pub ascending : Ascending 0 (ids s.items)
  pub below : All (λ i. i < s.next_id) (ids s.items)
  pub unique : Unique (keys s.items)

pub Ascending-weaken : (lo hi : ℕ) (xs : List ℕ) → lo ≤ hi → Ascending hi xs → Ascending lo xs
Ascending-weaken lo hi [] h a = tt
Ascending-weaken lo hi (x ∷ xs) h a = (omega arith, a.1)

Ascending-snoc :
    (lo n : ℕ) (xs : List ℕ)
    → lo ≤ n
    → Ascending lo xs
    → All (λ i. i < n) xs
    → Ascending lo (xs ++ n ∷ [])
Ascending-snoc lo n [] h a b = (h, tt)
Ascending-snoc lo n (x ∷ xs) h a b = (a.0, Ascending-snoc (suc x) n xs b.0 a.1 b.1)

Unique-snoc :
    (k : QueueKind × String) (ks : List (QueueKind × String))
    → Unique ks
    → All (λ j. j ≢ k) ks
    → Unique (ks ++ k ∷ [])
Unique-snoc k [] u h = (tt, tt)
Unique-snoc k (j ∷ ks) u h =
    (All-append _ ks (k ∷ []) u.0 ((λ e. h.0 (sym e)), tt), Unique-snoc k ks u.1 h.1)

map-snoc :
    {A B : Type 0} (f : A → B) (xs : List A) (a : A) → map f (xs ++ a ∷ []) ≡ map f xs ++ f a ∷ []
map-snoc f [] a = refl
map-snoc f (x ∷ xs) a = ap (f x ∷◌) (map-snoc f xs a)

module _ (p : Item → Bool) where
  ids-delete-Ascending :
      (lo : ℕ) (items : List Item)
      → Ascending lo (ids items)
      → Ascending lo (ids (delete_where p items))
  unfolding delete_where
  ids-delete-Ascending lo [] a = tt
  ids-delete-Ascending lo (it ∷ rest) a = elim (Bool-cases (p it)) [
    | inl e ↦ rw e (
        ids-delete-Ascending lo rest (Ascending-weaken lo (suc it.id) (ids rest) (omega arith) a.1))
    | inr e ↦ rw e (a.0, ids-delete-Ascending (suc it.id) rest a.1)
  ]

  ids-delete-All {κ} :
      (P : ℕ → Type κ) (items : List Item) → All P (ids items) → All P (ids (delete_where p items))
  unfolding delete_where
  ids-delete-All P [] a = tt
  ids-delete-All P (it ∷ rest) a = elim (Bool-cases (p it)) [
    | inl e ↦ rw e (ids-delete-All P rest a.1)
    | inr e ↦ rw e (a.0, ids-delete-All P rest a.1)
  ]

  keys-delete-All {κ} :
      (P : QueueKind × String → Type κ) (items : List Item)
      → All P (keys items)
      → All P (keys (delete_where p items))
  unfolding delete_where
  keys-delete-All P [] a = tt
  keys-delete-All P (it ∷ rest) a = elim (Bool-cases (p it)) [
    | inl e ↦ rw e (keys-delete-All P rest a.1)
    | inr e ↦ rw e (a.0, keys-delete-All P rest a.1)
  ]

  keys-delete-Unique :
      (items : List Item) → Unique (keys items) → Unique (keys (delete_where p items))
  unfolding delete_where
  keys-delete-Unique [] u = tt
  keys-delete-Unique (it ∷ rest) u = elim (Bool-cases (p it)) [
    | inl e ↦ rw e (keys-delete-Unique rest u.1)
    | inr e ↦ rw e (keys-delete-All _ rest u.0, keys-delete-Unique rest u.1)
  ]

-- A key that `find_row` misses is no row's key.
find_row-none :
    (kind : QueueKind) (key : String) (items : List Item)
    → find_row kind key items ≡ none
    → All (λ j. j ≢ (kind, key)) (keys items)
unfolding find_row
find_row-none kind key [] h = tt
find_row-none kind key (it ∷ rest) h = elim (Bool-cases (same_key kind key it)) [
  | inl e ↦ absurd (cc (rw e at h))
  | inr e ↦
      ((λ k. cc (same_key_complete kind key it k, e)), find_row-none kind key rest (rw e at h))
]

-- A store whose rows have the same ids and keys is as valid.
pub IsValid-of_rows :
    (s : Store) (items : List Item)
    → ids items ≡ ids s.items
    → keys items ≡ keys s.items
    → IsValid s
    → IsValid (record s { items = items })
IsValid-of_rows s items e k v = record {
  ascending = rw e v.ascending;
  below = rw e v.below;
  unique = rw k v.unique;
}

pub IsValid-update :
    (s : Store) (p : Item → Bool) (f : Item → Item)
    → ((it : Item) → (f it).id ≡ it.id)
    → ((it : Item) → key_of (f it) ≡ key_of it)
    → IsValid s
    → IsValid (record s { items = update_where p f s.items })
IsValid-update s p f i k v =
    IsValid-of_rows s _ (ids-update_where p f s.items i) (keys-update_where p f s.items k) v

pub upsert-IsValid :
    (kind : QueueKind) (key hash json : String) (s : Store)
    → IsValid s
    → IsValid (upsert kind key hash json s)
unfolding upsert
upsert-IsValid kind key hash json s v = elim (Option-cases (find_row kind key s.items)) [
  | inl e ↦
      rw (e, upsert)
        (record {
          ascending =
              rw (map-snoc (λ (it : Item). it.id) s.items _)
                (Ascending-snoc 0 s.next_id (ids s.items) (omega arith) v.ascending v.below);
          below = rw (map-snoc (λ (it : Item). it.id) s.items _) (
              All-append (λ i. i < suc s.next_id) (ids s.items) _
                (All-imp _ _ (ids s.items) (λ i h. omega arith) v.below) (omega arith, tt));
          unique =
              rw (map-snoc key_of s.items _) (
                Unique-snoc (kind, key) (keys s.items) v.unique (find_row-none kind key s.items e));
        })
  | inr (it, e) ↦ rw (e, upsert) (IsValid-update s _ _ (λ it. refl) (λ it. refl) v)
]

pub delete-IsValid :
    (s : Store) (p : Item → Bool)
    → IsValid s
    → IsValid (record s { items = delete_where p s.items })
delete-IsValid s p v = record {
  ascending = ids-delete-Ascending p 0 s.items v.ascending;
  below = ids-delete-All p (λ i. i < s.next_id) s.items v.below;
  unique = keys-delete-Unique p s.items v.unique;
}

pub fresh-IsValid : IsValid fresh
unfolding fresh
fresh-IsValid = record { ascending = tt; below = tt; unique = (tt) }
