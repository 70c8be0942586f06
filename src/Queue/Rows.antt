-- ===== src/Queue/Rows.antt =====
-- What the UPDATE and DELETE statements of queue-store.ts leave of the rows: the ids, the keys, and
-- the rows that a WHERE clause does not select.
use mathlib.Core.Path.{ap₂}
use ai.Common.{
  ℕ, suc, ◌≡◌, ◌↔◌, refl, ap, String, Bool, true, false, ◌&&◌, List, [], ◌∷◌, map, arith, eq_iff,
  ◌==◌, All, length, Bool-cases, inl, inr, &&-split,
}
use ai.Queue.{
  QueueKind, raw, event, Item, update_where, delete_where, kind_eq, same_key, QueueRow, flip_all,
  set_status, inflight,
}

abbrev pub ids : List Item → List ℕ
ids = map (λ it. it.id)

abbrev pub key_of : Item → QueueKind × String
key_of it = (it.kind, it.dedup_key)

abbrev pub keys : List Item → List (QueueKind × String)
keys = map key_of

pub kind_eq_iff : (a b : QueueKind) → (kind_eq a b ≡ true) ↔ (a ≡ b)
kind_eq_iff raw raw = ground arith
kind_eq_iff raw event = ground arith
kind_eq_iff event raw = ground arith
kind_eq_iff event event = ground arith

pub same_key_sound :
    (kind : QueueKind) (key : String) (it : Item)
    → same_key kind key it ≡ true
    → key_of it ≡ (kind, key)
same_key_sound kind key it h =
    let (k, d) = &&-split _ _ h in
    λ i. ((kind_eq_iff it.kind kind).0 k i, (eq_iff it.dedup_key key).0 d i)

pub same_key_complete :
    (kind : QueueKind) (key : String) (it : Item)
    → key_of it ≡ (kind, key)
    → same_key kind key it ≡ true
same_key_complete kind key it h =
    ap₂ (◌&&◌) ((kind_eq_iff it.kind kind).1 (ap (λ x. x.0) h))
      ((eq_iff it.dedup_key key).1 (ap (λ x. x.1) h))

module _ (p : Item → Bool) (f : Item → Item) where
  pub ids-update_where :
      (items : List Item)
      → ((it : Item) → (f it).id ≡ it.id)
      → ids (update_where p f items) ≡ ids items
  unfolding update_where
  ids-update_where [] h = refl
  ids-update_where (it ∷ rest) h = ground (arith, h it, ids-update_where rest h)

  pub keys-update_where :
      (items : List Item)
      → ((it : Item) → key_of (f it) ≡ key_of it)
      → keys (update_where p f items) ≡ keys items
  unfolding update_where
  keys-update_where [] h = refl
  keys-update_where (it ∷ rest) h = ground (arith, h it, keys-update_where rest h)

  pub length-update_where : (items : List Item) → length (update_where p f items) ≡ length items
  unfolding update_where
  length-update_where [] = refl
  length-update_where (it ∷ rest) = ap suc (length-update_where rest)

  -- A WHERE clause that selects nothing changes nothing.
  pub update_where_none :
      (items : List Item) → All (λ it. p it ≡ false) items → update_where p f items ≡ items
  unfolding update_where
  update_where_none [] h = refl
  update_where_none (it ∷ rest) h = rw h.0 (ap (it ∷◌) (update_where_none rest h.1))

  pub All-update_where {κ} :
      (P : Item → Type κ) (items : List Item)
      → ((it : Item) → p it ≡ true → P it → P (f it))
      → All P items
      → All P (update_where p f items)
  unfolding update_where
  All-update_where P [] h a = tt
  All-update_where P (it ∷ rest) h a = elim (Bool-cases (p it)) [
    | inl e ↦ rw e (h it e a.0, All-update_where P rest h a.1)
    | inr e ↦ rw e (a.0, All-update_where P rest h a.1)
  ]

module _ (p : Item → Bool) where
  pub All-delete_where {κ} :
      (P : Item → Type κ) (items : List Item) → All P items → All P (delete_where p items)
  unfolding delete_where
  All-delete_where P [] a = tt
  All-delete_where P (it ∷ rest) a = elim (Bool-cases (p it)) [
    | inl e ↦ rw e (All-delete_where P rest a.1)
    | inr e ↦ rw e (a.0, All-delete_where P rest a.1)
  ]

pub ids-flip_all :
    (rows : List QueueRow) (items : List Item) → ids (flip_all rows items) ≡ ids items
unfolding flip_all
ids-flip_all [] items = refl
ids-flip_all (r ∷ rows) items =
    rw (ids-flip_all rows (update_where (λ it. it.id == r.id) (set_status inflight) items))
      (ids-update_where _ _ items (λ it. refl))

pub keys-flip_all :
    (rows : List QueueRow) (items : List Item) → keys (flip_all rows items) ≡ keys items
unfolding flip_all
keys-flip_all [] items = refl
keys-flip_all (r ∷ rows) items =
    rw (keys-flip_all rows (update_where (λ it. it.id == r.id) (set_status inflight) items))
      (keys-update_where _ _ items (λ it. refl))
