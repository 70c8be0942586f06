-- ===== src/Queue/Claim.antt =====
-- `claimBatch` of queue-store.ts, and what the calls that settle a claim do to the claimed rows.
-- The code runs one UPDATE or DELETE per claimed id; `on_claimed` and `unclaimed` describe their
-- effect in one pass over the rows.
use ai.Common.{
  ℕ, zero, suc, ◌≤◌, ◌<◌, ◌≡◌, refl, sym, ap, ◌∙◌, true, false, List, [], ◌∷◌, map, arith, ◌==◌,
  if◌then◌else◌, take, drop, keep, All, All-imp, Bool-cases, inl, inr, length, length-take-le,
  length-map,
}
use ai.Queue.{
  Item, QueueRow, Store, inflight, is_due, to_row, set_status, update_where, flip_all, claim_batch,
}
use ai.Queue.Rows.{ids, update_where_none}
use ai.Queue.Invariant.{Ascending, Ascending-weaken, IsValid}

-- `h` on each of the first `n` due rows.
unfoldable pub on_claimed : ℕ → ℕ → (Item → Item) → List Item → List Item
on_claimed now n h [] = []
on_claimed now zero h (it ∷ rest) = it ∷ rest
on_claimed now (suc n) h (it ∷ rest) =
    if is_due now it then h it ∷ on_claimed now n h rest else it ∷ on_claimed now (suc n) h rest

-- The rows that are not among the first `n` due ones.
unfoldable pub unclaimed : ℕ → ℕ → List Item → List Item
unclaimed now n [] = []
unclaimed now zero (it ∷ rest) = it ∷ rest
unclaimed now (suc n) (it ∷ rest) =
    if is_due now it then unclaimed now n rest else it ∷ unclaimed now (suc n) rest

abbrev pub claimed : ℕ → ℕ → List Item → List QueueRow
claimed now n items = map to_row (take n (keep (is_due now) items))

-- One UPDATE … WHERE id = ? for each claimed row.
unfoldable pub each_row : (QueueRow → Item → Item) → List QueueRow → List Item → List Item
each_row g [] items = items
each_row g (r ∷ rows) items = each_row g rows (update_where (λ it. it.id == r.id) (g r) items)

pub claimed_from :
    (lo now n : ℕ) (items : List Item)
    → Ascending lo (ids items)
    → All (λ (r : QueueRow). lo ≤ r.id) (claimed now n items)
claimed_from lo now zero items a = tt
claimed_from lo now (suc n) [] a = tt
claimed_from lo now (suc n) (it ∷ rest) a =
    let from = Ascending-weaken lo (suc it.id) (ids rest) (omega arith) a.1 in
    elim (Bool-cases (is_due now it)) [
      | inl e ↦ rw e (a.0, claimed_from lo now n rest from)
      | inr e ↦ rw e (claimed_from lo now (suc n) rest from)
    ]

pub others :
    (lo i : ℕ) (items : List Item)
    → i < lo
    → Ascending lo (ids items)
    → All (λ (it : Item). (it.id == i) ≡ false) items
others lo i [] h a = tt
others lo i (it ∷ rest) h a = (ground arith, others (suc it.id) i rest (omega arith) a.1)

pub missed :
    (i : ℕ) (rows : List QueueRow)
    → All (λ (r : QueueRow). suc i ≤ r.id) rows
    → All (λ (r : QueueRow). (i == r.id) ≡ false) rows
missed i rows h = All-imp _ _ rows (λ r p. ground arith) h

module _ (g : QueueRow → Item → Item) where
  each_row-cons :
      (rows : List QueueRow) (it : Item) (rest : List Item)
      → All (λ (r : QueueRow). (it.id == r.id) ≡ false) rows
      → each_row g rows (it ∷ rest) ≡ it ∷ each_row g rows rest
  unfolding each_row update_where
  each_row-cons [] it rest h = refl
  each_row-cons (r ∷ rows) it rest h = rw h.0 (each_row-cons rows it _ h.1)

pub ids-on_claimed :
    (now n : ℕ) (h : Item → Item) (items : List Item)
    → ((it : Item) → (h it).id ≡ it.id)
    → ids (on_claimed now n h items) ≡ ids items
unfolding on_claimed
ids-on_claimed now n h [] k = refl
ids-on_claimed now zero h (it ∷ rest) k = refl
ids-on_claimed now (suc n) h (it ∷ rest) k = elim (Bool-cases (is_due now it)) [
  | inl e ↦ rw e (λ i. k it i ∷ ids-on_claimed now n h rest k i)
  | inr e ↦ rw e (λ i. it.id ∷ ids-on_claimed now (suc n) h rest k i)
]

update_where_head :
    (g : Item → Item) (i : ℕ) (it : Item) (rest : List Item)
    → it.id ≡ i
    → Ascending (suc i) (ids rest)
    → update_where (λ x. x.id == i) g (it ∷ rest) ≡ g it ∷ rest
unfolding update_where
update_where_head g i it rest e a =
    let hit : (it.id == i) ≡ true = ground arith in
    rw hit (ap (g it ∷◌) (update_where_none _ g rest (others (suc i) i rest (omega arith) a)))

-- The updates by id reach the claimed rows and no other.
pub each_row-on_claimed :
    (g : QueueRow → Item → Item) (h : Item → Item) (now n lo : ℕ) (items : List Item)
    → ((it : Item) → (h it).id ≡ it.id)
    → ((r : QueueRow) (it : Item) → (g r it).id ≡ it.id)
    → Ascending lo (ids items)
    → each_row g (claimed now n items) (on_claimed now n h items)
      ≡ on_claimed now n (λ it. g (to_row it) (h it)) items
unfolding each_row on_claimed
each_row-on_claimed g h now zero lo [] k l a = refl
each_row-on_claimed g h now (suc n) lo [] k l a = refl
each_row-on_claimed g h now zero lo (it ∷ rest) k l a = refl
each_row-on_claimed g h now (suc n) lo (it ∷ rest) k l a = elim (Bool-cases (is_due now it)) [
  | inl e ↦ rw e (
      ap (each_row g (claimed now n rest)) (
        update_where_head (g (to_row it)) it.id (h it) (on_claimed now n h rest) (k it)
          (rw (ids-on_claimed now n h rest k) a.1))
      ∙ each_row-cons g (claimed now n rest) (g (to_row it) (h it)) _ (
          rw (l (to_row it) (h it), k it)
            (missed it.id _ (claimed_from (suc it.id) now n rest a.1)))
      ∙ ap (g (to_row it) (h it) ∷◌) (each_row-on_claimed g h now n (suc it.id) rest k l a.1))
  | inr e ↦ rw e (
      each_row-cons g (claimed now (suc n) rest) it _
        (missed it.id _ (claimed_from (suc it.id) now (suc n) rest a.1))
      ∙ ap (it ∷◌) (each_row-on_claimed g h now (suc n) (suc it.id) rest k l a.1))
]

flip_all-each_row :
    (rows : List QueueRow) (items : List Item)
    → flip_all rows items ≡ each_row (λ r. set_status inflight) rows items
unfolding flip_all each_row
flip_all-each_row [] items = refl
flip_all-each_row (r ∷ rows) items = flip_all-each_row rows _

pub on_claimed_id :
    (now n : ℕ) (h : Item → Item) (items : List Item)
    → ((it : Item) → is_due now it ≡ true → h it ≡ it)
    → on_claimed now n h items ≡ items
unfolding on_claimed
on_claimed_id now n h [] k = refl
on_claimed_id now zero h (it ∷ rest) k = refl
on_claimed_id now (suc n) h (it ∷ rest) k = elim (Bool-cases (is_due now it)) [
  | inl e ↦ rw e (λ i. k it e i ∷ on_claimed_id now n h rest k i)
  | inr e ↦ rw e (ap (it ∷◌) (on_claimed_id now (suc n) h rest k))
]

-- Claiming flips the first `limit` due rows to `inflight`, and no other row.
pub claim_batch-items :
    (now limit : ℕ) (s : Store)
    → IsValid s
    → (claim_batch now limit s).0.items ≡ on_claimed now limit (set_status inflight) s.items
unfolding claim_batch
claim_batch-items now limit s v =
    flip_all-each_row (claimed now limit s.items) s.items
    ∙ ap (each_row (λ r. set_status inflight) (claimed now limit s.items))
        (sym (on_claimed_id now limit (λ it. it) s.items (λ it e. refl)))
    ∙ each_row-on_claimed (λ r. set_status inflight) (λ it. it) now limit 0 s.items (λ it. refl)
        (λ r it. refl) v.ascending

keep-on_claimed :
    (now n : ℕ) (items : List Item)
    → keep (is_due now) (on_claimed now n (set_status inflight) items)
      ≡ drop n (keep (is_due now) items)
unfolding on_claimed
keep-on_claimed now zero [] = refl
keep-on_claimed now (suc n) [] = refl
keep-on_claimed now zero (it ∷ rest) = refl
keep-on_claimed now (suc n) (it ∷ rest) = elim (Bool-cases (is_due now it)) [
  | inl e ↦ rw e (keep-on_claimed now n rest)
  | inr e ↦ rw (e, e) (keep-on_claimed now (suc n) rest)
]

-- In a valid store a second claim at the same instant goes on where the first one stopped: it
-- returns the next due rows in the order of their ids, and none that the first claim returned.
pub claim_batch-claim_batch :
    (now n m : ℕ) (s : Store)
    → IsValid s
    → (claim_batch now m (claim_batch now n s).0).1
      ≡ map to_row (take m (drop n (keep (is_due now) s.items)))
unfolding claim_batch
claim_batch-claim_batch now n m s v =
    ap (λ items. map to_row (take m (keep (is_due now) items))) (claim_batch-items now n s v)
    ∙ ap (λ due. map to_row (take m due)) (keep-on_claimed now n s.items)

pub length-claim_batch : (now limit : ℕ) (s : Store) → length (claim_batch now limit s).1 ≤ limit
unfolding claim_batch
length-claim_batch now limit s = omega (
  arith,
  length-map to_row (take limit (keep (is_due now) s.items)),
  length-take-le limit (keep (is_due now) s.items),
)
