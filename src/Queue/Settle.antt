-- ===== src/Queue/Settle.antt =====
-- What the calls that settle a claim leave of the store: `releaseInflight`, `ack`, and `markFailed`
-- once for each claimed row, as sync-worker.ts makes them.
use ai.Common.{
  ℕ, zero, suc, ◌+◌, ◌≡◌, refl, ap, ◌∙◌, Bool, true, false, ◌&&◌, List, [], ◌∷◌, map, arith, ◌==◌,
  if◌then◌else◌, All, Bool-cases, inl, inr, &&-split,
}
use ai.Queue.{
  Item, QueueRow, Store, pending, inflight, Status, is_due, is_pending, is_inflight, set_status,
  update_where, delete_where, claim_batch, ack, release_inflight, mark_failed, backoff,
  recover_inflight,
}
use ai.Queue.Rows.{ids, update_where_none}
use ai.Queue.Invariant.{Ascending, IsValid}
use ai.Queue.Claim.{
  on_claimed, unclaimed, claimed, claimed_from, others, missed, ids-on_claimed, each_row,
  each_row-on_claimed, on_claimed_id, claim_batch-items,
}

abbrev pub row_ids : List QueueRow → List ℕ
row_ids = map (λ r. r.id)

-- `for (const item of items) queue.markFailed(item.id, item.attempts)`; every call reads the clock,
-- so `clock` gives the instant of each row's call, by its id.
unfoldable pub mark_failed_all : (ℕ → ℕ) → List QueueRow → Store → Store
mark_failed_all clock [] s = s
mark_failed_all clock (r ∷ rows) s =
    mark_failed_all clock rows (mark_failed (clock r.id) r.id r.attempts s)

abbrev pub release_row : Item → Item
release_row it = if is_inflight it.status then set_status pending it else it

abbrev pub fail_row : ℕ → ℕ → Item → Item
fail_row now attempts it = record it {
  status = pending;
  attempts = it.attempts + 1;
  next_attempt_at = now + backoff attempts;
}

update_where_and :
    (p q : Item → Bool) (f : Item → Item) (items : List Item)
    → update_where (λ it. p it && q it) f items
      ≡ update_where p (λ it. if q it then f it else it) items
unfolding update_where
update_where_and p q f [] = refl
update_where_and p q f (it ∷ rest) = ground (arith, update_where_and p q f rest)

release_inflight-items :
    (rows : List QueueRow) (s : Store)
    → release_inflight (row_ids rows) s
      ≡ record s { items = each_row (λ r. release_row) rows s.items }
unfolding release_inflight each_row
release_inflight-items [] s = refl
release_inflight-items (r ∷ rows) s =
    release_inflight-items rows _
    ∙ ap (λ items. record s { items = each_row (λ r. release_row) rows items })
        (update_where_and (λ it. it.id == r.id) (λ it. is_inflight it.status) (set_status pending)
          s.items)

mark_failed_all-items :
    (clock : ℕ → ℕ) (rows : List QueueRow) (s : Store)
    → mark_failed_all clock rows s
      ≡ record s { items = each_row (λ r. fail_row (clock r.id) r.attempts) rows s.items }
unfolding mark_failed_all mark_failed each_row
mark_failed_all-items clock [] s = refl
mark_failed_all-items clock (r ∷ rows) s = mark_failed_all-items clock rows _

set_status_self : (it : Item) → is_pending it.status ≡ true → set_status pending it ≡ it
set_status_self it e = λ i. record it { status = same it.status e i }
  where
    same : (st : Status) → is_pending st ≡ true → pending ≡ st
    same pending h = refl
    same inflight h = cc

-- Releasing what was just claimed undoes the claim: the store is exactly what it was.
pub release_inflight-claim_batch :
    (now limit : ℕ) (s : Store)
    → IsValid s
    → release_inflight (row_ids (claim_batch now limit s).1) (claim_batch now limit s).0 ≡ s
unfolding claim_batch
release_inflight-claim_batch now limit s v =
    release_inflight-items (claimed now limit s.items) (claim_batch now limit s).0
    ∙ ap (λ items. record s { items = items })
        (ap (each_row (λ r. release_row) (claimed now limit s.items))
            (claim_batch-items now limit s v)
          ∙ each_row-on_claimed (λ r. release_row) (set_status inflight) now limit 0 s.items
              (λ it. refl) (λ r it. ground arith) v.ascending
          ∙ on_claimed_id now limit _ s.items (λ it due. set_status_self it (&&-split _ _ due).0))

-- Failing what was just claimed backs off each claimed row by its own attempts, and no other row.
pub mark_failed_all-claim_batch :
    (now limit : ℕ) (clock : ℕ → ℕ) (s : Store)
    → IsValid s
    → mark_failed_all clock (claim_batch now limit s).1 (claim_batch now limit s).0 ≡ record s {
      items = on_claimed now limit (λ it. fail_row (clock it.id) it.attempts it) s.items;
    }
unfolding claim_batch
mark_failed_all-claim_batch now limit clock s v =
    mark_failed_all-items clock (claimed now limit s.items) (claim_batch now limit s).0
    ∙ ap (λ items. record s { items = items })
        (ap (each_row (λ r. fail_row (clock r.id) r.attempts) (claimed now limit s.items))
            (claim_batch-items now limit s v)
          ∙ each_row-on_claimed (λ r. fail_row (clock r.id) r.attempts) (set_status inflight) now
              limit 0 s.items (λ it. refl) (λ r it. refl) v.ascending)

-- The loop of `ack` on the rows alone.
delete_ids : List ℕ → List Item → List Item
delete_ids [] items = items
delete_ids (i ∷ is) items = delete_ids is (delete_where (λ it. it.id == i) items)

ack-items : (is : List ℕ) (s : Store) → ack is s ≡ record s { items = delete_ids is s.items }
unfolding ack delete_ids
ack-items [] s = refl
ack-items (i ∷ is) s = ack-items is _

delete_where_none :
    (p : Item → Bool) (items : List Item)
    → All (λ it. p it ≡ false) items
    → delete_where p items ≡ items
unfolding delete_where
delete_where_none p [] h = refl
delete_where_none p (it ∷ rest) h = rw h.0 (ap (it ∷◌) (delete_where_none p rest h.1))

delete_where_head :
    (i : ℕ) (it : Item) (rest : List Item)
    → it.id ≡ i
    → Ascending (suc i) (ids rest)
    → delete_where (λ x. x.id == i) (it ∷ rest) ≡ rest
unfolding delete_where
delete_where_head i it rest e a =
    let hit : (it.id == i) ≡ true = ground arith in
    rw hit (delete_where_none _ rest (others (suc i) i rest (omega arith) a))

delete_ids-cons :
    (rows : List QueueRow) (it : Item) (rest : List Item)
    → All (λ (r : QueueRow). (it.id == r.id) ≡ false) rows
    → delete_ids (row_ids rows) (it ∷ rest) ≡ it ∷ delete_ids (row_ids rows) rest
unfolding delete_ids delete_where
delete_ids-cons [] it rest h = refl
delete_ids-cons (r ∷ rows) it rest h =
    ap (delete_ids (row_ids rows)) (kept h.0) ∙ delete_ids-cons rows it _ h.1
  where
    kept :
        (it.id == r.id) ≡ false
        → delete_where (λ x. x.id == r.id) (it ∷ rest) ≡ it ∷ delete_where (λ x. x.id == r.id) rest
    kept e = rw e

delete_ids-on_claimed :
    (h : Item → Item) (now n lo : ℕ) (items : List Item)
    → ((it : Item) → (h it).id ≡ it.id)
    → Ascending lo (ids items)
    → delete_ids (row_ids (claimed now n items)) (on_claimed now n h items) ≡ unclaimed now n items
unfolding delete_ids on_claimed unclaimed
delete_ids-on_claimed h now zero lo [] k a = refl
delete_ids-on_claimed h now (suc n) lo [] k a = refl
delete_ids-on_claimed h now zero lo (it ∷ rest) k a = refl
delete_ids-on_claimed h now (suc n) lo (it ∷ rest) k a = elim (Bool-cases (is_due now it)) [
  | inl e ↦ rw e (
      ap (delete_ids (row_ids (claimed now n rest))) (
        delete_where_head it.id (h it) (on_claimed now n h rest) (k it)
          (rw (ids-on_claimed now n h rest k) a.1))
      ∙ delete_ids-on_claimed h now n (suc it.id) rest k a.1)
  | inr e ↦ rw e (
      delete_ids-cons (claimed now (suc n) rest) it _
        (missed it.id _ (claimed_from (suc it.id) now (suc n) rest a.1))
      ∙ ap (it ∷◌) (delete_ids-on_claimed h now (suc n) (suc it.id) rest k a.1))
]

-- Acknowledging what was just claimed deletes exactly the claimed rows.
pub ack-claim_batch :
    (now limit : ℕ) (s : Store)
    → IsValid s
    → ack (row_ids (claim_batch now limit s).1) (claim_batch now limit s).0
      ≡ record s { items = unclaimed now limit s.items }
unfolding claim_batch
ack-claim_batch now limit s v =
    ack-items (row_ids (claimed now limit s.items)) (claim_batch now limit s).0
    ∙ ap (λ items. record s { items = items })
        (ap (delete_ids (row_ids (claimed now limit s.items))) (claim_batch-items now limit s v)
          ∙ delete_ids-on_claimed (set_status inflight) now limit 0 s.items (λ it. refl)
              v.ascending)

recover-on_claimed :
    (now n : ℕ) (items : List Item)
    → All (λ it. is_inflight it.status ≡ false) items
    → update_where
        (λ it. is_inflight it.status)
        (set_status pending)
        (on_claimed now n (set_status inflight) items)
      ≡ items
unfolding on_claimed update_where
recover-on_claimed now zero [] h = refl
recover-on_claimed now (suc n) [] h = refl
recover-on_claimed now zero (it ∷ rest) h = rw h.0 (ap (it ∷◌) (update_where_none _ _ rest h.1))
recover-on_claimed now (suc n) (it ∷ rest) h = elim (Bool-cases (is_due now it)) [
  | inl e ↦
      rw e (λ i. set_status_self it (&&-split _ _ e).0 i ∷ recover-on_claimed now n rest h.1 i)
  | inr e ↦ rw e (rw h.0 (ap (it ∷◌) (recover-on_claimed now (suc n) rest h.1)))
]

-- A crash between a claim and its settlement loses nothing: if no row was in flight before the
-- claim, boot recovery restores the store to what it was.
pub recover_inflight-claim_batch :
    (now limit : ℕ) (s : Store)
    → IsValid s
    → All (λ it. is_inflight it.status ≡ false) s.items
    → recover_inflight (claim_batch now limit s).0 ≡ s
unfolding recover_inflight claim_batch
recover_inflight-claim_batch now limit s v h =
    ap (λ items. record s { items = items })
      (ap (update_where (λ it. is_inflight it.status) (set_status pending))
          (claim_batch-items now limit s v)
        ∙ recover-on_claimed now limit s.items h)
