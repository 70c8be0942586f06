-- ===== src/Sync/Amid.antt =====
-- A drain of sync-worker.ts while the other loops of the process enqueue: the rows that it leaves.
use ai.Common.{
  String, ℕ, zero, suc, ◌+◌, ◌<◌, ◌≡◌, refl, sym, ap, ◌∙◌, Bool, true, false, ◌||◌, Option, List,
  [], ◌∷◌, ◌++◌, arith, length, length-append, length-map, any, All, ◌==◌, Bool-cases, Option-cases,
  inl, inr,
}
use ai.Queue.{
  Item, QueueRow, Store, QueueKind, find_row, update_where, delete_where, flip_all, claim_batch,
  is_due, upsert, refresh, fresh_row, ack, release_inflight, mark_failed,
}
use ai.Queue.Rows.{ids, ids-update_where, length-update_where, ids-flip_all}
use ai.Queue.Invariant.{Ascending, Ascending-weaken, IsValid, upsert-IsValid, delete-IsValid}
use ai.Queue.Claim.{claimed, others}
use ai.Queue.Settle.{row_ids, mark_failed_all}
use ai.Queue.History.{claim_batch-IsValid}
use ai.Sync.{
  PostResult, Attempt, Enqueued, enqueue_others, is_accepted, is_unauthorized, is_abort_error,
  or_default, group, empty_batch, settled, after_claim_amid, sync_once_amid,
}
use ai.Sync.Delivery.{delivered_count, settled-IsValid}

-- The id is one of the rows'.
abbrev has_id : List Item → ℕ → Bool
has_id items i = any (λ j. j == i) (ids items)

abbrev Present : List ℕ → List Item → Type 0
Present is items = All (λ i. has_id items i ≡ true) is

-- The rows of `t` and `delivered` others are those of `s` and one for each id that was given since.
abbrev pub Balanced : Store → Store → ℕ → Type 0
Balanced s t delivered = length t.items + delivered + s.next_id ≡ length s.items + t.next_id

has_id-append :
    (items : List Item) (it : Item) (i : ℕ)
    → has_id items i ≡ true
    → has_id (items ++ it ∷ []) i ≡ true
has_id-append [] it i h = cc
has_id-append (x ∷ items) it i h = elim (Bool-cases (x.id == i)) [
  | inl e ↦ rw e refl
  | inr e ↦ rw e (has_id-append items it i (rw e at h))
]

upsert-kept :
    (kind : QueueKind) (key hash json : String) (s : Store)
    → Balanced s (upsert kind key hash json s) 0
      × ((i : ℕ) → has_id s.items i ≡ true → has_id (upsert kind key hash json s).items i ≡ true)
unfolding upsert
upsert-kept kind key hash json s = elim (Option-cases (find_row kind key s.items)) [
  | inl e ↦
      rw (e, upsert)
        (
          omega (arith, length-append s.items (fresh_row s.next_id kind key hash json ∷ [])),
          λ i h. has_id-append s.items (fresh_row s.next_id kind key hash json) i h,
        )
  | inr (it, e) ↦
      rw (e, upsert)
        (
          omega (arith, length-update_where _ (refresh hash json) s.items),
          λ i h.
              ap (any (λ j. j == i)) (ids-update_where _ (refresh hash json) s.items (λ x. refl))
              ∙ h,
        )
]

pub enqueue_others-IsValid :
    (ws : List Enqueued) (s : Store) → IsValid s → IsValid (enqueue_others ws s)
unfolding enqueue_others
enqueue_others-IsValid [] s v = v
enqueue_others-IsValid (w ∷ ws) s v =
    enqueue_others-IsValid ws (upsert w.kind w.dedup_key w.content_hash w.payload_json s)
      (upsert-IsValid w.kind w.dedup_key w.content_hash w.payload_json s v)

pub enqueue_others-Balanced : (ws : List Enqueued) (s : Store) → Balanced s (enqueue_others ws s) 0
unfolding enqueue_others
enqueue_others-Balanced [] s = omega arith
enqueue_others-Balanced (w ∷ ws) s = omega (
  arith,
  (upsert-kept w.kind w.dedup_key w.content_hash w.payload_json s).0,
  enqueue_others-Balanced ws (upsert w.kind w.dedup_key w.content_hash w.payload_json s),
)

enqueue_others-has_id :
    (ws : List Enqueued) (s : Store) (i : ℕ)
    → has_id s.items i ≡ true
    → has_id (enqueue_others ws s).items i ≡ true
unfolding enqueue_others
enqueue_others-has_id [] s i h = h
enqueue_others-has_id (w ∷ ws) s i h =
    enqueue_others-has_id ws (upsert w.kind w.dedup_key w.content_hash w.payload_json s) i
      ((upsert-kept w.kind w.dedup_key w.content_hash w.payload_json s).1 i h)

-- A row with the id goes, and the rows with later ids stay.
delete_none :
    (i : ℕ) (items : List Item)
    → All (λ (it : Item). (it.id == i) ≡ false) items
    → delete_where (λ it. it.id == i) items ≡ items
unfolding delete_where
delete_none i [] h = refl
delete_none i (it ∷ rest) h = rw (h.0) (ap (λ l. it ∷ l) (delete_none i rest h.1))

delete_one :
    (lo i : ℕ) (items : List Item)
    → Ascending lo (ids items)
    → has_id items i ≡ true
    → suc (length (delete_where (λ it. it.id == i) items)) ≡ length items
unfolding delete_where
delete_one lo i [] a h = cc
delete_one lo i (it ∷ rest) a h = elim (Bool-cases (it.id == i)) [
  | inl e ↦
      let gone : delete_where (λ it. it.id == i) rest ≡ rest =
        delete_none i rest (others (suc it.id) i rest (ground arith) a.1) in
      rw e (ap (λ l. suc (length l)) gone)
  | inr e ↦ rw e (ap suc (delete_one (suc it.id) i rest a.1 (rw e at h)))
]

delete_other :
    (i j : ℕ) (items : List Item)
    → i < j
    → has_id items j ≡ true
    → has_id (delete_where (λ it. it.id == i) items) j ≡ true
unfolding delete_where
delete_other i j [] l h = h
delete_other i j (it ∷ rest) l h = elim (Bool-cases (it.id == i)) [
  | inl e ↦
      let f : (it.id == j) ≡ false = ground arith in rw e (delete_other i j rest l (rw f at h))
  | inr e ↦ elim (Bool-cases (it.id == j)) [
    | inl f ↦ rw (e, f) refl
    | inr f ↦ rw (e, f) (delete_other i j rest l (rw f at h))
  ]
]

delete_others :
    (i lo : ℕ) (is : List ℕ) (items : List Item)
    → i < lo
    → Ascending lo is
    → Present is items
    → Present is (delete_where (λ it. it.id == i) items)
delete_others i lo [] items l a h = tt
delete_others i lo (j ∷ is) items l a h = (
  delete_other i j items (omega (arith, l, a.0)) h.0,
  delete_others i (suc j) is items (omega (arith, l, a.0)) a.1 h.1,
)

ack-Balanced :
    (lo : ℕ) (is : List ℕ) (s : Store)
    → IsValid s
    → Ascending lo is
    → Present is s.items
    → (length (ack is s).items + length is ≡ length s.items) × ((ack is s).next_id ≡ s.next_id)
unfolding ack
ack-Balanced lo [] s v a h = (omega arith, refl)
ack-Balanced lo (i ∷ is) s v a h =
    let t : Store = record s { items = delete_where (λ it. it.id == i) s.items } in
    let rest =
      ack-Balanced (suc i) is t (delete-IsValid s _ v) a.1
        (delete_others i (suc i) is s.items (omega arith) a.1 h.1) in
    (omega (arith, rest.0, delete_one 0 i s.items v.ascending h.0), rest.1)

release-Balanced :
    (is : List ℕ) (s : Store)
    → (length (release_inflight is s).items ≡ length s.items)
      × ((release_inflight is s).next_id ≡ s.next_id)
unfolding release_inflight
release-Balanced [] s = (refl, refl)
release-Balanced (i ∷ is) s =
    let rest = release-Balanced is (record s { items = update_where _ _ s.items }) in
    (rest.0 ∙ length-update_where _ _ s.items, rest.1)

mark_failed_all-Balanced :
    (clock : ℕ → ℕ) (rows : List QueueRow) (s : Store)
    → (length (mark_failed_all clock rows s).items ≡ length s.items)
      × ((mark_failed_all clock rows s).next_id ≡ s.next_id)
unfolding mark_failed_all mark_failed
mark_failed_all-Balanced clock [] s = (refl, refl)
mark_failed_all-Balanced clock (r ∷ rows) s =
    let rest = mark_failed_all-Balanced clock rows (mark_failed (clock r.id) r.id r.attempts s) in
    (rest.0 ∙ length-update_where _ _ s.items, rest.1)

settled-Balanced :
    (a : Attempt) (res : PostResult) (rows : List QueueRow) (t : Store)
    → IsValid t
    → Ascending 0 (row_ids rows)
    → Present (row_ids rows) t.items
    → Balanced t (settled a res rows t).store (delivered_count (settled a res rows t).delivered)
settled-Balanced a res rows t v asc h = elim (Bool-cases (is_accepted res)) [
  | inl e ↦
      let k = ack-Balanced 0 (row_ids rows) t v asc h in
      rw e (omega (arith, k.0, k.1, length-map (λ (r : QueueRow). r.id) rows))
  | inr f ↦ rw f (elim (Bool-cases (is_unauthorized res)) [
    | inl e ↦ let k = release-Balanced (row_ids rows) t in rw e (omega (arith, k.0, k.1))
    | inr g ↦ rw g (elim (Bool-cases (is_abort_error res || a.aborted)) [
      | inl e ↦ let k = release-Balanced (row_ids rows) t in rw e (omega (arith, k.0, k.1))
      | inr d ↦ let k = mark_failed_all-Balanced a.clock rows t in rw d (omega (arith, k.0, k.1))
    ])
  ])
]

claimed-Ascending :
    (lo now n : ℕ) (items : List Item)
    → Ascending lo (ids items)
    → Ascending lo (row_ids (claimed now n items)) × Present (row_ids (claimed now n items)) items
claimed-Ascending lo now zero items a = (tt, tt)
claimed-Ascending lo now (suc n) [] a = (tt, tt)
claimed-Ascending lo now (suc n) (it ∷ rest) a = elim (Bool-cases (is_due now it)) [
  | inl e ↦
      let k = claimed-Ascending (suc it.id) now n rest a.1 in
      let self : (it.id == it.id) ≡ true = ground arith in
      rw (e, self) ((a.0, k.0), (refl, further it rest _ k.1))
  | inr e ↦
      let k = claimed-Ascending (suc it.id) now (suc n) rest a.1 in
      rw e (
        Ascending-weaken lo (suc it.id) (row_ids (claimed now (suc n) rest)) (omega arith) k.0,
        further it rest _ k.1,
      )
]
  where
    further :
        (it : Item) (rest : List Item) (is : List ℕ) → Present is rest → Present is (it ∷ rest)
    further it rest [] h = tt
    further it rest (i ∷ is) h = (rw h.0 (or_true (it.id == i)), further it rest is h.1)
      where
        or_true : (b : Bool) → (b || true) ≡ true
        or_true true = refl
        or_true false = refl

length-flip_all :
    (rows : List QueueRow) (items : List Item) → length (flip_all rows items) ≡ length items
length-flip_all rows items =
    sym (length-map (λ (it : Item). it.id) (flip_all rows items))
    ∙ ap length (ids-flip_all rows items)
    ∙ length-map (λ (it : Item). it.id) items

-- The rows that a claim returns are still on the queue when it is settled.
pub sync_once_amid-Balanced :
    (ws : List Enqueued) (batch_size : Option ℕ) (a : Attempt) (s : Store)
    → IsValid s
    → let d = sync_once_amid ws batch_size a s in
      IsValid d.store × Balanced s d.store (delivered_count d.delivered)
unfolding sync_once_amid claim_batch
sync_once_amid-Balanced ws batch_size a s v =
    by_claim (claimed a.claim_at (or_default batch_size 500) s.items)
      (claimed-Ascending 0 a.claim_at (or_default batch_size 500) s.items v.ascending)
      (claim_batch-IsValid a.claim_at (or_default batch_size 500) s v)
  where
    by_claim :
        (rows : List QueueRow)
        → Ascending 0 (row_ids rows) × Present (row_ids rows) s.items
        → IsValid (record s { items = flip_all rows s.items })
        → let d = after_claim_amid ws a rows (record s { items = flip_all rows s.items }) in
          IsValid d.store × Balanced s d.store (delivered_count d.delivered)
    by_claim [] c w =
        (unfold after_claim_amid in w, unfold after_claim_amid flip_all in omega arith)
    by_claim (r ∷ rows) c w =
        unfold after_claim_amid in
        (
          settled-IsValid batch_size a s (a.post (group (r ∷ rows) empty_batch)) (r ∷ rows)
              (enqueue_others ws (record s { items = flip_all (r ∷ rows) s.items }))
              (enqueue_others-IsValid ws _ w),
          omega (
            arith,
            length-flip_all (r ∷ rows) s.items,
            enqueue_others-Balanced ws (record s { items = flip_all (r ∷ rows) s.items }),
            settled-Balanced a (a.post (group (r ∷ rows) empty_batch)) (r ∷ rows)
                (enqueue_others ws (record s { items = flip_all (r ∷ rows) s.items }))
                (enqueue_others-IsValid ws _ w) c.0 (kept (row_ids (r ∷ rows)) c.1),
          ),
        )
      where
        kept :
            (is : List ℕ)
            → Present is s.items
            → Present is
                (enqueue_others ws (record s { items = flip_all (r ∷ rows) s.items })).items
        kept [] h = tt
        kept (i ∷ is) h = (
          enqueue_others-has_id ws (record s { items = flip_all (r ∷ rows) s.items }) i
              (ap (any (λ j. j == i)) (ids-flip_all (r ∷ rows) s.items) ∙ h.0),
          kept is h.1,
        )
