-- ===== src/Sync/Delivery.antt =====
-- The rows of the queue before and after `syncOnce` and `runSyncLoop` of sync-worker.ts.
use ai.Common.{
  ℕ, zero, suc, ◌+◌, ◌≡◌, refl, ap, true, false, ◌||◌, Option, none, some, List, [], ◌∷◌, arith,
  Bool-cases, inl, inr, length, count, &&-split,
}
use ai.Queue.{Item, Store, QueueRow, pending, inflight, Status, is_due, is_pending, is_inflight}
use ai.Queue.Invariant.{IsValid}
use ai.Queue.History.{
  ack-IsValid, release_inflight-IsValid, mark_failed-IsValid, claim_batch-IsValid,
}
use ai.Queue.Claim.{on_claimed, unclaimed, claimed}
use ai.Queue.Settle.{row_ids, mark_failed_all}
use ai.Sync.{
  retry, stop, PostResult, Attempt, Drain, is_accepted, is_unauthorized, is_abort_error, or_default,
  empty_batch, group, settled, after_claim, sync_once,
}
use ai.Sync.Once.{described, batch_rows, answered, failed, sync_once-described}

abbrev pub flying : List Item → ℕ
flying = count (λ it. is_inflight it.status)

due-not_flying : (now : ℕ) (it : Item) → is_due now it ≡ true → is_inflight it.status ≡ false
due-not_flying now it e = by_status it.status (&&-split _ _ e).0
  where
    by_status : (st : Status) → is_pending st ≡ true → is_inflight st ≡ false
    by_status pending h = refl
    by_status inflight h = cc

unclaimed-counts :
    (now n : ℕ) (items : List Item)
    → (length (unclaimed now n items) + length (claimed now n items) ≡ length items)
      × (flying (unclaimed now n items) ≡ flying items)
unfolding unclaimed
unclaimed-counts now zero [] = omega arith
unclaimed-counts now (suc n) [] = omega arith
unclaimed-counts now zero (it ∷ rest) = omega arith
unclaimed-counts now (suc n) (it ∷ rest) = elim (Bool-cases (is_due now it)) [
  | inl e ↦ rw (e, due-not_flying now it e) (omega (arith, unclaimed-counts now n rest))
  | inr e ↦ rw e (omega (arith, unclaimed-counts now (suc n) rest))
]

on_claimed-counts :
    (now n : ℕ) (h : Item → Item) (items : List Item)
    → ((it : Item) → is_inflight (h it).status ≡ false)
    → (length (on_claimed now n h items) ≡ length items)
      × (flying (on_claimed now n h items) ≡ flying items)
unfolding on_claimed
on_claimed-counts now zero h [] k = omega arith
on_claimed-counts now (suc n) h [] k = omega arith
on_claimed-counts now zero h (it ∷ rest) k = omega arith
on_claimed-counts now (suc n) h (it ∷ rest) k = elim (Bool-cases (is_due now it)) [
  | inl e ↦ rw (e, due-not_flying now it e, k it) (omega (arith, on_claimed-counts now n h rest k))
  | inr e ↦ rw e (omega (arith, on_claimed-counts now (suc n) h rest k))
]

abbrev pub delivered_count : Option ℕ → ℕ
delivered_count none = 0
delivered_count (some n) = n

-- Nothing is lost or left in flight by a drain that goes from `s` to `d`.
pub record Keeps (s : Store) (d : Drain) : Type 0 where
  pub rows : length d.store.items + delivered_count d.delivered ≡ length s.items
  pub flight : flying d.store.items ≡ flying s.items

module _ (batch_size : Option ℕ) (a : Attempt) (s : Store) where
  answered-Keeps :
      (res : PostResult)
      → Keeps s (answered batch_size a s res (length (batch_rows batch_size a s)))
  answered-Keeps res = elim (Bool-cases (is_accepted res)) [
    | inl t ↦ rw t (record { rows = c.0; flight = c.1 })
    | inr f ↦ rw f (elim (Bool-cases (is_unauthorized res)) [
      | inl t ↦ rw t same
      | inr g ↦ rw g (elim (Bool-cases (is_abort_error res || a.aborted)) [
        | inl t ↦ rw t same'
        | inr h ↦ rw h (record { rows = omega (arith, o.0); flight = o.1 })
      ])
    ])
  ]
    where
      limit : ℕ
      limit = or_default batch_size 500

      same : Keeps s (record { outcome = stop; store = s; delivered = none; refused = none })
      same = record { rows = omega arith; flight = refl }

      same' : Keeps s (record { outcome = retry; store = s; delivered = none; refused = none })
      same' = record { rows = omega arith; flight = refl }

      c :
          (length (unclaimed a.claim_at limit s.items) + length (claimed a.claim_at limit s.items)
            ≡ length s.items)
          × (flying (unclaimed a.claim_at limit s.items) ≡ flying s.items)
      c = unclaimed-counts a.claim_at limit s.items

      o :
          (length (on_claimed a.claim_at limit (failed batch_size a s) s.items) ≡ length s.items)
          × (flying (on_claimed a.claim_at limit (failed batch_size a s) s.items) ≡ flying s.items)
      o = on_claimed-counts a.claim_at limit _ s.items (λ it. refl)

  described-Keeps :
      (rows : List QueueRow)
      → rows ≡ batch_rows batch_size a s
      → Keeps s (described batch_size a s rows)
  unfolding described
  described-Keeps [] e = record { rows = omega arith; flight = refl }
  described-Keeps (r ∷ rows) e =
      rw (ap length e) (answered-Keeps (a.post (group (r ∷ rows) empty_batch)))

  -- One drain of a valid store loses no row but those it reports as delivered, and leaves as many
  -- rows in flight as there were: none of those that it claimed.
  pub sync_once-Keeps : IsValid s → Keeps s (sync_once batch_size a s)
  sync_once-Keeps v = rw (sync_once-described batch_size a s v) (described-Keeps _ refl)

  mark_failed_all-IsValid :
      (clock : ℕ → ℕ) (rows : List QueueRow) (t : Store)
      → IsValid t
      → IsValid (mark_failed_all clock rows t)
  unfolding mark_failed_all
  mark_failed_all-IsValid clock [] t v = v
  mark_failed_all-IsValid clock (r ∷ rows) t v =
      mark_failed_all-IsValid clock rows _ (mark_failed-IsValid (clock r.id) r.id r.attempts t v)

  pub settled-IsValid :
      (res : PostResult) (rows : List QueueRow) (t : Store)
      → IsValid t
      → IsValid (settled a res rows t).store
  settled-IsValid res rows t v = elim (Bool-cases (is_accepted res)) [
    | inl e ↦ rw e (ack-IsValid (row_ids rows) t v)
    | inr f ↦ rw f (elim (Bool-cases (is_unauthorized res)) [
      | inl e ↦ rw e (release_inflight-IsValid (row_ids rows) t v)
      | inr g ↦ rw g (elim (Bool-cases (is_abort_error res || a.aborted)) [
        | inl e ↦ rw e (release_inflight-IsValid (row_ids rows) t v)
        | inr h ↦ rw h (mark_failed_all-IsValid a.clock rows t v)
      ])
    ])
  ]

  after_claim-IsValid :
      (rows : List QueueRow) (t : Store) → IsValid t → IsValid (after_claim a rows t).store
  unfolding after_claim
  after_claim-IsValid [] t v = v
  after_claim-IsValid (r ∷ rows) t v =
      settled-IsValid (a.post (group (r ∷ rows) empty_batch)) (r ∷ rows) t v

  pub sync_once-IsValid : IsValid s → IsValid (sync_once batch_size a s).store
  unfolding sync_once
  sync_once-IsValid v =
      after_claim-IsValid _ _ (claim_batch-IsValid a.claim_at (or_default batch_size 500) s v)
