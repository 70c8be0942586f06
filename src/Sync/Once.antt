-- ===== src/Sync/Once.antt =====
-- `syncOnce` of sync-worker.ts against a description that names no ids: what one drain does to the
-- rows, on every branch.
use ai.Common.{
  ℕ, ◌≡◌, refl, sym, ap, ◌∙◌, ◌||◌, Option, none, some, List, [], ◌∷◌, if◌then◌else◌, Bool-cases,
  inl, inr, length,
}
use ai.Queue.{Item, QueueRow, Store, flip_all, claim_batch, ack, release_inflight}
use ai.Queue.Invariant.{IsValid}
use ai.Queue.Claim.{on_claimed, unclaimed, claimed}
use ai.Queue.Settle.{
  row_ids, fail_row, mark_failed_all, ack-claim_batch, release_inflight-claim_batch,
  mark_failed_all-claim_batch,
}
use ai.Sync.{
  ok, retry, stop, PostResult, Attempt, Drain, is_accepted, is_unauthorized, is_abort_error,
  refusal, or_default, empty_batch, group, settled, after_claim, sync_once,
}

module _ (batch_size : Option ℕ) (a : Attempt) (s : Store) where
  abbrev pub claim_limit : ℕ
  claim_limit = or_default batch_size 500

  abbrev pub batch_rows : List QueueRow
  batch_rows = claimed a.claim_at claim_limit s.items

  abbrev pub with_items : List Item → Store
  with_items items = record s { items = items }

  abbrev pub failed : Item → Item
  failed it = fail_row (a.clock it.id) it.attempts it

  abbrev pub answered : PostResult → ℕ → Drain
  answered res n =
      if is_accepted res
      then record {
        outcome = ok;
        store = with_items (unclaimed a.claim_at claim_limit s.items);
        delivered = some n;
        refused = none;
      }
      else if is_unauthorized res
      then record { outcome = stop; store = s; delivered = none; refused = none }
      else if is_abort_error res || a.aborted
      then record { outcome = retry; store = s; delivered = none; refused = none }
      else record {
        outcome = retry;
        store = with_items (on_claimed a.claim_at claim_limit failed s.items);
        delivered = none;
        refused = refusal res;
      }

  -- Nothing is posted where no row is due.
  unfoldable pub described : List QueueRow → Drain
  described [] = record { outcome = ok; store = s; delivered = none; refused = none }
  described (r ∷ rows) = answered (a.post (group (r ∷ rows) empty_batch)) (length (r ∷ rows))

claim_none :
    (now limit : ℕ) (s : Store) → (claim_batch now limit s).1 ≡ [] → (claim_batch now limit s).0 ≡ s
unfolding claim_batch flip_all
claim_none now limit s e = ap (λ rows. record s { items = flip_all rows s.items }) e

module _ (batch_size : Option ℕ) (a : Attempt) (s : Store) (v : IsValid s) where
  abbrev after : Store × List QueueRow
  after = claim_batch a.claim_at (or_default batch_size 500) s

  settled-answered :
      (res : PostResult) (rows : List QueueRow)
      → rows ≡ after.1
      → settled a res rows after.0 ≡ answered batch_size a s res (length rows)
  settled-answered res rows e = elim (Bool-cases (is_accepted res)) [
    | inl t ↦ rw t (λ i. record {
      outcome = ok;
      store = acked i;
      delivered = some (length rows);
      refused = none;
    })
    | inr f ↦ rw f (elim (Bool-cases (is_unauthorized res)) [
      | inl t ↦
          rw t
            (λ i. record { outcome = stop; store = released i; delivered = none; refused = none })
      | inr g ↦ rw g (elim (Bool-cases (is_abort_error res || a.aborted)) [
        | inl t ↦
            rw t (λ i. record {
              outcome = retry;
              store = released i;
              delivered = none;
              refused = none;
            })
        | inr h ↦ rw h (λ i. record {
          outcome = retry;
          store = marked i;
          delivered = none;
          refused = refusal res;
        })
      ])
    ])
  ]
    where
      acked :
          ack (row_ids rows) after.0
          ≡ with_items batch_size a s (unclaimed a.claim_at (or_default batch_size 500) s.items)
      acked =
          ap (λ rs. ack (row_ids rs) after.0) e
          ∙ ack-claim_batch a.claim_at (or_default batch_size 500) s v

      released : release_inflight (row_ids rows) after.0 ≡ s
      released =
          ap (λ rs. release_inflight (row_ids rs) after.0) e
          ∙ release_inflight-claim_batch a.claim_at (or_default batch_size 500) s v

      marked :
          mark_failed_all a.clock rows after.0
          ≡ with_items batch_size a s
              (on_claimed a.claim_at (or_default batch_size 500) (failed batch_size a s) s.items)
      marked =
          ap (λ rs. mark_failed_all a.clock rs after.0) e
          ∙ mark_failed_all-claim_batch a.claim_at (or_default batch_size 500) a.clock s v

  after_claim-described :
      (rows : List QueueRow)
      → rows ≡ after.1
      → after_claim a rows after.0 ≡ described batch_size a s rows
  unfolding after_claim described
  after_claim-described [] e = λ i. record {
    outcome = ok;
    store = claim_none a.claim_at (or_default batch_size 500) s (sym e) i;
    delivered = none;
    refused = none;
  }
  after_claim-described (r ∷ rows) e =
      settled-answered (a.post (group (r ∷ rows) empty_batch)) (r ∷ rows) e

-- On a valid store one drain is as described: it deletes the claimed rows if the archive accepts
-- them, leaves the store exactly as it was on a 401 or a cancelled request, and otherwise backs off
-- each claimed row by its own attempts and touches no other.
pub sync_once-described :
    (batch_size : Option ℕ) (a : Attempt) (s : Store)
    → IsValid s
    → sync_once batch_size a s ≡ described batch_size a s (batch_rows batch_size a s)
unfolding sync_once claim_batch
sync_once-described batch_size a s v = after_claim-described batch_size a s v _ refl
