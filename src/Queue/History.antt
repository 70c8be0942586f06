-- ===== src/Queue/History.antt =====
-- Histories of calls on the queue, and what holds after every one of them.
use ai.Common.{ℕ, refl, String, List, [], ◌∷◌}
use ai.Queue.{
  QueueKind, Store, fresh, enqueue, claim_batch, ack, mark_failed, release_inflight,
  recover_inflight,
}
use ai.Queue.Memory.{save_cursor, poll_commit, record_connector_error, clear_connector_error}
use ai.Queue.Rows.{ids-flip_all, keys-flip_all}
use ai.Queue.Invariant.{
  IsValid, IsValid-of_rows, IsValid-update, upsert-IsValid, delete-IsValid, fresh-IsValid,
}

-- One call of the store that changes it, with its arguments and the instant its clock gives.
pub data Call : Type 0 where
  enqueues : QueueKind → (dedup_key json : String) → Call
  claims : (now limit : ℕ) → Call
  acks : List ℕ → Call
  fails : (now id attempts : ℕ) → Call
  releases : List ℕ → Call
  recovers : Call
  saves : (now : ℕ) (connector path : String) (byte_offset size : ℕ) → Call
  commits : (now : ℕ) (connector key content : String) → Call
  errs : (connector : String) (message : List ℕ) (at : ℕ) → Call
  clears : (connector : String) → Call

module _ (sha256 : String → String) where
  unfoldable pub step : Store → Call → Store
  step s (enqueues kind key json) = (enqueue sha256 kind key json s).0
  step s (claims now limit) = (claim_batch now limit s).0
  step s (acks is) = ack is s
  step s (fails now id attempts) = mark_failed now id attempts s
  step s (releases is) = release_inflight is s
  step s recovers = recover_inflight s
  step s (saves now connector path byte_offset size) =
      save_cursor now connector path byte_offset size s
  step s (commits now connector key content) = poll_commit sha256 now connector key content s
  step s (errs connector message at) = record_connector_error connector message at s
  step s (clears connector) = clear_connector_error connector s

  unfoldable pub run : Store → List Call → Store
  run s [] = s
  run s (c ∷ cs) = run (step s c) cs

pub claim_batch-IsValid :
    (now limit : ℕ) (s : Store) → IsValid s → IsValid (claim_batch now limit s).0
unfolding claim_batch
claim_batch-IsValid now limit s v =
    IsValid-of_rows s _ (ids-flip_all _ s.items) (keys-flip_all _ s.items) v

pub ack-IsValid : (is : List ℕ) (s : Store) → IsValid s → IsValid (ack is s)
unfolding ack
ack-IsValid [] s v = v
ack-IsValid (i ∷ is) s v = ack-IsValid is _ (delete-IsValid s _ v)

pub mark_failed-IsValid :
    (now id attempts : ℕ) (s : Store) → IsValid s → IsValid (mark_failed now id attempts s)
unfolding mark_failed
mark_failed-IsValid now id attempts s v = IsValid-update s _ _ (λ it. refl) (λ it. refl) v

pub release_inflight-IsValid :
    (is : List ℕ) (s : Store) → IsValid s → IsValid (release_inflight is s)
unfolding release_inflight
release_inflight-IsValid [] s v = v
release_inflight-IsValid (i ∷ is) s v =
    release_inflight-IsValid is _ (IsValid-update s _ _ (λ it. refl) (λ it. refl) v)

module _ (sha256 : String → String) where
  pub step-IsValid : (s : Store) (c : Call) → IsValid s → IsValid (step sha256 s c)
  unfolding step enqueue recover_inflight save_cursor poll_commit record_connector_error
      clear_connector_error
  step-IsValid s (enqueues kind key json) v = upsert-IsValid kind key (sha256 json) json s v
  step-IsValid s (claims now limit) v = claim_batch-IsValid now limit s v
  step-IsValid s (acks is) v = ack-IsValid is s v
  step-IsValid s (fails now id attempts) v = mark_failed-IsValid now id attempts s v
  step-IsValid s (releases is) v = release_inflight-IsValid is s v
  step-IsValid s recovers v = IsValid-update s _ _ (λ it. refl) (λ it. refl) v
  step-IsValid s (saves now connector path byte_offset size) v = record {
    ascending = v.ascending;
    below = v.below;
    unique = v.unique;
  }
  step-IsValid s (commits now connector key content) v = record {
    ascending = v.ascending;
    below = v.below;
    unique = v.unique;
  }
  step-IsValid s (errs connector message at) v = record {
    ascending = v.ascending;
    below = v.below;
    unique = v.unique;
  }
  step-IsValid s (clears connector) v = record {
    ascending = v.ascending;
    below = v.below;
    unique = v.unique;
  }

  run-IsValid : (s : Store) (cs : List Call) → IsValid s → IsValid (run sha256 s cs)
  unfolding run
  run-IsValid s [] v = v
  run-IsValid s (c ∷ cs) v = run-IsValid (step sha256 s c) cs (step-IsValid s c v)

  -- Whatever calls are made on a newly created store, its rows have strictly ascending ids below
  -- the next one, and no two rows share a kind and a dedup key.
  pub run-fresh-IsValid : (cs : List Call) → IsValid (run sha256 fresh cs)
  run-fresh-IsValid cs = run-IsValid fresh cs fresh-IsValid
