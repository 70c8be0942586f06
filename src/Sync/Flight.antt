-- ===== src/Sync/Flight.antt =====
-- A drain of sync-worker.ts while the other loops of the process enqueue: the rows that are in flight.
use ai.Common.{
  ℕ, ◌+◌, ◌≤◌, ◌≡◌, refl, ap, ◌∙◌, String, Bool, true, false, ◌||◌, ◌&&◌, not, Option, List, [],
  ◌∷◌, arith, count, count-append, any, All, ◌==◌, Bool-cases, Option-cases, inl, inr,
}
use ai.Queue.{
  Item, QueueRow, Store, QueueKind, find_row, update_where, delete_where, flip_all, claim_batch,
  upsert, refresh, fresh_row, ack, release_inflight, backoff, mark_failed, is_inflight, set_status,
  pending, inflight,
}
use ai.Queue.Claim.{claimed}
use ai.Queue.Settle.{row_ids, mark_failed_all}
use ai.Sync.{
  PostResult, Attempt, Enqueued, enqueue_others, is_accepted, is_unauthorized, is_abort_error,
  or_default, group, empty_batch, settled, after_claim_amid, sync_once_amid,
}
use ai.Sync.Delivery.{flying}

count-update_where :
    (p r q : Item → Bool) (f : Item → Item) (items : List Item)
    → ((it : Item) → q it ≡ true → p (f it) ≡ true → r it ≡ true)
    → ((it : Item) → q it ≡ false → p it ≡ true → r it ≡ true)
    → count p (update_where q f items) ≤ count r items
unfolding update_where
count-update_where p r q f [] h k = omega arith
count-update_where p r q f (it ∷ rest) h k = elim (Bool-cases (q it)) [
  | inl e ↦ elim (Bool-cases (p (f it))) [
    | inl a ↦ rw (e, a, h it e a) (omega (arith, count-update_where p r q f rest h k))
    | inr a ↦ rw (e, a) (ground (arith, count-update_where p r q f rest h k))
  ]
  | inr e ↦ elim (Bool-cases (p it)) [
    | inl a ↦ rw (e, a, k it e a) (omega (arith, count-update_where p r q f rest h k))
    | inr a ↦ rw (e, a) (ground (arith, count-update_where p r q f rest h k))
  ]
]

count-delete_where :
    (p r q : Item → Bool) (items : List Item)
    → ((it : Item) → q it ≡ false → p it ≡ true → r it ≡ true)
    → count p (delete_where q items) ≤ count r items
unfolding delete_where
count-delete_where p r q [] k = omega arith
count-delete_where p r q (it ∷ rest) k = elim (Bool-cases (q it)) [
  | inl e ↦ rw e (ground (arith, count-delete_where p r q rest k))
  | inr e ↦ elim (Bool-cases (p it)) [
    | inl a ↦ rw (e, a, k it e a) (omega (arith, count-delete_where p r q rest k))
    | inr a ↦ rw (e, a) (ground (arith, count-delete_where p r q rest k))
  ]
]

-- In flight, and not of the batch.
abbrev is_away : List ℕ → Item → Bool
is_away is it = is_inflight it.status && not (any (λ j. j == it.id) is)

abbrev away : List ℕ → List Item → ℕ
away is = count (is_away is)

upsert-away :
    (is : List ℕ) (kind : QueueKind) (key hash json : String) (s : Store)
    → away is (upsert kind key hash json s).items ≤ away is s.items
unfolding upsert
upsert-away is kind key hash json s = elim (Option-cases (find_row kind key s.items)) [
  | inl e ↦
      rw (e, upsert)
        (omega
          (arith, count-append (is_away is) s.items (fresh_row s.next_id kind key hash json ∷ [])))
  | inr (it, e) ↦
      rw (e, upsert)
        (count-update_where (is_away is) (is_away is) _ (refresh hash json) s.items (λ x a b. cc)
          (λ x a b. b))
]

enqueue_others-away :
    (is : List ℕ) (ws : List Enqueued) (s : Store)
    → away is (enqueue_others ws s).items ≤ away is s.items
unfolding enqueue_others
enqueue_others-away is [] s = omega arith
enqueue_others-away is (w ∷ ws) s = omega (
  arith,
  upsert-away is w.kind w.dedup_key w.content_hash w.payload_json s,
  enqueue_others-away is ws (upsert w.kind w.dedup_key w.content_hash w.payload_json s),
)

away_nil : (items : List Item) → flying items ≤ away [] items
away_nil [] = omega arith
away_nil (it ∷ rest) = ground (arith, away_nil rest)

away-flying : (is : List ℕ) (items : List Item) → away is items ≤ flying items
away-flying is [] = omega arith
away-flying is (it ∷ rest) = ground (arith, away-flying is rest)

-- A row that the statement for `i` left is away from the other ids only if it was from all.
one_more :
    (i : ℕ) (is : List ℕ) (it : Item)
    → (it.id == i) ≡ false
    → is_away is it ≡ true
    → is_away (i ∷ is) it ≡ true
one_more i is it e h = let f : (i == it.id) ≡ false = ground arith in rw f h

ack-away : (is : List ℕ) (s : Store) → flying (ack is s).items ≤ away is s.items
unfolding ack
ack-away [] s = away_nil s.items
ack-away (i ∷ is) s = omega (
  arith,
  ack-away is (record s { items = delete_where (λ it. it.id == i) s.items }),
  count-delete_where (is_away is) (is_away (i ∷ is)) (λ it. it.id == i) s.items (one_more i is),
)

release_inflight-away :
    (is : List ℕ) (s : Store) → flying (release_inflight is s).items ≤ away is s.items
unfolding release_inflight
release_inflight-away [] s = away_nil s.items
release_inflight-away (i ∷ is) s = omega (
  arith,
  release_inflight-away is (record s {
    items = update_where (λ it. (it.id == i) && is_inflight it.status) (set_status pending) s.items;
  }),
  count-update_where (is_away is) (is_away (i ∷ is)) (λ it. (it.id == i) && is_inflight it.status)
      (set_status pending) s.items (λ it a b. cc) left,
)
  where
    left :
        (it : Item)
        → ((it.id == i) && is_inflight it.status) ≡ false
        → is_away is it ≡ true
        → is_away (i ∷ is) it ≡ true
    left it a b = elim (Bool-cases (it.id == i)) [
      | inl e ↦ elim (Bool-cases (is_inflight it.status)) [
        | inl f ↦ let a' = rw (e, f) at a in cc
        | inr f ↦ let b' = rw f at b in cc
      ]
      | inr e ↦ one_more i is it e b
    ]

mark_failed_all-away :
    (clock : ℕ → ℕ) (rows : List QueueRow) (s : Store)
    → flying (mark_failed_all clock rows s).items ≤ away (row_ids rows) s.items
unfolding mark_failed_all mark_failed
mark_failed_all-away clock [] s = away_nil s.items
mark_failed_all-away clock (r ∷ rows) s = omega (
  arith,
  mark_failed_all-away clock rows (mark_failed (clock r.id) r.id r.attempts s),
  count-update_where (is_away (row_ids rows)) (is_away (r.id ∷ row_ids rows)) (λ it. it.id == r.id)
      (λ it. record it {
        status = pending;
        attempts = it.attempts + 1;
        next_attempt_at = clock r.id + backoff r.attempts;
      })
      s.items (λ it a b. cc) (one_more r.id (row_ids rows)),
)

settled-away :
    (a : Attempt) (res : PostResult) (rows : List QueueRow) (t : Store)
    → flying (settled a res rows t).store.items ≤ away (row_ids rows) t.items
settled-away a res rows t = elim (Bool-cases (is_accepted res)) [
  | inl e ↦ rw e (ack-away (row_ids rows) t)
  | inr f ↦ rw f (elim (Bool-cases (is_unauthorized res)) [
    | inl e ↦ rw e (release_inflight-away (row_ids rows) t)
    | inr g ↦ rw g (elim (Bool-cases (is_abort_error res || a.aborted)) [
      | inl e ↦ rw e (release_inflight-away (row_ids rows) t)
      | inr d ↦ rw d (mark_failed_all-away a.clock rows t)
    ])
  ])
]

-- The claim puts only rows of the batch in flight.
flip_all-away :
    (is : List ℕ) (rows : List QueueRow) (items : List Item)
    → All (λ (r : QueueRow). any (λ j. j == r.id) is ≡ true) rows
    → away is (flip_all rows items) ≤ away is items
unfolding flip_all
flip_all-away is [] items h = omega arith
flip_all-away is (r ∷ rows) items h = omega (
  arith,
  flip_all-away is rows (update_where (λ it. it.id == r.id) (set_status inflight) items) h.1,
  count-update_where (is_away is) (is_away is) (λ it. it.id == r.id) (set_status inflight) items
      mine (λ it a b. b),
)
  where
    mine :
        (it : Item)
        → (it.id == r.id) ≡ true
        → is_away is (set_status inflight it) ≡ true
        → is_away is it ≡ true
    mine it a b =
        let e : it.id ≡ r.id = ground arith in
        let own : any (λ j. j == it.id) is ≡ true = ap (λ x. any (λ j. j == x) is) e ∙ h.0 in
        let b' = rw own at b in cc

own_ids :
    (rows : List QueueRow) → All (λ (r : QueueRow). any (λ j. j == r.id) (row_ids rows) ≡ true) rows
own_ids rows = of_tail rows (row_ids rows) (λ x h. h)
  where
    self : (n : ℕ) → (n == n) ≡ true
    self n = ground arith

    or_true : (b : Bool) → (b || true) ≡ true
    or_true true = refl
    or_true false = refl

    of_tail :
        (rs : List QueueRow) (is : List ℕ)
        → ((x : ℕ) → any (λ j. j == x) (row_ids rs) ≡ true → any (λ j. j == x) is ≡ true)
        → All (λ (r : QueueRow). any (λ j. j == r.id) is ≡ true) rs
    of_tail [] is f = tt
    of_tail (r ∷ rs) is f =
        (f r.id (rw (self r.id) refl), of_tail rs is (λ x h. f x (rw h (or_true (r.id == x)))))

-- No row is left in flight by a drain that was not before.
pub sync_once_amid-flying :
    (ws : List Enqueued) (batch_size : Option ℕ) (a : Attempt) (s : Store)
    → flying (sync_once_amid ws batch_size a s).store.items ≤ flying s.items
unfolding sync_once_amid claim_batch
sync_once_amid-flying ws batch_size a s =
    by_claim (claimed a.claim_at (or_default batch_size 500) s.items)
  where
    by_claim :
        (rows : List QueueRow)
        → flying
            (after_claim_amid ws a rows (record s { items = flip_all rows s.items })).store.items
          ≤ flying s.items
    by_claim [] = unfold after_claim_amid flip_all in omega arith
    by_claim (r ∷ rows) =
        unfold after_claim_amid in
        omega (
          arith,
          settled-away a (a.post (group (r ∷ rows) empty_batch)) (r ∷ rows)
              (enqueue_others ws (record s { items = flip_all (r ∷ rows) s.items })),
          enqueue_others-away (row_ids (r ∷ rows)) ws
              (record s { items = flip_all (r ∷ rows) s.items }),
          flip_all-away (row_ids (r ∷ rows)) (r ∷ rows) s.items (own_ids (r ∷ rows)),
          away-flying (row_ids (r ∷ rows)) s.items,
        )

pub enqueue_others-flying :
    (ws : List Enqueued) (s : Store) → flying (enqueue_others ws s).items ≤ flying s.items
enqueue_others-flying ws s = omega (
  arith,
  away_nil (enqueue_others ws s).items,
  enqueue_others-away [] ws s,
  away-flying [] s.items,
)
