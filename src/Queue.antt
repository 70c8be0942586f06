-- ===== src/Queue.antt =====
-- apps/collector/src/queue/queue-store.ts: the collector's durable outbound queue.
-- A SQL statement is a function on the list of rows: an UPDATE with a WHERE clause is
-- `update_where`, a DELETE is `delete_where`. The rows of `queue_items` stand in the order of their
-- ids, since AUTOINCREMENT gives every new row a larger id than any before it (the gaps that SQLite
-- may leave are not modelled). An instant is its milliseconds since EPOCH: the store writes
-- fixed-width ISO strings, whose order is that of the instants. A payload is its JSON text.
pub mod Rows
pub mod Invariant
pub mod History
pub mod Enqueue
pub mod Claim
pub mod Settle
pub mod Backoff
pub mod Memory
pub mod Errors
pub mod Poll
pub mod Tests
use Prim.Native.Nat.{min}
use ai.Common.{
  ℕ, suc, ◌+◌, ◌*◌, ◌^◌, String, Bool, true, false, ◌&&◌, not, Option, none, some, List, [], ◌∷◌,
  ◌++◌, map, leb, ◌==◌, str_eq, if◌then◌else◌, take, keep, count,
}

pub data QueueKind : Type 0 where
  raw event : QueueKind

pub data Status : Type 0 where
  pending inflight : Status

pub data EnqueueResult : Type 0 where
  inserted updated noop : EnqueueResult

-- A row of `queue_items`.
pub record Item : Type 0 where
  pub id : ℕ
  pub kind : QueueKind
  pub dedup_key : String
  pub content_hash : String
  pub payload_json : String
  pub status : Status
  pub attempts : ℕ
  pub next_attempt_at : ℕ

-- A claimed row, as `claimBatch` selects it.
pub record QueueRow : Type 0 where
  pub id : ℕ
  pub kind : QueueKind
  pub dedup_key : String
  pub payload_json : String
  pub attempts : ℕ

pub record QueueStats : Type 0 where
  pub pending : ℕ
  pub inflight : ℕ

-- A row of `file_cursors`, without its key.
pub record FileCursor : Type 0 where
  pub byte_offset : ℕ
  pub size : ℕ
  pub updated_at : ℕ

-- A row of `connector_errors`; the message is its UTF-16 code units.
pub record ConnectorErrorRecord : Type 0 where
  pub message : List ℕ
  pub at : ℕ
  pub errors : ℕ

-- A row of `poll_state`, without its key.
pub record PollRow : Type 0 where
  pub content_hash : String
  pub updated_at : ℕ

pub record Store : Type 0 where
  pub items : List Item
  pub next_id : ℕ
  pub file_cursors : List ((String × String) × FileCursor)
  pub poll_state : List ((String × String) × PollRow)
  pub connector_errors : List (String × ConnectorErrorRecord)

abbrev pub epoch : ℕ
epoch = 0

abbrev pub backoff_cap_ms : ℕ
backoff_cap_ms = 30_000

abbrev pub backoff_base_ms : ℕ
backoff_base_ms = 1000

-- The tables as the constructor creates them.
unfoldable pub fresh : Store
fresh = record {
  items = [];
  next_id = 1;
  file_cursors = [];
  poll_state = [];
  connector_errors = [];
}

unfoldable pub update_where : (Item → Bool) → (Item → Item) → List Item → List Item
update_where p f [] = []
update_where p f (it ∷ rest) = (if p it then f it else it) ∷ update_where p f rest

unfoldable pub delete_where : (Item → Bool) → List Item → List Item
delete_where p [] = []
delete_where p (it ∷ rest) = if p it then delete_where p rest else it ∷ delete_where p rest

abbrev pub kind_eq : QueueKind → QueueKind → Bool
kind_eq raw raw = true
kind_eq raw event = false
kind_eq event raw = false
kind_eq event event = true

abbrev pub is_pending : Status → Bool
is_pending pending = true
is_pending inflight = false

abbrev pub is_inflight : Status → Bool
is_inflight pending = false
is_inflight inflight = true

-- The UNIQUE(kind, dedup_key) constraint's comparison.
abbrev pub same_key : QueueKind → String → Item → Bool
same_key kind key it = kind_eq it.kind kind && str_eq it.dedup_key key

unfoldable pub find_row : QueueKind → String → List Item → Option Item
find_row kind key [] = none
find_row kind key (it ∷ rest) = if same_key kind key it then some it else find_row kind key rest

-- The DO UPDATE of `enqueue`.
abbrev pub refresh : String → String → Item → Item
refresh hash json it = record it {
  content_hash = hash;
  payload_json = json;
  status = pending;
  attempts = 0;
  next_attempt_at = epoch;
}

abbrev pub fresh_row : ℕ → QueueKind → String → String → String → Item
fresh_row id kind key hash json = record {
  id = id;
  kind = kind;
  dedup_key = key;
  content_hash = hash;
  payload_json = json;
  status = pending;
  attempts = 0;
  next_attempt_at = epoch;
}

-- INSERT … ON CONFLICT(kind, dedup_key) DO UPDATE … WHERE content_hash <> excluded.content_hash.
unfoldable pub upsert : QueueKind → String → String → String → Store → Store
upsert kind key hash json s = elim (find_row kind key s.items) [
  | none ↦ record s {
    items = s.items ++ fresh_row s.next_id kind key hash json ∷ [];
    next_id = suc s.next_id;
  }
  | some _ ↦ record s {
    items =
        update_where (λ it. same_key kind key it && not (str_eq it.content_hash hash))
          (refresh hash json) s.items;
  }
]

unfoldable pub enqueue_result : Option Item → String → EnqueueResult
enqueue_result none hash = inserted
enqueue_result (some prev) hash = if str_eq prev.content_hash hash then noop else updated

-- `enqueue`, with the SHA-256 digest of node:crypto as a parameter.
unfoldable pub enqueue :
    (String → String) → QueueKind → String → String → Store → Store × EnqueueResult
unfolding upsert enqueue_result
enqueue sha256 kind key json s =
    (upsert kind key (sha256 json) json s, enqueue_result (find_row kind key s.items) (sha256 json))

-- WHERE status = 'pending' AND next_attempt_at <= now.
abbrev pub is_due : ℕ → Item → Bool
is_due now it = is_pending it.status && leb it.next_attempt_at now

abbrev pub to_row : Item → QueueRow
to_row it = record {
  id = it.id;
  kind = it.kind;
  dedup_key = it.dedup_key;
  payload_json = it.payload_json;
  attempts = it.attempts;
}

abbrev pub set_status : Status → Item → Item
set_status st it = record it { status = st }

-- The loop `for (const r of rows) flip.run(r.id)`.
unfoldable pub flip_all : List QueueRow → List Item → List Item
flip_all [] items = items
flip_all (r ∷ rows) items =
    flip_all rows (update_where (λ it. it.id == r.id) (set_status inflight) items)

unfoldable pub claim_batch : ℕ → ℕ → Store → Store × List QueueRow
claim_batch now limit s =
    let rows = map to_row (take limit (keep (is_due now) s.items)) in
    (record s { items = flip_all rows s.items }, rows)

unfoldable pub ack : List ℕ → Store → Store
ack [] s = s
ack (id ∷ ids) s = ack ids (record s { items = delete_where (λ it. it.id == id) s.items })

unfoldable pub backoff : ℕ → ℕ
backoff attempts = min backoff_cap_ms (backoff_base_ms * 2 ^ attempts)

unfoldable pub mark_failed : ℕ → ℕ → ℕ → Store → Store
mark_failed now id attempts s = record s {
  items =
      update_where (λ it. it.id == id)
        (λ it. record it {
          status = pending;
          attempts = it.attempts + 1;
          next_attempt_at = now + backoff attempts;
        })
        s.items;
}

unfoldable pub release_inflight : List ℕ → Store → Store
release_inflight [] s = s
release_inflight (id ∷ ids) s = release_inflight ids (record s {
  items = update_where (λ it. (it.id == id) && is_inflight it.status) (set_status pending) s.items;
})

unfoldable pub recover_inflight : Store → Store
recover_inflight s = record s {
  items = update_where (λ it. is_inflight it.status) (set_status pending) s.items;
}

unfoldable pub stats : Store → QueueStats
stats s = record {
  pending = count (λ it. is_pending it.status) s.items;
  inflight = count (λ it. is_inflight it.status) s.items;
}
