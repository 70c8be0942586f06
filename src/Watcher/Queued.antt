-- ===== src/Watcher/Queued.antt =====
-- The rows of the queue before and after a capture of apps/collector/src/watcher/file-watcher.ts.
use ai.Common.{
  ℕ, ◌≡◌, refl, ap, ◌∙◌, String, Bool, true, false, ◌&&◌, Option, none, some, List, [], ◌∷◌, str_eq,
  eq_refl, if◌then◌else◌, All,
}
use ai.Queue.{QueueKind, raw, event, Store, FileCursor, Item, find_row, kind_eq, enqueue}
use ai.Queue.Memory.{save_cursor, get_cursor, record_connector_error, clear_connector_error}
use ai.Queue.Enqueue.{find_row-enqueue}
use ai.Watcher.{
  Parsed, Connector, FileState, World, enqueue_all, on_change, report, Look, unchanged, grown, look,
  accept, commit, act, capture_read, capture_file, caught, capture_all,
}

abbrev is_row : Option Item → Bool
is_row none = false
is_row (some it) = true

-- A row of the record's kind and key is on the queue.
abbrev pub has_row : Store → Parsed → Bool
has_row s r = is_row (find_row r.kind r.dedup_key s.items)

kind_eq_refl : (k : QueueKind) → kind_eq k k ≡ true
kind_eq_refl raw = refl
kind_eq_refl event = refl

module _ (sha256 : String → String) where
  has_row-enqueue :
      (q r : Parsed) (s : Store)
      → has_row (enqueue sha256 q.kind q.dedup_key q.payload s).0 r
        ≡ (if kind_eq q.kind r.kind && str_eq q.dedup_key r.dedup_key then true else has_row s r)
  has_row-enqueue q r s =
      ap is_row (find_row-enqueue sha256 q.kind r.kind q.dedup_key r.dedup_key q.payload s)
      ∙ by_test (kind_eq q.kind r.kind && str_eq q.dedup_key r.dedup_key) _
    where
      by_test :
          (b : Bool) (x : Item)
          → is_row (if b then some x else find_row r.kind r.dedup_key s.items)
            ≡ (if b then true else has_row s r)
      by_test true x = refl
      by_test false x = refl

  has_row-kept :
      (q r : Parsed) (s : Store)
      → has_row s r ≡ true
      → has_row (enqueue sha256 q.kind q.dedup_key q.payload s).0 r ≡ true
  has_row-kept q r s h =
      has_row-enqueue q r s ∙ by_test (kind_eq q.kind r.kind && str_eq q.dedup_key r.dedup_key)
    where
      by_test : (b : Bool) → (if b then true else has_row s r) ≡ true
      by_test true = refl
      by_test false = h

  has_row-own :
      (r : Parsed) (s : Store) → has_row (enqueue sha256 r.kind r.dedup_key r.payload s).0 r ≡ true
  has_row-own r s =
      has_row-enqueue r r s
      ∙ ap (λ b. if b && str_eq r.dedup_key r.dedup_key then true else has_row s r)
          (kind_eq_refl r.kind)
      ∙ ap (λ b. if b then true else has_row s r) (eq_refl r.dedup_key)

  pub enqueue_all-kept :
      (rs : List Parsed) (r : Parsed) (s : Store)
      → has_row s r ≡ true
      → has_row (enqueue_all sha256 rs s) r ≡ true
  unfolding enqueue_all
  enqueue_all-kept [] r s h = h
  enqueue_all-kept (q ∷ rs) r s h =
      enqueue_all-kept rs r (enqueue sha256 q.kind q.dedup_key q.payload s).0 (has_row-kept q r s h)

  pub enqueue_all-has_row :
      (rs : List Parsed) (s : Store) → All (λ r. has_row (enqueue_all sha256 rs s) r ≡ true) rs
  unfolding enqueue_all
  enqueue_all-has_row [] s = tt
  enqueue_all-has_row (q ∷ rs) s = (
    enqueue_all-kept rs q (enqueue sha256 q.kind q.dedup_key q.payload s).0 (has_row-own q s),
    enqueue_all-has_row rs (enqueue sha256 q.kind q.dedup_key q.payload s).0,
  )

-- The records that a look at a file hands on.
abbrev pub parsed_of : Option (List Parsed) → List Parsed
parsed_of none = []
parsed_of (some rs) = rs

abbrev pub records_of_look : Connector → Look → List Parsed
records_of_look c unchanged = []
records_of_look c (grown text byte_offset size) = parsed_of (c.parse text)

abbrev pub records_of_read : Connector → Option FileState → Option FileCursor → List Parsed
records_of_read c none cursor = []
records_of_read c (some f) cursor = records_of_look c (look c f cursor)

unfoldable pub records_of : World → Connector → String → Option FileCursor → List Parsed
records_of w c path cursor = records_of_read c (w.file path) cursor

module _ (w : World) (c : Connector) (path : String) (s : Store) where
  -- What a capture does to the rows: the old ones stay, and its records have theirs.
  abbrev Queues : Option Store → List Parsed → Type 0
  Queues out rs =
      ((r : Parsed) → has_row s r ≡ true → has_row (caught w c s out) r ≡ true)
      × All (λ r. has_row (caught w c s out) r ≡ true) rs

  parse-Queues :
      (byte_offset size : ℕ) (o : Option (List Parsed))
      → Queues (commit w c path byte_offset size (accept w c o s)) (parsed_of o)
  unfolding clear_connector_error save_cursor report record_connector_error
  parse-Queues byte_offset size none = (λ r h. h, tt)
  parse-Queues byte_offset size (some rs) = (
    λ r h. enqueue_all-kept w.sha256 rs r (clear_connector_error c.id s) h,
    enqueue_all-has_row w.sha256 rs (clear_connector_error c.id s),
  )

  look-Queues : (l : Look) → Queues (act w c path l s) (records_of_look c l)
  unfolding on_change
  look-Queues unchanged = (λ r h. h, tt)
  look-Queues (grown text byte_offset size) = parse-Queues byte_offset size (c.parse text)

  read-Queues :
      (o : Option FileState)
      → Queues (capture_read w c path o s) (records_of_read c o (get_cursor c.id path s))
  unfolding report record_connector_error
  read-Queues none = (λ r h. h, tt)
  read-Queues (some f) = look-Queues (look c f (get_cursor c.id path s))

  pub capture_file-Queues :
      Queues (capture_file w c path s) (records_of w c path (get_cursor c.id path s))
  unfolding capture_file records_of
  capture_file-Queues = read-Queues (w.file path)

pub capture_all-kept :
    (w : World) (files : List (Connector × String)) (s : Store) (r : Parsed)
    → has_row s r ≡ true
    → has_row (capture_all w files s) r ≡ true
unfolding capture_all
capture_all-kept w [] s r h = h
capture_all-kept w ((c, path) ∷ files) s r h =
    capture_all-kept w files (caught w c s (capture_file w c path s)) r
      ((capture_file-Queues w c path s).0 r h)
