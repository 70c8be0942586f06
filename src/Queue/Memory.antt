-- ===== src/Queue/Memory.antt =====
-- The tables of apps/collector/src/queue/queue-store.ts that outlive an `ack`: the byte cursors of
-- captured files, the content hashes of polled units, and the latest error of each connector.
use ai.Common.{
  ℕ, ◌+◌, String, Bool, true, not, Option, none, some, List, [], ◌∷◌, ◌++◌, ltb, str_eq,
  if◌then◌else◌, length, take, lookup, insert, erase, string_Eq, pair_Eq,
}
use ai.Queue.{Store, FileCursor, PollRow, ConnectorErrorRecord}

abbrev pub connector_error_max_length : ℕ
connector_error_max_length = 500

unfoldable pub get_cursor : String → String → Store → Option FileCursor
get_cursor connector path s = lookup (connector, path) s.file_cursors

unfoldable pub save_cursor : ℕ → String → String → ℕ → ℕ → Store → Store
save_cursor now connector path byte_offset size s = record s {
  file_cursors =
      insert (connector, path) (record { byte_offset = byte_offset; size = size; updated_at = now })
        s.file_cursors;
}

abbrev pub hash_differs : Option PollRow → String → Bool
hash_differs none hash = true
hash_differs (some prev) hash = not (str_eq prev.content_hash hash)

unfoldable pub poll_changed : (String → String) → String → String → String → Store → Bool
poll_changed sha256 connector key content s =
    hash_differs (lookup (connector, key) s.poll_state) (sha256 content)

unfoldable pub poll_commit : (String → String) → ℕ → String → String → String → Store → Store
poll_commit sha256 now connector key content s = record s {
  poll_state =
      insert (connector, key) (record { content_hash = sha256 content; updated_at = now })
        s.poll_state;
}

-- A message over the bound is cut, and its last code unit is the ellipsis U+2026.
unfoldable pub bound_message : List ℕ → List ℕ
bound_message message =
    if ltb connector_error_max_length (length message)
    then take 499 message ++ 0x2026 ∷ []
    else message

abbrev pub next_count : Option ConnectorErrorRecord → ℕ
next_count none = 1
next_count (some prev) = prev.errors + 1

-- `at` is the caller's instant, or the store's clock where it gives none.
unfoldable pub record_connector_error : String → List ℕ → ℕ → Store → Store
unfolding bound_message
record_connector_error connector message at s = record s {
  connector_errors =
      insert connector
        (record {
          message = bound_message message;
          at = at;
          errors = next_count (lookup connector s.connector_errors);
        })
        s.connector_errors;
}

unfoldable pub clear_connector_error : String → Store → Store
clear_connector_error connector s = record s {
  connector_errors = erase connector s.connector_errors;
}
