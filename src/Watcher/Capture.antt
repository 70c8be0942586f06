-- ===== src/Watcher/Capture.antt =====
-- `captureFile` of apps/collector/src/watcher/file-watcher.ts, and the cursors before and after.
use ai.Common.{
  ℕ, ◌≡◌, refl, sym, ap, ◌∙◌, String, string_Eq, pair_Eq, ◌&&◌, Option, none, some, List, [], ◌∷◌,
  str_eq, eq_iff, &&-split, if◌then◌else◌, lookup, Bool-cases, Option-cases, inl, inr,
}
use ai.Queue.{QueueKind, Store, FileCursor, find_row, upsert, enqueue}
use ai.Queue.Memory.{get_cursor, record_connector_error, clear_connector_error}
use ai.Queue.Poll.{get_cursor-save_cursor}
use ai.Watcher.{
  Parsed, Connector, FileState, World, enqueue_all, on_change, report, Look, unchanged, grown,
  accept, look, commit, act, capture_read, capture_file, caught,
}

abbrev pub cursor_of_parse :
    World → (byte_offset size : ℕ) → Option (List Parsed) → Option FileCursor → Option FileCursor
cursor_of_parse w byte_offset size none cursor = cursor
cursor_of_parse w byte_offset size (some parsed) cursor =
    some (record { byte_offset = byte_offset; size = size; updated_at = w.now })

abbrev pub cursor_of_look : World → Connector → Look → Option FileCursor → Option FileCursor
cursor_of_look w c unchanged cursor = cursor
cursor_of_look w c (grown text byte_offset size) cursor =
    cursor_of_parse w byte_offset size (c.parse text) cursor

abbrev pub cursor_of_read :
    World → Connector → Option FileState → Option FileCursor → Option FileCursor
cursor_of_read w c none cursor = cursor
cursor_of_read w c (some f) cursor = cursor_of_look w c (look c f cursor) cursor

-- The cursor of a file after a look at it, from that cursor and that file alone.
unfoldable pub cursor_after : World → Connector → String → Option FileCursor → Option FileCursor
cursor_after w c path cursor = cursor_of_read w c (w.file path) cursor

enqueue-file_cursors :
    (sha256 : String → String) (kind : QueueKind) (key json : String) (s : Store)
    → (enqueue sha256 kind key json s).0.file_cursors ≡ s.file_cursors
unfolding enqueue
enqueue-file_cursors sha256 kind key json s = elim (Option-cases (find_row kind key s.items)) [
  | inl e ↦ rw (upsert, e) refl
  | inr e ↦ rw (upsert, e.1) refl
]

enqueue_all-file_cursors :
    (sha256 : String → String) (rs : List Parsed) (s : Store)
    → (enqueue_all sha256 rs s).file_cursors ≡ s.file_cursors
unfolding enqueue_all
enqueue_all-file_cursors sha256 [] s = refl
enqueue_all-file_cursors sha256 (r ∷ rs) s =
    enqueue_all-file_cursors sha256 rs (enqueue sha256 r.kind r.dedup_key r.payload s).0
    ∙ enqueue-file_cursors sha256 r.kind r.dedup_key r.payload s

pub caught-file_cursors :
    (w : World) (c : Connector) (s : Store) → (report w c s).file_cursors ≡ s.file_cursors
unfolding report record_connector_error
caught-file_cursors w c s = refl

same_cursor :
    (c d path other : String) (s : Store)
    → (if str_eq c d && str_eq path other then get_cursor c path s else get_cursor d other s)
      ≡ get_cursor d other s
same_cursor c d path other s = elim (Bool-cases (str_eq c d && str_eq path other)) [
  | inl e ↦ rw e (
      let parts = &&-split _ _ e in
      ap (λ x. get_cursor x path s) ((eq_iff c d).0 parts.0)
      ∙ ap (λ x. get_cursor d x s) ((eq_iff path other).0 parts.1))
  | inr e ↦ rw e refl
]

pub kept_cursor :
    (d other : String) (s u : Store)
    → u.file_cursors ≡ s.file_cursors
    → get_cursor d other u ≡ get_cursor d other s
unfolding get_cursor
kept_cursor d other s u h = ap (lookup (d, other)) h

module _ (w : World) (c d : Connector) (path other : String) (s : Store) where
  abbrev Captured : Option Store → Option FileCursor → Type 0
  Captured out cursor =
      get_cursor d.id other (caught w c s out)
      ≡ (if str_eq c.id d.id && str_eq path other then cursor else get_cursor d.id other s)

  thrown : Captured none (get_cursor c.id path s)
  thrown =
      kept_cursor d.id other s (report w c s) (caught-file_cursors w c s)
      ∙ sym (same_cursor c.id d.id path other s)

  parse-Captured :
      (byte_offset size : ℕ) (o : Option (List Parsed))
      → Captured
          (commit w c path byte_offset size (accept w c o s))
          (cursor_of_parse w byte_offset size o (get_cursor c.id path s))
  unfolding clear_connector_error
  parse-Captured byte_offset size none = thrown
  parse-Captured byte_offset size (some parsed) =
      get_cursor-save_cursor w.now c.id d.id path other byte_offset size _
      ∙ ap
          (λ x.
            if str_eq c.id d.id && str_eq path other
            then some (record { byte_offset = byte_offset; size = size; updated_at = w.now })
            else x)
          (kept_cursor d.id other s _
            (enqueue_all-file_cursors w.sha256 parsed (clear_connector_error c.id s)))

  look-Captured :
      (l : Look) → Captured (act w c path l s) (cursor_of_look w c l (get_cursor c.id path s))
  unfolding on_change
  look-Captured unchanged = sym (same_cursor c.id d.id path other s)
  look-Captured (grown text byte_offset size) = parse-Captured byte_offset size (c.parse text)

  read-Captured :
      (o : Option FileState)
      → Captured (capture_read w c path o s) (cursor_of_read w c o (get_cursor c.id path s))
  read-Captured none = thrown
  read-Captured (some f) = look-Captured (look c f (get_cursor c.id path s))

-- The cursor of any file after the capture of one.
pub get_cursor-capture :
    (w : World) (c d : Connector) (path other : String) (s : Store)
    → get_cursor d.id other (caught w c s (capture_file w c path s)) ≡ (
        if str_eq c.id d.id && str_eq path other
        then cursor_after w c path (get_cursor c.id path s)
        else get_cursor d.id other s)
unfolding capture_file cursor_after
get_cursor-capture w c d path other s = read-Captured w c d path other s (w.file path)
