-- ===== src/Watcher.antt =====
-- apps/collector/src/watcher: the tailer, the snapshot reader, and one tick of the file watcher over the
-- store of the queue, with the `onChange` and `onError` that capture-engine.ts hands it. A file is its
-- bytes; the text handed to a parser is the bytes that it decodes. The size of a file and its contents
-- are read at one instant. What a parser makes of a text is a field of the connector: none is a throw.
pub mod Tail
pub mod Capture
pub mod Queued
pub mod Isolation
pub mod Tick
pub mod Tests
use ai.Common.{
  ℕ, suc, ◌+◌, ◌/◌, String, Bool, true, false, ◌&&◌, ◌||◌, not, Option, none, some, List, [], ◌∷◌,
  ◌++◌, map, ltb, leb, ◌==◌, str_eq, if◌then◌else◌, length, take, any, value_or,
}
use Prim.Native.String.{◌++◌ as str_append}
use ai.Queue.{QueueKind, raw, event, Store, FileCursor, enqueue}
use ai.Queue.Memory.{get_cursor, save_cursor, record_connector_error, clear_connector_error}

pub data CaptureMode : Type 0 where
  tail snapshot poll push : CaptureMode

-- A record or an event that a parser yields: its kind, its dedup key, and its payload as JSON.
pub record Parsed : Type 0 where
  pub kind : QueueKind
  pub dedup_key : String
  pub payload : String

-- The raw records before the events.
pub record Connector : Type 0 where
  pub id : String
  pub capture_mode : Option CaptureMode
  pub parse : List ℕ → Option (List Parsed)

pub record TailResult : Type 0 where
  pub text : List ℕ
  pub new_offset : ℕ
  pub grew : Bool
  pub reset : Bool

pub record FileState : Type 0 where
  pub bytes : List ℕ
  pub mtime_us : ℕ

pub record SnapshotPrev : Type 0 where
  pub size_bytes : ℕ
  pub mtime_ms : ℕ

pub record SnapshotResult : Type 0 where
  pub text : List ℕ
  pub size_bytes : ℕ
  pub mtime_ms : ℕ
  pub changed : Bool

-- `Buffer.lastIndexOf`: none is -1.
unfoldable pub last_index_of : ℕ → List ℕ → Option ℕ
last_index_of b [] = none
last_index_of b (x ∷ xs) = elim (last_index_of b xs) [
  | some i ↦ some (suc i)
  | none ↦ if x == b then some 0 else none
]

abbrev pub nothing_new : ℕ → Bool → TailResult
nothing_new offset reset = record { text = []; new_offset = offset; grew = false; reset = reset }

abbrev pub past_newline : List ℕ → ℕ → Bool → Option ℕ → TailResult
past_newline bytes from_offset reset none = nothing_new (if reset then 0 else from_offset) reset
past_newline bytes from_offset reset (some last_nl) =
    if not reset && leb (last_nl + 1) from_offset then nothing_new from_offset reset else record {
      text = take (last_nl + 1) bytes;
      new_offset = last_nl + 1;
      grew = true;
      reset = reset;
    }

unfoldable pub read_grown_prefix : List ℕ → ℕ → TailResult
read_grown_prefix bytes from_offset =
    let reset = ltb (length bytes) from_offset in
    if not reset && (length bytes == from_offset)
    then nothing_new from_offset reset
    else past_newline bytes from_offset reset (last_index_of 0x0a bytes)

abbrev pub is_unchanged : FileState → Option SnapshotPrev → Bool
is_unchanged f none = false
is_unchanged f (some prev) =
    (prev.size_bytes == length f.bytes) && (prev.mtime_ms == f.mtime_us / 1000)

-- `Math.floor` of a modification time with its microseconds.
unfoldable pub read_snapshot : FileState → Option SnapshotPrev → SnapshotResult
read_snapshot f prev = record {
  text = if is_unchanged f prev then [] else f.bytes;
  size_bytes = length f.bytes;
  mtime_ms = f.mtime_us / 1000;
  changed = not (is_unchanged f prev);
}

-- What surrounds one tick: the digest, the files by path (none cannot be read), and the message and
-- the instant that an error is recorded with.
pub record World : Type 0 where
  pub sha256 : String → String
  pub file : String → Option FileState
  pub error_message : List ℕ
  pub now : ℕ

unfoldable pub enqueue_all : (String → String) → List Parsed → Store → Store
enqueue_all sha256 [] s = s
enqueue_all sha256 (r ∷ rs) s =
    enqueue_all sha256 rs (enqueue sha256 r.kind r.dedup_key r.payload s).0

abbrev pub accept : World → Connector → Option (List Parsed) → Store → Option Store
accept w c none s = none
accept w c (some parsed) s = some (enqueue_all w.sha256 parsed (clear_connector_error c.id s))

-- `onChange` of capture-engine.ts: none is a throw, before the store is touched.
unfoldable pub on_change : World → Connector → List ℕ → Store → Option Store
on_change w c text s = accept w c (c.parse text) s

-- `recordConnectorError` of capture-engine.ts, behind `report`.
unfoldable pub report : World → Connector → Store → Store
report w c s = record_connector_error c.id w.error_message w.now s

abbrev pub is_snapshot : Connector → Bool
is_snapshot c = elim (value_or c.capture_mode tail) [
  | snapshot ↦ true
  | tail ↦ false
  | poll ↦ false
  | push ↦ false
]

abbrev pub prev_of : Option FileCursor → Option SnapshotPrev
prev_of none = none
prev_of (some cursor) = some (record { size_bytes = cursor.byte_offset; mtime_ms = cursor.size })

abbrev pub offset_of : Option FileCursor → ℕ
offset_of none = 0
offset_of (some cursor) = cursor.byte_offset

-- What a look at a file asks for: a text to hand on and the cursor to commit after, or nothing.
pub data Look : Type 0 where
  unchanged : Look
  grown : (text : List ℕ) (byte_offset size : ℕ) → Look

unfoldable pub look : Connector → FileState → Option FileCursor → Look
look c f cursor =
    if is_snapshot c
    then (let snap = read_snapshot f (prev_of cursor) in
        if not snap.changed then unchanged else grown snap.text snap.size_bytes snap.mtime_ms)
    else (let result = read_grown_prefix f.bytes (offset_of cursor) in
        if not result.grew
        then unchanged
        else grown result.text result.new_offset result.new_offset)

abbrev pub commit :
    World → Connector → String → (byte_offset size : ℕ) → Option Store → Option Store
commit w c path byte_offset size none = none
commit w c path byte_offset size (some u) = some (save_cursor w.now c.id path byte_offset size u)

-- The cursor is written only after `onChange` returned.
abbrev pub act : World → Connector → String → Look → Store → Option Store
act w c path unchanged s = some s
act w c path (grown text byte_offset size) s =
    commit w c path byte_offset size (on_change w c text s)

abbrev pub capture_read : World → Connector → String → Option FileState → Store → Option Store
capture_read w c path none s = none
capture_read w c path (some f) s = act w c path (look c f (get_cursor c.id path s)) s

-- `captureFile`: none is a throw.
unfoldable pub capture_file : World → Connector → String → Store → Option Store
capture_file w c path s = capture_read w c path (w.file path) s

abbrev pub caught : World → Connector → Store → Option Store → Store
caught w c s none = report w c s
caught w c s (some u) = u

-- The loop of `tickOnce` over the discovered files.
unfoldable pub capture_all : World → List (Connector × String) → Store → Store
capture_all w [] s = s
capture_all w ((c, path) ∷ files) s = capture_all w files (caught w c s (capture_file w c path s))

-- What globbing the patterns of a connector yields, in order, and whether it then throws.
pub record Globbed : Type 0 where
  pub matches : List String
  pub throws : Bool

abbrev pub seen_key : String → String → String
seen_key id path = str_append id (str_append " " path)

unfoldable pub found_in :
    Connector → List String → List String → List (Connector × String) × List String
found_in c [] seen = ([], seen)
found_in c (path ∷ paths) seen =
    let rest = found_in c paths seen in
    let more = found_in c paths (seen_key c.id path ∷ seen) in
    if any (str_eq (seen_key c.id path)) seen then rest else ((c, path) ∷ more.0, more.1)

unfoldable pub discover :
    World
    → (Connector → Globbed)
    → List Connector
    → List String
    → Store
    → List (Connector × String) × Store
discover w globs [] seen s = ([], s)
discover w globs (c ∷ cs) seen s =
    let own = found_in c (globs c).matches seen in
    let others = discover w globs cs own.1 (if (globs c).throws then report w c s else s) in
    (own.0 ++ others.0, others.1)

unfoldable pub tick_once : World → (Connector → Globbed) → List Connector → Store → Store
tick_once w globs connectors s =
    let found = discover w globs connectors [] s in capture_all w found.0 found.1
