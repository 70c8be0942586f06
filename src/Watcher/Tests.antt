-- ===== src/Watcher/Tests.antt =====
-- A tick over three files: one grows by a line and a half, one cannot be parsed, one cannot be read.
use ai.Common.{
  ℕ, ◌≡◌, refl, str_eq, ◌&&◌, ◌||◌, Option, none, some, List, [], ◌∷◌, if◌then◌else◌, All, length,
  take, ltb, map,
}
use ai.Queue.{fresh, raw}
use ai.Watcher.{
  Parsed, Connector, FileState, World, Globbed, tail, snapshot, read_grown_prefix, discover,
  tick_once,
}
use ai.Watcher.Tail.{complete, read_grown_prefix_lem}
use ai.Watcher.Isolation.{Captured}
use ai.Watcher.Tick.{tick_once-Captured}

abbrev one_record : List ℕ → Option (List Parsed)
one_record text = some (record { kind = raw; dedup_key = "r"; payload = "{}" } ∷ [])

abbrev no_record : List ℕ → Option (List Parsed)
no_record text = none

abbrev claude : Connector
claude = record { id = "claude-code"; capture_mode = none; parse = one_record }

abbrev gemini : Connector
gemini = record { id = "gemini-cli"; capture_mode = some snapshot; parse = no_record }

abbrev bytes : List ℕ
bytes = 97 ∷ 10 ∷ 98 ∷ []

abbrev world : World
world = record {
  sha256 = λ s. s;
  file = λ path.
      if str_eq path "gone"
      then none
      else some (record { bytes = 97 ∷ 10 ∷ 98 ∷ []; mtime_us = 5000 });
  error_message = 33 ∷ [];
  now = 7;
}

abbrev globs : Connector → Globbed
globs c = record { matches = "log" ∷ "gone" ∷ "log" ∷ []; throws = str_eq c.id "gemini-cli" }

discover-run :
    map (λ f. f.1) (discover world globs (claude ∷ gemini ∷ []) [] fresh).0
    ≡ "log" ∷ "gone" ∷ "log" ∷ "gone" ∷ []
unfolding discover ai.Watcher.found_in
discover-run = refl

tick_once-Captured_example :
    All
      (Captured world fresh (tick_once world globs (claude ∷ gemini ∷ []) fresh))
      (discover world globs (claude ∷ gemini ∷ []) [] fresh).0
tick_once-Captured_example = tick_once-Captured world globs (claude ∷ gemini ∷ []) fresh

read_grown_prefix_lem_example :
    let r = read_grown_prefix bytes 0 in
    (r.reset ≡ ltb (length bytes) 0)
    × (r.grew ≡ (ltb 0 (complete bytes) && (r.reset || ltb 0 (complete bytes))))
    × (r.text ≡ (if r.grew then take (complete bytes) bytes else []))
    × (r.new_offset ≡ (if r.grew then complete bytes else if r.reset then 0 else 0))
read_grown_prefix_lem_example = read_grown_prefix_lem bytes 0
