-- ===== src/Transcripts.antt =====
-- protocol/transcript_reader.py: reading the new lines of a transcript that grows. `loads` is
-- `json.loads` of a text that is a JSON object, `none` for a JSONDecodeError. Offsets are bytes, and
-- lines end with the newline alone.
pub mod Laws
pub mod Losses
pub mod Reader
mod Tests
use Prim.Native.Char.{Char, code, len_utf8}
use Prim.Native.String as Native
use Prim.Native.String.{len, slice}
use unified_icc.Base.{
  ℕ, ◌+◌, String, Bool, true, false, not, ◌&&◌, Option, none, some, List, [], ◌∷◌, ◌++◌,
  if◌then◌else◌, ltb, eqb, truthy, or_default, is_empty,
}
use unified_icc.Base.Dict.{Dict}
use unified_icc.Base.Json.{Json}
use unified_icc.Base.Text.{strip}
use unified_icc.Events.{EventFile, missing, unreadable, holds}
use unified_icc.Events.Lines.{lines}

-- `await f.readline()`
abbrev pub first_line : List String → String
first_line [] = ""
first_line (line ∷ _) = line

-- How far a reader moves on that does not stand at the beginning of an object: past one character and
-- to the end of the line that is read after it.
unfoldable pub skipped : String → ℕ
skipped Native.String.[] = 0
skipped (Native.String.◌∷◌ c s) =
    if eqb (code c) 123 then 0 else len_utf8 c + len (first_line (lines s))

-- Where the reading starts.
unfoldable pub start_offset : String → ℕ → ℕ
start_offset text last =
    let offset = if ltb (len text) last then 0 else last in
    if eqb offset 0 then 0 else offset + skipped (slice text offset (len text))

-- One turn of the loop: what the line has, whether it is not blank, and what the rest gives.
abbrev pub next_entries :
    Option (Dict Json) → Bool → ℕ → List (Dict Json) × ℕ → List (Dict Json) × ℕ
next_entries (some d) full safe_offset rest = (d ∷ rest.0, rest.1)
next_entries none true safe_offset rest = ([], safe_offset)
next_entries none false safe_offset rest = rest

module _ (loads : String → Option (Dict Json)) where
  -- `parse_line` of a provider; an empty object counts as none.
  unfoldable pub parse_line : String → Option (Dict Json)
  parse_line line =
      let stripped = strip line in
      if truthy stripped
      then (elim (loads stripped) [ none ↦ none | some d ↦ if is_empty d then none else some d ])
      else none

  -- The loop over the lines: a line that is not empty and has no object ends it.
  unfoldable pub read_entries : List String → ℕ → List (Dict Json) × ℕ
  read_entries [] safe_offset = ([], safe_offset)
  read_entries (line ∷ rest) safe_offset =
      next_entries (parse_line line) (truthy (strip line)) safe_offset
        (read_entries rest (safe_offset + len line))

  -- `_read_new_lines`, for a provider that reads incrementally: the entries, and the new
  -- `last_byte_offset` of the session.
  unfoldable pub read_new_lines : EventFile → ℕ → List (Dict Json) × ℕ
  read_new_lines (holds text) last =
      let offset = start_offset text last in
      read_entries (lines (slice text offset (len text))) offset
  read_new_lines _ last = ([], last)
