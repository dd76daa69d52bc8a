-- ===== src/Events.antt =====
-- events/event_reader.py: reading the new events of the log of the hook. `loads` is `json.loads` of a
-- line that is a JSON object, `none` for a JSONDecodeError. Offsets are bytes. Lines end with the
-- newline alone.
pub mod Lines
pub mod Laws
mod Tests
use Prim.Native.String.{len, slice}
use unified_icc.Base.{
  ℕ, ◌+◌, String, Bool, Option, none, some, List, [], ◌∷◌, ◌++◌, if◌then◌else◌, ltb, truthy,
  or_default,
}
use unified_icc.Base.Dict.{Dict, get}
use unified_icc.Base.Json.{Json, Fields, end, num, str, obj}
use unified_icc.Base.Text.{strip}
use unified_icc.Events.Lines.{lines}

pub record HookEvent : Type 0 where
  pub event_type : Json
  pub window_key : Json
  pub session_id : Json
  pub payload : Json
  pub timestamp : Json

unfoldable pub event_of : Dict Json → HookEvent
event_of d = record {
  event_type = or_default (get "event" d) (str "");
  window_key = or_default (get "window_key" d) (str "");
  session_id = or_default (get "session_id" d) (str "");
  payload = or_default (get "data" d) (obj end);
  timestamp = or_default (get "ts" d) (num 0);
}

-- The file does not exist, cannot be read, or has a text.
pub data EventFile : Type 0 where
  missing unreadable : EventFile
  holds : String → EventFile

module _ (loads : String → Option (Dict Json)) where
  -- The event of a line; an empty line and a malformed one have none.
  unfoldable pub event_in : String → List HookEvent
  event_in line =
      let stripped = strip line in
      if truthy stripped
      then (elim (loads stripped) [ none ↦ [] | some d ↦ event_of d ∷ [] ])
      else []

  -- The loop over the lines, from the offset where they begin.
  unfoldable pub read_lines : List String → ℕ → List HookEvent × ℕ
  read_lines [] offset = ([], offset)
  read_lines (line ∷ rest) offset =
      let (events, new_offset) = read_lines rest (offset + len line) in
      (event_in line ++ events, new_offset)

  -- A file that is shorter than the offset was written anew, and is read from its beginning.
  unfoldable pub read_new_events : EventFile → ℕ → List HookEvent × ℕ
  read_new_events (holds text) current_offset =
      let offset = if ltb (len text) current_offset then 0 else current_offset in
      read_lines (lines (slice text offset (len text))) offset
  read_new_events _ current_offset = ([], current_offset)
