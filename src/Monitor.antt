-- ===== src/Monitor.antt =====
-- state/monitor_state.py: how far each transcript and the events file have been read. The file is
-- missing, holds no JSON, or holds an object; `saved` is what `atomic_write_json` was given last, and
-- `can_write` says whether it succeeds.
pub mod Laws
mod Tests
use unified_icc.Base.{
  ℕ, String, Bool, true, false, Option, none, some, List, [], ◌∷◌, if◌then◌else◌, ◌>>=◌,
}
use unified_icc.Base.Dict.{Dict, get, put, pop, has}
use unified_icc.Base.Json.{Json, num, str, obj, entries, object, read_text, read_num}

pub record TrackedSession : Type 0 where
  pub session_id : String
  pub file_path : String
  pub last_byte_offset : ℕ

unfoldable pub session_to_dict : TrackedSession → Dict Json
session_to_dict x =
    ("session_id", str x.session_id)
    ∷ ("file_path", str x.file_path)
    ∷ ("last_byte_offset", num x.last_byte_offset)
    ∷ []

unfoldable pub session_from_dict : Dict Json → Option TrackedSession
unfolding read_text read_num
session_from_dict d = do
  session_id ← read_text "session_id" "" d
  file_path ← read_text "file_path" "" d
  last_byte_offset ← read_num "last_byte_offset" 0 d
  some (record {
    session_id = session_id;
    file_path = file_path;
    last_byte_offset = last_byte_offset;
  })

pub data StateFile : Type 0 where
  missing : StateFile
  broken : StateFile
  holds : Dict Json → StateFile

pub record MonitorState : Type 0 where
  pub state_file : StateFile
  pub can_write : Bool
  pub tracked_sessions : Dict TrackedSession
  pub events_offset : ℕ
  pub dirty : Bool

unfoldable pub sessions_to_dict : Dict TrackedSession → Dict Json
sessions_to_dict [] = []
sessions_to_dict ((k, v) ∷ d) = (k, object (session_to_dict v)) ∷ sessions_to_dict d

unfoldable pub sessions_from_dict : Dict Json → Option (Dict TrackedSession)
sessions_from_dict [] = some []
sessions_from_dict ((k, obj fs) ∷ d) = do
  rest ← sessions_from_dict d
  x ← session_from_dict (entries fs)
  some ((k, x) ∷ rest)
sessions_from_dict (_ ∷ d) = none

-- `data.get("tracked_sessions", {}).items()`
unfoldable pub session_items : Option Json → Option (Dict Json)
session_items none = some []
session_items (some (obj fs)) = some (entries fs)
session_items (some _) = none

-- `none` stands for an exception, and for a value of a type that the program does not expect.
unfoldable pub load_from : StateFile → MonitorState → Option MonitorState
unfolding session_items
load_from missing s = some s
load_from broken s = some (record s { tracked_sessions = [] })
load_from (holds d) s = do
  raw ← session_items (get "tracked_sessions" d)
  sessions ← sessions_from_dict raw
  offset ← read_num "events_offset" 0 d
  some (record s { tracked_sessions = sessions; events_offset = offset })

unfoldable pub load : MonitorState → Option MonitorState
load s = load_from s.state_file s

unfoldable pub state_data : MonitorState → Dict Json
state_data s =
    ("tracked_sessions", object (sessions_to_dict s.tracked_sessions))
    ∷ ("events_offset", num s.events_offset)
    ∷ []

-- A write that fails leaves the file and the flag.
unfoldable pub save : MonitorState → MonitorState
save s = if s.can_write then record s { state_file = holds (state_data s); dirty = false } else s

unfoldable pub get_session : String → MonitorState → Option TrackedSession
get_session session_id s = get session_id s.tracked_sessions

unfoldable pub update_session : TrackedSession → MonitorState → MonitorState
update_session x s = record s {
  tracked_sessions = put x.session_id x s.tracked_sessions;
  dirty = true;
}

unfoldable pub remove_session : String → MonitorState → MonitorState
remove_session session_id s =
    if has session_id s.tracked_sessions
    then record s { tracked_sessions = pop session_id s.tracked_sessions; dirty = true }
    else s

unfoldable pub save_if_dirty : MonitorState → MonitorState
save_if_dirty s = if s.dirty then save s else s
